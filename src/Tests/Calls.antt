-- ===== src/Tests/Calls.antt =====
-- Two heartbeats on one connection: one is answered, one cannot be written.
use architect_networking.Base.{◌≡◌, refl, String, true, none, some, Option, [], pos, arith}
use architect_networking.Message.{FailoverHeartbeatResponse}
use architect_networking.Calls.{
  Packet, Calls, returned, initial, begin, advance, register, written, dispatch, send, receive,
  finish, Reach, here, next, begin_call, register_call, write_call, dispatch_packet, send_packet,
  receive_response, finish_call,
}
use architect_networking.Calls.Laws.Refinement.{seen, Run, Reach-Run}
use architect_networking.Calls.Laws.Answers.{returned-id, failed_write-kept, answer_arrives}

abbrev error_of : FailoverHeartbeatResponse → Option String
error_of res = res.error

abbrev accepted : FailoverHeartbeatResponse
accepted = record { error = none; flags = 0; request_id = "h"; success = true; timestamp = pos 1 }

abbrev answer : Packet FailoverHeartbeatResponse
answer = record { id = 1; content = accepted }

abbrev begun : Calls FailoverHeartbeatResponse
begun = begin FailoverHeartbeatResponse (initial FailoverHeartbeatResponse)

Reach-begun : Reach error_of (initial FailoverHeartbeatResponse) begun
Reach-begun = next here begin_call

abbrev writing_calls : Calls FailoverHeartbeatResponse
writing_calls = register FailoverHeartbeatResponse 0 begun

abbrev waiting_calls : Calls FailoverHeartbeatResponse
waiting_calls = written FailoverHeartbeatResponse 0 none writing_calls

begun-writing : Reach error_of begun writing_calls
unfolding begin initial
begun-writing = next here (register_call 0 (omega arith) refl)

begun-waiting : Reach error_of begun waiting_calls
unfolding begin initial register
begun-waiting = next begun-writing (write_call 0 none refl)

Reach-writing : Reach error_of (initial FailoverHeartbeatResponse) writing_calls
unfolding begin initial
Reach-writing = next Reach-begun (register_call 0 (omega arith) refl)

Reach-waiting : Reach error_of (initial FailoverHeartbeatResponse) waiting_calls
unfolding begin initial register
Reach-waiting = next Reach-writing (write_call 0 none refl)

abbrev sending_calls : Calls FailoverHeartbeatResponse
sending_calls = dispatch FailoverHeartbeatResponse answer waiting_calls

abbrev answered_calls : Calls FailoverHeartbeatResponse
answered_calls =
    receive FailoverHeartbeatResponse error_of 0 answer
      (send FailoverHeartbeatResponse 0 answer [] sending_calls)

abbrev returned_calls : Calls FailoverHeartbeatResponse
returned_calls = finish FailoverHeartbeatResponse 0 (some answer) none answered_calls

Reach-returned : Reach error_of (initial FailoverHeartbeatResponse) returned_calls
unfolding begin initial register written advance dispatch send receive
Reach-returned =
    next
      (next
        (next (next Reach-waiting (dispatch_packet answer)) (send_packet [] [] 0 answer refl refl))
        (receive_response 0 answer refl refl))
      (finish_call 0 (some answer) none refl)

Reach-Run_example : Run error_of 0 (seen error_of 0 begun) (seen error_of 0 waiting_calls)
unfolding begin initial register written advance
Reach-Run_example = Reach-Run error_of 0 Reach-begun (omega arith) begun-waiting (omega arith)

returned-id_example : (answer.id ≡ (returned_calls.call 0).id) × (none ≡ error_of answer.content)
unfolding begin initial register written advance dispatch send receive finish
returned-id_example = returned-id error_of {s = returned_calls} 0 answer none Reach-returned refl

abbrev two_calls : Calls FailoverHeartbeatResponse
two_calls = begin FailoverHeartbeatResponse returned_calls

abbrev failed_calls : Calls FailoverHeartbeatResponse
failed_calls = written FailoverHeartbeatResponse 0 (some "broken pipe") writing_calls

abbrev later_calls : Calls FailoverHeartbeatResponse
later_calls = begin FailoverHeartbeatResponse failed_calls

failed_write-kept_example :
    ((later_calls.call 0).progress ≡ returned none (some "broken pipe"))
    × (later_calls.inflight (later_calls.call 0).id ≡ some 0)
unfolding begin initial register written advance
failed_write-kept_example =
    failed_write-kept error_of {t = later_calls} 0 "broken pipe" Reach-writing refl
      (next here begin_call) (omega arith)

answer_arrives_example :
    (t : Calls FailoverHeartbeatResponse) × Reach error_of waiting_calls t
    × ((t.call 0).progress ≡ returned (some answer) none)
    × (t.inflight 1 ≡ none)
unfolding begin initial register written advance
answer_arrives_example = answer_arrives error_of 0 answer Reach-waiting (omega arith) refl refl refl
