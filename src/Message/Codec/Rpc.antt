-- ===== src/Message/Codec/Rpc.antt =====
-- pkg/failover/failover.frpc.go: the handler of operation 10 in `NewServer`, and the client's
-- `SyncState` with its handler in `NewClient`. The connection (frisbee) is the parameter `carry`:
-- it takes the bytes of a request to those of an answer, or fails because the packet could not be
-- written, the connection closed or the context ended.
use Prim.Native.Nat.{bit_and, bit_or}
use architect_networking.Base.{
  ℕ, ◌==◌, String, Bool, Option, none, some, List, [], ◌++◌, Except, ok, err,
}
use architect_networking.Message.{FailoverSyncStateRequest, FailoverSyncStateResponse}
use architect_networking.Message.Codec.Buffer.{Polyglot}
use architect_networking.Message.Codec.Whole.{
  new_request, new_response, encode_request, decode_request, encode_response, decode_response,
}

module _ (P : Polyglot) where
  -- `res.Encode`, or `res.Error` where the service returned an error.
  unfoldable pub encode_result : Except String FailoverSyncStateResponse → List P.Byte
  encode_result (ok res) = encode_response P (some res) []
  encode_result (err e) = P.enc_error e ++ []

  -- A request that cannot be decoded gets no answer.
  unfoldable pub serve_sync_state :
      (FailoverSyncStateRequest → Except String FailoverSyncStateResponse)
      → List P.Byte
      → Option (List P.Byte)
  serve_sync_state service b =
      let (req, left) = decode_request P new_request b in
      elim left [ none ↦ none | some _ ↦ some (encode_result (service req)) ]

  -- `err = res.error`; what `Decode` returns is dropped.
  unfoldable pub read_result : FailoverSyncStateResponse → Except String FailoverSyncStateResponse
  read_result res = elim res.error [ some e ↦ err e | none ↦ ok res ]

  unfoldable pub call_sync_state :
      (List P.Byte → Except String (List P.Byte))
      → FailoverSyncStateRequest
      → Except String FailoverSyncStateResponse
  unfolding read_result
  call_sync_state carry req = elim (carry (encode_request P (some req) [])) [
    | err e ↦ err e
    | ok b ↦ read_result (decode_response P new_response b).0
  ]

-- `SetErrorFlag` does not read its second argument.
unfoldable pub set_error_flag : ℕ → Bool → ℕ
set_error_flag flags error = bit_or flags 2

unfoldable pub has_error_flag : ℕ → Bool
has_error_flag flags = bit_and flags 2 == 1
