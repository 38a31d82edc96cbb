-- ===== src/Calls.antt =====
-- pkg/failover/failover.frpc.go: how the client's calls `SyncState`, `HealthCheck` and `Heartbeat`
-- wait for their answers. Each method has a table of its own and the same code; `R` is its response
-- and `error_of` the field `error`. A call is a number, in the order in which the calls took their
-- ids, and stands for its channel too. A step is what a goroutine does under one lock, or one
-- operation of a channel or of the connection.
pub mod Laws
use architect_networking.Base.{
  ℕ, suc, ◌+◌, ◌%◌, ◌<◌, ◌==◌, String, Option, none, some, List, [], ◌∷◌, ◌++◌, ◌≡◌, if◌then◌else◌,
}
use architect_networking.Message.{
  FailoverSyncStateResponse, FailoverHealthCheckResponse, FailoverHeartbeatResponse,
}

-- The ids are uint16.
abbrev pub id_mod : ℕ
id_mod = 65536

-- A write to a map or to an array.
abbrev pub set_at {ℓ} : {A : Type ℓ} → (ℕ → A) → ℕ → A → ℕ → A
set_at f k a j = if j == k then a else f j

module _ (R : Type 0) where
  -- A packet from the server: `Metadata.Id`, and what the handler decodes from its content.
  pub record Packet : Type 0 where
    pub id : ℕ
    pub content : R

  -- Where a call stands: before its entry in the table, before the write, in its `select`, before
  -- the entry is deleted, and returned. The results are the response, with the packet it came in,
  -- and the error.
  pub data Progress : Type 0 where
    registering : Progress
    writing : Progress
    waiting : Progress
    deleting : Option Packet → Option String → Progress
    returned : Option Packet → Option String → Progress

  -- `slot` is the content of the call's channel, which has one place.
  pub record Call : Type 0 where
    pub id : ℕ
    pub progress : Progress
    pub slot : Option Packet

  -- `sends` are the handlers that have found a channel and not yet sent to it.
  pub record Calls : Type 0 where
    pub next : ℕ
    pub count : ℕ
    pub call : ℕ → Call
    pub inflight : ℕ → Option ℕ
    pub sends : List (ℕ × Packet)

  -- `NewClient`
  unfoldable pub initial : Calls
  initial = record {
    next = 0;
    count = 0;
    call = λ _. record { id = 0; progress = registering; slot = none };
    inflight = λ _. none;
    sends = [];
  }

  -- The next id is taken under its lock.
  unfoldable pub begin : Calls → Calls
  begin s =
      let id = (s.next + 1) % id_mod in
      record s {
        next = id;
        count = suc s.count;
        call = set_at s.call s.count (record { id = id; progress = registering; slot = none });
      }

  unfoldable pub advance : ℕ → Progress → Calls → Calls
  advance k p s = record s { call = set_at s.call k (record (s.call k) { progress = p }) }

  unfoldable pub register : ℕ → Calls → Calls
  register k s = record s {
    call = set_at s.call k (record (s.call k) { progress = writing });
    inflight = set_at s.inflight (s.call k).id (some k);
  }

  -- After `WritePacket`: its error is returned at once.
  abbrev pub after_write : Option String → Progress
  after_write none = waiting
  after_write (some e) = returned none (some e)

  unfoldable pub written : ℕ → Option String → Calls → Calls
  unfolding advance
  written k e s = advance k (after_write e) s

  -- The client's handler up to its send.
  unfoldable pub dispatch : Packet → Calls → Calls
  dispatch p s = elim (s.inflight p.id) [
    | none ↦ s
    | some k ↦ record s { sends = (k, p) ∷ s.sends }
  ]

  -- `ch <- res`
  unfoldable pub send : ℕ → Packet → List (ℕ × Packet) → Calls → Calls
  send k p rest s = record s {
    call = set_at s.call k (record (s.call k) { slot = some p });
    sends = rest;
  }

  -- `case res = <-ch: err = res.error`
  unfoldable pub receive : (R → Option String) → ℕ → Packet → Calls → Calls
  receive error_of k p s = record s {
    call =
        set_at s.call k
          (record (s.call k) { progress = deleting (some p) (error_of p.content); slot = none });
  }

  unfoldable pub finish : ℕ → Option Packet → Option String → Calls → Calls
  finish k res e s = record s {
    call = set_at s.call k (record (s.call k) { progress = returned res e });
    inflight = set_at s.inflight (s.call k).id none;
  }

module _ {R : Type 0} (error_of : R → Option String) where
  pub data Step (s : Calls R) : Calls R → Type 0 where
    begin_call : Step s (begin R s)
    register_call :
        (k : ℕ) → k < s.count → (s.call k).progress ≡ registering → Step s (register R k s)
    write_call :
        (k : ℕ) (e : Option String) → (s.call k).progress ≡ writing → Step s (written R k e s)
    dispatch_packet : (p : Packet R) → Step s (dispatch R p s)
    send_packet :
        (before after : List (ℕ × Packet R)) (k : ℕ) (p : Packet R)
        → s.sends ≡ before ++ ((k, p) ∷ after)
        → (s.call k).slot ≡ none
        → Step s (send R k p (before ++ after) s)
    receive_response :
        (k : ℕ) (p : Packet R)
        → (s.call k).progress ≡ waiting
        → (s.call k).slot ≡ some p
        → Step s (receive R error_of k p s)
    -- `<-c.client.CloseChannel()`, with the client's error, or `<-ctx.Done()`, with the context's.
    give_up :
        (k : ℕ) (e : Option String)
        → (s.call k).progress ≡ waiting
        → Step s (advance R k (deleting none e) s)
    finish_call :
        (k : ℕ) (res : Option (Packet R)) (e : Option String)
        → (s.call k).progress ≡ deleting res e
        → Step s (finish R k res e s)

  pub data Reach (s : Calls R) : Calls R → Type 0 where
    here : Reach s s
    next : {t u : Calls R} → Reach s t → Step t u → Reach s u

-- The three tables.
abbrev pub SyncStateStep :
    Calls FailoverSyncStateResponse → Calls FailoverSyncStateResponse → Type 0
SyncStateStep = Step (λ (res : FailoverSyncStateResponse). res.error)

abbrev pub HealthCheckStep :
    Calls FailoverHealthCheckResponse → Calls FailoverHealthCheckResponse → Type 0
HealthCheckStep = Step (λ (res : FailoverHealthCheckResponse). res.error)

abbrev pub HeartbeatStep :
    Calls FailoverHeartbeatResponse → Calls FailoverHeartbeatResponse → Type 0
HeartbeatStep = Step (λ (res : FailoverHeartbeatResponse). res.error)
