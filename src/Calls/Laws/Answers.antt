-- ===== src/Calls/Laws/Answers.antt =====
-- What a call returns, and what it leaves in the table.
use architect_networking.Base.{
  ℕ, suc, ◌+◌, ◌%◌, ◌<◌, ◌≤◌, String, Option, none, some, [], ◌∷◌, ◌≡◌, ◌≢◌, refl, sym, ap, subst,
  arith, ◌∙◌, inl, inr, Bool-cases, ltb,
}
use architect_networking.Calls.{
  set_at, Packet, Call, Calls, Progress, registering, writing, waiting, deleting, returned, initial,
  advance, written, dispatch, send, receive, finish, Step, Reach, here, next, write_call,
  dispatch_packet, send_packet, receive_response, finish_call,
}
use architect_networking.Calls.Laws.Updates.{set_at_here}
use architect_networking.Calls.Laws.Routed.{Reach-IsRouted, born, ProgressFits}
use architect_networking.Calls.Laws.Refinement.{
  Seen, Move, stays, enters, writes, takes, gives_up, leaves, Run, rests, moves, Reach-Run,
  Step-Move, Step-count, Step-unborn, Reach-count, own_progress, own_entry,
}

module _ {R : Type 0} (error_of : R → Option String) where
  -- A response that a call returned came in a packet with the id of the call, and the error that
  -- it returned is the error of the response.
  pub returned-id :
      {s : Calls R} (k : ℕ) (p : Packet R) (e : Option String)
      → Reach error_of (initial R) s
      → (s.call k).progress ≡ returned (some p) e
      → (p.id ≡ (s.call k).id) × (e ≡ error_of p.content)
  returned-id {s} k p e r q =
      subst (ProgressFits error_of (s.call k).id) q ((Reach-IsRouted error_of r).fits k).1

  -- Two calls with fewer than 65536 calls from the one to the other have different ids.
  pub ids_apart :
      {s : Calls R} (j k : ℕ)
      → Reach error_of (initial R) s
      → j < k
      → k < j + 65536
      → k < s.count
      → (s.call j).id ≢ (s.call k).id
  ids_apart {s} j k r u v w e =
      let h = Reach-IsRouted error_of r in
      let q : suc j % 65536 ≡ suc k % 65536 =
        sym (h.numbered j (omega arith)) ∙ e ∙ h.numbered k w in
      omega arith

  -- Before a call has returned, and after it is registered, it has an entry.
  abbrev Owes : Progress R → Type 0
  Owes registering = ⊥
  Owes writing = Unit
  Owes waiting = Unit
  Owes (deleting res e) = Unit
  Owes (returned res e) = ⊥

  Move-owed :
      (k : ℕ) {v w : Seen error_of k}
      → Move error_of k v w
      → (Owes v.progress → v.entry ≡ some k)
      → Owes w.progress
      → w.entry ≡ some k
  Move-owed k (stays p q) h o = q ∙ h (subst Owes p o)
  Move-owed k (enters p q r) h o = r
  Move-owed k (writes e p q r) h o = r ∙ h (subst Owes (sym p) tt)
  Move-owed k (takes x p q r) h o = r ∙ h (subst Owes (sym p) tt)
  Move-owed k (gives_up e p q r) h o = r ∙ h (subst Owes (sym p) tt)
  Move-owed k (leaves res e p q r) h o = absurd (subst Owes q o)

  -- A call that has returned does nothing more.
  Run-returned :
      (k : ℕ) {v w : Seen error_of k} (res : Option (Packet R)) (e : Option String)
      → Run error_of k v w
      → v.progress ≡ returned res e
      → (w.progress ≡ returned res e) × (w.entry ≡ v.entry)
  Run-returned k res e rests h = (h, refl)
  Run-returned k {v} res e (moves {u} r m) h = go (Run-returned k res e r h) m
    where
      go :
          {w : Seen error_of k}
          → (u.progress ≡ returned res e) × (u.entry ≡ v.entry)
          → Move error_of k u w
          → (w.progress ≡ returned res e) × (w.entry ≡ v.entry)
      go (a, b) (stays p q) = (p ∙ a, q ∙ b)
      go (a, b) (enters p q r) = absurd cc
      go (a, b) (writes x p q r) = absurd cc
      go (a, b) (takes x p q r) = absurd cc
      go (a, b) (gives_up x p q r) = absurd cc
      go (a, b) (leaves y x p q r) = absurd cc

  Reach-owed :
      {s : Calls R} (k : ℕ)
      → Reach error_of (initial R) s
      → s.count ≤ 65536
      → k < s.count
      → Owes (s.call k).progress
      → s.inflight (s.call k).id ≡ some k
  unfolding initial
  Reach-owed k here b u o = absurd (omega arith)
  Reach-owed k (next {t} r st) b u o =
      let h = Reach-IsRouted error_of r in
      let small : t.count ≤ 65536 = omega (arith, Step-count error_of st) in
      elim (Bool-cases (ltb k t.count)) [
        | inl e ↦
            let v : k < t.count = ground arith in
            Move-owed k (Step-Move error_of k st h v small) (Reach-owed k r small v) o
        | inr e ↦ absurd (subst Owes (Step-unborn error_of k st h (ground arith) u) o)
      ]

  -- A call whose packet could not be written returns that error, and its entry stays in the table
  -- in every later state in which no id has been used twice.
  pub failed_write-kept :
      {s t : Calls R} (k : ℕ) (e : String)
      → Reach error_of (initial R) s
      → (s.call k).progress ≡ writing
      → Reach error_of (written R k (some e) s) t
      → t.count ≤ 65536
      → ((t.call k).progress ≡ returned none (some e)) × (t.inflight (t.call k).id ≡ some k)
  unfolding written advance
  failed_write-kept {s} {t} k e r p rest b =
      let h = Reach-IsRouted error_of r in
      let u = born error_of s h k p (λ q. cc) in
      let small : s.count ≤ 65536 = omega (arith, Reach-count error_of rest) in
      let c : Call R = record (s.call k) { progress = returned none (some e) } in
      let kept =
        Run-returned k none (some e)
          (Reach-Run error_of k (next r (write_call k (some e) p)) u rest b)
          (own_progress error_of s k c) in
      (kept.0, kept.1 ∙ own_entry error_of s k c ∙ Reach-owed k r small u (subst Owes (sym p) tt))

  dispatch-entry :
      (s : Calls R) (k : ℕ) (p : Packet R)
      → s.inflight p.id ≡ some k
      → dispatch R p s ≡ record s { sends = (k, p) ∷ s.sends }
  unfolding dispatch
  dispatch-entry s k p e = rw (e, dispatch) refl

  kept_id :
      (s : Calls R) (k : ℕ) (c : Call R)
      → c.id ≡ (s.call k).id
      → (set_at s.call k c k).id ≡ (s.call k).id
  kept_id s k c same = ap (λ (d : Call R). d.id) (set_at_here s.call k c) ∙ same

  -- The answer to a call that waits makes it return.
  pub answer_arrives :
      {s : Calls R} (k : ℕ) (p : Packet R)
      → Reach error_of (initial R) s
      → s.count ≤ 65536
      → (s.call k).progress ≡ waiting
      → (s.call k).slot ≡ none
      → p.id ≡ (s.call k).id
      → (t : Calls R) × Reach error_of s t
        × ((t.call k).progress ≡ returned (some p) (error_of p.content))
        × (t.inflight p.id ≡ none)
  unfolding send receive finish
  answer_arrives {s} k p r b w empty same = (
    finish R k (some p) (error_of p.content) s3,
    next
        (next (next (next here dispatched) (send_packet [] s.sends k p refl empty))
          (receive_response k p (at2 ∙ w) filled))
        (finish_call k (some p) (error_of p.content) at3),
    own_progress error_of s3 k _,
    own_entry3,
  )
    where
      s1 : Calls R
      s1 = record s { sends = (k, p) ∷ s.sends }

      s2 : Calls R
      s2 = send R k p s.sends s1

      s3 : Calls R
      s3 = receive R error_of k p s2

      dispatched : Step error_of s s1
      dispatched =
          let u = born error_of s (Reach-IsRouted error_of r) k w (λ q. cc) in
          let owed = Reach-owed k r b u (subst Owes (sym w) tt) in
          subst (Step error_of s) (dispatch-entry s k p (ap s.inflight same ∙ owed))
            (dispatch_packet p)

      at2 : (s2.call k).progress ≡ (s.call k).progress
      at2 = own_progress error_of s1 k _

      filled : (s2.call k).slot ≡ some p
      filled = ap (λ (d : Call R). d.slot) (set_at_here s1.call k _)

      at3 : (s3.call k).progress ≡ deleting (some p) (error_of p.content)
      at3 = own_progress error_of s2 k _

      own_entry3 : set_at s3.inflight (s3.call k).id none p.id ≡ none
      own_entry3 =
          subst (λ i. set_at s3.inflight (s3.call k).id none i ≡ none)
            (sym (same ∙ sym (kept_id s1 k _ refl) ∙ sym (kept_id s2 k _ refl)))
            (set_at_here s3.inflight (s3.call k).id none)
