-- ===== src/Calls/Laws/Refinement.antt =====
-- One call by itself: its own life, and that the table of all calls implements it.
use architect_networking.Base.{
  ℕ, suc, ◌+◌, ◌%◌, ◌<◌, ◌≤◌, ◌==◌, String, Option, none, some, ◌++◌, ◌≡◌, ◌≢◌, refl, sym, ap,
  subst, arith, ◌∙◌, inl, inr, Option-cases, Bool-cases,
}
use architect_networking.Calls.{
  id_mod, set_at, Packet, Call, Calls, Progress, registering, writing, waiting, deleting, returned,
  initial, begin, advance, register, after_write, written, dispatch, send, receive, finish, Step,
  Reach, here, next, begin_call, register_call, write_call, dispatch_packet, send_packet,
  receive_response, give_up, finish_call,
}
use architect_networking.Calls.Laws.Updates.{set_at_here, set_at_there, set_at_all}
use architect_networking.Calls.Laws.Routed.{IsRouted, Reach-IsRouted, Step-IsRouted, born}

module _ {R : Type 0} (error_of : R → Option String) (k : ℕ) where
  -- What the call `k` sees: where it stands and the entry under its id.
  pub record Seen : Type 0 where
    pub progress : Progress R
    pub entry : Option ℕ

  abbrev pub seen : Calls R → Seen
  seen s = record { progress = (s.call k).progress; entry = s.inflight (s.call k).id }

  -- A call enters the table, writes, takes its answer or gives up, and leaves the table.
  pub data Move (v w : Seen) : Type 0 where
    stays : w.progress ≡ v.progress → w.entry ≡ v.entry → Move v w
    enters : v.progress ≡ registering → w.progress ≡ writing → w.entry ≡ some k → Move v w
    writes :
        (e : Option String)
        → v.progress ≡ writing
        → w.progress ≡ after_write R e
        → w.entry ≡ v.entry
        → Move v w
    takes :
        (p : Packet R)
        → v.progress ≡ waiting
        → w.progress ≡ deleting (some p) (error_of p.content)
        → w.entry ≡ v.entry
        → Move v w
    gives_up :
        (e : Option String)
        → v.progress ≡ waiting
        → w.progress ≡ deleting none e
        → w.entry ≡ v.entry
        → Move v w
    leaves :
        (res : Option (Packet R)) (e : Option String)
        → v.progress ≡ deleting res e
        → w.progress ≡ returned res e
        → w.entry ≡ none
        → Move v w

  pub data Run (v : Seen) : Seen → Type 0 where
    rests : Run v v
    moves : {u w : Seen} → Run v u → Move u w → Run v w

-- Ids repeat after 65536 calls.
pub same_id : (j k : ℕ) → j < 65536 → k < 65536 → suc j % 65536 ≡ suc k % 65536 → j ≡ k
same_id j k u v e = omega arith

module _ {R : Type 0} (error_of : R → Option String) where
  -- What another call does to its call and its entry, `k` does not see.
  module _ (k : ℕ) (s : Calls R) (h : IsRouted error_of s) (u : k < s.count) (b : s.count ≤ 65536)
      (j : ℕ) (n : j ≢ k) (c : Call R) where
    other_call : set_at s.call j c k ≡ s.call k
    other_call = set_at_there s.call j c k (λ e. n (sym e))

    other_entry :
        (o : Option ℕ)
        → j < s.count
        → set_at s.inflight (s.call j).id o (set_at s.call j c k).id ≡ s.inflight (s.call k).id
    other_entry o v = rw other_call (
        set_at_there s.inflight (s.call j).id o (s.call k).id (λ e. n (
          same_id j k (omega arith) (omega arith) (sym (h.numbered j v) ∙ sym e ∙ h.numbered k u))))

    other_moves :
        Move error_of k
          (seen error_of k s)
          (seen error_of k (record s { call = set_at s.call j c }))
    other_moves =
        stays (ap (λ (d : Call R). d.progress) other_call)
          (ap (λ (d : Call R). s.inflight d.id) other_call)

    other_enters :
        (o : Option ℕ)
        → j < s.count
        → Move error_of k (seen error_of k s) (
            seen error_of k
              (record s { call = set_at s.call j c; inflight = set_at s.inflight (s.call j).id o }))
    other_enters o v = stays (ap (λ (d : Call R). d.progress) other_call) (other_entry o v)

  begin_moves :
      (k : ℕ) (s : Calls R)
      → k < s.count
      → Move error_of k (seen error_of k s) (seen error_of k (begin R s))
  unfolding begin
  begin_moves k s u =
      let same =
        set_at_there s.call s.count
          (record { id = (s.next + 1) % id_mod; progress = registering; slot = none }) k
          (λ e. omega arith) in
      stays (ap (λ (d : Call R). d.progress) same) (ap (λ (d : Call R). s.inflight d.id) same)

  dispatch_moves :
      (k : ℕ) (p : Packet R) (s : Calls R)
      → Move error_of k (seen error_of k s) (seen error_of k (dispatch R p s))
  unfolding dispatch
  dispatch_moves k p s = elim (Option-cases (s.inflight p.id)) [
    | inl e ↦ stays (ground arith) (ground arith)
    | inr (j, e) ↦ stays (ground arith) (ground arith)
  ]

  by_actor :
      (k j : ℕ) (s t : Calls R)
      → Move error_of j (seen error_of j s) (seen error_of j t)
      → (j ≢ k → Move error_of k (seen error_of k s) (seen error_of k t))
      → Move error_of k (seen error_of k s) (seen error_of k t)
  by_actor k j s t own other = elim (Bool-cases (j == k)) [
    | inl e ↦
        let j≡k : j ≡ k = ground arith in
        subst (λ i. Move error_of i (seen error_of i s) (seen error_of i t)) j≡k own
    | inr e ↦ other (λ q. ground arith)
  ]

  -- What the actor sees of its own call.
  pub own_progress :
      (s : Calls R) (j : ℕ) (c : Call R) → (set_at s.call j c j).progress ≡ c.progress
  own_progress s j c = ap (λ (d : Call R). d.progress) (set_at_here s.call j c)

  pub own_entry :
      (s : Calls R) (j : ℕ) (c : Call R) → s.inflight (set_at s.call j c j).id ≡ s.inflight c.id
  own_entry s j c = ap (λ (d : Call R). s.inflight d.id) (set_at_here s.call j c)

  own_enters :
      (s : Calls R) (j : ℕ) (c : Call R) (o : Option ℕ)
      → c.id ≡ (s.call j).id
      → set_at s.inflight (s.call j).id o (set_at s.call j c j).id ≡ o
  own_enters s j c o same =
      rw (set_at_here s.call j c, same) (set_at_here s.inflight (s.call j).id o)

  -- Every step of the table is a move of the call, or none.
  pub Step-Move :
      {s t : Calls R} (k : ℕ)
      → Step error_of s t
      → IsRouted error_of s
      → k < s.count
      → s.count ≤ 65536
      → Move error_of k (seen error_of k s) (seen error_of k t)
  unfolding register written advance send receive finish
  Step-Move {s} k begin_call h u b = begin_moves k s u
  Step-Move {s} k (register_call j v p) h u b =
      by_actor k j s (register R j s) (enters p (own_progress s j _) (own_enters s j _ _ refl))
        (λ n. other_enters k s h u b j n _ _ v)
  Step-Move {s} k (write_call j e p) h u b =
      by_actor k j s (written R j e s) (writes e p (own_progress s j _) (own_entry s j _))
        (λ n. other_moves k s h u b j n _)
  Step-Move {s} k (dispatch_packet p) h u b = dispatch_moves k p s
  Step-Move {s} k (send_packet before after j p q e) h u b =
      by_actor k j s (send R j p (before ++ after) s) (stays (own_progress s j _) (own_entry s j _))
        (λ n. other_moves k s h u b j n _)
  Step-Move {s} k (receive_response j p w e) h u b =
      by_actor k j s (receive R error_of j p s) (takes p w (own_progress s j _) (own_entry s j _))
        (λ n. other_moves k s h u b j n _)
  Step-Move {s} k (give_up j e p) h u b =
      by_actor k j s (advance R j (deleting none e) s)
        (gives_up e p (own_progress s j _) (own_entry s j _)) (λ n. other_moves k s h u b j n _)
  Step-Move {s} k (finish_call j res e p) h u b =
      by_actor k j s (finish R j res e s)
        (leaves res e p (own_progress s j _) (own_enters s j _ _ refl))
        (λ n. other_enters k s h u b j n _ _ (born error_of s h j p (λ q. cc)))

  dispatch_count : (p : Packet R) (s : Calls R) → (dispatch R p s).count ≡ s.count
  unfolding dispatch
  dispatch_count p s = elim (Option-cases (s.inflight p.id)) [
    | inl e ↦ ground arith
    | inr (j, e) ↦ ground arith
  ]

  -- No step takes a call back.
  pub Step-count : {s t : Calls R} → Step error_of s t → s.count ≤ t.count
  unfolding begin register written advance send receive finish
  Step-count {s} begin_call = omega arith
  Step-count (register_call j v p) = omega arith
  Step-count (write_call j e p) = omega arith
  Step-count {s} (dispatch_packet p) = omega (arith, dispatch_count p s)
  Step-count (send_packet before after j p q e) = omega arith
  Step-count (receive_response j p w e) = omega arith
  Step-count (give_up j e p) = omega arith
  Step-count (finish_call j res e p) = omega arith

  -- A call that a step has made is not registered yet.
  pub Step-unborn :
      {s t : Calls R} (k : ℕ)
      → Step error_of s t
      → IsRouted error_of s
      → s.count ≤ k
      → k < t.count
      → (t.call k).progress ≡ registering
  unfolding begin register written advance send receive finish
  Step-unborn {s} k begin_call h u v =
      set_at_all s.call s.count _ (λ j (d : Call R). s.count ≤ j → d.progress ≡ registering)
        (λ _. refl) (λ j n. h.unborn j) k u
  Step-unborn k (register_call j x p) h u v = absurd (omega arith)
  Step-unborn k (write_call j e p) h u v = absurd (omega arith)
  Step-unborn {s} k (dispatch_packet p) h u v = absurd (omega (arith, dispatch_count p s))
  Step-unborn k (send_packet before after j p q e) h u v = absurd (omega arith)
  Step-unborn k (receive_response j p w e) h u v = absurd (omega arith)
  Step-unborn k (give_up j e p) h u v = absurd (omega arith)
  Step-unborn k (finish_call j res e p) h u v = absurd (omega arith)

  pub Reach-count : {s t : Calls R} → Reach error_of s t → s.count ≤ t.count
  Reach-count here = omega arith
  Reach-count (next r st) = omega (arith, Reach-count r, Step-count st)

  from-IsRouted : {s t : Calls R} → Reach error_of s t → IsRouted error_of s → IsRouted error_of t
  from-IsRouted here h = h
  from-IsRouted (next r st) h = Step-IsRouted error_of st (from-IsRouted r h)

  -- While no id has been used twice, every run of the table is, for each call, a run of that call
  -- alone.
  pub Reach-Run :
      {s t : Calls R} (k : ℕ)
      → Reach error_of (initial R) s
      → k < s.count
      → Reach error_of s t
      → t.count ≤ 65536
      → Run error_of k (seen error_of k s) (seen error_of k t)
  Reach-Run k before u here b = rests
  Reach-Run k before u (next {t} r st) b =
      let small : t.count ≤ 65536 = omega (arith, Step-count st) in
      moves (Reach-Run k before u r small) (
        Step-Move k st (from-IsRouted r (Reach-IsRouted error_of before))
          (omega (arith, Reach-count r)) small)
