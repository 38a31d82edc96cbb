-- ===== src/Calls/Laws/Routed.antt =====
-- Which packets can be on the way to which call.
use architect_networking.Base.{
  ℕ, suc, ◌+◌, ◌%◌, ◌<◌, ◌≤◌, ltb, ◌≢◌, Bool-cases, String, Option, none, some, List, [], ◌∷◌, ◌++◌,
  ◌≡◌, refl, sym, ap, subst, All, All-middle, arith, Option-cases, inl, inr, ◌∙◌,
}
use architect_networking.Calls.{
  id_mod, set_at, Packet, Call, Calls, Progress, registering, writing, deleting, returned, initial,
  begin, advance, register, after_write, written, dispatch, send, receive, finish, Step, Reach,
  here, next, begin_call, register_call, write_call, dispatch_packet, send_packet, receive_response,
  give_up, finish_call,
}
use architect_networking.Calls.Laws.Updates.{set_at_all}

module _ {R : Type 0} (error_of : R → Option String) where
  -- A packet for the id `i`, in the channel or as the result.
  abbrev pub SlotFits : ℕ → Option (Packet R) → Type 0
  SlotFits i none = Unit
  SlotFits i (some p) = p.id ≡ i

  abbrev pub ResultFits : ℕ → Option (Packet R) → Option String → Type 0
  ResultFits i none e = Unit
  ResultFits i (some p) e = (p.id ≡ i) × (e ≡ error_of p.content)

  abbrev pub ProgressFits : ℕ → Progress R → Type 0
  ProgressFits i (deleting res e) = ResultFits i res e
  ProgressFits i (returned res e) = ResultFits i res e
  ProgressFits i _ = Unit

  abbrev pub CallFits : Call R → Type 0
  CallFits c = SlotFits c.id c.slot × ProgressFits c.id c.progress

  abbrev pub SendFits : Calls R → ℕ × Packet R → Type 0
  SendFits s (k, p) = (k < s.count) × (p.id ≡ (s.call k).id)

  pub record IsRouted (s : Calls R) : Type 0 where
    pub newest : s.next ≡ s.count % id_mod
    pub numbered : (k : ℕ) → k < s.count → (s.call k).id ≡ suc k % id_mod
    pub tabled : (i k : ℕ) → s.inflight i ≡ some k → (k < s.count) × ((s.call k).id ≡ i)
    pub fits : (k : ℕ) → CallFits (s.call k)
    pub unborn : (k : ℕ) → s.count ≤ k → (s.call k).progress ≡ registering
    pub queued : All (SendFits s) s.sends

  -- A call that keeps its id.
  module _ (s : Calls R) (k : ℕ) (c : Call R) (u : k < s.count) (same : c.id ≡ (s.call k).id)
      (fit : CallFits c) where
    kept_id : (j : ℕ) → (set_at s.call k c j).id ≡ (s.call j).id
    kept_id = set_at_all s.call k c (λ j (d : Call R). d.id ≡ (s.call j).id) same (λ j n. refl)

    kept_sends :
        (xs : List (ℕ × Packet R))
        → All (SendFits s) xs
        → All (SendFits (record s { call = set_at s.call k c })) xs
    kept_sends [] h = tt
    kept_sends ((j, p) ∷ xs) (h, hs) = ((h.0, h.1 ∙ sym (kept_id j)), kept_sends xs hs)

    update-IsRouted : IsRouted s → IsRouted (record s { call = set_at s.call k c })
    update-IsRouted h = record {
      newest = h.newest;
      numbered = λ j u. kept_id j ∙ h.numbered j u;
      tabled = λ i j e. ((h.tabled i j e).0, kept_id j ∙ (h.tabled i j e).1);
      fits = set_at_all s.call k c (λ j (d : Call R). CallFits d) fit (λ j n. h.fits j);
      unborn =
          set_at_all s.call k c (λ j (d : Call R). s.count ≤ j → d.progress ≡ registering)
            (λ v. absurd (omega arith)) (λ j n. h.unborn j);
      queued = kept_sends s.sends h.queued;
    }

  -- A new call stands behind all the others.
  module _ (s : Calls R) (h : IsRouted s) where
    newest_id : (s.next + 1) % id_mod ≡ suc s.count % id_mod
    newest_id = ground (arith, h.newest)

    older_id : (j : ℕ) → j < s.count → ((begin R s).call j).id ≡ (s.call j).id
    unfolding begin
    older_id =
        set_at_all s.call s.count _ (λ j (d : Call R). j < s.count → d.id ≡ (s.call j).id)
          (λ u. absurd (omega arith)) (λ j n u. refl)

    older_sends : (xs : List (ℕ × Packet R)) → All (SendFits s) xs → All (SendFits (begin R s)) xs
    unfolding begin
    older_sends [] hs = tt
    older_sends ((j, p) ∷ xs) ((u, e), hs) =
        ((omega arith, e ∙ sym (older_id j u)), older_sends xs hs)

    begin-IsRouted : IsRouted (begin R s)
    unfolding begin
    begin-IsRouted = record {
      newest = newest_id;
      numbered =
          set_at_all s.call s.count _ (λ j (d : Call R). j < suc s.count → d.id ≡ suc j % id_mod)
            (λ u. newest_id) (λ j n u. h.numbered j (omega arith));
      tabled = λ i j e. let (u, same) = h.tabled i j e in (omega arith, older_id j u ∙ same);
      fits = set_at_all s.call s.count _ (λ j (d : Call R). CallFits d) (tt, tt) (λ j n. h.fits j);
      unborn =
          set_at_all s.call s.count _ (λ j (d : Call R). suc s.count ≤ j → d.progress ≡ registering)
            (λ v. refl) (λ j n v. h.unborn j (omega arith));
      queued = older_sends s.sends h.queued;
    }

  -- The table of entries and the sends.
  entry-IsRouted :
      (s : Calls R) (f : ℕ → Option ℕ)
      → IsRouted s
      → ((i k : ℕ) → f i ≡ some k → (k < s.count) × ((s.call k).id ≡ i))
      → IsRouted (record s { inflight = f })
  entry-IsRouted s f h e = record {
    newest = h.newest;
    numbered = h.numbered;
    tabled = e;
    fits = h.fits;
    unborn = h.unborn;
    queued = h.queued;
  }

  sends-IsRouted :
      (s : Calls R) (xs : List (ℕ × Packet R))
      → IsRouted s
      → All (SendFits s) xs
      → IsRouted (record s { sends = xs })
  sends-IsRouted s xs h q = record {
    newest = h.newest;
    numbered = h.numbered;
    tabled = h.tabled;
    fits = h.fits;
    unborn = h.unborn;
    queued = q;
  }

  -- The outcome of a call that is written is an error or none at all.
  after_write-fits : (i : ℕ) (e : Option String) → ProgressFits i (after_write R e)
  after_write-fits i none = tt
  after_write-fits i (some e) = tt

  module _ (s : Calls R) (h : IsRouted s) where
    -- A call that has left its first stage has been made.
    pub born : (k : ℕ) {p : Progress R} → (s.call k).progress ≡ p → p ≢ registering → k < s.count
    born k e n = elim (Bool-cases (ltb k s.count)) [
      | inl b ↦ ground arith
      | inr b ↦ absurd (n (sym e ∙ h.unborn k (ground arith)))
    ]

    advance-IsRouted :
        (k : ℕ) (p : Progress R)
        → k < s.count
        → ProgressFits (s.call k).id p
        → IsRouted (advance R k p s)
    unfolding advance
    advance-IsRouted k p u fit = update-IsRouted s k _ u refl ((h.fits k).0, fit) h

    -- Writing to an entry and to its call.
    entered :
        (k : ℕ) (p : Progress R) (o : Option ℕ)
        → k < s.count
        → ProgressFits (s.call k).id p
        → ((j : ℕ) → o ≡ some j → (j < s.count) × ((s.call j).id ≡ (s.call k).id))
        → IsRouted (record s {
          call = set_at s.call k (record (s.call k) { progress = p });
          inflight = set_at s.inflight (s.call k).id o;
        })
    entered k p o u fit own =
        update-IsRouted (record s { inflight = table }) k _ u refl ((h.fits k).0, fit)
          (entry-IsRouted s table h (
            set_at_all s.inflight (s.call k).id o
              (λ i (o' : Option ℕ). (j : ℕ) → o' ≡ some j → (j < s.count) × ((s.call j).id ≡ i)) own
              (λ i n. h.tabled i)))
      where
        table : ℕ → Option ℕ
        table = set_at s.inflight (s.call k).id o

    register-IsRouted : (k : ℕ) → k < s.count → IsRouted (register R k s)
    unfolding register
    register-IsRouted k u = entered k writing (some k) u tt (λ j e.
        let k≡j : k ≡ j = ground arith in
        (subst (λ i. i < s.count) k≡j u, ap (λ i. (s.call i).id) (sym k≡j)))

    dispatch-IsRouted : (p : Packet R) → IsRouted (dispatch R p s)
    unfolding dispatch
    dispatch-IsRouted p = elim (Option-cases (s.inflight p.id)) [
      | inl e ↦ rw (e, dispatch) h
      | inr (k, e) ↦
          let (u, same) = h.tabled p.id k e in
          rw (e, dispatch) (sends-IsRouted s _ h ((u, sym same), h.queued))
    ]

    finish-IsRouted :
        (k : ℕ) (res : Option (Packet R)) (e : Option String)
        → k < s.count
        → ResultFits (s.call k).id res e
        → IsRouted (finish R k res e s)
    unfolding finish
    finish-IsRouted k res e u fit = entered k (returned res e) none u fit (λ j q. cc)

  pub Step-IsRouted : {s t : Calls R} → Step error_of s t → IsRouted s → IsRouted t
  unfolding send receive written
  Step-IsRouted {s} begin_call h = begin-IsRouted s h
  Step-IsRouted {s} (register_call k u p) h = register-IsRouted s h k u
  Step-IsRouted {s} (write_call k e p) h =
      advance-IsRouted s h k _ (born s h k p (λ q. cc)) (after_write-fits _ e)
  Step-IsRouted {s} (dispatch_packet p) h = dispatch-IsRouted s h p
  Step-IsRouted {s} (send_packet before after k p q e) h =
      let ((u, fit), rest) =
        All-middle (SendFits s) before after (subst (All (SendFits s)) q h.queued) in
      update-IsRouted (record s { sends = before ++ after }) k _ u refl (fit, (h.fits k).1)
        (sends-IsRouted s _ h rest)
  Step-IsRouted {s} (receive_response k p w e) h =
      update-IsRouted s k _ (born s h k w (λ q. cc)) refl
        (tt, (subst (SlotFits (s.call k).id) e (h.fits k).0, refl)) h
  Step-IsRouted {s} (give_up k e p) h = advance-IsRouted s h k _ (born s h k p (λ q. cc)) tt
  Step-IsRouted {s} (finish_call k res e p) h =
      finish-IsRouted s h k res e (born s h k p (λ q. cc))
        (subst (ProgressFits (s.call k).id) p (h.fits k).1)

  -- Every reachable state.
  pub Reach-IsRouted : {s : Calls R} → Reach error_of (initial R) s → IsRouted s
  unfolding initial
  Reach-IsRouted here = record {
    newest = refl;
    numbered = λ k u. absurd (omega arith);
    tabled = λ i k e. cc;
    fits = λ k. (tt, tt);
    unborn = λ k u. refl;
    queued = tt;
  }
  Reach-IsRouted (next r st) = Step-IsRouted st (Reach-IsRouted r)
