-- ===== src/Aws/TakeOver/Laws.antt =====
-- What a finished take-over has seen, and what a failed one leaves.
use architect_networking.Base.{
  ◌≡◌, ◌≢◌, ◌↔◌, sym, subst, Outcome, panic, Option-cases, ap, ◌∙◌, String, Bool-cases, inl, inr,
  true, false, List, ◌∷◌, arith, none, some, done, fail, str_eq, eq_iff, if◌then◌else◌,
}
use architect_networking.Aws.{
  Ec2, Call, AwsError, attempt, unassign, assign, Aws, ◌>>=◌, return, unassign_failed,
  assign_failed,
}
use architect_networking.Aws.Steps.{bind_step, bind_fails}
use architect_networking.Aws.Ownership.{get_eni_by_ip, nics_by_ip, first_id}
use architect_networking.Aws.TakeOver.{
  move_eip_to_eni, get_my_eni, my_eni_of, take_over_eni, move_ip, finish_move, assign_ip,
  unassign_ip,
}

finish_move_seen :
    (E : Ec2) (ip my actual : String) (h : List Call)
    → (finish_move E ip my actual h).0 ≡ done tt
    → str_eq actual my ≡ true
unfolding finish_move
finish_move_seen E ip my actual h d = elim (Bool-cases (str_eq actual my)) [
  | inl e ↦ e
  | inr e ↦ absurd (ground arith)
]

move_ip_seen :
    (E : Ec2) (ip current my : String) (h : List Call)
    → (move_ip E ip current my h).0 ≡ done tt
    → (k : List Call) × ((get_eni_by_ip E ip k).0 ≡ done my)
unfolding move_ip
move_ip_seen E ip current my h d =
    let last : Aws (Unit {0}) = get_eni_by_ip E ip >>= finish_move E ip my in
    let (r, k) = unassign_ip E current ip h in
    let (_, _, d1) = bind_step (λ _. assign_ip E my ip >>= λ _. last) tt r k d in
    let (r', k') = assign_ip E my ip k in
    let (_, _, d2) = bind_step (λ _. last) tt r' k' d1 in
    let (r'', k'') = get_eni_by_ip E ip k' in
    let (actual, seen, d3) = bind_step (finish_move E ip my) tt r'' k'' d2 in
    (k', seen ∙ ap done ((eq_iff actual my).0 (finish_move_seen E ip my actual k'' d3)))

other :
    (E : Ec2) (ip current my : String) (k : List Call)
    → str_eq current my ≡ false
    → ((if str_eq current my then return tt else move_ip E ip current my) k).0 ≡ done tt
    → (move_ip E ip current my k).0 ≡ done tt
other E ip current my k e d = ground arith

-- `TakeOverENI` returns without an error only if EC2 named an ENI of this instance, and named the
-- same ENI as the one that has the IP.
pub take_over_eni_seen :
    (E : Ec2) (instance_id ip : String) (h : List Call)
    → (take_over_eni E instance_id ip h).0 ≡ done tt
    → (my : String) × (j : List Call) × (k : List Call) × ((get_my_eni E instance_id j).0 ≡ done my)
      × ((get_eni_by_ip E ip k).0 ≡ done my)
unfolding take_over_eni
take_over_eni_seen E instance_id ip h d =
    let finish : String → String → Aws (Unit {0}) =
      λ current my. if str_eq current my then return tt else move_ip E ip current my in
    let (r, j) = get_eni_by_ip E ip h in
    let (current, seen, d1) =
      bind_step (λ current. get_my_eni E instance_id >>= finish current) tt r j d in
    let (r', k) = get_my_eni E instance_id j in
    let (my, mine, d2) = bind_step (finish current) tt r' k d1 in
    elim (Bool-cases (str_eq current my)) [
      | inl e ↦ (my, j, h, mine, seen ∙ ap done ((eq_iff current my).0 e))
      | inr e ↦
          let (l, seen') = move_ip_seen E ip current my k (other E ip current my k e d2) in
          (my, j, l, mine, seen')
    ]

-- When another ENI has the IP and EC2 refuses to unassign it, the IP is not assigned.
pub take_over_eni_refused :
    (E : Ec2) (instance_id ip current my e : String) (h j k : List Call)
    → get_eni_by_ip E ip h ≡ (done current, j)
    → get_my_eni E instance_id j ≡ (done my, k)
    → str_eq current my ≡ false
    → E.unassigned k current ip ≡ some e
    → take_over_eni E instance_id ip h
      ≡ (fail (unassign_failed ip current e), unassign current ip ∷ k)
unfolding take_over_eni move_ip unassign_ip
take_over_eni_refused E instance_id ip current my e h j k a b c d = ground arith

-- A search is not refused as an assignment is.
search_fails :
    (E : Ec2) (ip0 ip my e : String) (h : List Call)
    → (get_eni_by_ip E ip0 h).0 ≢ fail (assign_failed ip my e)
unfolding get_eni_by_ip nics_by_ip first_id
search_fails E ip0 ip my e h d = ground arith

mine_fails :
    (E : Ec2) (id ip my e : String) (h : List Call)
    → (get_my_eni E id h).0 ≢ fail (assign_failed ip my e)
unfolding get_my_eni my_eni_of
mine_fails E id ip my e h d = ground arith

logged :
    (r : Outcome AwsError (Unit {0})) (k h : List Call) (x : AwsError)
    → ((attempt (λ (_ : List Call). (r, k)) >>= λ _. return tt) h).0 ≢ fail x
logged (done _) k h x d = cc
logged (fail _) k h x d = cc
logged panic k h x d = cc

finish_fails :
    (E : Ec2) (ip0 my0 actual ip my e : String) (h : List Call)
    → (finish_move E ip0 my0 actual h).0 ≢ fail (assign_failed ip my e)
unfolding finish_move
finish_fails E ip0 my0 actual ip my e h d = elim (Bool-cases (str_eq actual my0)) [
  | inl q ↦
      let (r, k) = move_eip_to_eni E ip0 my0 h in
      logged r k h (assign_failed ip my e) (ground arith)
  | inr q ↦ ground arith
]

-- The run that leaves the IP without an ENI: another ENI has it, lets it go, and EC2 refuses to
-- assign it here; nothing is called after that.
abbrev pub Orphaned : Ec2 → String → String → String → String → List Call → List Call → Type 0
Orphaned E instance_id ip my e h j =
    (current : String) × (k : List Call) × (l : List Call) × (get_eni_by_ip E ip h
      ≡ (done current, k))
    × (get_my_eni E instance_id k ≡ (done my, l))
    × (str_eq current my ≡ false)
    × (E.unassigned l current ip ≡ none)
    × (E.assigned (unassign current ip ∷ l) my ip ≡ some e)
    × (j ≡ assign my ip ∷ unassign current ip ∷ l)

orphan_run :
    (E : Ec2) (instance_id ip my e : String) (h j : List Call)
    → Orphaned E instance_id ip my e h j
    → take_over_eni E instance_id ip h ≡ (fail (assign_failed ip my e), j)
unfolding take_over_eni move_ip unassign_ip assign_ip
orphan_run E instance_id ip my e h j (current, k, l, a, b, c, d, f, g) = ground arith

verified :
    (E : Ec2) (ip my0 my e : String) (k j : List Call)
    → (get_eni_by_ip E ip >>= finish_move E ip my0) k ≢ (fail (assign_failed ip my e), j)
verified E ip my0 my e k j d =
    let (r, l) = get_eni_by_ip E ip k in
    elim (bind_fails (finish_move E ip my0) (assign_failed ip my e) r l j d) [
      | inl (q, _) ↦ search_fails E ip ip my e k q
      | inr (actual, _, q) ↦ finish_fails E ip my0 actual ip my e l (ap (λ x. x.0) q)
    ]

same_refusal :
    (ip my0 my e0 e : String) (k j : List Call)
    → ◌≡◌ {A = Outcome AwsError (Unit {0}) × List Call}
        (fail (assign_failed ip my0 e0), k)
        (fail (assign_failed ip my e), j)
    → (my0 ≡ my) × (e0 ≡ e) × (k ≡ j)
same_refusal ip my0 my e0 e k j d = (cc, cc, cc)

-- A move that was refused to assign.
move_ip_orphan :
    (E : Ec2) (ip current my0 my e : String) (l j : List Call)
    → move_ip E ip current my0 l ≡ (fail (assign_failed ip my e), j)
    → (my0 ≡ my)
      × (E.unassigned l current ip ≡ none)
      × (E.assigned (unassign current ip ∷ l) my ip ≡ some e)
      × (j ≡ assign my ip ∷ unassign current ip ∷ l)
unfolding move_ip unassign_ip assign_ip
move_ip_orphan E ip current my0 my e l j d = elim (Option-cases (E.unassigned l current ip)) [
  | inr (x, q) ↦ absurd (ground arith)
  | inl q ↦ elim (Option-cases (E.assigned (unassign current ip ∷ l) my0 ip)) [
    | inr (x, q') ↦
        let run : move_ip E ip current my0 l
            ≡ (fail (assign_failed ip my0 x), assign my0 ip ∷ unassign current ip ∷ l) =
          ground arith in
        let (m, y, w) = same_refusal ip my0 my x e _ j (sym run ∙ d) in (m, q, cc, cc)
    | inl q' ↦
        absurd (verified E ip my0 my e (assign my0 ip ∷ unassign current ip ∷ l) j (ground arith))
  ]
]

-- `TakeOverENI` ends with the refusal to assign the IP exactly when another ENI had it and EC2 let
-- it be unassigned there but not assigned here; the refused call is the last one, so the IP is not
-- given back.
pub take_over_eni_orphan :
    (E : Ec2) (instance_id ip my e : String) (h j : List Call)
    → (take_over_eni E instance_id ip h ≡ (fail (assign_failed ip my e), j))
      ↔ Orphaned E instance_id ip my e h j
unfolding take_over_eni
take_over_eni_orphan E instance_id ip my e h j = (
  (λ d.
      let finish : String → String → Aws (Unit {0}) =
        λ current my0. if str_eq current my0 then return tt else move_ip E ip current my0 in
      let (r, k) = get_eni_by_ip E ip h in
      let x = assign_failed ip my e in
      elim (bind_fails (λ current. get_my_eni E instance_id >>= finish current) x r k j d) [
        | inl (q, _) ↦ absurd (search_fails E ip ip my e h q)
        | inr (current, seen, d1) ↦
            let (r', l) = get_my_eni E instance_id k in
            elim (bind_fails (finish current) x r' l j d1) [
              | inl (q, _) ↦ absurd (mine_fails E instance_id ip my e k q)
              | inr (my0, mine, d2) ↦ elim (Bool-cases (str_eq current my0)) [
                | inl q ↦ absurd (ground arith)
                | inr q ↦
                    let (m, a, b, c) = move_ip_orphan E ip current my0 my e l j (ground arith) in
                    (
                      current,
                      k,
                      l,
                      ap (λ z. (z, k)) seen,
                      ap (λ z. (z, l)) mine ∙ ap (λ z. (done z, l)) m,
                      subst (λ z. str_eq current z ≡ false) m q,
                      a,
                      b,
                      c,
                    )
              ]
            ]
      ]),
  orphan_run E instance_id ip my e h j,
)
