-- ===== src/Aws/Actions/Laws.antt =====
-- What finished failover actions have done, and whose floating IPs they move.
use architect_networking.Base.{
  ◌≡◌, ◌≢◌, refl, sym, ap, ◌∙◌, String, Bool, subst, Bool-cases, Option-cases, inl, inr, true,
  false, List, [], ◌∷◌, arith, Option, some, Except, ok, err, Outcome, done, fail, panic, str_eq,
  eq_iff,
}
use architect_networking.Aws.{
  Nic, Ec2, unfiltered, describe_nics, describe_failed, ask, Call, AwsError, Aws, ◌>>=◌, return,
  attempt,
}
use architect_networking.Aws.Steps.{bind_step}
use architect_networking.Aws.Ownership.{get_eni_by_ip}
use architect_networking.Aws.TakeOver.{take_over_eni}
use architect_networking.Aws.Floating.{
  get_eni_floating_ips, filter_floating_ips, reassign_floating_ips,
}
use architect_networking.Aws.Floating.Laws.{Reassigned, reassign_floating_ips_lem}
use architect_networking.Aws.Actions.{
  Schedule, find_old_eni, old_eni_or, try_eni, kept_ips, finish_actions, outcome, both, move_ips,
  errors_of, update_routes, answered, execute_failover_actions,
}

differ : {b : Bool} → b ≡ true → b ≡ false → ⊥
differ p q = absurd (cc)

outcome_ok :
    (E : Ec2) (new_eni eni : String) (es : List AwsError)
    → outcome E new_eni es ≡ ok eni
    → new_eni ≡ eni
unfolding outcome
outcome_ok E new_eni eni [] h = ground arith
outcome_ok E new_eni eni (e ∷ es) h = absurd (cc)

finish_seen :
    (E : Ec2) (s : Schedule) (eni_ip cidr new_eni eni : String) (h : List Call)
    → (finish_actions E s eni_ip cidr new_eni h).0 ≡ done (ok eni)
    → new_eni ≡ eni
unfolding finish_actions
finish_seen E s eni_ip cidr new_eni eni h d =
    let ask_all =
      attempt (ask (describe_nics unfiltered) (λ k. E.nics k unfiltered) describe_failed) in
    let last : List AwsError → Aws (Except (List AwsError) String) =
      λ es. return (outcome E new_eni es) in
    let work : Option (String × List String) → Aws (List AwsError) =
      λ old. both E s (update_routes E s cidr new_eni) (move_ips E s new_eni old) in
    let (r, k) = ask_all h in
    let (nics, _, d1) =
      bind_step (λ nics. find_old_eni E eni_ip new_eni (answered nics) >>= λ old. work old >>= last)
        (ok eni) r k d in
    let (r', k') = find_old_eni E eni_ip new_eni (answered nics) k in
    let (old, _, d2) = bind_step (λ old. work old >>= last) (ok eni) r' k' d1 in
    let (r'', k'') = work old k' in
    let (es, _, d3) = bind_step last (ok eni) r'' k'' d2 in outcome_ok E new_eni eni es (cc)

-- The ENI that `executeFailoverActions` records was found at the IP by a search that followed a
-- take-over without an error.
pub execute_failover_actions_lem :
    (E : Ec2) (s : Schedule) (instance_id eni_ip cidr eni : String) (h : List Call)
    → (execute_failover_actions E s instance_id eni_ip cidr h).0 ≡ done (ok eni)
    → let taken = take_over_eni E instance_id eni_ip h in
      (taken.0 ≡ done tt) × ((get_eni_by_ip E eni_ip taken.1).0 ≡ done eni)
unfolding execute_failover_actions
execute_failover_actions_lem E s instance_id eni_ip cidr eni h d =
    let (r, k) = take_over_eni E instance_id eni_ip h in
    let (_, taken, d1) =
      bind_step (λ _. get_eni_by_ip E eni_ip >>= finish_actions E s eni_ip cidr) (ok eni) r k d in
    let (r', k') = get_eni_by_ip E eni_ip k in
    let (new_eni, seen, d2) = bind_step (finish_actions E s eni_ip cidr) (ok eni) r' k' d1 in
    (taken, seen ∙ ap done (finish_seen E s eni_ip cidr new_eni eni k' d2))

-- What a search that found an ENI has seen.
abbrev Found : Ec2 → String → String → String → List String → Type 0
Found E eni_ip new_eni old_eni ips =
    (str_eq old_eni new_eni ≡ false)
    × (ips ≢ [])
    × (k : List Call) × (all : List String) × ((get_eni_floating_ips E old_eni k).0 ≡ done all)
    × (ips ≡ filter_floating_ips all eni_ip)

attempt_ok :
    {A : Type 0} (a : A) (r : Outcome AwsError A) (k : List Call)
    → (attempt (λ _. (r, k)) k).0 ≡ done (ok a)
    → r ≡ done a
attempt_ok a (done b) k e = cc
attempt_ok a (fail x) k e = absurd (cc)
attempt_ok a panic k e = absurd (cc)

kept-Found :
    (E : Ec2) (eni_ip new_eni id old_eni : String) (ips kept : List String)
    (rest : Aws (Option (String × List String))) (j k : List Call)
    (r : Except AwsError (List String))
    → ((rest k).0 ≡ done (some (old_eni, ips)) → Found E eni_ip new_eni old_eni ips)
    → str_eq id new_eni ≡ false
    → (attempt (get_eni_floating_ips E id) j).0 ≡ done r
    → kept ≡ kept_ips eni_ip r
    → (old_eni_or E rest id kept k).0 ≡ done (some (old_eni, ips))
    → Found E eni_ip new_eni old_eni ips
unfolding old_eni_or kept_ips
kept-Found E eni_ip new_eni id old_eni ips [] rest j k r ih ne a e d = ih d
kept-Found E eni_ip new_eni id old_eni ips (ip ∷ kept) rest j k (err x) ih ne a e d = absurd (cc)
kept-Found E eni_ip new_eni id old_eni ips (ip ∷ kept) rest j k (ok all) ih ne a e d =
    let g = get_eni_floating_ips E id j in
    let seen = attempt_ok all g.0 g.1 a in
    let same : id ≡ old_eni = cc in
    let these : ip ∷ kept ≡ ips = cc in
    subst (λ z. Found E eni_ip new_eni z ips) same
      (ne, (λ n. absurd (cc)), j, all, seen, sym these ∙ e)

skipped :
    (E : Ec2) (eni_ip new_eni id : String) (rest : Aws (Option (String × List String)))
    (h : List Call) (o : Outcome AwsError (Option (String × List String)))
    → str_eq id new_eni ≡ false
    → (try_eni E rest eni_ip new_eni id h).0 ≡ o
    → ((attempt (get_eni_floating_ips E id) >>= λ r. old_eni_or E rest id (kept_ips eni_ip r)) h).0
      ≡ o
unfolding try_eni
skipped E eni_ip new_eni id rest h o e d = ground arith

try-Found :
    (E : Ec2) (eni_ip new_eni id old_eni : String) (ips : List String)
    (rest : Aws (Option (String × List String))) (h : List Call)
    → ((k : List Call)
        → (rest k).0 ≡ done (some (old_eni, ips))
        → Found E eni_ip new_eni old_eni ips)
    → (try_eni E rest eni_ip new_eni id h).0 ≡ done (some (old_eni, ips))
    → Found E eni_ip new_eni old_eni ips
unfolding try_eni
try-Found E eni_ip new_eni id old_eni ips rest h ih d = elim (Bool-cases (str_eq id new_eni)) [
  | inl e ↦ ih h (ground arith)
  | inr e ↦
      let go : Except AwsError (List String) → Aws (Option (String × List String)) =
        λ r. old_eni_or E rest id (kept_ips eni_ip r) in
      let (r, k) = attempt (get_eni_floating_ips E id) h in
      let (x, seen, d1) =
        bind_step go (some (old_eni, ips)) r k
          (skipped E eni_ip new_eni id rest h (done (some (old_eni, ips))) e d) in
      kept-Found E eni_ip new_eni id old_eni ips (kept_ips eni_ip x) rest h k x (ih k) e seen refl
        d1
]

find-Found :
    (E : Ec2) (eni_ip new_eni old_eni : String) (ips : List String) (nics : List Nic)
    (h : List Call)
    → (find_old_eni E eni_ip new_eni nics h).0 ≡ done (some (old_eni, ips))
    → Found E eni_ip new_eni old_eni ips
unfolding find_old_eni
find-Found E eni_ip new_eni old_eni ips [] h d = absurd (cc)
find-Found E eni_ip new_eni old_eni ips (nic ∷ nics) h d =
    let ih = λ (k : List Call). find-Found E eni_ip new_eni old_eni ips nics k in
    elim (Option-cases nic.network_interface_id) [
      | inl e ↦ ih h (ground arith)
      | inr (id, e) ↦
          try-Found E eni_ip new_eni id old_eni ips (find_old_eni E eni_ip new_eni nics) h ih
            (ground arith)
    ]

move_made :
    (E : Ec2) (s : Schedule) (old_eni new_eni : String) (ips : List String) (g : List Call)
    (es : List AwsError) (g' : List Call)
    → str_eq old_eni "" ≡ false
    → reassign_floating_ips E s.first s.second old_eni new_eni ips g ≡ (done es, g')
    → move_ips E s new_eni (some (old_eni, ips)) g ≡ (done es, g')
unfolding move_ips errors_of
move_made E s old_eni new_eni ips g es g' e r = ground arith

-- If the search among the ENIs finds one, with an id, it is another than the new one, and its IPs,
-- at least one, are those that `FilterFloatingIPs` keeps of the secondary IPs that EC2 listed for
-- it. The move that follows, after any other calls and in any order of its goroutines, unassigns
-- each of these IPs from that ENI once, then assigns each to the new one once, and its errors are
-- those of the refused calls.
pub find_old_eni_lem :
    (E : Ec2) (s : Schedule) (eni_ip new_eni old_eni : String) (ips : List String) (nics : List Nic)
    (h g : List Call)
    → (find_old_eni E eni_ip new_eni nics h).0 ≡ done (some (old_eni, ips))
    → str_eq old_eni "" ≡ false
    → (old_eni ≢ new_eni)
      × (ips ≢ [])
      × ((k : List Call) × (all : List String) × ((get_eni_floating_ips E old_eni k).0 ≡ done all)
          × (ips ≡ filter_floating_ips all eni_ip))
      × Reassigned E old_eni new_eni ips g (move_ips E s new_eni (some (old_eni, ips)) g)
find_old_eni_lem E s eni_ip new_eni old_eni ips nics h g d e =
    let (ne, some_ips, k, all, seen, these) = find-Found E eni_ip new_eni old_eni ips nics h d in
    let (first, second, once, once', run) =
      reassign_floating_ips_lem E s.first s.second old_eni new_eni ips g in
    (
      (λ same. absurd (differ ((eq_iff old_eni new_eni).1 same) ne)),
      some_ips,
      (k, all, seen, these),
      (first, second, once, once', move_made E s old_eni new_eni ips g _ _ e run),
    )
