-- ===== src/Aws/Routes/Laws.antt =====
-- Every route table that was found is pointed at the new ENI.
use architect_networking.Base.{
  ℕ, ◌≡◌, refl, String, List, [], ◌∷◌, map, arith, none, some, ok, done, fail,
}
use architect_networking.Aws.{
  Ec2, Call, describe_route_tables, replace_route, no_route_tables, replace_failed,
}
use architect_networking.Aws.Routes.{table_ids, replace_in, update_route_tables}
use architect_networking.Aws.Floating.{arrange}
use architect_networking.Aws.Floating.Laws.{pushed, refused, each_lem}

table_ids-some : (ids : List String) (h : List Call) → table_ids (map some ids) h ≡ (done ids, h)
unfolding table_ids
table_ids-some [] h = refl
table_ids-some (i ∷ ids) h = ground (arith, table_ids-some ids h)

-- When the search for the CIDR finds tables with ids, `UpdateRouteTables` calls ReplaceRoute once
-- for each of them, in an order that the scheduler chooses, for this CIDR and the new ENI, also after a refusal, and its
-- errors are those of the refused calls.
pub update_route_tables_lem :
    (E : Ec2) (schedule : List ℕ) (cidr new_eni id : String) (ids : List String) (h : List Call)
    → E.route_tables h (some cidr) ≡ ok (map some (id ∷ ids))
    → let call = λ (t : String). replace_route t cidr new_eni in
      let h' = describe_route_tables (some cidr) ∷ h in
      update_route_tables E schedule cidr new_eni h ≡ (
        done (
            refused call
              (λ k t. E.replaced k t cidr new_eni)
              replace_failed
              (arrange schedule (id ∷ ids))
              h'),
        pushed call (arrange schedule (id ∷ ids)) h',
      )
unfolding update_route_tables replace_in
update_route_tables_lem E schedule cidr new_eni id ids h found =
    let h' = describe_route_tables (some cidr) ∷ h in
    let t = table_ids-some ids h' in
    let b =
      each_lem (λ t. replace_route t cidr new_eni) (λ k t. E.replaced k t cidr new_eni)
        replace_failed (arrange schedule (id ∷ ids)) h' in
    ground (arith, t, b)

-- When it finds none, no route is changed and the caller gets an error.
pub update_route_tables-none :
    (E : Ec2) (schedule : List ℕ) (cidr new_eni : String) (h : List Call)
    → E.route_tables h (some cidr) ≡ ok []
    → update_route_tables E schedule cidr new_eni h ≡ (
      fail (no_route_tables cidr),
      describe_route_tables none ∷ describe_route_tables (some cidr) ∷ h,
    )
unfolding update_route_tables
update_route_tables-none E schedule cidr new_eni h found = ground arith
