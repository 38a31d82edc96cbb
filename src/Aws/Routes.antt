-- ===== src/Aws/Routes.antt =====
-- pkg/failover/aws.go: `UpdateRouteTables`. The goroutines make their calls in the order that
-- the scheduler chooses.
pub mod Laws
use architect_networking.Base.{
  ℕ, String, Option, none, some, List, [], ◌∷◌, Except, ok, err, Outcome, done, fail, panic,
}
use architect_networking.Aws.{
  Ec2, Call, describe_route_tables, replace_route, AwsError, describe_failed, no_route_tables,
  replace_failed, Aws, ◌>>=◌, ◌>>◌, return, throw, deref, attempt, ask, tell,
}
use architect_networking.Aws.Floating.{each, arrange}

-- `*rt.RouteTableId` of every table.
unfoldable pub table_ids : List (Option String) → Aws (List String)
table_ids [] = return []
table_ids (t ∷ ts) = do id ← deref t; ids ← table_ids ts; return (id ∷ ids)

module _ (E : Ec2) where
  unfoldable pub replace_in : String → String → String → Aws (Unit {0})
  replace_in cidr new_eni table =
      tell (replace_route table cidr new_eni) (λ h. E.replaced h table cidr new_eni)
        (replace_failed table)

  find_tables : Option String → Aws (List (Option String))
  find_tables cidr = ask (describe_route_tables cidr) (λ h. E.route_tables h cidr) describe_failed

  -- Without a table, all of them are searched and logged before the error.
  replace_all : List ℕ → String → String → List (Option String) → Aws (List AwsError)
  unfolding find_tables replace_in table_ids
  replace_all schedule cidr new_eni [] = do
    _ ← attempt (find_tables none)
    throw (no_route_tables cidr)
  replace_all schedule cidr new_eni (t ∷ ts) = do
    ids ← table_ids (t ∷ ts)
    each (replace_in cidr new_eni) (arrange schedule ids)

  unfoldable pub update_route_tables : List ℕ → String → String → Aws (List AwsError)
  unfolding find_tables replace_all
  update_route_tables schedule cidr new_eni = do
    tables ← find_tables (some cidr)
    replace_all schedule cidr new_eni tables
