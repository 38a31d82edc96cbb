-- ===== src/Aws/Floating.antt =====
-- pkg/failover/aws.go: `GetENIFloatingIPs`, `FilterFloatingIPs` and `ReassignFloatingIPs`. A text
-- is walked as its code points. The goroutines of one fan-out make their calls in the order of a
-- list that the scheduler chooses among the orders of that fan-out.
pub mod Laws
use architect_networking.Base.{
  ℕ, zero, suc, ◌+◌, ◌-◌, ◌*◌, String, Bool, true, false, ◌&&◌, ◌||◌, Option, none, some, List, [],
  ◌∷◌, ◌++◌, Except, ok, err, Outcome, done, fail, panic, ltb, leb, ◌==◌, if◌then◌else◌, codes, ℤ,
  pos, negsuc, leb_ℤ, length,
}
use architect_networking.Aws.{
  PrivateIp, Nic, Ec2, by_id, Call, describe_nics, unassign, assign, AwsError, describe_failed,
  nic_not_found, unassign_failed, assign_failed, Aws, ◌>>=◌, ◌>>◌, return, throw, attempt, ask,
}
use architect_networking.Aws.TakeOver.{unassign_ip, assign_ip}

is_primary : Option Bool → Bool
is_primary none = false
is_primary (some b) = b

-- The loop over `eni.PrivateIpAddresses`.
unfoldable pub secondary_ips : List PrivateIp → List String
unfolding is_primary
secondary_ips [] = []
secondary_ips (p ∷ ps) =
    let rest = secondary_ips ps in
    if is_primary p.primary then rest else elim p.address [ none ↦ rest | some a ↦ a ∷ rest ]

-- `strings.Split(s, ".")`
unfoldable pub split : List ℕ → List (List ℕ)
split [] = [] ∷ []
split (c ∷ cs) =
    let rest = split cs in
    if c == b'.'
    then [] ∷ rest
    else elim rest [ [] ↦ (c ∷ []) ∷ [] | part ∷ parts ↦ (c ∷ part) ∷ parts ]

unfoldable pub same_text : List ℕ → List ℕ → Bool
same_text [] [] = true
same_text (a ∷ as') (b ∷ bs) = let rest = same_text as' bs in a == b && rest
same_text _ _ = false

-- `unicode.IsSpace`, but for the newline.
is_space : ℕ → Bool
is_space c =
    c == 9
    || (c == 11
        || (c == 12
            || (c == 13
                || (c == 32
                    || (c == 0x85
                        || (c == 0xa0
                            || (c == 0x1680
                                || ((leb 0x2000 c && leb c 0x200a)
                                    || (c == 0x2028
                                        || (c == 0x2029
                                            || (c == 0x202f
                                                || (c == 0x205f || c == 0x3000))))))))))))

is_digit : ℕ → Bool
is_digit c = leb b'0' c && leb c b'9'

starts_line : List ℕ → Bool
starts_line [] = false
starts_line (c ∷ _) = c == 10

-- Spaces are skipped, and a newline, also one behind a carriage return, is an error.
skip_space : List ℕ → Option (List ℕ)
unfolding is_space starts_line
skip_space [] = some []
skip_space (c ∷ cs) =
    let rest = skip_space cs in
    if c == 10
    then none
    else if c == 13 && starts_line cs
    then none
    else if is_space c
    then rest
    else some (c ∷ cs)

-- The value of the digits in front, after a value that was read before.
unfoldable pub digits_value : ℕ → List ℕ → ℕ
unfolding is_digit
digits_value acc [] = acc
digits_value acc (c ∷ cs) =
    let rest = digits_value (acc * 10 + (c - b'0')) cs in if is_digit c then rest else acc

unfoldable pub read_digits : List ℕ → Option ℕ
unfolding digits_value
read_digits [] = none
read_digits (c ∷ cs) = if is_digit c then some (digits_value 0 (c ∷ cs)) else none

abbrev pub max_int : ℕ
max_int = 9223372036854775807

in_range : Bool → ℕ → Option ℤ
in_range false n = if leb n max_int then some (pos n) else none
in_range true zero = some (pos 0)
in_range true (suc n) = if leb n max_int then some (negsuc n) else none

signed : Bool → List ℕ → Option ℤ
unfolding in_range
signed negative cs = elim (read_digits cs) [ none ↦ none | some n ↦ in_range negative n ]

scan_sign : List ℕ → Option ℤ
unfolding signed
scan_sign [] = none
scan_sign (c ∷ cs) =
    if c == b'-'
    then signed true cs
    else if c == b'+'
    then signed false cs
    else signed false (c ∷ cs)

-- `fmt.Sscanf(s, "%d", &n)`: what follows the digits is not looked at.
unfoldable pub scan_int : List ℕ → Option ℤ
unfolding skip_space scan_sign
scan_int cs = elim (skip_space cs) [ none ↦ none | some r ↦ scan_sign r ]

-- `lastOctet >= 20`
unfoldable pub high_octet : List ℕ → Bool
high_octet cs = elim (scan_int cs) [ none ↦ false | some n ↦ leb_ℤ (pos 20) n ]

-- The test of one IP against the parts of the base IP.
unfoldable pub matches : List (List ℕ) → List (List ℕ) → Bool
matches (a ∷ b ∷ c ∷ d ∷ []) (a' ∷ b' ∷ c' ∷ d' ∷ []) =
    (same_text a' a && (same_text b' b && same_text c' c)) && high_octet d'
matches _ _ = false

unfoldable pub matching : List (List ℕ) → List String → List String
matching parts [] = []
matching parts (ip ∷ ips) =
    let rest = matching parts ips in if matches parts (split (codes ip)) then ip ∷ rest else rest

-- Everything passes if the base IP has not four parts.
unfoldable pub filter_floating_ips : List String → String → List String
filter_floating_ips ips base =
    let parts = split (codes base) in if length parts == 4 then matching parts ips else ips

pub insert_at : ℕ → String → List String → List String
insert_at (suc n) x (y ∷ ys) = y ∷ insert_at n x ys
insert_at _ x ys = x ∷ ys

-- The order in which the goroutines of a fan-out over a list make their calls. The scheduler's
-- choice is, for each one, how many of those that were started after it come before it.
unfoldable pub arrange : List ℕ → List String → List String
unfolding insert_at
arrange [] xs = xs
arrange (p ∷ ps) [] = []
arrange (p ∷ ps) (x ∷ xs) = insert_at p x (arrange ps xs)

add_error : Except AwsError (Unit {0}) → List AwsError → List AwsError
add_error (ok _) es = es
add_error (err e) es = e ∷ es

-- A fan-out: each call is made, and the errors are gathered.
unfoldable pub each : (String → Aws (Unit {0})) → List String → Aws (List AwsError)
unfolding add_error
each call [] = return []
each call (ip ∷ ips) = do r ← attempt (call ip); es ← each call ips; return (add_error r es)

module _ (E : Ec2) where
  nic_ips : String → List Nic → Aws (List String)
  nic_ips eni [] = throw (nic_not_found eni)
  nic_ips eni (nic ∷ _) = return (secondary_ips nic.private_ips)

  unfoldable pub get_eni_floating_ips : String → Aws (List String)
  unfolding nic_ips
  get_eni_floating_ips eni = do
    nics ← ask (describe_nics (by_id eni)) (λ h. E.nics h (by_id eni)) describe_failed
    nic_ips eni nics

  -- All unassigned, in one order, before any is assigned, in another.
  unfoldable pub reassign_floating_ips :
      List ℕ → List ℕ → String → String → List String → Aws (List AwsError)
  reassign_floating_ips first second source dest [] = return []
  reassign_floating_ips first second source dest (ip ∷ ips) = do
    lost ← each (unassign_ip E source) (arrange first (ip ∷ ips))
    kept ← each (assign_ip E dest) (arrange second (ip ∷ ips))
    return (lost ++ kept)
