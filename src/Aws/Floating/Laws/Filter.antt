-- ===== src/Aws/Floating/Laws/Filter.antt =====
-- `FilterFloatingIPs` keeps the IPs of the base IP's /24 network whose last octet is at least 20.
use architect_networking.Base.{
  ℕ, ◌<◌, ◌≤◌, ◌≡◌, ◌≢◌, ◌↔◌, refl, sym, ap, subst, ◌∙◌, String, Bool, true, false, List, [], ◌∷◌,
  ◌++◌, arith, leb, leb→le, le→leb, ◌==◌, codes, show_ℕ, length, All, Memᴰ, Bool-cases, same_bool,
  inl, inr, if◌then◌else◌, holds_below, test_below,
}
use architect_networking.Aws.Floating.{
  split, same_text, high_octet, matches, matching, filter_floating_ips, scan_int, read_digits,
}

-- The text of four parts with dots between them.
abbrev pub dotted : List ℕ → List ℕ → List ℕ → List ℕ → List ℕ
dotted a b c d = a ++ (b'.' ∷ (b ++ (b'.' ∷ (c ++ (b'.' ∷ d)))))

abbrev pub NoDot : List ℕ → Type 0
NoDot l = All (λ c. c ≢ b'.') l

split_part : (xs r : List ℕ) → NoDot xs → split (xs ++ (b'.' ∷ r)) ≡ xs ∷ split r
unfolding split
split_part [] r h = refl
split_part (x ∷ xs) r h = ground (arith, split_part xs r h.1)

split_last : (xs : List ℕ) → NoDot xs → split xs ≡ xs ∷ []
unfolding split
split_last [] h = refl
split_last (x ∷ xs) h = ground (arith, split_last xs h.1)

split-dotted :
    (a b c d : List ℕ)
    → NoDot a
    → NoDot b
    → NoDot c
    → NoDot d
    → split (dotted a b c d) ≡ a ∷ b ∷ c ∷ d ∷ []
split-dotted a b c d ha hb hc hd =
    split_part a _ ha
    ∙ ap (◌∷◌ a) (split_part b _ hb ∙ ap (◌∷◌ b) (split_part c _ hc ∙ ap (◌∷◌ c) (split_last d hd)))

same_text_sound : (a b : List ℕ) → same_text a b ≡ true → a ≡ b
unfolding same_text
same_text_sound [] [] h = refl
same_text_sound [] (y ∷ b) h = absurd (cc)
same_text_sound (x ∷ a) [] h = absurd (cc)
same_text_sound (x ∷ a) (y ∷ b) h = ground (arith, same_text_sound a b)

same_text_refl : (a : List ℕ) → same_text a a ≡ true
unfolding same_text
same_text_refl [] = refl
same_text_refl (x ∷ a) = ground (arith, same_text_refl a)

-- Every decimal octet is read as its number.
octet_table : holds_below (λ n. same_bool (leb 20 n) (high_octet (codes (show_ℕ n)))) 256 ≡ true
unfolding holds_below high_octet scan_int show_ℕ read_digits
octet_table = refl

octet_lem : (n : ℕ) → n < 256 → high_octet (codes (show_ℕ n)) ≡ leb 20 n
octet_lem n h = ground (arith, test_below _ 256 n h octet_table)

-- One IP whose last part is a decimal octet.
matches_lem :
    (a b c d a' b' c' : List ℕ) (n : ℕ)
    → n < 256
    → (matches (a ∷ b ∷ c ∷ d ∷ []) (a' ∷ b' ∷ c' ∷ codes (show_ℕ n) ∷ []) ≡ true)
      ↔ ((a' ≡ a) × (b' ≡ b) × (c' ≡ c) × (20 ≤ n))
unfolding matches
matches_lem a b c d a' b' c' n h = (
  (λ m.
      let t1 = same_text_sound a' a in
      let t2 = same_text_sound b' b in
      let t3 = same_text_sound c' c in
      let t4 = octet_lem n h in let le = leb→le 20 n in ground arith),
  (λ (p, q, r, m).
      let t1 = ap (λ z. same_text z a) p ∙ same_text_refl a in
      let t2 = ap (λ z. same_text z b) q ∙ same_text_refl b in
      let t3 = ap (λ z. same_text z c) r ∙ same_text_refl c in
      let t4 = octet_lem n h ∙ le→leb 20 n m in ground arith),
)

mem-matching :
    (parts : List (List ℕ)) (ip : String) (ips : List String)
    → Memᴰ ip (matching parts ips)
    → Memᴰ ip ips × (matches parts (split (codes ip)) ≡ true)
unfolding matching
mem-matching parts ip [] m = elim m [ ]
mem-matching parts ip (x ∷ ips) m = elim (Bool-cases (matches parts (split (codes x)))) [
  | inl h ↦
      elim (subst (Memᴰ ip) (ap (λ b. if b then x ∷ matching parts ips else matching parts ips) h)
        m) [
          | Memᴰ.head e ↦ (Memᴰ.head e, ap (λ z. matches parts (split (codes z))) e ∙ h)
          | Memᴰ.tail t ↦ let (u, v) = mem-matching parts ip ips t in (Memᴰ.tail u, v)
        ]
  | inr h ↦
      let (u, v) = mem-matching parts ip ips (
        subst (Memᴰ ip) (ap (λ b. if b then x ∷ matching parts ips else matching parts ips) h) m) in
      (Memᴰ.tail u, v)
]

matching-mem :
    (parts : List (List ℕ)) (ip : String) (ips : List String)
    → Memᴰ ip ips
    → matches parts (split (codes ip)) ≡ true
    → Memᴰ ip (matching parts ips)
unfolding matching
matching-mem parts ip [] m h = elim m [ ]
matching-mem parts ip (x ∷ ips) (Memᴰ.head e) h =
    subst (Memᴰ ip)
      (sym (
        ap (λ b. if b then x ∷ matching parts ips else matching parts ips)
          (ap (λ z. matches parts (split (codes z))) (sym e) ∙ h)))
      (Memᴰ.head e)
matching-mem parts ip (x ∷ ips) (Memᴰ.tail t) h =
    let rest = matching-mem parts ip ips t h in
    elim (Bool-cases (matches parts (split (codes x)))) [
      | inl g ↦
          subst (Memᴰ ip)
            (sym (ap (λ b. if b then x ∷ matching parts ips else matching parts ips) g))
            (Memᴰ.tail rest)
      | inr g ↦
          subst (Memᴰ ip)
            (sym (ap (λ b. if b then x ∷ matching parts ips else matching parts ips) g)) rest
    ]

filter_four :
    (a b c d : List ℕ) (ips : List String) (base : String)
    → NoDot a
    → NoDot b
    → NoDot c
    → NoDot d
    → codes base ≡ dotted a b c d
    → filter_floating_ips ips base ≡ matching (a ∷ b ∷ c ∷ d ∷ []) ips
unfolding filter_floating_ips
filter_four a b c d ips base ha hb hc hd e =
    let s = ap split e ∙ split-dotted a b c d ha hb hc hd in
    ap (λ z. if length z == 4 then matching z ips else ips) s

no_dot : List ℕ → Bool
no_dot [] = true
no_dot (c ∷ cs) = let rest = no_dot cs in if c == b'.' then false else rest

no_dot_sound : (l : List ℕ) → no_dot l ≡ true → NoDot l
unfolding no_dot
no_dot_sound [] h = tt
no_dot_sound (c ∷ cs) h = ground (arith, no_dot_sound cs)

no_dot_table : holds_below (λ n. no_dot (codes (show_ℕ n))) 256 ≡ true
unfolding holds_below no_dot show_ℕ
no_dot_table = refl

-- Of the IPs with a decimal last octet, `FilterFloatingIPs` keeps those, and only those, that are in
-- the list, share the first three parts of a base IP of four parts, and whose last octet is at
-- least 20.
pub filter_floating_ips_lem :
    (a b c d a' b' c' : List ℕ) (n : ℕ) (ips : List String) (base ip : String)
    → All NoDot (a ∷ b ∷ c ∷ d ∷ a' ∷ b' ∷ c' ∷ [])
    → codes base ≡ dotted a b c d
    → codes ip ≡ dotted a' b' c' (codes (show_ℕ n))
    → n < 256
    → Memᴰ ip (filter_floating_ips ips base)
      ↔ (Memᴰ ip ips × (a' ≡ a) × (b' ≡ b) × (c' ≡ c) × (20 ≤ n))
filter_floating_ips_lem a b c d a' b' c' n ips base ip
      (ha, (hb, (hc, (hd, (ha', (hb', (hc', _))))))) e e' lt =
    let f = filter_four a b c d ips base ha hb hc hd e in
    let hn = no_dot_sound (codes (show_ℕ n)) (test_below _ 256 n lt no_dot_table) in
    let s = ap split e' ∙ split-dotted a' b' c' (codes (show_ℕ n)) ha' hb' hc' hn in
    let (to, from) = matches_lem a b c d a' b' c' n lt in
    (
      (λ m.
          let (u, v) = mem-matching (a ∷ b ∷ c ∷ d ∷ []) ip ips (subst (Memᴰ ip) f m) in
          let (p, q, r, t) = to (ap (matches (a ∷ b ∷ c ∷ d ∷ [])) (sym s) ∙ v) in (u, p, q, r, t)),
      (λ (u, p, q, r, t). subst (Memᴰ ip) (sym f) (
          matching-mem (a ∷ b ∷ c ∷ d ∷ []) ip ips u
            (ap (matches (a ∷ b ∷ c ∷ d ∷ [])) s ∙ from (p, q, r, t)))),
    )

-- Everything passes if the base IP has not four parts.
pub filter_floating_ips_all :
    (ips : List String) (base : String)
    → length (split (codes base)) ≢ 4
    → filter_floating_ips ips base ≡ ips
unfolding filter_floating_ips
filter_floating_ips_all ips base h = ground arith
