-- ===== src/Api/Rules/Fields.antt =====
-- What the marshalled fields of a rule leave in its object, and what is read of it.
use architect_networking.Base.Chain.{◌>>=◌}
use architect_networking.Base.{
  String, false, Option, none, some, List, [], ◌∷◌, Except, ok, err, str_eq, All, ◌≡◌, refl, sym,
  ap, ◌∙◌, subst, eq_iff,
}
use architect_networking.Api.Rules.{
  Object, Field, find_key, marshalled, put_field, put_fields, read_field, reading,
}

-- What a field leaves under its name.
abbrev pub Kept : Option (Except String String) → Option String → Type 0
Kept none found = found ≡ none
Kept (some r) found = (raw : String) × (r ≡ ok raw) × (found ≡ some raw)

abbrev pub IsOther : String → Field → Type 0
IsOther n f = (str_eq n f.0 ≡ false) × (str_eq f.0 n ≡ false)

abbrev pub AreDistinct : List Field → Type 0
AreDistinct [] = Unit
AreDistinct (f ∷ fs) = All (IsOther f.0) fs × AreDistinct fs

pub bind_ok :
    {A B : Type 0} (r : Except String A) (g : A → Except String B) (b : B)
    → (r >>= g) ≡ ok b
    → (a : A) × (r ≡ ok a) × (g a ≡ ok b)
bind_ok (err e) g b h = absurd cc
bind_ok (ok a) g b h = (a, refl, h)

skip_key :
    (m n raw : String) (o : Object) → str_eq m n ≡ false → find_key n ((m, raw) ∷ o) ≡ find_key n o
unfolding find_key
skip_key m n raw o e = rw e refl

own_key : (n raw : String) (o : Object) → find_key n ((n, raw) ∷ o) ≡ some raw
unfolding find_key
own_key n raw o = rw ((eq_iff n n).1 refl) refl

put_other :
    (n : String) (f : Field) (o o' : Object)
    → IsOther n f
    → put_field f o ≡ ok o'
    → find_key n o' ≡ find_key n o
unfolding put_field find_key
put_other n (m, none) o o' d h = let e : o ≡ o' = cc in ap (find_key n) (sym e)
put_other n (m, some (ok raw)) o o' d h =
    let e : ((m, raw) ∷ o) ≡ o' = cc in ap (find_key n) (sym e) ∙ skip_key m n raw o d.1
put_other n (m, some (err e)) o o' d h = absurd cc

put_others :
    (n : String) (fs : List Field) (o o' : Object)
    → All (IsOther n) fs
    → put_fields fs o ≡ ok o'
    → find_key n o' ≡ find_key n o
unfolding put_fields
put_others n [] o o' d h = let e : o ≡ o' = cc in ap (find_key n) (sym e)
put_others n (f ∷ fs) o o' d h =
    let (o1, e1, e2) = bind_ok (put_field f o) _ o' h in
    put_others n fs o1 o' d.1 e2 ∙ put_other n f o o1 d.0 e1

put_own :
    (n : String) (v : Option (Except String String)) (o o' : Object)
    → find_key n o ≡ none
    → put_field (n, v) o ≡ ok o'
    → Kept v (find_key n o')
unfolding put_field find_key
put_own n none o o' a h = let e : o ≡ o' = cc in ap (find_key n) (sym e) ∙ a
put_own n (some (ok raw)) o o' a h =
    let e : ((n, raw) ∷ o) ≡ o' = cc in (raw, refl, ap (find_key n) (sym e) ∙ own_key n raw o)
put_own n (some (err e)) o o' a h = absurd cc

absent_after :
    (f : Field) (fs : List Field) (o o' : Object)
    → All (IsOther f.0) fs
    → All (λ (g : Field). find_key g.0 o ≡ none) fs
    → put_field f o ≡ ok o'
    → All (λ (g : Field). find_key g.0 o' ≡ none) fs
absent_after f [] o o' d a h = tt
absent_after f (g ∷ fs) o o' d a h =
    (put_other g.0 f o o' (d.0.1, d.0.0) h ∙ a.0, absent_after f fs o o' d.1 a.1 h)

pub put_all-Kept :
    (fs : List Field) (o o' : Object)
    → AreDistinct fs
    → All (λ (f : Field). find_key f.0 o ≡ none) fs
    → put_fields fs o ≡ ok o'
    → All (λ (f : Field). Kept f.1 (find_key f.0 o')) fs
unfolding put_fields
put_all-Kept [] o o' d a h = tt
put_all-Kept (f ∷ fs) o o' d a h =
    let (o1, e1, e2) = bind_ok (put_field f o) _ o' h in
    (
      subst (Kept f.1) (sym (put_others f.0 fs o1 o' d.0 e2)) (put_own f.0 f.1 o o1 a.0 e1),
      put_all-Kept fs o1 o' d.1 (absent_after f fs o o1 d.0 a.1 e1) e2,
    )

-- A property of every raw text that a field gives.
abbrev pub GivesOnly : (String → Type 0) → Field → Type 0
GivesOnly p f = (raw : String) → f.1 ≡ some (ok raw) → p raw

pub put_all-GivesOnly :
    (p : String → Type 0) (fs : List Field) (o o' : Object)
    → All (GivesOnly p) fs
    → All (λ (kv : String × String). p kv.1) o
    → put_fields fs o ≡ ok o'
    → All (λ (kv : String × String). p kv.1) o'
unfolding put_fields put_field
put_all-GivesOnly p [] o o' g a h =
    let e : o ≡ o' = cc in subst (All (λ (kv : String × String). p kv.1)) e a
put_all-GivesOnly p ((n, none) ∷ fs) o o' g a h = put_all-GivesOnly p fs o o' g.1 a h
put_all-GivesOnly p ((n, some (ok raw)) ∷ fs) o o' g a h =
    put_all-GivesOnly p fs ((n, raw) ∷ o) o' g.1 (g.0 raw refl, a) h
put_all-GivesOnly p ((n, some (err e)) ∷ fs) o o' g a h = absurd cc

pub same-Kept :
    (fs : List Field) (o o' : Object)
    → ((k : String) → find_key k o' ≡ find_key k o)
    → All (λ (f : Field). Kept f.1 (find_key f.0 o)) fs
    → All (λ (f : Field). Kept f.1 (find_key f.0 o')) fs
same-Kept [] o o' same k = tt
same-Kept (f ∷ fs) o o' same k = (subst (Kept f.1) (sym (same f.0)) k.0, same-Kept fs o o' same k.1)

pub read-Kept :
    {A : Type 0} (m : A → Except String String) (u : String → Except String (Option A))
    (name : String) (v : Option A) (o : Object)
    → ((a : A) (raw : String) → v ≡ some a → m a ≡ ok raw → u raw ≡ ok (some a))
    → Kept (marshalled m v) (find_key name o)
    → read_field u name o none ≡ ok v
unfolding read_field reading
read-Kept m u name none o back k = rw (k, read_field) refl
read-Kept m u name (some a) o back (raw, e, k) = rw (k, back a raw refl e, read_field) refl
