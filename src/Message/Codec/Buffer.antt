-- ===== src/Message/Codec/Buffer.antt =====
-- polyglot's encoders and decoders as the generated code calls them, the laws it relies on (a value
-- that was written is read back, and the decoders of nil and of an error refuse the kind that
-- begins a message body), and the pieces that the decoders share.
use architect_networking.Base.{
  ℕ, suc, zero, ◌<◌, ◌≡◌, String, Bool, Option, none, some, List, [], ◌∷◌, ◌++◌, ℤ, length,
}

-- The tag that a slice carries for its elements.
pub data Kind : Type 0 where
  string_kind any_kind : Kind

pub record Polyglot : Type 1 where
  pub Byte : Type 0
  pub enc_nil : List Byte
  pub enc_error : String → List Byte
  pub enc_uint8 : ℕ → List Byte
  pub enc_uint32 : ℕ → List Byte
  pub enc_int64 : ℤ → List Byte
  pub enc_bool : Bool → List Byte
  pub enc_string : String → List Byte
  pub enc_slice : ℕ → Kind → List Byte
  -- `Nil()` is true, with the bytes behind it, or false, and then nothing is read.
  pub dec_nil : List Byte → Option (List Byte)
  pub dec_error : List Byte → Option (String × List Byte)
  pub dec_uint8 : List Byte → Option (ℕ × List Byte)
  pub dec_uint32 : List Byte → Option (ℕ × List Byte)
  pub dec_int64 : List Byte → Option (ℤ × List Byte)
  pub dec_bool : List Byte → Option (Bool × List Byte)
  pub dec_string : List Byte → Option (String × List Byte)
  pub dec_slice : Kind → List Byte → Option (ℕ × List Byte)

abbrev pub u8_mod : ℕ
u8_mod = 256

abbrev pub u32_mod : ℕ
u32_mod = 4294967296

pub record IsLawful (P : Polyglot) : Type 0 where
  pub nil_of_nil : (r : List P.Byte) → P.dec_nil (P.enc_nil ++ r) ≡ some r
  pub nil_of_error : (e : String) (r : List P.Byte) → P.dec_nil (P.enc_error e ++ r) ≡ none
  pub nil_of_uint8 : (n : ℕ) (r : List P.Byte) → P.dec_nil (P.enc_uint8 n ++ r) ≡ none
  pub error_of_error :
      (e : String) (r : List P.Byte) → P.dec_error (P.enc_error e ++ r) ≡ some (e, r)
  pub error_of_uint8 : (n : ℕ) (r : List P.Byte) → P.dec_error (P.enc_uint8 n ++ r) ≡ none
  pub uint8_of_uint8 :
      (n : ℕ) (r : List P.Byte) → n < u8_mod → P.dec_uint8 (P.enc_uint8 n ++ r) ≡ some (n, r)
  pub uint32_of_uint32 :
      (n : ℕ) (r : List P.Byte) → n < u32_mod → P.dec_uint32 (P.enc_uint32 n ++ r) ≡ some (n, r)
  pub int64_of_int64 : (n : ℤ) (r : List P.Byte) → P.dec_int64 (P.enc_int64 n ++ r) ≡ some (n, r)
  pub bool_of_bool : (v : Bool) (r : List P.Byte) → P.dec_bool (P.enc_bool v ++ r) ≡ some (v, r)
  pub string_of_string :
      (s : String) (r : List P.Byte) → P.dec_string (P.enc_string s ++ r) ≡ some (s, r)
  pub slice_of_slice :
      (n : ℕ) (k : Kind) (r : List P.Byte)
      → n < u32_mod
      → P.dec_slice k (P.enc_slice n k ++ r) ≡ some (n, r)

module _ (P : Polyglot) where
  -- What a decoder has filled, and the bytes left.
  abbrev pub Filled : Type 0 → Type 0
  Filled X = X × Option (List P.Byte)

  -- `x.F, err = d.T(); if err != nil { return err }`
  unfoldable pub field :
      {A X : Type 0} → Option (A × List P.Byte) → X → (A → List P.Byte → Filled X) → Filled X
  field none x k = (x, none)
  field (some (a, r)) x k = k a r

  -- The head of every `decode`: a nil, an error, or the flags of a body.
  unfoldable pub header :
      {X : Type 0} → X → (String → X) → List P.Byte → (ℕ → List P.Byte → Filled X) → Filled X
  unfolding field
  header x failed b k = elim (P.dec_nil b) [
    | some r ↦ (x, some r)
    | none ↦ elim (P.dec_error b) [
      | some (e, r) ↦ (failed e, some r)
      | none ↦ field (P.dec_uint8 b) x k
    ]
  ]

  -- `if !d.Nil() { x.F = NewF(); err = x.F.decode(d) … }`
  unfoldable pub optional :
      {X : Type 0} → (List P.Byte → Filled X) → List P.Byte → Filled (Option X)
  optional decode b = elim (P.dec_nil b) [
    | some r ↦ (none, some r)
    | none ↦ let (x, r) = decode b in (some x, r)
  ]

  unfoldable pub blanks : {X : Type 0} → X → ℕ → List X
  blanks x zero = []
  blanks x (suc n) = x ∷ blanks x n

  -- `for i := uint32(0); i < sliceSize; i++`, into a slice of that length: `decode` gives the
  -- element, and `blank` is what the slice holds before it is read.
  unfoldable pub elements :
      {X : Type 0} → X → (List P.Byte → Filled X) → ℕ → List P.Byte → Filled (List X)
  unfolding blanks
  elements blank decode zero b = ([], some b)
  elements blank decode (suc n) b =
      let (x, left) = decode b in
      elim left [
        | none ↦ (x ∷ blanks blank n, none)
        | some r ↦ let (xs, left') = elements blank decode n r in (x ∷ xs, left')
      ]

  -- A slice with its size in front.
  unfoldable pub slice :
      {X : Type 0} → X → (List P.Byte → Filled X) → Kind → List P.Byte → Filled (List X)
  unfolding elements
  slice blank decode kind b = field (P.dec_slice kind b) [] (λ n r. elements blank decode n r)

  -- `for _, v := range x.F { v.Encode(b) }`
  unfoldable pub write_all :
      {X : Type 0} → (X → List P.Byte → List P.Byte) → List X → List P.Byte → List P.Byte
  write_all w [] r = r
  write_all w (x ∷ xs) r = w x (write_all w xs r)

  unfoldable pub write_slice :
      {X : Type 0} → (X → List P.Byte → List P.Byte) → Kind → List X → List P.Byte → List P.Byte
  unfolding write_all
  write_slice w kind xs r = P.enc_slice (length xs) kind ++ write_all w xs r

  -- Reading a nested value stores what was filled, also on a failure.
  unfoldable pub nested :
      {A X : Type 0} → Filled A → (A → X) → (A → List P.Byte → Filled X) → Filled X
  nested (a, none) store k = (store a, none)
  nested (a, some r) store k = k a r

  -- The head of every `Encode`: a nil pointer, an error, or the flags and the body.
  abbrev pub write_body : Option String → ℕ → List P.Byte → List P.Byte → List P.Byte
  write_body none flags body r = P.enc_uint8 flags ++ body
  write_body (some e) flags body r = P.enc_error e ++ r
