-- ===== src/Message/Codec/Laws/Pieces.antt =====
-- The shared pieces of the decoders, applied to what the encoders write.
use architect_networking.Base.{
  ℕ, ◌<◌, ◌≡◌, refl, String, Option, none, some, List, [], ◌∷◌, ◌++◌, arith, All, length, map,
}
use architect_networking.Message.Codec.Buffer.{
  Polyglot, IsLawful, Kind, Filled, field, header, optional, nested, elements, slice, write_all,
  write_slice, write_body, u8_mod, u32_mod,
}

module _ (P : Polyglot) (L : IsLawful P) where
  -- A body is neither a nil nor an error.
  pub header_body :
      {X : Type 0} (x : X) (failed : String → X) (n : ℕ) (r : List P.Byte)
      (k : ℕ → List P.Byte → Filled P X)
      → n < u8_mod
      → header P x failed (P.enc_uint8 n ++ r) k ≡ k n r
  unfolding header
  header_body x failed n r k h =
      ground (arith, L.nil_of_uint8 n r, L.error_of_uint8 n r, L.uint8_of_uint8 n r)

  pub header_error :
      {X : Type 0} (x : X) (failed : String → X) (e : String) (r : List P.Byte)
      (k : ℕ → List P.Byte → Filled P X)
      → header P x failed (P.enc_error e ++ r) k ≡ (failed e, some r)
  unfolding header
  header_error x failed e r k = ground (arith, L.nil_of_error e r, L.error_of_error e r)

  pub header_nil :
      {X : Type 0} (x : X) (failed : String → X) (r : List P.Byte)
      (k : ℕ → List P.Byte → Filled P X)
      → header P x failed (P.enc_nil ++ r) k ≡ (x, some r)
  unfolding header
  header_nil x failed r k = ground (arith, L.nil_of_nil r)

  pub field-some :
      {A X : Type 0} (a : A) (r : List P.Byte) (x : X) (k : A → List P.Byte → Filled P X)
      → field P (some (a, r)) x k ≡ k a r
  unfolding field
  field-some a r x k = refl

  pub nested-some :
      {A X : Type 0} (a : A) (r : List P.Byte) (store : A → X) (k : A → List P.Byte → Filled P X)
      → nested P (a, some r) store k ≡ k a r
  unfolding nested
  nested-some a r store k = refl

  pub optional_nil :
      {X : Type 0} (decode : List P.Byte → Filled P X) (r : List P.Byte)
      → optional P decode (P.enc_nil ++ r) ≡ (none, some r)
  unfolding optional
  optional_nil decode r = ground (arith, L.nil_of_nil r)

  pub nil_of_write_body :
      (e : Option String) (n : ℕ) (b r : List P.Byte) → P.dec_nil (write_body P e n b r) ≡ none
  nil_of_write_body none n b r = L.nil_of_uint8 n b
  nil_of_write_body (some e) n b r = L.nil_of_error e r

  pub optional_body :
      {X : Type 0} (decode : List P.Byte → Filled P X) (b r : List P.Byte) (x : X)
      → P.dec_nil b ≡ none
      → decode b ≡ (x, some r)
      → optional P decode b ≡ (some x, some r)
  unfolding optional
  optional_body decode b r x n h = ground arith

  -- If each element is read back as `g` makes of it, so is the slice.
  elements-write_all :
      {X : Type 0} (p : X → Type 0) (g : X → X) (w : X → List P.Byte → List P.Byte) (blank : X)
      (decode : List P.Byte → Filled P X)
      → ((x : X) (r : List P.Byte) → p x → decode (w x r) ≡ (g x, some r))
      → (xs : List X) (r : List P.Byte) → All p xs
      → elements P blank decode (length xs) (write_all P w xs r) ≡ (map g xs, some r)
  unfolding elements write_all
  elements-write_all p g w blank decode h [] r q = refl
  elements-write_all p g w blank decode h (x ∷ xs) r q =
      ground (arith, h x (write_all P w xs r) q.0, elements-write_all p g w blank decode h xs r q.1)

  pub slice-write_slice :
      {X : Type 0} (p : X → Type 0) (g : X → X) (w : X → List P.Byte → List P.Byte) (blank : X)
      (decode : List P.Byte → Filled P X) (kind : Kind)
      → ((x : X) (r : List P.Byte) → p x → decode (w x r) ≡ (g x, some r))
      → (xs : List X) (r : List P.Byte) → All p xs
      → length xs < u32_mod
      → slice P blank decode kind (write_slice P w kind xs r) ≡ (map g xs, some r)
  unfolding slice write_slice field
  slice-write_slice p g w blank decode kind h xs r q n = ground (
    arith,
    L.slice_of_slice (length xs) kind (write_all P w xs r),
    elements-write_all p g w blank decode h xs r q,
  )
