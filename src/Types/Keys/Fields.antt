-- ===== src/Types/Keys/Fields.antt =====
-- x/alliance/types/keys.go: a field behind what is before it.
use alliance.Prelude.{
  ℕ, zero, suc, ◌+◌, ◌≤◌, ◌<◌, ◌≡◌, refl, sym, ap, ◌∙◌, some, [], ◌∷◌, ◌++◌, arith, length,
  length-append,
}
use mathlib.Core.List.{append_assoc}
use native.Mathlib.Nat.{suc-add}
use alliance.Sdk.{Time}
use alliance.Sdk.Result.{ok}
use alliance.Types.Keys.{
  Bytes, KeyCodec, drop, take_exactly, byte_at, slice, slice_before_last, read_field, skip_field,
  append_field,
}

-- What fits behind a length byte.
abbrev pub Fits : Bytes → Type 0
Fits bz = (1 ≤ length bz) × (length bz ≤ 255)

-- What the SDK documents of the functions that keys.go takes from it: a prefix of one byte for a
-- length of 1 to 255 (nothing is put before no bytes), times that parse back and fit behind such
-- a prefix, and numbers below 2^64 that read back.
pub record CodecLaws (c : KeyCodec) : Type 0 where
  pub length_prefix : (bz : Bytes) → Fits bz → c.must_length_prefix bz ≡ some (length bz ∷ bz)
  pub parse_format : (t : Time) → c.parse_time_bytes (c.format_time_bytes t) ≡ some t
  pub time_fits : (t : Time) → Fits (c.format_time_bytes t)
  pub read_uint64 :
      (n : ℕ) → n < 18446744073709551616 → c.big_endian_to_uint64 (c.uint64_to_big_endian n) ≡ n

drop-nil : (n : ℕ) → drop n [] ≡ []
unfolding drop
drop-nil zero = refl
drop-nil (suc n) = refl

pub drop-add : (a b : ℕ) (key : Bytes) → drop (a + b) key ≡ drop b (drop a key)
unfolding drop
drop-add zero b key = ap (λ n. drop n key) (omega arith)
drop-add (suc a) b [] = drop-nil (suc a + b) ∙ sym (drop-nil b)
drop-add (suc a) b (x ∷ key) = ap (λ n. drop n (x ∷ key)) (suc-add a b) ∙ drop-add a b key

drop-append : (bz rest : Bytes) → drop (length bz) (bz ++ rest) ≡ rest
unfolding drop
drop-append [] rest = refl
drop-append (b ∷ bz) rest = drop-append bz rest

take_exactly-append : (bz rest : Bytes) → take_exactly (length bz) (bz ++ rest) ≡ some bz
unfolding take_exactly
take_exactly-append [] rest = refl
take_exactly-append (b ∷ bz) rest = rw (take_exactly-append bz rest)

length_last : (bz : Bytes) (b : ℕ) → length (bz ++ b ∷ []) ≡ suc (length bz)
length_last bz b = omega (arith, length-append bz (b ∷ []))

-- At an offset stands a field, and what is behind it.
abbrev pub At : Bytes → ℕ → Bytes → Bytes → Type 0
At key offset bz rest = drop offset key ≡ length bz ∷ (bz ++ rest)

pub skip_field-At :
    (key : Bytes) (offset : ℕ) (bz rest : Bytes)
    → At key offset bz rest
    → skip_field key offset ≡ ok (offset + 1 + length bz)
unfolding skip_field byte_at
skip_field-At key offset bz rest at = rw at

pub byte_at-At :
    (key : Bytes) (offset : ℕ) (bz rest : Bytes)
    → At key offset bz rest
    → byte_at key offset ≡ ok (length bz)
unfolding byte_at
byte_at-At key offset bz rest at = rw at

-- A field read without its last byte.
pub slice_before_last-At :
    (key : Bytes) (offset : ℕ) (bz : Bytes) (b : ℕ) (rest : Bytes)
    → At key offset (bz ++ b ∷ []) rest
    → slice_before_last key (offset + 1) (length (bz ++ b ∷ [])) ≡ ok bz
unfolding slice_before_last slice drop
slice_before_last-At key offset bz b rest at = rw (length_last bz b) (
    rw (drop-add offset 1 key)
      (rw at (rw (append_assoc bz (b ∷ []) rest) (rw (take_exactly-append bz (b ∷ rest))))))

pub read_field-At :
    (key : Bytes) (offset : ℕ) (bz rest : Bytes)
    → At key offset bz rest
    → read_field key offset ≡ ok (bz, offset + 1 + length bz)
unfolding read_field byte_at slice drop
read_field-At key offset bz rest at =
    rw (at, drop-add offset 1 key, at, take_exactly-append bz rest)

-- Behind the field.
pub drop-At :
    (key : Bytes) (offset : ℕ) (bz rest : Bytes)
    → At key offset bz rest
    → drop (offset + 1 + length bz) key ≡ rest
unfolding drop
drop-At key offset bz rest at =
    rw (drop-add (offset + 1) (length bz) key, drop-add offset 1 key, at, drop-append bz rest)

pub append_field-eq :
    (c : KeyCodec)
    → CodecLaws c
    → (key bz : Bytes) → Fits bz
    → append_field c key bz ≡ ok (key ++ length bz ∷ bz)
unfolding append_field
append_field-eq c laws key bz fits = rw (laws.length_prefix bz fits)
