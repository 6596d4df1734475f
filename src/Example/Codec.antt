-- ===== src/Example/Codec.antt =====
-- Keys with one-byte lengths, times of two bytes and numbers of one.
use alliance.Prelude.{
  ℕ, zero, suc, ◌≤◌, ◌≡◌, refl, true, Option, none, some, [], ◌∷◌, arith, length, leb,
  if◌then◌else◌,
}
use alliance.Prelude.Int.{pos, negsuc}
use alliance.Sdk.{Time}
use alliance.Types.Keys.{Bytes, KeyCodec}
use alliance.Types.Keys.Fields.{Fits, CodecLaws}

unfoldable pub length_prefix : Bytes → Option Bytes
length_prefix [] = some []
length_prefix (b ∷ bz) = if leb (length (b ∷ bz)) 255 then some (length (b ∷ bz) ∷ b ∷ bz) else none

unfoldable pub time_bytes : Time → Bytes
time_bytes (pos n) = 0 ∷ n ∷ []
time_bytes (negsuc n) = 1 ∷ n ∷ []

unfoldable pub bytes_time : Bytes → Option Time
bytes_time (zero ∷ n ∷ []) = some (pos n)
bytes_time (suc zero ∷ n ∷ []) = some (negsuc n)
bytes_time bz = none

unfoldable pub first_or_zero : Bytes → ℕ
first_or_zero [] = 0
first_or_zero (b ∷ bz) = b

unfoldable pub codec : KeyCodec
unfolding length_prefix time_bytes bytes_time first_or_zero
codec = record {
  must_length_prefix = length_prefix;
  format_time_bytes = time_bytes;
  parse_time_bytes = bytes_time;
  uint64_to_big_endian = λ n. n ∷ [];
  big_endian_to_uint64 = first_or_zero;
}

le-leb : (n : ℕ) → n ≤ 255 → leb n 255 ≡ true
le-leb n h = ground arith

prefix-Fits : (bz : Bytes) → Fits bz → length_prefix bz ≡ some (length bz ∷ bz)
unfolding length_prefix
prefix-Fits [] fits = absurd (omega (arith, fits.0))
prefix-Fits (b ∷ bz) fits = rw (le-leb (length (b ∷ bz)) fits.1)

time-roundtrip : (t : Time) → bytes_time (time_bytes t) ≡ some t
unfolding bytes_time time_bytes
time-roundtrip (pos n) = refl
time-roundtrip (negsuc n) = refl

time-Fits : (t : Time) → Fits (time_bytes t)
unfolding time_bytes
time-Fits (pos n) = (omega arith, omega arith)
time-Fits (negsuc n) = (omega arith, omega arith)

pub codec-CodecLaws : CodecLaws codec
unfolding codec
codec-CodecLaws = record {
  length_prefix = prefix-Fits;
  parse_format = time-roundtrip;
  time_fits = time-Fits;
  read_uint64 = λ n h. refl;
}
