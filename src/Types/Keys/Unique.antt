-- ===== src/Types/Keys/Unique.antt =====
-- x/alliance/types/keys.go: different parts make different keys.
use alliance.Prelude.{ℕ, ◌≤◌, ◌≡◌, refl, sym, ap, ◌∙◌, [], ◌∷◌, ◌++◌, arith, length, length-append}
use alliance.Sdk.{Time}
use alliance.Sdk.Result.{Result, ok, err, panic}
use alliance.Types.Keys.{
  Bytes, KeyCodec, get_delegation_key, get_redelegation_key, get_redelegations_key,
}
use alliance.Types.Keys.Fields.{Fits, CodecLaws, append_field-eq}
use alliance.Types.Keys.RoundTrip.{field, denom_field, denom-Fits, redelegation_key-eq}
use mathlib.Core.List.{append_assoc, append-nil}

abbrev head_or_zero : Bytes → ℕ
head_or_zero [] = 0
head_or_zero (b ∷ bz) = b

abbrev tail : Bytes → Bytes
tail [] = []
tail (b ∷ bz) = bz

-- Texts of the same length in front part in one way.
append_cancel : (a b x y : Bytes) → length a ≡ length b → a ++ x ≡ b ++ y → (a ≡ b) × (x ≡ y)
append_cancel [] [] x y n e = (refl, e)
append_cancel [] (b ∷ bs) x y n e = absurd (omega (arith, n))
append_cancel (a ∷ as') [] x y n e = absurd (omega (arith, n))
append_cancel (a ∷ as') (b ∷ bs) x y n e =
    let (same, rest) = append_cancel as' bs x y (omega (arith, n)) (ap tail e) in
    (ap (λ h. h ∷ as') (ap head_or_zero e) ∙ ap (λ t. b ∷ t) same, rest)

field_cancel : (a b x y : Bytes) → field a x ≡ field b y → (a ≡ b) × (x ≡ y)
field_cancel a b x y e = append_cancel a b x y (ap head_or_zero e) (ap tail e)

last_cancel : (a b : Bytes) → denom_field a ≡ denom_field b → a ≡ b
last_cancel a b e =
    (append_cancel a b (0 ∷ []) (0 ∷ [])
      (omega (arith, ap (length {A = ℕ}) e, length-append a (0 ∷ []), length-append b (0 ∷ [])))
      e).0

abbrev bytes_or_nil : Result Bytes → Bytes
bytes_or_nil (ok bz) = bz
bytes_or_nil (err e) = []
bytes_or_nil panic = []

module _ (c : KeyCodec) (laws : CodecLaws c) where
  delegation_key-eq :
      (del val denom : Bytes)
      → Fits del
      → Fits val
      → length denom ≤ 254
      → get_delegation_key c del val denom
        ≡ ok (0x21 ∷ field del (field val (field (denom_field denom) [])))
  unfolding get_delegation_key
  delegation_key-eq del val denom hl hv hd = rw (append_field-eq c laws _ del hl) (
      rw (append_field-eq c laws _ val hv) (
        rw (append_field-eq c laws _ (denom_field denom) (denom-Fits denom hd))
          (simp (append_assoc, append-nil))))

  -- Delegations are stored under one key only where delegator, validator and denomination are
  -- the same, for addresses of 1 to 255 bytes and denominations of at most 254.
  pub delegation_key_unique :
      (del val denom del' val' denom' : Bytes)
      → Fits del
      → Fits val
      → length denom ≤ 254
      → Fits del'
      → Fits val'
      → length denom' ≤ 254
      → get_delegation_key c del val denom ≡ get_delegation_key c del' val' denom'
      → (del ≡ del') × (val ≡ val') × (denom ≡ denom')
  delegation_key_unique del val denom del' val' denom' hl hv hd hl' hv' hd' e =
      let same = ap tail (
        ap bytes_or_nil (
          sym (delegation_key-eq del val denom hl hv hd)
          ∙ (e ∙ delegation_key-eq del' val' denom' hl' hv' hd'))) in
      let (same_del, rest) = field_cancel del del' _ _ same in
      let (same_val, rest') = field_cancel val val' _ _ rest in
      (same_del, same_val, last_cancel denom denom' (field_cancel _ _ [] [] rest').0)

  redelegations_key-eq :
      (del denom dst : Bytes)
      → Fits del
      → length denom ≤ 254
      → Fits dst
      → get_redelegations_key c del denom dst
        ≡ ok (0x22 ∷ field del (field (denom_field denom) (field dst [])))
  unfolding get_redelegations_key
  redelegations_key-eq del denom dst hl hd ht = rw (append_field-eq c laws _ del hl) (
      rw (append_field-eq c laws _ (denom_field denom) (denom-Fits denom hd))
        (rw (append_field-eq c laws _ dst ht) (simp (append_assoc, append-nil))))

  -- The prefix that HasRedelegation iterates over is a prefix of a redelegation's key only where
  -- delegator, denomination and destination are the same, for addresses of 1 to 255 bytes and
  -- denominations of at most 254.
  pub redelegations_key_prefix :
      (del denom dst del' denom' dst' : Bytes) (t : Time) {prefix key rest : Bytes}
      → Fits del
      → length denom ≤ 254
      → Fits dst
      → Fits del'
      → length denom' ≤ 254
      → Fits dst'
      → get_redelegations_key c del denom dst ≡ ok prefix
      → get_redelegation_key c del' denom' dst' t ≡ ok key
      → key ≡ prefix ++ rest
      → (del' ≡ del) × (denom' ≡ denom) × (dst' ≡ dst) × (rest ≡ c.format_time_bytes t)
  redelegations_key_prefix del denom dst del' denom' dst' t {prefix} {key} {rest} hl hd ht hl' hd'
        ht' ep ek e =
      let p = ap bytes_or_nil (sym (redelegations_key-eq del denom dst hl hd ht) ∙ ep) in
      let q =
        ap bytes_or_nil (sym (redelegation_key-eq c laws del' denom' dst' t hl' hd' ht') ∙ ek) in
      let whole = q ∙ (e ∙ ap (λ x. x ++ rest) (sym p)) in
      let (same_del, r1) = field_cancel del' del _ _ (ap tail whole ∙ simp append_assoc) in
      let (same_denom, r2) = field_cancel (denom_field denom') (denom_field denom) _ _ r1 in
      let (same_dst, r3) = field_cancel dst' dst _ _ r2 in
      (same_del, last_cancel denom' denom same_denom, same_dst, sym r3)
