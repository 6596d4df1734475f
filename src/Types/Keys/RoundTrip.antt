-- ===== src/Types/Keys/RoundTrip.antt =====
-- x/alliance/types/keys.go: the keys that are read from the indexes' keys.
use alliance.Prelude.{◌+◌, ◌≤◌, ◌≡◌, refl, ◌∙◌, some, [], ◌∷◌, ◌++◌, arith, length, length-append}
use mathlib.Core.List.{append_assoc, append-nil}
use alliance.Sdk.{Time}
use alliance.Sdk.Result.{ok, ◌>>=◌}
use alliance.Types.Keys.{
  Bytes, KeyCodec, drop, get_redelegation_index_key, parse_redelegation_index_for_redelegation_key,
  get_redelegation_key, get_unbonding_index_key, parse_unbonding_index_key_to_undelegation_key,
  get_undelegation_queue_key,
}
use alliance.Types.Keys.Fields.{
  Fits, CodecLaws, skip_field-At, read_field-At, drop-At, append_field-eq,
}

-- A field and what stands behind it.
abbrev pub field : Bytes → Bytes → Bytes
field bz rest = length bz ∷ (bz ++ rest)

abbrev pub denom_field : Bytes → Bytes
denom_field denom = denom ++ 0 ∷ []

pub denom-Fits : (denom : Bytes) → length denom ≤ 254 → Fits (denom_field denom)
denom-Fits denom h =
    (omega (arith, length-append denom (0 ∷ [])), omega (arith, length-append denom (0 ∷ [])))

module _ (c : KeyCodec) (laws : CodecLaws c) where
  pub redelegation_index_key-eq :
      (src : Bytes) (t : Time) (denom dst del : Bytes)
      → Fits src
      → length denom ≤ 254
      → Fits dst
      → Fits del
      → get_redelegation_index_key c src t denom dst del
        ≡ ok (
            0x31
            ∷ field src (
                field
                  (c.format_time_bytes t)
                  (field (denom_field denom) (field dst (field del [])))))
  unfolding get_redelegation_index_key
  redelegation_index_key-eq src t denom dst del hs hd ht hl = rw (append_field-eq c laws _ src hs) (
      rw (append_field-eq c laws _ (c.format_time_bytes t) (laws.time_fits t)) (
        rw (append_field-eq c laws _ (denom_field denom) (denom-Fits denom hd)) (
          rw (append_field-eq c laws _ dst ht)
            (rw (append_field-eq c laws _ del hl) (simp (append_assoc, append-nil))))))

  pub redelegation_key-eq :
      (del denom dst : Bytes) (t : Time)
      → Fits del
      → length denom ≤ 254
      → Fits dst
      → get_redelegation_key c del denom dst t
        ≡ ok (0x22 ∷ field del (field (denom_field denom) (field dst (c.format_time_bytes t))))
  unfolding get_redelegation_key
  redelegation_key-eq del denom dst t hl hd ht = rw (append_field-eq c laws _ del hl) (
      rw (append_field-eq c laws _ (denom_field denom) (denom-Fits denom hd))
        (rw (append_field-eq c laws _ dst ht) (simp (append_assoc))))

  parse_index_fields :
      (src time denom dst del : Bytes)
      → Fits denom
      → Fits dst
      → Fits del
      → parse_redelegation_index_for_redelegation_key c
          (0x31 ∷ field src (field time (field denom (field dst (field del [])))))
        ≡ ok (0x22 ∷ field del (field denom (field dst time)), c.parse_time_bytes time)
  unfolding parse_redelegation_index_for_redelegation_key drop
  parse_index_fields src time denom dst del hd ht hl =
      let key = 0x31 ∷ field src (field time (field denom (field dst (field del [])))) in
      let at_time = drop-At key 1 src (field time (field denom (field dst (field del [])))) refl in
      let at_denom = drop-At key (1 + 1 + length src) time _ at_time in
      let at_dst = drop-At key _ denom _ at_denom in
      let at_del = drop-At key _ dst _ at_dst in
      rw (skip_field-At key 1 src _ refl) (
        rw (read_field-At key _ time _ at_time) (
          rw (read_field-At key _ denom _ at_denom) (
            rw (read_field-At key _ dst _ at_dst) (
              rw (read_field-At key _ del _ at_del) (
                rw (append_field-eq c laws _ del hl) (
                  rw (append_field-eq c laws _ denom hd)
                    (rw (append_field-eq c laws _ dst ht) (simp (append_assoc)))))))))

  -- The key that is parsed from a redelegation's index key is the redelegation's own key, with
  -- its completion time, for addresses of 1 to 255 bytes and denominations of at most 254.
  pub redelegation_index_key_roundtrip :
      (src : Bytes) (t : Time) (denom dst del : Bytes)
      → Fits src
      → length denom ≤ 254
      → Fits dst
      → Fits del
      → (get_redelegation_index_key c src t denom dst del
          >>= parse_redelegation_index_for_redelegation_key c)
        ≡ (get_redelegation_key c del denom dst t >>= λ key. ok (key, some t))
  redelegation_index_key_roundtrip src t denom dst del hs hd ht hl =
      rw (redelegation_index_key-eq src t denom dst del hs hd ht hl) (
        rw (redelegation_key-eq del denom dst t hl hd ht) (
          parse_index_fields src (c.format_time_bytes t) (denom_field denom) dst del
            (denom-Fits denom hd) ht hl
          ∙ rw (laws.parse_format t)))

  unbonding_index_key-eq :
      (val : Bytes) (t : Time) (denom del : Bytes)
      → Fits val
      → length denom ≤ 254
      → Fits del
      → get_unbonding_index_key c val t denom del
        ≡ ok (
            0x32
            ∷ field val (field (c.format_time_bytes t) (field (denom_field denom) (field del []))))
  unfolding get_unbonding_index_key
  unbonding_index_key-eq val t denom del hv hd hl = rw (append_field-eq c laws _ val hv) (
      rw (append_field-eq c laws _ (c.format_time_bytes t) (laws.time_fits t)) (
        rw (append_field-eq c laws _ (denom_field denom) (denom-Fits denom hd))
          (rw (append_field-eq c laws _ del hl) (simp (append_assoc, append-nil)))))

  pub undelegation_queue_key-eq :
      (t : Time) (del : Bytes)
      → Fits del
      → get_undelegation_queue_key c t del
        ≡ ok (0x24 ∷ field (c.format_time_bytes t) (field del []))
  unfolding get_undelegation_queue_key
  undelegation_queue_key-eq t del hl =
      rw (append_field-eq c laws _ (c.format_time_bytes t) (laws.time_fits t))
        (rw (append_field-eq c laws _ del hl) (simp (append_assoc, append-nil)))

  parse_unbonding_fields :
      (val time denom del : Bytes)
      → Fits time
      → Fits del
      → parse_unbonding_index_key_to_undelegation_key c
          (0x32 ∷ field val (field time (field denom (field del []))))
        ≡ ok (0x24 ∷ field time (field del []), c.parse_time_bytes time)
  unfolding parse_unbonding_index_key_to_undelegation_key drop
  parse_unbonding_fields val time denom del ht hl =
      let key = 0x32 ∷ field val (field time (field denom (field del []))) in
      let at_time = drop-At key 1 val (field time (field denom (field del []))) refl in
      let at_denom = drop-At key (1 + 1 + length val) time _ at_time in
      let at_del = drop-At key _ denom _ at_denom in
      rw (skip_field-At key 1 val _ refl) (
        rw (read_field-At key _ time _ at_time) (
          rw (skip_field-At key _ denom _ at_denom) (
            rw (read_field-At key _ del _ at_del) (
              rw (append_field-eq c laws _ time ht)
                (rw (append_field-eq c laws _ del hl) (simp (append_assoc, append-nil)))))))

  -- The key that is parsed from an undelegation's index key is the key of the delegator's queue
  -- for its completion time, for addresses of 1 to 255 bytes and denominations of at most 254.
  pub unbonding_index_key_roundtrip :
      (val : Bytes) (t : Time) (denom del : Bytes)
      → Fits val
      → length denom ≤ 254
      → Fits del
      → (get_unbonding_index_key c val t denom del
          >>= parse_unbonding_index_key_to_undelegation_key c)
        ≡ (get_undelegation_queue_key c t del >>= λ key. ok (key, some t))
  unbonding_index_key_roundtrip val t denom del hv hd hl =
      rw (unbonding_index_key-eq val t denom del hv hd hl) (
        rw (undelegation_queue_key-eq t del hl) (
          parse_unbonding_fields val (c.format_time_bytes t) (denom_field denom) del
            (laws.time_fits t) hl
          ∙ rw (laws.parse_format t)))
