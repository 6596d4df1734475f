-- ===== src/Types/Keys/Snapshots.antt =====
-- x/alliance/types/keys.go: the keys whose parts are read back: snapshots of reward weights, the
-- queue of decays, redelegations and undelegations.
use alliance.Prelude.{ℕ, ◌≤◌, ◌<◌, ◌≡◌, refl, ◌∙◌, some, [], ◌∷◌, length}
use mathlib.Core.List.{append_assoc, append-nil}
use alliance.Sdk.{Time}
use alliance.Sdk.Result.{ok, or_panic, ◌>>=◌}
use alliance.Types.Keys.{
  Bytes, KeyCodec, drop, get_reward_weight_change_snapshot_key,
  parse_reward_weight_change_snapshot_key, get_reward_weight_decay_queue_key,
  parse_reward_weight_decay_queue_key_for_denom, get_redelegation_key,
  parse_redelegation_key_for_completion_time, get_undelegation_queue_key,
  parse_undelegation_queue_key_for_completion_time,
}
use alliance.Types.Keys.Fields.{
  Fits, CodecLaws, At, skip_field-At, read_field-At, drop-At, append_field-eq, byte_at-At,
  slice_before_last-At,
}
use alliance.Types.Keys.RoundTrip.{
  field, denom_field, denom-Fits, redelegation_key-eq, undelegation_queue_key-eq,
}

module _ (c : KeyCodec) (laws : CodecLaws c) where
  snapshot_key-eq :
      (denom val : Bytes) (height : ℕ)
      → length denom ≤ 254
      → Fits val
      → get_reward_weight_change_snapshot_key c denom val height
        ≡ ok (0x14 ∷ field (denom_field denom) (field val (c.uint64_to_big_endian height)))
  unfolding get_reward_weight_change_snapshot_key
  snapshot_key-eq denom val height hd hv =
      rw (append_field-eq c laws _ (denom_field denom) (denom-Fits denom hd))
        (rw (append_field-eq c laws _ val hv) (simp append_assoc))

  parse_snapshot_fields :
      (denom val number : Bytes)
      → parse_reward_weight_change_snapshot_key c
          (0x14 ∷ field (denom_field denom) (field val number))
        ≡ ok (denom, val, c.big_endian_to_uint64 number)
  unfolding parse_reward_weight_change_snapshot_key drop
  parse_snapshot_fields denom val number =
      let key = 0x14 ∷ field (denom_field denom) (field val number) in
      let at_denom : At key 1 (denom_field denom) (field val number) = refl in
      let at_val = drop-At key 1 (denom_field denom) _ at_denom in
      rw (byte_at-At key 1 (denom_field denom) _ at_denom) (
        rw (slice_before_last-At key 1 denom 0 _ at_denom)
          (rw (read_field-At key _ val _ at_val) (rw (drop-At key _ val _ at_val))))

  -- What a reward weight snapshot is stored under reads back as its denomination, validator and
  -- height, for a validator of 1 to 255 bytes, a denomination of at most 254 and a height below
  -- 2^64.
  pub snapshot_key_roundtrip :
      (denom val : Bytes) (height : ℕ)
      → length denom ≤ 254
      → Fits val
      → height < 18446744073709551616
      → (get_reward_weight_change_snapshot_key c denom val height
          >>= parse_reward_weight_change_snapshot_key c)
        ≡ ok (denom, val, height)
  snapshot_key_roundtrip denom val height hd hv hh = rw (snapshot_key-eq denom val height hd hv) (
      parse_snapshot_fields denom val (c.uint64_to_big_endian height)
      ∙ rw (laws.read_uint64 height hh))

  decay_queue_key-eq :
      (t : Time) (denom : Bytes)
      → length denom ≤ 254
      → get_reward_weight_decay_queue_key c t denom
        ≡ ok (0x15 ∷ field (c.format_time_bytes t) (field (denom_field denom) []))
  unfolding get_reward_weight_decay_queue_key
  decay_queue_key-eq t denom hd =
      rw (append_field-eq c laws _ (c.format_time_bytes t) (laws.time_fits t)) (
        rw (append_field-eq c laws _ (denom_field denom) (denom-Fits denom hd))
          (simp (append_assoc, append-nil)))

  parse_decay_fields :
      (time denom : Bytes)
      → parse_reward_weight_decay_queue_key_for_denom c
          (0x15 ∷ field time (field (denom_field denom) []))
        ≡ ok (c.parse_time_bytes time, denom)
  unfolding parse_reward_weight_decay_queue_key_for_denom drop
  parse_decay_fields time denom =
      let key = 0x15 ∷ field time (field (denom_field denom) []) in
      let at_time : At key 1 time (field (denom_field denom) []) = refl in
      let at_denom = drop-At key 1 time _ at_time in
      rw (read_field-At key 1 time _ at_time) (
        rw (byte_at-At key _ (denom_field denom) _ at_denom)
          (rw (slice_before_last-At key _ denom 0 _ at_denom)))

  -- The key of the queue of reward weight decays reads back as its time and denomination, for a
  -- denomination of at most 254 bytes.
  pub decay_queue_key_roundtrip :
      (t : Time) (denom : Bytes)
      → length denom ≤ 254
      → (get_reward_weight_decay_queue_key c t denom
          >>= parse_reward_weight_decay_queue_key_for_denom c)
        ≡ ok (some t, denom)
  decay_queue_key_roundtrip t denom hd =
      rw (decay_queue_key-eq t denom hd)
        (parse_decay_fields (c.format_time_bytes t) denom ∙ rw (laws.parse_format t))

  parse_redelegation_fields :
      (del denom dst time : Bytes)
      → parse_redelegation_key_for_completion_time c
          (0x22 ∷ field del (field denom (field dst time)))
        ≡ or_panic (c.parse_time_bytes time)
  unfolding parse_redelegation_key_for_completion_time drop
  parse_redelegation_fields del denom dst time =
      let key = 0x22 ∷ field del (field denom (field dst time)) in
      let at_denom = drop-At key 1 del (field denom (field dst time)) refl in
      let at_dst = drop-At key _ denom _ at_denom in
      rw (skip_field-At key 1 del _ refl) (
        rw (skip_field-At key _ denom _ at_denom)
          (rw (skip_field-At key _ dst _ at_dst) (rw (drop-At key _ dst _ at_dst))))

  -- The completion times that are read from the keys of a redelegation and of the undelegation
  -- queue are those the keys were made with, for addresses of 1 to 255 bytes and denominations of
  -- at most 254.
  pub completion_time_roundtrip :
      (del denom dst : Bytes) (t : Time)
      → Fits del
      → length denom ≤ 254
      → Fits dst
      → ((get_redelegation_key c del denom dst t >>= parse_redelegation_key_for_completion_time c)
          ≡ ok t)
        × ((get_undelegation_queue_key c t del
              >>= parse_undelegation_queue_key_for_completion_time c)
            ≡ ok (some t))
  unfolding parse_undelegation_queue_key_for_completion_time drop
  completion_time_roundtrip del denom dst t hl hd ht =
      let queue_key = 0x24 ∷ field (c.format_time_bytes t) (field del []) in
      (
        rw (redelegation_key-eq c laws del denom dst t hl hd ht) (
            parse_redelegation_fields del (denom_field denom) dst (c.format_time_bytes t)
            ∙ rw (laws.parse_format t)),
        rw (undelegation_queue_key-eq c laws t del hl) (
            rw (read_field-At queue_key 1 (c.format_time_bytes t) (field del []) refl)
              (rw (laws.parse_format t))),
      )
