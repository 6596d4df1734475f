-- ===== src/Types/Keys.antt =====
-- x/alliance/types/keys.go: the bytes of the store's keys. The rest of the development has tuples
-- for them, and numbers for addresses and denominations; here both are their bytes.
pub mod Fields
pub mod RoundTrip
pub mod Snapshots
pub mod Unique
use alliance.Prelude.{ℕ, zero, suc, ◌+◌, Option, none, some, List, [], ◌∷◌, ◌++◌, length}
use alliance.Sdk.{Time}
use alliance.Sdk.Result.{Result, ok, panic, or_panic, ◌>>=◌}

abbrev pub Bytes : Type 0
Bytes = List ℕ

-- What keys.go takes from the SDK: `address.MustLengthPrefix`, which panics at more than 255
-- bytes, `sdk.FormatTimeBytes`, `sdk.ParseTimeBytes`, `sdk.Uint64ToBigEndian` and
-- `sdk.BigEndianToUint64`.
pub record KeyCodec : Type 0 where
  pub must_length_prefix : Bytes → Option Bytes
  pub format_time_bytes : Time → Bytes
  pub parse_time_bytes : Bytes → Option Time
  pub uint64_to_big_endian : ℕ → Bytes
  pub big_endian_to_uint64 : Bytes → ℕ

-- `key[n:]`, empty beyond the end.
unfoldable pub drop : ℕ → Bytes → Bytes
drop zero key = key
drop (suc n) [] = []
drop (suc n) (b ∷ key) = drop n key

-- The first `n` bytes, if there are so many.
unfoldable pub take_exactly : ℕ → Bytes → Option Bytes
take_exactly zero key = some []
take_exactly (suc n) [] = none
take_exactly (suc n) (b ∷ key) = elim (take_exactly n key) [ none ↦ none | some bs ↦ some (b ∷ bs) ]

abbrev pub first : Bytes → Option ℕ
first [] = none
first (b ∷ key) = some b

-- `key[offset]` and `key[offset : offset+n]`, which panic out of range.
unfoldable pub byte_at : Bytes → ℕ → Result ℕ
unfolding drop
byte_at key offset = or_panic (first (drop offset key))

unfoldable pub slice : Bytes → ℕ → ℕ → Result Bytes
unfolding drop take_exactly
slice key offset n = or_panic (take_exactly n (drop offset key))

-- A byte for the length, then the field: its bytes, and the offset behind it.
unfoldable pub read_field : Bytes → ℕ → Result (Bytes × ℕ)
unfolding byte_at slice
read_field key offset = do
  n ← byte_at key offset
  field ← slice key (offset + 1) n
  ok (field, offset + 1 + n)

-- `key[offset : offset+n-1]`, which leaves the last byte out; at `n` zero the end is before the
-- start.
unfoldable pub slice_before_last : Bytes → ℕ → ℕ → Result Bytes
unfolding slice
slice_before_last key offset zero = panic
slice_before_last key offset (suc n) = slice key offset n

-- A field that is only stepped over, with no test of the end.
unfoldable pub skip_field : Bytes → ℕ → Result ℕ
unfolding byte_at
skip_field key offset = do n ← byte_at key offset; ok (offset + 1 + n)

-- CreateDenomAddressPrefix: the denomination with a zero byte behind it.
unfoldable pub create_denom_address_prefix : Bytes → Bytes
create_denom_address_prefix denom = denom ++ 0 ∷ []

module _ (c : KeyCodec) where
  -- `append(key, address.MustLengthPrefix(field)...)`
  unfoldable pub append_field : Bytes → Bytes → Result Bytes
  append_field key field = do prefixed ← or_panic (c.must_length_prefix field); ok (key ++ prefixed)

  unfoldable pub get_asset_key : Bytes → Result Bytes
  unfolding append_field
  get_asset_key denom = append_field (0x11 ∷ []) denom

  unfoldable pub get_alliance_validator_info_key : Bytes → Result Bytes
  unfolding append_field
  get_alliance_validator_info_key val = append_field (0x12 ∷ []) val

  unfoldable pub get_delegations_key : Bytes → Result Bytes
  unfolding append_field
  get_delegations_key del = append_field (0x21 ∷ []) del

  unfoldable pub get_delegations_key_for_all_denoms : Bytes → Bytes → Result Bytes
  unfolding get_delegations_key
  get_delegations_key_for_all_denoms del val = do
    key ← get_delegations_key del
    append_field key val

  unfoldable pub get_delegation_key : Bytes → Bytes → Bytes → Result Bytes
  unfolding get_delegations_key_for_all_denoms create_denom_address_prefix
  get_delegation_key del val denom = do
    key ← get_delegations_key_for_all_denoms del val
    append_field key (create_denom_address_prefix denom)

  unfoldable pub get_redelegations_key_by_delegator : Bytes → Result Bytes
  unfolding append_field
  get_redelegations_key_by_delegator del = append_field (0x22 ∷ []) del

  unfoldable pub get_redelegations_key_by_delegator_and_denom : Bytes → Bytes → Result Bytes
  unfolding get_redelegations_key_by_delegator create_denom_address_prefix
  get_redelegations_key_by_delegator_and_denom del denom = do
    key ← get_redelegations_key_by_delegator del
    append_field key (create_denom_address_prefix denom)

  unfoldable pub get_redelegations_key : Bytes → Bytes → Bytes → Result Bytes
  unfolding get_redelegations_key_by_delegator_and_denom
  get_redelegations_key del denom dst = do
    key ← get_redelegations_key_by_delegator_and_denom del denom
    append_field key dst

  unfoldable pub get_redelegation_key : Bytes → Bytes → Bytes → Time → Result Bytes
  unfolding get_redelegations_key
  get_redelegation_key del denom dst completion = do
    key ← get_redelegations_key del denom dst
    ok (key ++ c.format_time_bytes completion)

  unfoldable pub get_redelegation_queue_key : Time → Bytes
  get_redelegation_queue_key completion = 0x23 ∷ c.format_time_bytes completion

  unfoldable pub get_redelegations_index_ordered_by_validator_key : Bytes → Result Bytes
  unfolding append_field
  get_redelegations_index_ordered_by_validator_key src = append_field (0x31 ∷ []) src

  unfoldable pub get_redelegation_index_key : Bytes → Time → Bytes → Bytes → Bytes → Result Bytes
  unfolding get_redelegations_index_ordered_by_validator_key create_denom_address_prefix
  get_redelegation_index_key src completion denom dst del = do
    key ← get_redelegations_index_ordered_by_validator_key src
    key ← append_field key (c.format_time_bytes completion)
    key ← append_field key (create_denom_address_prefix denom)
    key ← append_field key dst
    append_field key del

  -- The key of the redelegation and its time; the time is none where it does not parse.
  unfoldable pub parse_redelegation_index_for_redelegation_key :
      Bytes → Result (Bytes × Option Time)
  parse_redelegation_index_for_redelegation_key key = do
    offset ← skip_field key 1
    (time, offset) ← read_field key offset
    (denom, offset) ← read_field key offset
    (dst, offset) ← read_field key offset
    (del, offset) ← read_field key offset
    key ← append_field (0x22 ∷ []) del
    key ← append_field key denom
    key ← append_field key dst
    ok (key ++ time, c.parse_time_bytes time)

  unfoldable pub get_undelegations_index_ordered_by_validator_key : Bytes → Result Bytes
  unfolding append_field
  get_undelegations_index_ordered_by_validator_key val = append_field (0x32 ∷ []) val

  unfoldable pub get_unbonding_index_key : Bytes → Time → Bytes → Bytes → Result Bytes
  unfolding get_undelegations_index_ordered_by_validator_key create_denom_address_prefix
  get_unbonding_index_key val completion denom del = do
    key ← get_undelegations_index_ordered_by_validator_key val
    key ← append_field key (c.format_time_bytes completion)
    key ← append_field key (create_denom_address_prefix denom)
    append_field key del

  unfoldable pub get_undelegation_queue_key_by_time : Time → Result Bytes
  unfolding append_field
  get_undelegation_queue_key_by_time completion =
      append_field (0x24 ∷ []) (c.format_time_bytes completion)

  unfoldable pub get_undelegation_queue_key : Time → Bytes → Result Bytes
  unfolding get_undelegation_queue_key_by_time
  get_undelegation_queue_key completion del = do
    key ← get_undelegation_queue_key_by_time completion
    append_field key del

  unfoldable pub parse_unbonding_index_key_to_undelegation_key :
      Bytes → Result (Bytes × Option Time)
  parse_unbonding_index_key_to_undelegation_key key = do
    offset ← skip_field key 1
    (time, offset) ← read_field key offset
    offset ← skip_field key offset
    (del, offset) ← read_field key offset
    key ← append_field (0x24 ∷ []) time
    key ← append_field key del
    ok (key, c.parse_time_bytes time)

  unfoldable pub parse_redelegation_queue_key : Bytes → Result Time
  unfolding drop
  parse_redelegation_queue_key key = or_panic (c.parse_time_bytes (drop 1 key))

  unfoldable pub parse_redelegation_key_for_completion_time : Bytes → Result Time
  parse_redelegation_key_for_completion_time key = do
    offset ← skip_field key 1
    offset ← skip_field key offset
    offset ← skip_field key offset
    or_panic (c.parse_time_bytes (drop offset key))

  unfoldable pub parse_undelegation_queue_key_for_completion_time : Bytes → Result (Option Time)
  parse_undelegation_queue_key_for_completion_time key = do
    (time, offset) ← read_field key 1
    ok (c.parse_time_bytes time)

  unfoldable pub get_reward_weight_change_snapshot_key : Bytes → Bytes → ℕ → Result Bytes
  unfolding append_field create_denom_address_prefix
  get_reward_weight_change_snapshot_key denom val height = do
    key ← append_field (0x14 ∷ []) (create_denom_address_prefix denom)
    key ← append_field key val
    ok (key ++ c.uint64_to_big_endian height)

  -- The denomination is read without its last byte.
  unfoldable pub parse_reward_weight_change_snapshot_key : Bytes → Result (Bytes × Bytes × ℕ)
  parse_reward_weight_change_snapshot_key key = do
    n ← byte_at key 1
    denom ← slice_before_last key 2 n
    (val, offset) ← read_field key (2 + n)
    ok (denom, val, c.big_endian_to_uint64 (drop offset key))

  unfoldable pub get_reward_weight_decay_queue_by_timestamp_key : Time → Result Bytes
  unfolding append_field
  get_reward_weight_decay_queue_by_timestamp_key trigger =
      append_field (0x15 ∷ []) (c.format_time_bytes trigger)

  unfoldable pub get_reward_weight_decay_queue_key : Time → Bytes → Result Bytes
  unfolding get_reward_weight_decay_queue_by_timestamp_key create_denom_address_prefix
  get_reward_weight_decay_queue_key trigger denom = do
    key ← get_reward_weight_decay_queue_by_timestamp_key trigger
    append_field key (create_denom_address_prefix denom)

  unfoldable pub parse_reward_weight_decay_queue_key_for_denom :
      Bytes → Result (Option Time × Bytes)
  parse_reward_weight_decay_queue_key_for_denom key = do
    (time, offset) ← read_field key 1
    n ← byte_at key offset
    denom ← slice_before_last key (offset + 1) n
    ok (c.parse_time_bytes time, denom)

-- ParseAllianceValidatorKey
unfoldable pub parse_alliance_validator_key : Bytes → Result Bytes
parse_alliance_validator_key [] = panic
parse_alliance_validator_key (prefix_byte ∷ []) = panic
parse_alliance_validator_key (prefix_byte ∷ (n ∷ val)) = ok val
