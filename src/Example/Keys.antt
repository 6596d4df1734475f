-- ===== src/Example/Keys.antt =====
-- The theorems on the store's keys, at concrete addresses and denominations.
use alliance.Prelude.{◌≡◌, refl, some, [], ◌∷◌, arith}
use alliance.Prelude.Int.{pos}
use alliance.Sdk.Result.{ok, ◌>>=◌}
use alliance.Types.Keys.{
  Bytes, get_redelegation_key, get_redelegation_index_key,
  parse_redelegation_index_for_redelegation_key, get_unbonding_index_key,
  parse_unbonding_index_key_to_undelegation_key, get_undelegation_queue_key,
  get_reward_weight_change_snapshot_key, parse_reward_weight_change_snapshot_key,
  get_reward_weight_decay_queue_key, parse_reward_weight_decay_queue_key_for_denom,
  parse_redelegation_key_for_completion_time, parse_undelegation_queue_key_for_completion_time,
}
use alliance.Types.Keys.Fields.{Fits}
use alliance.Types.Keys.RoundTrip.{redelegation_index_key_roundtrip, unbonding_index_key_roundtrip}
use alliance.Types.Keys.Snapshots.{
  snapshot_key_roundtrip, decay_queue_key_roundtrip, completion_time_roundtrip,
}
use alliance.Types.Keys.Unique.{delegation_key_unique, redelegations_key_prefix}
use alliance.Example.Codec.{codec, codec-CodecLaws}

abbrev alice : Bytes
alice = 7 ∷ 8 ∷ 9 ∷ []

abbrev validator_one : Bytes
validator_one = 1 ∷ 1 ∷ []

abbrev validator_two : Bytes
validator_two = 1 ∷ 2 ∷ []

abbrev luna : Bytes
luna = 108 ∷ 117 ∷ []

alice-Fits : Fits alice
alice-Fits = (omega arith, omega arith)

one-Fits : Fits validator_one
one-Fits = (omega arith, omega arith)

two-Fits : Fits validator_two
two-Fits = (omega arith, omega arith)

redelegation_index_key_example :
    (get_redelegation_index_key codec validator_one (pos 5) luna validator_two alice
      >>= parse_redelegation_index_for_redelegation_key codec)
    ≡ (get_redelegation_key codec alice luna validator_two (pos 5) >>= λ key.
        ok (key, some (pos 5)))
redelegation_index_key_example =
    redelegation_index_key_roundtrip codec codec-CodecLaws validator_one (pos 5) luna validator_two
      alice one-Fits (omega arith) two-Fits alice-Fits

unbonding_index_key_example :
    (get_unbonding_index_key codec validator_one (pos 5) luna alice
      >>= parse_unbonding_index_key_to_undelegation_key codec)
    ≡ (get_undelegation_queue_key codec (pos 5) alice >>= λ key. ok (key, some (pos 5)))
unbonding_index_key_example =
    unbonding_index_key_roundtrip codec codec-CodecLaws validator_one (pos 5) luna alice one-Fits
      (omega arith) alice-Fits

snapshot_key_example :
    (get_reward_weight_change_snapshot_key codec luna validator_one 40
      >>= parse_reward_weight_change_snapshot_key codec)
    ≡ ok (luna, validator_one, 40)
snapshot_key_example =
    snapshot_key_roundtrip codec codec-CodecLaws luna validator_one 40 (omega arith) one-Fits
      (omega arith)

decay_queue_key_example :
    (get_reward_weight_decay_queue_key codec (pos 9) luna
      >>= parse_reward_weight_decay_queue_key_for_denom codec)
    ≡ ok (some (pos 9), luna)
decay_queue_key_example = decay_queue_key_roundtrip codec codec-CodecLaws (pos 9) luna (omega arith)

completion_time_example :
    ((get_redelegation_key codec alice luna validator_two (pos 6)
        >>= parse_redelegation_key_for_completion_time codec)
      ≡ ok (pos 6))
    × ((get_undelegation_queue_key codec (pos 6) alice
          >>= parse_undelegation_queue_key_for_completion_time codec)
        ≡ ok (some (pos 6)))
completion_time_example =
    completion_time_roundtrip codec codec-CodecLaws alice luna validator_two (pos 6) alice-Fits
      (omega arith) two-Fits

delegation_key_example : (alice ≡ alice) × (validator_one ≡ validator_one) × (luna ≡ luna)
delegation_key_example =
    delegation_key_unique codec codec-CodecLaws alice validator_one luna alice validator_one luna
      alice-Fits one-Fits (omega arith) alice-Fits one-Fits (omega arith) refl

redelegations_key_example :
    (alice ≡ alice)
    × (luna ≡ luna)
    × (validator_two ≡ validator_two)
    × (codec.format_time_bytes (pos 6) ≡ codec.format_time_bytes (pos 6))
unfolding codec get_redelegation_key
redelegations_key_example =
    redelegations_key_prefix codec codec-CodecLaws alice luna validator_two alice luna validator_two
      (pos 6) alice-Fits (omega arith) two-Fits alice-Fits (omega arith) two-Fits refl refl refl
