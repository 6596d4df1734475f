-- ===== src/Example/Outcomes.antt =====
-- The theorems on a slash of entries, on updates of assets, on imports of the genesis state and on the
-- module's own checks, at concrete states.
use alliance.Prelude.{
  ◌≡◌, refl, Option, none, some, [], ◌∷◌, ◌==◌, map, if◌then◌else◌, true, false, arith, ap,
}
use alliance.Prelude.Int.{pos, eqb_ℤ, ◌+ℤ◌}
use alliance.Prelude.Map.{lookup, insert, nat_key, int_key, pair_key}
use alliance.Sdk.{Denom, Context}
use alliance.Sdk.Result.{ok, err, no_delegator_for_address}
use alliance.Types.{AllianceAsset, Undelegation, AllianceValidatorInfo}
use alliance.Types.Asset.{rewards_started}
use alliance.Keeper.State.{State}
use alliance.Keeper.Store.{get_asset_by_denom, get_delegation_of, get_alliance_validator_info}
use alliance.Keeper.Call.Post.{OnOk, Returns}
use alliance.Keeper.Queues.{entries_or_nil, redelegation_key, redelegation_index_key}
use alliance.Keeper.Slash.{undelegation_key_of_index, slash_undelegation, slash_redelegation}
use alliance.Keeper.Slash.Entries.{slashed, slash_undelegation_all}
use alliance.Keeper.Slash.Missing.{slash_redelegation_missing}
use alliance.Keeper.Genesis.{init_genesis, export_genesis}
use alliance.Keeper.Genesis.Import.{Apart}
use alliance.Keeper.Genesis.RoundTrip.{Exportable, SameLookups, empty_store, genesis_roundtrip}
use alliance.Keeper.Invariants.{
  validator_shares_broken, run_all_invariants, delegator_shares_broken,
}
use alliance.Keeper.Invariants.Blind.{validator_shares_blind}
use alliance.Keeper.Queues.Merge.{after_add, add_redelegation_merges}
use alliance.Keeper.Invariants.Sound.{InfoHas, shares_of, delegator_shares_sound}
use alliance.Keeper.Assets.{update_alliance_asset}
use alliance.Keeper.Assets.Whitelist.{updated, update_alliance_asset_whitelist}
use alliance.Example.Tests.{
  no_info, every_instant, redelegated, redelegation, ctx, asset, coin, delegated,
}
use alliance.Example.World.{validator_at, sdk, dec, one, Log}
use alliance.Example.Laws.{sdk-DecLaws, sdk-TruncationLaws, sdk-new_coin}

abbrev undelegation : Undelegation
undelegation = record { delegator_address = 5; validator_address = 3; balance = coin }

-- One undelegation ended at 900, another ends at 1100.
abbrev undelegated : State Log
undelegated = record delegated {
  undelegation_queue = ((pos 900, 5), undelegation ∷ []) ∷ ((pos 1100, 5), undelegation ∷ []) ∷ [];
  unbonding_index = ((3, (pos 900, (1, 5))), tt) ∷ ((3, (pos 1100, (1, 5))), tt) ∷ [];
}

slash_undelegation_all_example :
    OnOk
      (λ u s'.
        lookup (undelegation_key_of_index (3, (pos 1100, (1, 5)))) s'.undelegation_queue
        ≡ some (
            map (slashed (dec (pos one))) (
              entries_or_nil (
                lookup
                  (undelegation_key_of_index (3, (pos 1100, (1, 5))))
                  undelegated.undelegation_queue))))
      (slash_undelegation sdk ctx (dec (pos one)) (3, (pos 1100, (1, 5))) undelegated)
slash_undelegation_all_example =
    slash_undelegation_all sdk sdk-TruncationLaws sdk-new_coin ctx (dec (pos one))
      (3, (pos 1100, (1, 5))) undelegated refl

abbrev new_asset : AllianceAsset
new_asset = record asset { take_rate = dec (pos 0); total_tokens = pos 7 }

update_alliance_asset_whitelist_example :
    OnOk
      (λ u s'.
        (lookup 1 s'.assets ≡ some (updated (pos 1000) asset new_asset))
        × ((d : Denom) → d == 1 ≡ false → lookup d s'.assets ≡ lookup d delegated.assets))
      (update_alliance_asset sdk ctx new_asset delegated)
unfolding get_asset_by_denom lookup
update_alliance_asset_whitelist_example =
    update_alliance_asset_whitelist sdk sdk-DecLaws ctx new_asset asset delegated refl

not_broken : delegator_shares_broken sdk delegated ≡ ok false
unfolding delegator_shares_broken get_alliance_validator_info lookup sdk insert
not_broken = refl

apart : ¬ (false ≡ true)
apart h = ground (arith, h)

positive : ¬ (shares_of (3, 1) delegated.delegations ≡ pos 0)
unfolding shares_of ◌+ℤ◌
positive h = apart (ap (λ n. eqb_ℤ n (pos 0)) h)

delegator_shares_sound_example :
    InfoHas sdk 1 (shares_of (3, 1) delegated.delegations) (get_alliance_validator_info 3 delegated)
delegator_shares_sound_example =
    delegator_shares_sound sdk sdk-DecLaws delegated 3 1 not_broken positive

-- Delegator 5 has moved 40 to validator 3 until 900 and has left it.
abbrev left_destination : State Log
left_destination = record redelegated { delegations = [] }

abbrev at_800 : Context
at_800 = record { block_time = pos 800; block_height = 9 }

slash_redelegation_missing_example :
    let p =
      slash_redelegation sdk at_800 (dec (pos one)) (4, (pos 900, (1, (3, 5)))) left_destination in
    (p.0 ≡ (if rewards_started asset (pos 800) then err no_delegator_for_address else ok tt))
    × (p.1.delegations ≡ [])
unfolding get_asset_by_denom get_delegation_of lookup sdk
slash_redelegation_missing_example =
    slash_redelegation_missing sdk at_800 (dec (pos one)) (4, (pos 900, (1, (3, 5))))
      left_destination redelegation (validator_at 3) asset refl refl refl refl refl

add_redelegation_merges_example :
    let s' =
      after_add sdk 5 3 1
        (pos 900)
        6
        (pos 2)
        (after_add sdk 5 3 1 (pos 900) 4 (pos 40) delegated) in
    (lookup (redelegation_key 5 1 3 (pos 900)) s'.redelegations
      ≡ some (record redelegation { balance = record { denom = 1; amount = pos 42 } }))
    × (lookup (redelegation_index_key 4 (pos 900) 1 3 5) s'.redelegation_index ≡ some tt)
    × (lookup (redelegation_index_key 6 (pos 900) 1 3 5) s'.redelegation_index ≡ some tt)
unfolding lookup sdk
add_redelegation_merges_example =
    add_redelegation_merges sdk 5 3 1 (pos 900) 4 6 (pos 40) (pos 2)
      (record { denom = 1; amount = pos 42 }) delegated refl refl

redelegated-Exportable : Exportable sdk redelegated
unfolding sdk lookup Apart
redelegated-Exportable = record {
  delay = refl;
  interval = refl;
  own_assets = (refl, tt);
  valid_denoms = (refl, tt);
  own_delegations = (record { delegator = refl; validator = refl; denomination = refl }, tt);
  own_redelegations = (record { delegator = refl; denomination = refl; destination = refl }, tt);
  once_assets = (refl, tt);
  once_infos = (refl, (refl, tt));
  once_delegations = (refl, tt);
  once_snapshots = tt;
  apart_redelegations = (refl, tt);
}

genesis_roundtrip_example :
    Returns
      (λ u s'. SameLookups redelegated s')
      (init_genesis sdk (export_genesis redelegated) (empty_store every_instant.params []))
genesis_roundtrip_example =
    genesis_roundtrip sdk redelegated every_instant.params [] redelegated-Exportable

-- No struct is a registered interface.
abbrev unregistered : AllianceValidatorInfo → Option AllianceValidatorInfo
unregistered info = none

-- The asset's total is not the sum of the validators' shares, which are none.
abbrev shares_lost : State Log
shares_lost = record delegated { validator_infos = (3, no_info) ∷ (4, no_info) ∷ [] }

validator_shares_blind_example :
    (validator_shares_broken sdk unregistered shares_lost ≡ false)
    × (run_all_invariants sdk unregistered shares_lost ≡ delegator_shares_broken sdk shares_lost)
validator_shares_blind_example = validator_shares_blind sdk unregistered (λ info. refl) shares_lost
