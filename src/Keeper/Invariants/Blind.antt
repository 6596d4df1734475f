-- ===== src/Keeper/Invariants/Blind.antt =====
-- invariants.go and keeper/validator.go: what the check of validators' shares reads.
use alliance.Prelude.{◌≡◌, refl, ap, ◌∙◌, false, Option, none, some, List, [], ◌∷◌, map}
use alliance.Prelude.Map.{Map, lookup, nat_key}
use alliance.Sdk.{Sdk, ValAddress}
use alliance.Types.{AllianceAsset, AllianceValidatorInfo}
use alliance.Keeper.State.{State}
use alliance.Keeper.Store.{get_all_assets}
use alliance.Keeper.Invariants.{
  decoded_info, get_all_alliance_validator_info, tally_shares, tally_infos, any_asset_broken,
  broken_sums, validator_shares_broken, delegator_shares_broken, run_all_invariants,
}

module _ {W : Type 0} (k : Sdk W) where
  nothing_broken : (assets : List AllianceAsset) → any_asset_broken k assets [] ≡ false
  unfolding any_asset_broken lookup
  nothing_broken [] = refl
  nothing_broken (asset ∷ assets) = nothing_broken assets

  module _ (unmarshal_interface : AllianceValidatorInfo → Option AllianceValidatorInfo)
      (unregistered : (info : AllianceValidatorInfo) → unmarshal_interface info ≡ none) where
    nothing_tallied :
        (m : Map ValAddress AllianceValidatorInfo)
        → tally_infos k (map (λ e. decoded_info (unmarshal_interface e.1)) m) [] ≡ some []
    unfolding tally_infos tally_shares
    nothing_tallied [] = refl
    nothing_tallied ((val, info) ∷ m) = rw (unregistered info) (nothing_tallied m)

    -- UnmarshalInterface fails where its target is no registered interface, as the struct of an
    -- info is none. With that, the check of the validators' shares finds nothing broken in any
    -- store, and all checks together end as the check of the delegators' shares does.
    pub validator_shares_blind :
        (s : State W)
        → (validator_shares_broken k unmarshal_interface s ≡ false)
          × (run_all_invariants k unmarshal_interface s ≡ delegator_shares_broken k s)
    unfolding validator_shares_broken get_all_alliance_validator_info run_all_invariants
    validator_shares_blind s =
        let blind =
          ap (broken_sums k (get_all_assets s)) (nothing_tallied s.validator_infos)
          ∙ nothing_broken (get_all_assets s) in
        (blind, rw blind refl)
