-- ===== src/Keeper/Invariants.antt =====
-- invariants.go: the module's own checks, which say whether an invariant is broken.
pub mod Sound
pub mod Blind
use alliance.Prelude.{
  Bool, true, false, ◌||◌, not, Option, none, some, List, [], ◌∷◌, if◌then◌else◌, map,
}
use alliance.Prelude.Map.{Map, lookup, insert, nat_key, pair_key}
use alliance.Sdk.{Sdk, Denom, ValAddress, SdkDec, DecCoins}
use alliance.Sdk.Result
use alliance.Sdk.Result.{Result, ok, or_panic}
use alliance.Types.{new_alliance_validator_info, AllianceAsset, AllianceValidatorInfo, Delegation}
use alliance.Types.Asset.{is_negative}
use alliance.Keeper.State.{State, DelegationKey}
use alliance.Keeper.Store.{get_all_assets, get_alliance_validator_info}

-- The target of a decoding, where the bytes decode to something, and else as it was declared.
abbrev pub decoded_info : Option AllianceValidatorInfo → AllianceValidatorInfo
decoded_info none = new_alliance_validator_info
decoded_info (some info) = info

module _ {W : Type 0} (k : Sdk W) where
  -- A Go map from keys to decimals, where an absent key holds the nil decimal.
  abbrev pub plus : SdkDec → Option SdkDec → SdkDec
  plus amount none = amount
  plus amount (some sum) = k.add sum amount

  -- The loop over one validator's shares; `none` where a negative share is found.
  unfoldable pub tally_shares : DecCoins → Map Denom SdkDec → Option (Map Denom SdkDec)
  tally_shares [] sums = some sums
  tally_shares (share ∷ shares) sums =
      let rest =
        tally_shares shares
          (insert share.denom (plus share.amount (lookup share.denom sums)) sums) in
      if is_negative k share.amount then none else rest

  abbrev pub tally_more :
      (Map Denom SdkDec → Option (Map Denom SdkDec))
      → Option (Map Denom SdkDec)
      → Option (Map Denom SdkDec)
  tally_more f none = none
  tally_more f (some sums) = f sums

  unfoldable pub tally_infos :
      List AllianceValidatorInfo → Map Denom SdkDec → Option (Map Denom SdkDec)
  unfolding tally_shares
  tally_infos [] sums = some sums
  tally_infos (info ∷ infos) sums =
      tally_more (tally_infos infos) (tally_shares info.validator_shares sums)

  -- GetAllAllianceValidatorInfo (keeper/validator.go). The parameter is the codec's
  -- `UnmarshalInterface` of the bytes of an info into a declared info: what it writes there, or
  -- `none` for an error, which the code ignores.
  unfoldable pub get_all_alliance_validator_info :
      (AllianceValidatorInfo → Option AllianceValidatorInfo) → State W → List AllianceValidatorInfo
  get_all_alliance_validator_info unmarshal_interface s =
      map (λ e. decoded_info (unmarshal_interface e.1)) s.validator_infos

  abbrev pub differs : SdkDec → Option SdkDec → Bool
  differs total none = false
  differs total (some sum) = not (k.equal total sum)

  unfoldable pub any_asset_broken : List AllianceAsset → Map Denom SdkDec → Bool
  any_asset_broken [] sums = false
  any_asset_broken (asset ∷ assets) sums =
      differs asset.total_validator_shares (lookup asset.denom sums) || any_asset_broken assets sums

  abbrev pub broken_sums : List AllianceAsset → Option (Map Denom SdkDec) → Bool
  broken_sums assets none = true
  broken_sums assets (some sums) = any_asset_broken assets sums

  unfoldable pub validator_shares_broken :
      (AllianceValidatorInfo → Option AllianceValidatorInfo) → State W → Bool
  unfolding tally_infos any_asset_broken get_all_alliance_validator_info
  validator_shares_broken unmarshal_interface s =
      broken_sums (get_all_assets s)
        (tally_infos (get_all_alliance_validator_info unmarshal_interface s) [])

  -- The sums of the delegations' shares by validator and denomination.
  unfoldable pub tally_delegations :
      Map DelegationKey Delegation
      → Map (ValAddress × Denom) SdkDec
      → Option (Map (ValAddress × Denom) SdkDec)
  tally_delegations [] sums = some sums
  tally_delegations ((key, d) ∷ delegations) sums =
      let rest = tally_delegations delegations (
        insert (d.validator_address, d.denom)
          (plus d.shares (lookup (d.validator_address, d.denom) sums)) sums) in
      if is_negative k d.shares then none else rest

  -- `NewDecCoins` panics at a set that is not valid.
  abbrev pub info_differs : Denom → SdkDec → AllianceValidatorInfo → Result Bool
  info_differs denom amount info =
      Result.◌>>=◌ (or_panic (k.new_dec_coins info.total_delegator_shares))
        (λ shares. ok (not (k.equal (k.dec_coins_amount_of shares denom) amount)))

  -- One sum beside the info of its validator, and the sums behind it; the loop ends where there
  -- is no info.
  abbrev pub check_sum : Denom → SdkDec → Option AllianceValidatorInfo → Result Bool → Result Bool
  check_sum denom amount none rest = ok true
  check_sum denom amount (some info) rest =
      Result.◌>>=◌ (info_differs denom amount info)
        (λ broken. Result.◌>>=◌ rest (λ more. ok (broken || more)))

  unfoldable pub any_validator_broken : State W → Map (ValAddress × Denom) SdkDec → Result Bool
  any_validator_broken s [] = ok false
  any_validator_broken s (((val, denom), amount) ∷ sums) =
      check_sum denom amount (get_alliance_validator_info val s) (any_validator_broken s sums)

  abbrev pub broken_validators : State W → Option (Map (ValAddress × Denom) SdkDec) → Result Bool
  broken_validators s none = ok true
  broken_validators s (some sums) = any_validator_broken s sums

  unfoldable pub delegator_shares_broken : State W → Result Bool
  unfolding tally_delegations any_validator_broken
  delegator_shares_broken s = broken_validators s (tally_delegations s.delegations [])

  unfoldable pub run_all_invariants :
      (AllianceValidatorInfo → Option AllianceValidatorInfo) → State W → Result Bool
  unfolding validator_shares_broken delegator_shares_broken
  run_all_invariants unmarshal_interface s =
      let delegators = delegator_shares_broken s in
      if validator_shares_broken unmarshal_interface s then ok true else delegators
