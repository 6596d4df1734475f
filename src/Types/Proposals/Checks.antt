-- ===== src/Types/Proposals/Checks.antt =====
-- x/alliance/types/gov.go: ValidateBasic of MsgCreateAllianceProposal.
use alliance.Prelude.{◌≡◌, refl, Bool, true, false, ◌||◌, not, arith, ◌==◌}
use alliance.Prelude.Int.{pos, ◌≤ℤ◌, ltb_ℤ}
use alliance.Sdk.{Sdk, empty_denom}
use alliance.Sdk.Result.{Result, ok, err, panic, Error, fail_if, OkThen, OkThen-value}
use alliance.Sdk.Result
use alliance.Types.Asset.{gt, is_zero, is_negative}
use alliance.Types.Laws.{DecLaws}
use alliance.Types.Proposals.{
  MsgCreateAllianceProposal, nil_or_negative, bad_take_rate, validate_create,
}

OkThen-guard :
    {A : Type 0} (Q : A → Type 0) (b : Bool) (e : Error) (r : Result A)
    → (b ≡ false → OkThen Q r)
    → OkThen Q (Result.◌>>=◌ (fail_if b e) (λ u. r))
OkThen-guard Q true e r h = tt
OkThen-guard Q false e r h = h refl

module _ {W : Type 0} (k : Sdk W) (laws : DecLaws k) where
  abbrev pub IsSound : MsgCreateAllianceProposal → Unit {0} → Type 0
  IsSound m u =
      (k.validate_denom m.denom ≡ true)
      × (pos 0 ≤ℤ m.reward_weight_range.min.units)
      × (m.reward_weight_range.min.units ≤ℤ m.reward_weight.units)
      × (m.reward_weight.units ≤ℤ m.reward_weight_range.max.units)
      × (pos 0 ≤ℤ m.take_rate.units)
      × (ltb_ℤ m.take_rate.units (pos 1000000000000000000) ≡ true)
      × (ltb_ℤ (pos 0) m.reward_change_rate.units ≡ true)
      × (pos 0 ≤ℤ m.reward_change_interval)

  validate_create-IsSound :
      (m : MsgCreateAllianceProposal) → OkThen (IsSound m) (validate_create k m)
  unfolding validate_create
  validate_create-IsSound m = OkThen-guard (IsSound m) (m.denom == empty_denom) _ _ λ named.
      OkThen-guard (IsSound m) (not (k.validate_denom m.denom)) _ _ λ valid.
        OkThen-guard (IsSound m) (nil_or_negative k m.reward_weight) _ _ λ weight.
          OkThen-guard (IsSound m)
            (nil_or_negative k m.reward_weight_range.min
              || nil_or_negative k m.reward_weight_range.max)
            _ _
            λ range.
              OkThen-guard (IsSound m) (gt k m.reward_weight_range.min m.reward_weight_range.max) _
                _
                λ ordered.
                  OkThen-guard (IsSound m)
                    (k.lt m.reward_weight m.reward_weight_range.min
                      || gt k m.reward_weight m.reward_weight_range.max)
                    _ _
                    λ inside. OkThen-guard (IsSound m) (bad_take_rate k m.take_rate) _ _ λ take.
                      OkThen-guard (IsSound m)
                        (is_zero k m.reward_change_rate || is_negative k m.reward_change_rate) _ _
                        λ rate.
                          OkThen-guard (IsSound m) (ltb_ℤ m.reward_change_interval (pos 0)) _ _
                            λ interval. ground (
                              arith,
                              laws.zero_units,
                              laws.one_units,
                              laws.lt_units m.reward_weight_range.min k.zero_dec,
                              laws.lt_units m.reward_weight m.reward_weight_range.min,
                              laws.lt_units m.reward_weight_range.max m.reward_weight,
                              laws.lt_units m.take_rate k.zero_dec,
                              laws.lt_units m.take_rate k.one_dec,
                              laws.lt_units m.reward_change_rate k.zero_dec,
                              laws.equal_units m.reward_change_rate k.zero_dec,
                            )

  -- Under the laws of decimals, a proposal to create an alliance that passes its checks has a
  -- valid denomination, a weight inside its range, whose minimum is not negative, a take rate
  -- from zero to below one, a change rate above zero and an interval that is not negative.
  pub validate_create-ok :
      (m : MsgCreateAllianceProposal)
      → validate_create k m ≡ ok tt
      → (k.validate_denom m.denom ≡ true)
        × (pos 0 ≤ℤ m.reward_weight_range.min.units)
        × (m.reward_weight_range.min.units ≤ℤ m.reward_weight.units)
        × (m.reward_weight.units ≤ℤ m.reward_weight_range.max.units)
        × (pos 0 ≤ℤ m.take_rate.units)
        × (ltb_ℤ m.take_rate.units (pos 1000000000000000000) ≡ true)
        × (ltb_ℤ (pos 0) m.reward_change_rate.units ≡ true)
        × (pos 0 ≤ℤ m.reward_change_interval)
  validate_create-ok m e =
      OkThen-value (IsSound m) (validate_create k m) (validate_create-IsSound m) e
