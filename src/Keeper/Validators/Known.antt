-- ===== src/Keeper/Validators/Known.antt =====
-- keeper/validator.go: GetAllianceValidator for a validator that the staking module has.
use alliance.Prelude.{◌≡◌, Option-cases, inl, inr, some}
use alliance.Prelude.Map.{Map, insert, nat_key}
use alliance.Sdk.{Sdk, ValAddress, StakingValidator}
use alliance.Sdk.Result.{ok}
use alliance.Types.{AllianceValidatorInfo, new_alliance_validator_info}
use alliance.Keeper.State.{State}
use alliance.Keeper.Store.{get_alliance_validator_info, set_validator_info}
use alliance.Keeper.Validators.{get_alliance_validator, info_or_new, create_alliance_validator_info}

module _ {W : Type 0} (k : Sdk W) where
  -- A validator that the staking module has is read, and its record made where it has none.
  pub known_validator :
      (val : ValAddress) (s : State W) {v : StakingValidator}
      → k.get_validator val s.world ≡ some v
      → (info : AllianceValidatorInfo) × (infos : Map ValAddress AllianceValidatorInfo)
        × (get_alliance_validator k val s
            ≡ (ok (record { validator = v; info = info }), record s { validator_infos = infos }))
  unfolding get_alliance_validator info_or_new create_alliance_validator_info set_validator_info
  known_validator val s hw = elim (Option-cases (get_alliance_validator_info val s)) [
    | inl new ↦ (
      new_alliance_validator_info,
      insert val new_alliance_validator_info s.validator_infos,
      rw (hw, new),
    )
    | inr (info, e) ↦ (info, s.validator_infos, rw (hw, e))
  ]
