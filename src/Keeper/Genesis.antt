-- ===== src/Keeper/Genesis.antt =====
-- keeper/genesis.go and genesis.go: the state of the module as a file.
pub mod Queue
pub mod Import
pub mod RoundTrip
use alliance.Prelude.{
  Option, none, some, Bool, true, false, not, ◌&&◌, List, [], ◌∷◌, map, if◌then◌else◌,
}
use alliance.Prelude.Int.{pos, leb_ℤ, ltb_ℤ}
use alliance.Sdk.{Sdk, Denom, ValAddress, AccAddress, Time, Duration}
use alliance.Sdk.Result.{Result, ok, panic, Error, or_panic, fail_if, ◌>>◌}
use alliance.Types.{
  AllianceAsset, AllianceValidatorInfo, Delegation, Redelegation, Undelegation,
  RewardWeightChangeSnapshot, Params,
}
use alliance.Keeper.State.{State, SnapshotKey}
use alliance.Keeper.Call
use alliance.Keeper.Call.{Call, pure, lift, modify, for_each}
use alliance.Keeper.Store.{
  set_asset, set_validator_info, set_delegation, put_reward_weight_change_snapshot, get_all_assets,
}
use alliance.Keeper.Queues.{
  add_redelegation, queue_redelegation, set_queued_undelegations, set_unbonding_index_by_val,
}

pub record GenesisState : Type 0 where
  pub params : Params
  pub assets : List AllianceAsset
  pub validator_infos : List (ValAddress × AllianceValidatorInfo)
  pub reward_weight_change_snapshots : List (SnapshotKey × RewardWeightChangeSnapshot)
  pub delegations : List Delegation
  pub redelegations : List (Time × Redelegation)
  pub undelegations : List (Time × List Undelegation)

abbrev pub is_nil : {A : Type 0} → List A → Bool
is_nil [] = true
is_nil (a ∷ as') = false

-- ValidateGenesis; the error is ErrInvalidGenesisState.
unfoldable pub validate_genesis : Error → GenesisState → Result (Unit {0})
validate_genesis invalid g = do
  fail_if (leb_ℤ g.params.take_rate_claim_interval (pos 0)) invalid
  fail_if (not (is_nil g.delegations) && is_nil g.assets) invalid
  fail_if (not (is_nil g.delegations) && is_nil g.validator_infos) invalid
  fail_if (not (is_nil g.redelegations) && is_nil g.delegations) invalid
  ok tt

-- validatePositiveDuration (types/params.go): only what is below zero is refused.
abbrev pub validate_positive_duration : Duration → Option (Unit {0})
validate_positive_duration d = if ltb_ℤ d (pos 0) then none else some tt

abbrev pub completion_of_redelegation :
    (AccAddress × (Denom × (ValAddress × Time))) × Redelegation → Time × Redelegation
completion_of_redelegation ((del, (denom, (dst, completion))), r) = (completion, r)

module _ {W : Type 0} where
  abbrev pub set_param : (Params → Params) → Call W (Unit {0})
  set_param f = modify λ s. record s { params = f s.params }

  abbrev then_call : {A B : Type 0} → Call W A → (A → Call W B) → Call W B
  then_call m f = Call.◌>>=◌ m f

  -- SetParams: SetParamSet writes the parameters one by one, each after its check in
  -- types/params.go, and panics where a check fails.
  unfoldable pub set_params : Params → Call W (Unit {0})
  set_params params =
      then_call (lift (or_panic (validate_positive_duration params.reward_delay_time))) λ _.
        then_call (set_param (λ p. record p { reward_delay_time = params.reward_delay_time })) λ _.
          then_call (lift (or_panic (validate_positive_duration params.take_rate_claim_interval)))
            λ _. set_param (λ p. record p {
              take_rate_claim_interval = params.take_rate_claim_interval;
              last_take_rate_claim_time = params.last_take_rate_claim_time;
            })

  unfoldable pub init_asset : Sdk W → AllianceAsset → Call W (Unit {0})
  init_asset k asset = if k.validate_denom asset.denom then set_asset asset else lift panic

  -- `addRedelegation` queues the entry, and the loop queues it again.
  unfoldable pub init_redelegation : Sdk W → Time × Redelegation → Call W (Unit {0})
  init_redelegation k (completion, r) =
      then_call
        (add_redelegation k r.delegator_address r.src_validator_address r.dst_validator_address
          r.balance completion)
        (λ _.
          queue_redelegation r.delegator_address r.src_validator_address r.dst_validator_address
            r.balance completion)

  abbrev pub index_undelegation : Time → AccAddress → Undelegation → Call W (Unit {0})
  index_undelegation completion del u =
      set_unbonding_index_by_val u.validator_address completion del u.balance.denom

  unfoldable pub init_undelegation : Time × List Undelegation → Call W (Unit {0})
  init_undelegation (completion, []) = pure tt
  init_undelegation (completion, u ∷ entries) =
      then_call (set_queued_undelegations completion u.delegator_address (u ∷ entries))
        (λ _. for_each (u ∷ entries) (index_undelegation completion u.delegator_address))

  abbrev pub init_validator_info : ValAddress × AllianceValidatorInfo → Call W (Unit {0})
  init_validator_info (val, info) = set_validator_info val info

  abbrev pub init_delegation : Delegation → Call W (Unit {0})
  init_delegation d = set_delegation d.delegator_address d.validator_address d.denom d

  abbrev pub init_snapshot : SnapshotKey × RewardWeightChangeSnapshot → Call W (Unit {0})
  init_snapshot ((denom, (val, height)), snapshot) =
      put_reward_weight_change_snapshot denom val height snapshot

  unfoldable pub init_genesis : Sdk W → GenesisState → Call W (Unit {0})
  unfolding init_asset init_redelegation init_undelegation set_params
  init_genesis k g = then_call (set_params g.params) λ _.
      then_call (for_each g.assets (init_asset k)) λ _.
        then_call (for_each g.validator_infos init_validator_info) λ _.
          then_call (for_each g.delegations init_delegation) λ _.
            then_call (for_each g.redelegations (init_redelegation k)) λ _.
              then_call (for_each g.undelegations init_undelegation)
                λ _. for_each g.reward_weight_change_snapshots init_snapshot

  unfoldable pub export_genesis : State W → GenesisState
  export_genesis s = record {
    params = s.params;
    assets = get_all_assets s;
    validator_infos = s.validator_infos;
    reward_weight_change_snapshots = s.snapshots;
    delegations = map (λ e. e.1) s.delegations;
    redelegations = map completion_of_redelegation s.redelegations;
    undelegations = map (λ e. (e.0.0, e.1)) s.undelegation_queue;
  }
