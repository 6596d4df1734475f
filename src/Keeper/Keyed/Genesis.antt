-- ===== src/Keeper/Keyed/Genesis.antt =====
-- keeper/genesis.go: what InitGenesis makes of the keys.
use alliance.Prelude.{refl, List, [], ◌∷◌, All}
use alliance.Sdk.{Sdk, ValAddress, Time}
use alliance.Sdk.Result.{panic}
use alliance.Types.{
  AllianceAsset, AllianceValidatorInfo, Delegation, Redelegation, Undelegation,
  RewardWeightChangeSnapshot, Params,
}
use alliance.Keeper.State.{State, SnapshotKey}
use alliance.Keeper.Call.{for_each}
use alliance.Keeper.Call.Keeps.{
  Keeps, Keeps-pure, Keeps-bind, Keeps-if, Keeps-for_each, Keeps-lift, keeps_rules,
}
use alliance.Keeper.Genesis.{
  GenesisState, set_param, set_params, init_asset, init_delegation, init_redelegation,
  init_undelegation, init_validator_info, init_snapshot, init_genesis,
}
use alliance.Keeper.Keyed.{
  WellKeyed, AllOf, set_asset-Keeps, set_delegation-Keeps, frame-Keeps, setters_keep,
}
use alliance.Keeper.Keyed.Queues.{
  AddKeepsDenom, add_redelegation-Keeps, queue_redelegation-Keeps, set_queued_undelegations-Keeps,
  set_unbonding_index_by_val-Keeps,
}

-- The entries are of one delegator.
abbrev pub OneDelegator : Time × List Undelegation → Type 0
OneDelegator (t, []) = Unit
OneDelegator (t, u ∷ entries) = AllOf u.delegator_address entries

module _ {W : Type 0} (k : Sdk W) where
  set_param-Keeps : (f : Params → Params) → Keeps WellKeyed (set_param {W = W} f)
  set_param-Keeps f =
      frame-Keeps (λ s. record s { params = f s.params }) (λ s. refl) (λ s. refl) (λ s. refl)
        (λ s. refl)

  set_params-Keeps : (params : Params) → Keeps WellKeyed (set_params {W = W} params)
  unfolding set_params
  set_params-Keeps params = search (keeps_rules, set_param-Keeps) depth 12

  init_asset-Keeps : (asset : AllianceAsset) → Keeps WellKeyed (init_asset k asset)
  unfolding init_asset
  init_asset-Keeps asset =
      Keeps-if (k.validate_denom asset.denom) _ _ (set_asset-Keeps asset) (Keeps-lift panic)

  init_delegation-Keeps : (d : Delegation) → Keeps WellKeyed (init_delegation {W = W} d)
  init_delegation-Keeps d =
      set_delegation-Keeps _ _ _ d
        (record { delegator = refl; validator = refl; denomination = refl })

  init_validator_info-Keeps :
      (e : ValAddress × AllianceValidatorInfo) → Keeps WellKeyed (init_validator_info {W = W} e)
  init_validator_info-Keeps (val, info) = search setters_keep

  init_snapshot-Keeps :
      (e : SnapshotKey × RewardWeightChangeSnapshot) → Keeps WellKeyed (init_snapshot {W = W} e)
  init_snapshot-Keeps e = search setters_keep

  init_undelegation-Keeps :
      (e : Time × List Undelegation)
      → OneDelegator e
      → Keeps WellKeyed (init_undelegation {W = W} e)
  unfolding init_undelegation
  init_undelegation-Keeps (t, []) one = Keeps-pure tt
  init_undelegation-Keeps (t, u ∷ entries) one =
      Keeps-bind _ _
        (set_queued_undelegations-Keeps t u.delegator_address (u ∷ entries) (refl, one))
        (λ _. Keeps-for_each (u ∷ entries) _ (λ v.
          set_unbonding_index_by_val-Keeps v.validator_address t u.delegator_address
            v.balance.denom))

  init_undelegations-Keeps :
      (es : List (Time × List Undelegation))
      → All OneDelegator es
      → Keeps WellKeyed (for_each {W = W} es init_undelegation)
  unfolding for_each
  init_undelegations-Keeps [] all = Keeps-pure tt
  init_undelegations-Keeps (e ∷ es) (one, all) =
      Keeps-bind _ _ (init_undelegation-Keeps e one) (λ _. init_undelegations-Keeps es all)

  module _ (same_denom : AddKeepsDenom k) where
    init_redelegation-Keeps : (e : Time × Redelegation) → Keeps WellKeyed (init_redelegation k e)
    unfolding init_redelegation
    init_redelegation-Keeps (t, r) =
        Keeps-bind _ _ (add_redelegation-Keeps k same_denom _ _ _ r.balance t)
          (λ _. queue_redelegation-Keeps _ _ _ r.balance t)

    init_genesis-Keeps :
        (g : GenesisState) → All OneDelegator g.undelegations → Keeps WellKeyed (init_genesis k g)
    unfolding init_genesis
    init_genesis-Keeps g all = Keeps-bind _ _ (set_params-Keeps g.params) λ _.
        Keeps-bind _ _ (Keeps-for_each g.assets _ init_asset-Keeps) λ _.
          Keeps-bind _ _ (Keeps-for_each g.validator_infos _ init_validator_info-Keeps) λ _.
            Keeps-bind _ _ (Keeps-for_each g.delegations _ init_delegation-Keeps) λ _.
              Keeps-bind _ _ (Keeps-for_each g.redelegations _ init_redelegation-Keeps) λ _.
                Keeps-bind _ _ (init_undelegations-Keeps g.undelegations all)
                  (λ _. Keeps-for_each g.reward_weight_change_snapshots _ init_snapshot-Keeps)

    -- InitGenesis on a store whose records stand under the keys of their own fields leaves it so,
    -- also where it panics, if each imported queue of undelegations is of one delegator and adding
    -- coins keeps the denomination.
    pub init_genesis-WellKeyed :
        (g : GenesisState) (s : State W)
        → All OneDelegator g.undelegations
        → WellKeyed s
        → WellKeyed (init_genesis k g s).1
    init_genesis-WellKeyed g s all h = (init_genesis-Keeps g all).at s h
