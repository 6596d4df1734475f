-- ===== src/Keeper/Rewards/Kept.antt =====
-- keeper/reward.go: the parts of the store around ClaimDelegationRewards.
use alliance.Prelude.{◌≡◌, refl, Bool, not, Option, none, some, List}
use alliance.Prelude.Map.{Map}
use alliance.Sdk.{
  Sdk, rewards_pool, alliance_module, Denom, SdkDec, AccAddress, Coins, Context, Time,
}
use alliance.Types.Asset.{is_zero, rewards_started}
use alliance.Sdk.Result.{unknown_asset, no_delegator_for_address}
use alliance.Types.{
  Delegation, AllianceAsset, AllianceValidator, Redelegation, Undelegation, Params,
  RewardWeightChangeSnapshot, get_operator,
}
use alliance.Keeper.State.{
  State, RedelegationKey, RedelegationIndexKey, UndelegationQueueKey, UnbondingIndexKey,
  SnapshotKey,
}
use alliance.Keeper.Call.Post.{OnOk, OnOk-resume, OnOk-lift, OnOk-other_module, OnOk-if, OnOk-found}
use alliance.Keeper.Accumulate.{add_rewards, total_asset_weight, calculate_delegation_rewards}
use alliance.Keeper.Store.{set_validator, set_delegation, get_asset_by_denom, get_delegation_of}
use alliance.Keeper.Rewards.{
  is_empty, split_rewards, add_assets_to_reward_pool, claim_withdrawn, claim_of_delegation,
  claim_validator_rewards, pay_rewards, claim_delegation_rewards,
}

module _ {W : Type 0} (k : Sdk W) where
  -- All but the delegations, the validators' infos and the other modules.
  pub record Rest : Type 0 where
    pub assets : Map Denom AllianceAsset
    pub rebalance_queued : Bool
    pub snapshots : Map SnapshotKey RewardWeightChangeSnapshot
    pub redelegations : Map RedelegationKey Redelegation
    pub redelegation_queue : Map Time (List Redelegation)
    pub undelegation_queue : Map UndelegationQueueKey (List Undelegation)
    pub redelegation_index : Map RedelegationIndexKey (Unit {0})
    pub unbonding_index : Map UnbondingIndexKey (Unit {0})
    pub params : Params

  abbrev pub rest_of : State W → Rest
  rest_of s = record {
    assets = s.assets;
    rebalance_queued = s.rebalance_queued;
    snapshots = s.snapshots;
    redelegations = s.redelegations;
    redelegation_queue = s.redelegation_queue;
    undelegation_queue = s.undelegation_queue;
    redelegation_index = s.redelegation_index;
    unbonding_index = s.unbonding_index;
    params = s.params;
  }

  abbrev pub Keeps : AllianceValidator → State W → AllianceValidator → State W → Type 0
  Keeps val s val' s' = (val'.validator ≡ val.validator) × (rest_of s' ≡ rest_of s)

  abbrev pub PaysAndKeeps :
      AllianceValidator → State W → Coins × AllianceValidator → State W → Type 0
  PaysAndKeeps val s r s' = Keeps val s r.1 s'

  module _ (ctx : Context) where
    split_rewards-Keeps :
        (from : AccAddress) (val : AllianceValidator) (coins : Coins) (t : SdkDec) (s : State W)
        → OnOk (Keeps val s) (split_rewards k ctx from val coins t s)
    unfolding split_rewards set_validator
    split_rewards-Keeps from val coins t s =
        OnOk-lift (Keeps val s) _ (add_rewards k t coins val.info.global_reward_history) s
          λ histories e.
            OnOk-lift (Keeps val s) _
              (k.send_coins_from_account_to_module from rewards_pool coins s.world).0 _
              λ u sent. (refl, refl)

    add_assets_to_reward_pool-Keeps :
        (from : AccAddress) (val : AllianceValidator) (coins : Coins) (s : State W)
        → OnOk (Keeps val s) (add_assets_to_reward_pool k ctx from val coins s)
    unfolding add_assets_to_reward_pool
    add_assets_to_reward_pool-Keeps from val coins s =
        OnOk-if (Keeps val s) (is_empty k ctx val.info.total_delegator_shares) _ _ s
          (λ e. (refl, refl))
          λ e. OnOk-lift (Keeps val s) _ (total_asset_weight k ctx s val) s λ t weighed.
            OnOk-if (Keeps val s) (is_zero k t) _ _ s (λ z. (refl, refl))
              (λ z. split_rewards-Keeps from val coins t s)

    claim_withdrawn-Keeps :
        (val : AllianceValidator) (coins : Coins) (s : State W)
        → OnOk (PaysAndKeeps val s) (claim_withdrawn k ctx val coins s)
    unfolding claim_withdrawn
    claim_withdrawn-Keeps val coins s =
        OnOk-if (PaysAndKeeps val s) (k.coins_is_zero coins) _ _ s (λ z. (refl, refl))
          λ z.
            OnOk-resume (PaysAndKeeps val s) _ (Keeps val s)
              (add_assets_to_reward_pool k ctx (k.get_module_address alliance_module) val coins s)
              (add_assets_to_reward_pool-Keeps _ val coins s) (λ val' s' f. f)

    claim_of_delegation-Keeps :
        (val : AllianceValidator) (found : Option SdkDec) (s : State W)
        → OnOk (PaysAndKeeps val s) (claim_of_delegation k ctx val found s)
    claim_of_delegation-Keeps val none s = (refl, refl)
    claim_of_delegation-Keeps val (some shares) s =
        OnOk-other_module (PaysAndKeeps val s) (claim_withdrawn k ctx val)
          (k.withdraw_delegation_rewards (k.get_module_address alliance_module) (get_operator val))
          s (λ coins w. claim_withdrawn-Keeps val coins (record s { world = w }))

    pub claim_validator_rewards-Keeps :
        (val : AllianceValidator) (s : State W)
        → OnOk (PaysAndKeeps val s) (claim_validator_rewards k ctx val s)
    unfolding claim_validator_rewards
    claim_validator_rewards-Keeps val s = claim_of_delegation-Keeps val _ s

    pay_rewards-Keeps :
        (del : AccAddress) (val : AllianceValidator) (denom : Denom) (asset : AllianceAsset)
        (delegation : Delegation) (s : State W)
        → OnOk (PaysAndKeeps val s) (pay_rewards k ctx del val denom asset delegation s)
    unfolding pay_rewards set_delegation
    pay_rewards-Keeps del val denom asset delegation s =
        OnOk-resume (PaysAndKeeps val s) _ (PaysAndKeeps val s)
          (claim_validator_rewards k ctx val s) (claim_validator_rewards-Keeps val s)
          λ (claimed, val') s' f.
            OnOk-lift (PaysAndKeeps val s) _
              (calculate_delegation_rewards k s' delegation val' asset) s'
              λ (coins, indices) e.
                OnOk-other_module (PaysAndKeeps val s) _
                  (k.send_coins_from_module_to_account rewards_pool del coins) _ λ u w. f

    -- Claiming rewards writes the delegations, the validators' infos and the bank only: where it
    -- returns, assets, queues, indexes, snapshots and parameters are as before, and what it
    -- returns has the staking module's validator that it was given; the info beside that may have
    -- other reward histories.
    pub claim_delegation_rewards-Keeps :
        (del : AccAddress) (val : AllianceValidator) (denom : Denom) (s : State W)
        → OnOk (PaysAndKeeps val s) (claim_delegation_rewards k ctx del val denom s)
    unfolding claim_delegation_rewards
    claim_delegation_rewards-Keeps del val denom s =
        OnOk-found (PaysAndKeeps val s) _ unknown_asset (get_asset_by_denom denom s) s λ asset e.
          OnOk-if (PaysAndKeeps val s) (not (rewards_started asset ctx.block_time)) _ _ s
            (λ early. (refl, refl))
            λ started.
              OnOk-found (PaysAndKeeps val s) _ no_delegator_for_address
                (get_delegation_of del (get_operator val) denom s) s
                λ delegation found. pay_rewards-Keeps del val denom asset delegation s
