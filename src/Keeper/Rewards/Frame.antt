-- ===== src/Keeper/Rewards/Frame.antt =====
-- keeper/reward.go: the shares of the validators around ClaimDelegationRewards.
use alliance.Prelude.{◌≡◌, refl, not, Option, none, some, ap}
use alliance.Prelude.Int.{ℤ, ◌+ℤ◌, int_laws}
use alliance.Prelude.Map.{Map, lookup, insert, total-insert, lookup-insert_self, nat_key}
use alliance.Sdk.{
  Sdk, rewards_pool, alliance_module, Denom, SdkDec, ValAddress, AccAddress, Coins, Context,
}
use alliance.Types.Asset.{is_zero, rewards_started}
use alliance.Sdk.Result.{unknown_asset, no_delegator_for_address}
use alliance.Types.{
  Delegation, AllianceAsset, AllianceValidator, AllianceValidatorInfo, get_operator,
}
use alliance.Types.Validator.{validator_shares_in}
use alliance.Keeper.Validators.Balance.{shares_units, sum_of_shares}
use alliance.Keeper.State.{State, DelegationKey}
use alliance.Keeper.Call.Post.{
  OnOk, OnOk-resume, OnOk-lift, OnOk-other_module, OnOk-if, OnOk-found, OnOk-mono,
}
use alliance.Keeper.Accumulate.{add_rewards, total_asset_weight, calculate_delegation_rewards}
use alliance.Keeper.Store.{set_validator, set_delegation, get_asset_by_denom, get_delegation_of}
use alliance.Keeper.Rewards.{
  is_empty, split_rewards, add_assets_to_reward_pool, claim_withdrawn, claim_of_delegation,
  claim_validator_rewards, pay_rewards, claim_delegation_rewards,
}

module _ {W : Type 0} (k : Sdk W) where
  -- `val'` is `val` as the store has it after a claim, with the same shares.
  pub record Follows (val : AllianceValidator) (s : State W) (val' : AllianceValidator)
      (s' : State W) : Type 0 where
    pub validator : val'.validator ≡ val.validator
    pub shares : val'.info.validator_shares ≡ val.info.validator_shares
    pub delegator_shares : val'.info.total_delegator_shares ≡ val.info.total_delegator_shares
    pub stored : lookup (get_operator val') s'.validator_infos ≡ some val'.info
    pub sums :
        (d : Denom) → sum_of_shares k d s'.validator_infos ≡ sum_of_shares k d s.validator_infos
    pub assets : s'.assets ≡ s.assets
    pub redelegations : s'.redelegations ≡ s.redelegations

  -- The same of a call that returns coins and the validator.
  abbrev pub Claims : AllianceValidator → State W → Coins × AllianceValidator → State W → Type 0
  Claims val s r s' = Follows val s r.1 s'

  abbrev pub IsStored : AllianceValidator → State W → Type 0
  IsStored val s = lookup (get_operator val) s.validator_infos ≡ some val.info

  cancel_sum : (a b c d : ℤ) → a +ℤ b ≡ c +ℤ d → d ≡ b → a ≡ c
  cancel_sum a b c d h e = grind int_laws

  sums_of_insert :
      (op : ValAddress) (info old : AllianceValidatorInfo)
      (m : Map ValAddress AllianceValidatorInfo)
      → lookup op m ≡ some old
      → info.validator_shares ≡ old.validator_shares
      → (d : Denom) → sum_of_shares k d (insert op info m) ≡ sum_of_shares k d m
  sums_of_insert op info old m h e d =
      cancel_sum _ _ _ _ (total-insert (shares_units k d) op info old m h)
        (ap (λ cs. (validator_shares_in k d cs).units) e)

  pub Follows-refl : (val : AllianceValidator) (s : State W) → IsStored val s → Follows val s val s
  Follows-refl val s h = record {
    validator = refl;
    shares = refl;
    delegator_shares = refl;
    stored = h;
    sums = λ d. refl;
    assets = refl;
    redelegations = refl;
  }

  -- A write to the other modules, and to the delegations, is not seen.
  Follows-elsewhere :
      (val : AllianceValidator) (s : State W) (val' : AllianceValidator) (s' : State W) (w : W)
      (m : Map DelegationKey Delegation)
      → Follows val s val' s'
      → Follows val s val' (record s' { delegations = m; world = w })
  Follows-elsewhere val s val' s' w m f = record {
    validator = f.validator;
    shares = f.shares;
    delegator_shares = f.delegator_shares;
    stored = f.stored;
    sums = f.sums;
    assets = f.assets;
    redelegations = f.redelegations;
  }

  module _ (ctx : Context) where
    split_rewards-Follows :
        (from : AccAddress) (val : AllianceValidator) (coins : Coins) (t : SdkDec) (s : State W)
        → IsStored val s
        → OnOk (Follows val s) (split_rewards k ctx from val coins t s)
    unfolding split_rewards set_validator
    split_rewards-Follows from val coins t s h =
        OnOk-lift (Follows val s) _ (add_rewards k t coins val.info.global_reward_history) s
          λ histories e.
            OnOk-lift (Follows val s) _
              (k.send_coins_from_account_to_module from rewards_pool coins s.world).0 _
              λ u sent. record {
                validator = refl;
                shares = refl;
                delegator_shares = refl;
                stored = lookup-insert_self _ _ s.validator_infos;
                sums = sums_of_insert _ _ _ s.validator_infos h refl;
                assets = refl;
                redelegations = refl;
              }

    add_assets_to_reward_pool-Follows :
        (from : AccAddress) (val : AllianceValidator) (coins : Coins) (s : State W)
        → IsStored val s
        → OnOk (Follows val s) (add_assets_to_reward_pool k ctx from val coins s)
    unfolding add_assets_to_reward_pool
    add_assets_to_reward_pool-Follows from val coins s h =
        OnOk-if (Follows val s) (is_empty k ctx val.info.total_delegator_shares) _ _ s
          (λ e. Follows-refl val s h)
          λ e. OnOk-lift (Follows val s) _ (total_asset_weight k ctx s val) s λ t weighed.
            OnOk-if (Follows val s) (is_zero k t) _ _ s (λ z. Follows-refl val s h)
              (λ z. split_rewards-Follows from val coins t s h)

    claim_withdrawn-Follows :
        (val : AllianceValidator) (coins : Coins) (s : State W)
        → IsStored val s
        → OnOk (Claims val s) (claim_withdrawn k ctx val coins s)
    unfolding claim_withdrawn
    claim_withdrawn-Follows val coins s h =
        OnOk-if (Claims val s) (k.coins_is_zero coins) _ _ s (λ z. Follows-refl val s h)
          λ z.
            OnOk-resume (Claims val s) _ (Follows val s)
              (add_assets_to_reward_pool k ctx (k.get_module_address alliance_module) val coins s)
              (add_assets_to_reward_pool-Follows _ val coins s h) (λ val' s' f. f)

    claim_of_delegation-Follows :
        (val : AllianceValidator) (found : Option SdkDec) (s : State W)
        → IsStored val s
        → OnOk (Claims val s) (claim_of_delegation k ctx val found s)
    claim_of_delegation-Follows val none s h = Follows-refl val s h
    claim_of_delegation-Follows val (some shares) s h =
        OnOk-other_module (Claims val s) (claim_withdrawn k ctx val)
          (k.withdraw_delegation_rewards (k.get_module_address alliance_module) (get_operator val))
          s
          λ coins w.
            OnOk-mono (Claims val (record s { world = w })) (Claims val s) _
              (claim_withdrawn-Follows val coins (record s { world = w }) h)
              λ r s' f. record {
                validator = f.validator;
                shares = f.shares;
                delegator_shares = f.delegator_shares;
                stored = f.stored;
                sums = f.sums;
                assets = f.assets;
                redelegations = f.redelegations;
              }

    -- Claiming the rewards of a validator that the store has.
    pub claim_validator_rewards-Follows :
        (val : AllianceValidator) (s : State W)
        → IsStored val s
        → OnOk (Claims val s) (claim_validator_rewards k ctx val s)
    unfolding claim_validator_rewards
    claim_validator_rewards-Follows val s h = claim_of_delegation-Follows val _ s h

    pay_rewards-Follows :
        (del : AccAddress) (val : AllianceValidator) (denom : Denom) (asset : AllianceAsset)
        (delegation : Delegation) (s : State W)
        → IsStored val s
        → OnOk (Claims val s) (pay_rewards k ctx del val denom asset delegation s)
    unfolding pay_rewards set_delegation
    pay_rewards-Follows del val denom asset delegation s h =
        OnOk-resume (Claims val s) _ (Claims val s) (claim_validator_rewards k ctx val s)
          (claim_validator_rewards-Follows val s h)
          λ (claimed, val') s' f.
            OnOk-lift (Claims val s) _ (calculate_delegation_rewards k s' delegation val' asset) s'
              λ (coins, indices) e.
                OnOk-other_module (Claims val s) _
                  (k.send_coins_from_module_to_account rewards_pool del coins) _
                  λ u w. Follows-elsewhere val s val' s' _ _ f

    pub claim_delegation_rewards-Follows :
        (del : AccAddress) (val : AllianceValidator) (denom : Denom) (s : State W)
        → IsStored val s
        → OnOk (Claims val s) (claim_delegation_rewards k ctx del val denom s)
    unfolding claim_delegation_rewards
    claim_delegation_rewards-Follows del val denom s h =
        OnOk-found (Claims val s) _ unknown_asset (get_asset_by_denom denom s) s λ asset e.
          OnOk-if (Claims val s) (not (rewards_started asset ctx.block_time)) _ _ s
            (λ early. Follows-refl val s h)
            λ started.
              OnOk-found (Claims val s) _ no_delegator_for_address
                (get_delegation_of del (get_operator val) denom s) s
                λ delegation found. pay_rewards-Follows del val denom asset delegation s h
