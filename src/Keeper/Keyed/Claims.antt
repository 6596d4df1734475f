-- ===== src/Keeper/Keyed/Claims.antt =====
-- keeper/validator.go, keeper/reward.go and the dust of keeper/delegation.go: records keep their
-- keys.
use alliance.Prelude.{ℕ, ap, ◌≡◌, Bool, Option, none, some}
use alliance.Sdk.{Sdk, Denom, SdkDec, AccAddress, ValAddress, Coins, DecCoins, Context}
use alliance.Sdk.Result.{Error}
use alliance.Types.{
  AllianceAsset, AllianceValidator, AllianceValidatorInfo, Delegation, RewardHistories,
  get_operator,
}
use alliance.Keeper.State.{State}
use alliance.Keeper.Call.{Call, gets, found_or, ◌>>=◌}
use alliance.Keeper.Rewards.Kept.{claim_validator_rewards-Keeps}
use alliance.Keeper.Call.Post.{OnOk, OnOk-mono}
use alliance.Keeper.Call.Keeps.{Keeps, Keeps-pure, Keeps-gets_bind, Keeps-found_bind, keeps_rules}
use alliance.Keeper.Store.{get_delegation_of, set_validator}
use alliance.Keeper.Validators.{get_alliance_validator, info_or_new, update_validator_shares}
use alliance.Keeper.Rewards.{
  split_rewards, add_assets_to_reward_pool, claim_withdrawn, claim_of_delegation,
  claim_validator_rewards, pay_rewards, claim_delegation_rewards,
}
use alliance.Keeper.Keyed.{
  WellKeyed, IsOf, set_validator_info-Keeps, get_delegation_of-IsOf, setters_keep,
}

module _ {W B : Type 0} where
  -- A delegation that is looked up, where a missing one is an error.
  pub Keeps-find :
      (del : AccAddress) (val : ValAddress) (denom : Denom) (e : Error) (f : Delegation → Call W B)
      → ((d : Delegation) → IsOf del val denom d → Keeps WellKeyed (f d))
      → Keeps WellKeyed (gets (get_delegation_of del val denom) >>= λ o. found_or e o >>= f)
  Keeps-find del val denom e f kf =
      Keeps-gets_bind (λ o. (d : Delegation) → o ≡ some d → IsOf del val denom d) _ _
        (get_delegation_of-IsOf del val denom)
        (λ o own. Keeps-found_bind e o f (λ d found. kf d (own d found)))

module _ {W : Type 0} (k : Sdk W) where
  pub set_validator-Keeps : (val : AllianceValidator) → Keeps WellKeyed (set_validator {W = W} val)
  unfolding set_validator
  set_validator-Keeps val = set_validator_info-Keeps (get_operator val) val.info

  info_or_new-Keeps :
      (val : ValAddress) (o : Option AllianceValidatorInfo)
      → Keeps WellKeyed (info_or_new {W = W} val o)
  unfolding info_or_new
  info_or_new-Keeps val none = search (keeps_rules, setters_keep)
  info_or_new-Keeps val (some info) = Keeps-pure info

  pub get_alliance_validator-Keeps :
      (val : ValAddress) → Keeps WellKeyed (get_alliance_validator k val)
  unfolding get_alliance_validator
  get_alliance_validator-Keeps val = search (keeps_rules, info_or_new-Keeps)

  pub update_validator_shares-Keeps :
      (val : AllianceValidator) (d v : DecCoins) (is_add : Bool)
      → Keeps WellKeyed (update_validator_shares k val d v is_add)
  unfolding update_validator_shares
  update_validator_shares-Keeps val d v is_add = search (keeps_rules, set_validator-Keeps)

  module _ (ctx : Context) where
    split_rewards-Keyed :
        (from : AccAddress) (val : AllianceValidator) (coins : Coins) (t : SdkDec)
        → Keeps WellKeyed (split_rewards k ctx from val coins t)
    unfolding split_rewards
    split_rewards-Keyed from val coins t = search (keeps_rules, set_validator-Keeps, setters_keep)

    add_assets_to_reward_pool-Keyed :
        (from : AccAddress) (val : AllianceValidator) (coins : Coins)
        → Keeps WellKeyed (add_assets_to_reward_pool k ctx from val coins)
    unfolding add_assets_to_reward_pool
    add_assets_to_reward_pool-Keyed from val coins = search (keeps_rules, split_rewards-Keyed)

    claim_of_delegation-Keyed :
        (val : AllianceValidator) (o : Option SdkDec)
        → Keeps WellKeyed (claim_of_delegation k ctx val o)
    unfolding claim_withdrawn
    claim_of_delegation-Keyed val none = search keeps_rules
    claim_of_delegation-Keyed val (some shares) =
        search (keeps_rules, setters_keep, add_assets_to_reward_pool-Keyed)

    pub claim_validator_rewards-Keyed :
        (val : AllianceValidator) → Keeps WellKeyed (claim_validator_rewards k ctx val)
    unfolding claim_validator_rewards
    claim_validator_rewards-Keyed val = search (keeps_rules, claim_of_delegation-Keyed)

    claimed-IsOf :
        {del : AccAddress} {val : ValAddress} {denom : Denom} (d : Delegation)
        (indices : RewardHistories) (height : ℕ)
        → IsOf del val denom d
        → IsOf del val denom
            (record d { reward_history = indices; last_reward_claim_height = height })
    claimed-IsOf d indices height own = record {
      delegator = own.delegator;
      validator = own.validator;
      denomination = own.denomination;
    }

    operator_of_claim :
        (val : AllianceValidator) (s : State W)
        → OnOk (λ r _. get_operator r.1 ≡ get_operator val) (claim_validator_rewards k ctx val s)
    operator_of_claim val s =
        OnOk-mono _ _ (claim_validator_rewards k ctx val s)
          (claim_validator_rewards-Keeps k ctx val s) (λ r s' kept. ap (λ v. v.operator) kept.0)

    pay_rewards-Keyed :
        (del : AccAddress) (val : AllianceValidator) (denom : Denom) (asset : AllianceAsset)
        (d : Delegation)
        → IsOf del (get_operator val) denom d
        → Keeps WellKeyed (pay_rewards k ctx del val denom asset d)
    unfolding pay_rewards
    pay_rewards-Keyed del val denom asset d own =
        search (keeps_rules, setters_keep, claim_validator_rewards-Keyed, claimed-IsOf) depth 12

    pub claim_delegation_rewards-Keyed :
        (del : AccAddress) (val : AllianceValidator) (denom : Denom)
        → Keeps WellKeyed (claim_delegation_rewards k ctx del val denom)
    unfolding claim_delegation_rewards
    claim_delegation_rewards-Keyed del val denom =
        search (Keeps-find del (get_operator val) denom, keeps_rules, pay_rewards-Keyed) depth 12
