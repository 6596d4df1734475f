-- ===== src/Keeper/Delegations/Shares.antt =====
-- keeper/delegation.go: Delegate and the invariant `validator-shares` of invariants.go.
use alliance.Prelude.{◌≡◌, refl, sym, ◌∙◌, ap, true, Option, none, some, [], ◌∷◌}
use alliance.Prelude.Int.{◌+ℤ◌}
use alliance.Prelude.Map.{lookup, nat_key}
use alliance.Sdk.{Sdk, Denom, AccAddress, SdkDec, Coin, Context, alliance_module}
use alliance.Sdk.Result.{ok, or_panic, not_found}
use alliance.Types.{AllianceAsset, AllianceValidator, Delegation, get_operator}
use alliance.Types.Asset.{get_validator_shares}
use alliance.Types.Shares.{get_delegation_shares_from_tokens}
use alliance.Types.Laws.{DecLaws, CoinLaws}
use alliance.Keeper.State.{State}
use alliance.Keeper.Call.Post.{
  OnOk, OnOk-value, OnOk-resume, OnOk-lift, OnOk-other_module, OnOk-found,
}
use alliance.Keeper.Store.{
  set_asset, get_asset_by_denom, get_delegation_of, set_delegation, queue_asset_rebalance_event,
  set_validator,
}
use alliance.Keeper.Validators.{single_dec_coins, update_validator_shares}
use alliance.Keeper.Validators.Balance.{
  shares_units, IsBalanced, single_dec_coins_lem, add_shares-units, move-IsBalanced,
}
use alliance.Keeper.Rewards.{claim_delegation_rewards}
use alliance.Keeper.Rewards.Frame.{
  Follows, Claims, IsStored, Follows-refl, claim_delegation_rewards-Follows,
}
use alliance.Keeper.Dust.{upsert_delegation_with_new_tokens}
use alliance.Keeper.Delegations.{claim_if_found, add_delegation, delegate}

module _ {W : Type 0} (k : Sdk W) (ctx : Context) where
  -- Every asset's total is the sum of the validators' shares.
  abbrev pub EachBalanced : State W → Type 0
  EachBalanced s = (d : Denom) → IsBalanced k s.assets s.validator_infos d

  -- The same as a predicate of the state.
  pub record AllBalanced (s : State W) : Type 0 where
    pub each : EachBalanced s

  -- An asset is stored under its own denomination.
  abbrev pub IsKeyed : State W → Type 0
  IsKeyed s = (d : Denom) (a : AllianceAsset) → lookup d s.assets ≡ some a → a.denom ≡ d

  pub claim_if_found-Follows :
      (del : AccAddress) (val : AllianceValidator) (coin : Coin) (found : Option Delegation)
      (s : State W)
      → IsStored k val s
      → OnOk (Follows k val s) (claim_if_found k ctx del val coin found s)
  unfolding claim_if_found
  claim_if_found-Follows del val coin none s h = Follows-refl k val s h
  claim_if_found-Follows del val coin (some d) s h =
      OnOk-resume (Follows k val s) _ (Claims k val s)
        (claim_delegation_rewards k ctx del val coin.denom s)
        (claim_delegation_rewards-Follows k ctx del val coin.denom s h) (λ r s' f. f)

  -- What the asset and the validators keep while the delegation is written.
  abbrev Keeps : State W → Delegation × SdkDec → State W → Type 0
  Keeps s a s' = (s'.assets ≡ s.assets) × (s'.validator_infos ≡ s.validator_infos)

  upsert-Keeps :
      (del : AccAddress) (val : AllianceValidator) (coin : Coin) (asset : AllianceAsset)
      (s : State W)
      → OnOk (Keeps s) (upsert_delegation_with_new_tokens k ctx del val coin asset s)
  unfolding upsert_delegation_with_new_tokens set_delegation
  upsert-Keeps del val coin asset s =
      OnOk-lift (Keeps s) _ (get_delegation_shares_from_tokens k val asset coin.amount) s
        (λ shares e. (refl, refl))

  module _ (laws : DecLaws k) (coins : CoinLaws k) where
    add_delegation-EachBalanced :
        (del : AccAddress) (val : AllianceValidator) (coin : Coin) (asset : AllianceAsset)
        (s : State W)
        → lookup coin.denom s.assets ≡ some asset
        → asset.denom ≡ coin.denom
        → IsStored k val s
        → k.dec_coins_is_valid val.info.validator_shares ≡ true
        → EachBalanced s
        → OnOk (λ shares. EachBalanced) (add_delegation k ctx del val coin asset s)
    unfolding add_delegation set_asset update_validator_shares set_validator
        queue_asset_rebalance_event
    add_delegation-EachBalanced del val coin asset s known keyed stored valid h =
        OnOk-resume (λ shares. EachBalanced) _ (Keeps s)
          (upsert_delegation_with_new_tokens k ctx del val coin asset s)
          (upsert-Keeps del val coin asset s)
          λ (delegation, new_shares) s' (same_assets, same_infos).
            OnOk-lift (λ shares. EachBalanced) _ (get_validator_shares k asset coin.amount) s'
              λ x ex.
                OnOk-lift (λ shares. EachBalanced) _ (single_dec_coins k coin.denom new_shares) _
                  λ ds ed.
                    OnOk-lift (λ shares. EachBalanced) _ (single_dec_coins k coin.denom x) _
                      λ vs ev.
                        let (valid_vs, units) =
                          single_dec_coins_lem k laws coins coin.denom x vs ev in
                        move-IsBalanced k asset.denom (get_operator val) x.units asset _ val.info _
                          s'.assets s'.validator_infos
                          (ap (lookup asset.denom) same_assets
                            ∙ (ap (λ n. lookup n s.assets) keyed ∙ known))
                          (rw same_infos stored)
                          (λ d.
                            add_shares-units k laws coins val.info ds vs d valid valid_vs
                            ∙ ap (λ u. shares_units k d val.info +ℤ u) (units d ∙ rw keyed))
                          (laws.add_units asset.total_validator_shares x)
                          (λ d. rw (same_assets, same_infos) (h d))

    -- The call of Delegate, as a statement on what it leaves.
    delegate-OnOk :
        (del : AccAddress) (val : AllianceValidator) (coin : Coin) (s : State W)
        → IsKeyed s
        → IsStored k val s
        → k.dec_coins_is_valid val.info.validator_shares ≡ true
        → EachBalanced s
        → OnOk (λ shares. EachBalanced) (delegate k ctx del val coin s)
    unfolding delegate get_asset_by_denom
    delegate-OnOk del val coin s keyed stored valid h =
        OnOk-found (λ shares. EachBalanced) _ not_found (get_asset_by_denom coin.denom s) s
          λ asset known.
            OnOk-lift (λ shares. EachBalanced) _ (or_panic (k.new_coins (coin ∷ []))) s
              λ cs e.
                OnOk-other_module (λ shares. EachBalanced) _
                  (k.send_coins_from_account_to_module del alliance_module cs) s
                  λ u w.
                    let paid = record s { world = w } in
                    OnOk-resume (λ shares. EachBalanced) _ (Follows k val paid)
                      (claim_if_found k ctx del val coin
                        (get_delegation_of del (get_operator val) coin.denom paid) paid)
                      (claim_if_found-Follows del val coin _ paid stored)
                      λ val' s' f.
                        add_delegation-EachBalanced del val' coin asset s' (rw f.assets known)
                          (keyed coin.denom asset known) f.stored (rw f.shares valid)
                          (λ d a ea. h d a (rw f.assets at ea) ∙ sym (f.sums d))

    -- Delegating a coin keeps every asset's total of validator shares equal to the sum of the
    -- shares of the validators, if the call returns, with rewards claimed on the way or not.
    -- This is under the laws of decimals and coins, where assets are stored under their
    -- denominations, and the validator was read from the store and has a valid set of shares.
    pub delegate-AllBalanced :
        (del : AccAddress) (val : AllianceValidator) (coin : Coin) (s : State W) {shares : SdkDec}
        → IsKeyed s
        → IsStored k val s
        → k.dec_coins_is_valid val.info.validator_shares ≡ true
        → AllBalanced s
        → (delegate k ctx del val coin s).0 ≡ ok shares
        → AllBalanced (delegate k ctx del val coin s).1
    delegate-AllBalanced del val coin s keyed stored valid h e = record {
      each =
          OnOk-value (λ shares. EachBalanced) (delegate k ctx del val coin s)
            (delegate-OnOk del val coin s keyed stored valid h.each) e;
    }
