-- ===== src/Keeper/TakeRate/Conservation.antt =====
-- keeper/asset.go: the tokens around DeductAssetsWithTakeRate, and the panics of DeductAssetsHook.
use alliance.Prelude.{ℕ, ◌⊎◌, ap, ◌≡◌, refl, true, false, some, some, List, [], ◌∷◌, inl, inr, ◌==◌}
use alliance.Prelude.Int.{ℤ, pos, ◌+ℤ◌, ◌-ℤ◌, ltb_ℤ, eqb_ℤ, int_laws}
use alliance.Prelude.Map.{lookup-insert_self, lookup-insert_ne, nat_key}
use alliance.Sdk.{Sdk, Denom, Coin, Coins, Context}
use alliance.Sdk.Result.{ok, panic, or_panic, or_panic-eq-ok}
use alliance.Types.{AllianceAsset}
use alliance.Types.Asset.{lte}
use alliance.Keeper.State.{State}
use alliance.Keeper.Call.Post.{OnOk, OnOk-if, OnOk-lift, OnOk-value}
use alliance.Keeper.Store.{
  set_asset, last_reward_claim_time, reward_claim_interval, get_asset_by_denom,
}
use alliance.Keeper.TakeRate.{deduct_asset, deduct_assets_hook, reduced_amount}

left_and_sent : (left sent all : ℤ) → sent ≡ all -ℤ left → left +ℤ sent ≡ all
left_and_sent left sent all h = grind int_laws

module _ {W : Type 0} (k : Sdk W) (ctx : Context) where
  -- An interval of zero, which the parameter's check lets pass, makes the hook panic once rewards
  -- have been claimed before and the block's time is past that.
  pub deduct_assets_hook_zero_interval :
      (assets : List AllianceAsset) (s : State W)
      → reward_claim_interval s ≡ pos 0
      → ltb_ℤ (last_reward_claim_time s +ℤ pos 0) ctx.block_time ≡ true
      → eqb_ℤ (last_reward_claim_time s) (pos 0) ≡ false
      → deduct_assets_hook k ctx assets s ≡ (panic, s)
  unfolding deduct_assets_hook reward_claim_interval ◌+ℤ◌ last_reward_claim_time
  deduct_assets_hook_zero_interval assets s zero_interval past set = rw (zero_interval, past, set)

  -- What the asset has after the deduction, beside what is sent.
  abbrev pub Splits : AllianceAsset → Coins → State W → Coins × AllianceAsset → State W → Type 0
  Splits asset coins s r s' =
      ((r ≡ (coins, asset)) × (s' ≡ s))
      ⊎ ((c : Coin) × (r.0 ≡ k.coins_add coins (c ∷ []))
          × (c.denom ≡ asset.denom)
          × (r.1.total_tokens +ℤ c.amount ≡ asset.total_tokens)
          × (get_asset_by_denom asset.denom s' ≡ some r.1)
          × ((d : Denom)
              → d == asset.denom ≡ false
              → get_asset_by_denom d s' ≡ get_asset_by_denom d s))

  module _
      (new_coin_lem : (d : Denom) (n : ℤ) (c : Coin)
        → k.new_coin d n ≡ some c
        → c ≡ record { denom = d; amount = n }) where
    deduct_asset-Splits :
        (intervals : ℕ) (asset : AllianceAsset) (coins : Coins) (s : State W)
        → OnOk (Splits asset coins s) (deduct_asset k ctx intervals asset coins s)
    unfolding deduct_asset set_asset get_asset_by_denom
    deduct_asset-Splits intervals asset coins s =
        OnOk-if (Splits asset coins s) (lte k (reduced_amount k ctx intervals asset) k.one_dec) _ _
          s (λ small. inl (refl, refl))
          λ large. OnOk-lift (Splits asset coins s) _ (or_panic (k.new_coin asset.denom _)) s λ c e.
            let same = new_coin_lem asset.denom _ c (or_panic-eq-ok (k.new_coin asset.denom _) e) in
            inr (
              c,
              refl,
              ap (λ x. x.denom) same,
              left_and_sent _ _ _ (ap (λ x. x.amount) same),
              lookup-insert_self asset.denom _ s.assets,
              λ d other. lookup-insert_ne d asset.denom _ s.assets other,
            )

    -- The take rate neither makes nor loses tokens, if a new coin has the denomination and
    -- amount it is made of: where a deduction returns, either nothing was taken and
    -- nothing written, or one coin of the asset's denomination joins the coins to send, it and the
    -- tokens left, which the store now has for the asset, are the tokens there were, and the
    -- other assets are as before.
    pub deduct_asset_splits :
        (intervals : ℕ) (asset : AllianceAsset) (coins : Coins) (s : State W)
        {r : Coins × AllianceAsset}
        → (deduct_asset k ctx intervals asset coins s).0 ≡ ok r
        → ((r ≡ (coins, asset)) × ((deduct_asset k ctx intervals asset coins s).1 ≡ s))
          ⊎ ((c : Coin) × (r.0 ≡ k.coins_add coins (c ∷ []))
              × (c.denom ≡ asset.denom)
              × (r.1.total_tokens +ℤ c.amount ≡ asset.total_tokens)
              × (get_asset_by_denom asset.denom (deduct_asset k ctx intervals asset coins s).1
                  ≡ some r.1)
              × ((d : Denom)
                  → d == asset.denom ≡ false
                  → get_asset_by_denom d (deduct_asset k ctx intervals asset coins s).1
                    ≡ get_asset_by_denom d s))
    deduct_asset_splits intervals asset coins s e =
        OnOk-value (Splits asset coins s) (deduct_asset k ctx intervals asset coins s)
          (deduct_asset-Splits intervals asset coins s) e
