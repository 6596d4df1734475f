-- ===== src/Keeper/Delegations/Tokens.antt =====
-- keeper/delegation.go: the assets around Delegate.
use alliance.Prelude.{◌≡◌, refl, sym, ap, ◌∙◌, true, false, Option, none, some, [], ◌∷◌, ◌==◌}
use mathlib.Core.Path.{subst}
use alliance.Prelude.Int.{◌+ℤ◌}
use alliance.Prelude.Map.{Map, lookup, insert, nat_key, lookup-insert_self, lookup-insert_ne}
use alliance.Sdk.{Sdk, Denom, AccAddress, SdkDec, Coin, Context, alliance_module}
use alliance.Sdk.Result.{ok, or_panic, not_found}
use alliance.Types.{AllianceAsset, AllianceValidator, get_operator}
use alliance.Types.Asset.{get_validator_shares}
use alliance.Types.Shares.{get_delegation_shares_from_tokens}
use alliance.Keeper.State.{State}
use alliance.Keeper.Call.Post.{
  OnOk, OnOk-value, OnOk-resume, OnOk-lift, OnOk-other_module, OnOk-found,
}
use alliance.Keeper.Store.{
  set_asset, get_asset_by_denom, get_delegation_of, set_delegation, queue_asset_rebalance_event,
  set_validator,
}
use alliance.Keeper.Validators.{single_dec_coins, update_validator_shares}
use alliance.Keeper.Rewards.Kept.{Keeps}
use alliance.Keeper.Dust.{upsert_delegation_with_new_tokens}
use alliance.Keeper.Delegations.{claim_if_found, add_delegation, delegate}
use alliance.Keeper.Queues.Transitive.{claim_if_found-Keeps}

stored_under :
    (d e : Denom) (v : AllianceAsset) (m : Map Denom AllianceAsset)
    → d ≡ e
    → lookup e (insert d v m) ≡ some v
stored_under d e v m same = rw same (lookup-insert_self e v m)

others_kept :
    (d e : Denom) (v : AllianceAsset) (m n : Map Denom AllianceAsset)
    → d ≡ e
    → m ≡ n
    → (j : Denom) → j == e ≡ false
    → lookup j (insert d v m) ≡ lookup j n
others_kept d e v m n same kept j ne = rw (same, kept) (lookup-insert_ne j e v n ne)

abbrev or_else : AllianceAsset → Option AllianceAsset → AllianceAsset
or_else a none = a
or_else a (some b) = b

pub some_injective : {a b : AllianceAsset} → some a ≡ some b → a ≡ b
some_injective {a} {b} h = ap (or_else a) h

module _ {W : Type 0} (k : Sdk W) (ctx : Context) where
  -- The stored asset has `n` more tokens, and the other assets are as before.
  abbrev pub Gains : Coin → AllianceAsset → Map Denom AllianceAsset → State W → Type 0
  Gains coin asset m s' =
      ((a : AllianceAsset) × (lookup coin.denom s'.assets ≡ some a)
        × (a.total_tokens ≡ asset.total_tokens +ℤ coin.amount))
      × ((d : Denom) → d == coin.denom ≡ false → lookup d s'.assets ≡ lookup d m)
      × (s'.rebalance_queued ≡ true)

  abbrev pub GainsFor : Coin → AllianceAsset → Map Denom AllianceAsset → SdkDec → State W → Type 0
  GainsFor coin asset m shares = Gains coin asset m

  upsert-SameAssets :
      (del : AccAddress) (val : AllianceValidator) (coin : Coin) (asset : AllianceAsset)
      (s : State W)
      → OnOk
          (λ r s'. s'.assets ≡ s.assets)
          (upsert_delegation_with_new_tokens k ctx del val coin asset s)
  unfolding upsert_delegation_with_new_tokens set_delegation
  upsert-SameAssets del val coin asset s =
      OnOk-lift (λ r s'. s'.assets ≡ s.assets) _
        (get_delegation_shares_from_tokens k val asset coin.amount) s (λ shares e. refl)

  add_delegation-Gains :
      (del : AccAddress) (val : AllianceValidator) (coin : Coin) (asset : AllianceAsset)
      (s : State W) (m : Map Denom AllianceAsset)
      → asset.denom ≡ coin.denom
      → s.assets ≡ m
      → OnOk (GainsFor coin asset m) (add_delegation k ctx del val coin asset s)
  unfolding add_delegation set_asset update_validator_shares set_validator
      queue_asset_rebalance_event
  add_delegation-Gains del val coin asset s m keyed before =
      OnOk-resume (GainsFor coin asset m) _ (λ r s'. s'.assets ≡ s.assets)
        (upsert_delegation_with_new_tokens k ctx del val coin asset s)
        (upsert-SameAssets del val coin asset s)
        λ (delegation, new_shares) s' same.
          OnOk-lift (GainsFor coin asset m) _ (get_validator_shares k asset coin.amount) s' λ x ex.
            OnOk-lift (GainsFor coin asset m) _ (single_dec_coins k coin.denom new_shares) _
              λ ds ed.
                OnOk-lift (GainsFor coin asset m) _ (single_dec_coins k coin.denom x) _ λ vs ev. (
                  (_, stored_under asset.denom coin.denom _ s'.assets keyed, refl),
                  others_kept asset.denom coin.denom _ s'.assets m keyed (same ∙ before),
                  refl,
                )

  delegate-Gains :
      (del : AccAddress) (val : AllianceValidator) (coin : Coin) (asset : AllianceAsset)
      (s : State W)
      → get_asset_by_denom coin.denom s ≡ some asset
      → asset.denom ≡ coin.denom
      → OnOk (GainsFor coin asset s.assets) (delegate k ctx del val coin s)
  unfolding delegate get_asset_by_denom
  delegate-Gains del val coin asset s known keyed =
      OnOk-found (GainsFor coin asset s.assets) _ not_found (get_asset_by_denom coin.denom s) s
        λ found e.
          OnOk-lift (GainsFor coin asset s.assets) _ (or_panic (k.new_coins (coin ∷ []))) s λ cs e'.
            OnOk-other_module (GainsFor coin asset s.assets) _
              (k.send_coins_from_account_to_module del alliance_module cs) s
              λ u w.
                let paid = record s { world = w } in
                OnOk-resume (GainsFor coin asset s.assets) _ (Keeps k val paid)
                  (claim_if_found k ctx del val coin
                    (get_delegation_of del (get_operator val) coin.denom paid) paid)
                  (claim_if_found-Keeps k ctx del val coin _ paid)
                  λ val' s' (same, kept).
                    subst
                      (λ a.
                        OnOk (GainsFor coin asset s.assets)
                          (add_delegation k ctx del val' coin a s'))
                      (some_injective (sym known ∙ e))
                      (add_delegation-Gains del val' coin asset s' s.assets keyed
                        (ap (λ r. r.assets) kept))

  -- Where a delegation returns, and its asset is stored under its denomination, its amount has
  -- been added to the tokens of the asset, the other assets are as before, and a rebalancing is
  -- queued.
  pub delegate_tokens :
      (del : AccAddress) (val : AllianceValidator) (coin : Coin) (asset : AllianceAsset)
      (s : State W) {shares : SdkDec}
      → get_asset_by_denom coin.denom s ≡ some asset
      → asset.denom ≡ coin.denom
      → (delegate k ctx del val coin s).0 ≡ ok shares
      → let s' = (delegate k ctx del val coin s).1 in
        ((a : AllianceAsset) × (lookup coin.denom s'.assets ≡ some a)
          × (a.total_tokens ≡ asset.total_tokens +ℤ coin.amount))
        × ((d : Denom) → d == coin.denom ≡ false → lookup d s'.assets ≡ lookup d s.assets)
        × (s'.rebalance_queued ≡ true)
  delegate_tokens del val coin asset s known keyed e =
      OnOk-value (GainsFor coin asset s.assets) (delegate k ctx del val coin s)
        (delegate-Gains del val coin asset s known keyed) e
