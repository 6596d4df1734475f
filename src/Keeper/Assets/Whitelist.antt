-- ===== src/Keeper/Assets/Whitelist.antt =====
-- keeper/asset.go: what UpdateAllianceAsset takes over.
use alliance.Prelude.{
  ◌≡◌, refl, ap, ◌∙◌, ◌^◌, ◌||◌, ◌&&◌, not, Bool, true, false, if◌then◌else◌, arith, Option, none,
  some, ◌==◌,
}
use alliance.Prelude.Int.{ℤ, pos, eqb_ℤ}
use alliance.Prelude.Map.{Map, lookup, insert, lookup-insert_self, lookup-insert_ne, nat_key}
use alliance.Sdk.{Sdk, Denom, ValAddress, SdkDec, Coins, AccAddress, Context, Time}
use alliance.Sdk.Result.{Result, ok, err, panic, reward_weight_out_of_bound}
use alliance.Types.{AllianceAsset, AllianceValidator, AllianceValidatorInfo}
use alliance.Types.Laws.{DecLaws}
use alliance.Keeper.State.{State}
use alliance.Keeper.Call.{modify, other_module}
use alliance.Keeper.Call.Post.{OnOk, OnOk-resume, OnOk-guard}
use alliance.Keeper.Call.Keeps.{Keeps, Keeps-modify, Keeps-pure, keeps_rules}
use alliance.Keeper.Store.{
  set_asset, get_asset_by_denom, set_validator, set_validator_info, queue_asset_rebalance_event,
  set_reward_weight_change_snapshot,
}
use alliance.Keeper.Validators.{get_alliance_validator, info_or_new}
use alliance.Keeper.Rewards.{
  add_assets_to_reward_pool, claim_withdrawn, claim_of_delegation, claim_validator_rewards,
}
use alliance.Keeper.Assets.{
  snapshot_validator, snapshot_validators, reward_change_start, update_alliance_asset,
  weight_out_of_range,
}

pub record SameAssets {W : Type 0} (m : Map Denom AllianceAsset) (s : State W) : Type 0 where
  pub same : s.assets ≡ m

module _ {W : Type 0} {m : Map Denom AllianceAsset} where
  frame :
      (f : State W → State W)
      → ((s : State W) → (f s).assets ≡ s.assets)
      → Keeps (SameAssets m) (modify f)
  frame f e = Keeps-modify f (λ s h. record { same = e s ∙ h.same })

  other_module-Same : {A : Type 0} (f : W → Result A × W) → Keeps (SameAssets m) (other_module f)
  other_module-Same f = record { at = λ s h. record { same = h.same } }

  set_validator_info-Same :
      (val : ValAddress) (info : AllianceValidatorInfo)
      → Keeps (SameAssets m) (set_validator_info {W = W} val info)
  unfolding set_validator_info
  set_validator_info-Same val info = frame _ (λ s. refl)

  set_validator-Same : (val : AllianceValidator) → Keeps (SameAssets m) (set_validator {W = W} val)
  unfolding set_validator
  set_validator-Same val = set_validator_info-Same _ val.info

  queue-Same : Keeps (SameAssets m) (queue_asset_rebalance_event {W = W})
  unfolding queue_asset_rebalance_event
  queue-Same = frame _ (λ s. refl)

  info_or_new-Same :
      (val : ValAddress) (o : Option AllianceValidatorInfo)
      → Keeps (SameAssets m) (info_or_new {W = W} val o)
  unfolding info_or_new
  info_or_new-Same val none = search (keeps_rules, set_validator_info-Same)
  info_or_new-Same val (some info) = Keeps-pure info

  module _ (k : Sdk W) where
    get_alliance_validator-Same :
        (val : ValAddress) → Keeps (SameAssets m) (get_alliance_validator k val)
    unfolding get_alliance_validator
    get_alliance_validator-Same val = search (keeps_rules, info_or_new-Same)

    module _ (ctx : Context) where
      set_snapshot-Same :
          (asset : AllianceAsset) (val : AllianceValidator)
          → Keeps (SameAssets m) (set_reward_weight_change_snapshot {W = W} ctx asset val)
      unfolding set_reward_weight_change_snapshot
      set_snapshot-Same asset val = frame _ (λ s. refl)

      add_assets-Same :
          (from : AccAddress) (val : AllianceValidator) (coins : Coins)
          → Keeps (SameAssets m) (add_assets_to_reward_pool k ctx from val coins)
      unfolding add_assets_to_reward_pool
      add_assets-Same from val coins =
          search (keeps_rules, set_validator-Same, other_module-Same) depth 20

      claim_of_delegation-Same :
          (val : AllianceValidator) (o : Option SdkDec)
          → Keeps (SameAssets m) (claim_of_delegation k ctx val o)
      unfolding claim_withdrawn
      claim_of_delegation-Same val none = search keeps_rules
      claim_of_delegation-Same val (some shares) =
          search (keeps_rules, other_module-Same, add_assets-Same) depth 12

      claim_validator_rewards-Same :
          (val : AllianceValidator) → Keeps (SameAssets m) (claim_validator_rewards k ctx val)
      unfolding claim_validator_rewards
      claim_validator_rewards-Same val = search (keeps_rules, claim_of_delegation-Same)

      snapshot_validator-Same :
          (asset : AllianceAsset) (val : ValAddress)
          → Keeps (SameAssets m) (snapshot_validator k ctx asset val)
      unfolding snapshot_validator
      snapshot_validator-Same asset val =
          search
            (
              keeps_rules, get_alliance_validator-Same, claim_validator_rewards-Same,
              set_snapshot-Same,
            )
            depth 12

      snapshot_validators-Same :
          (asset new_asset : AllianceAsset)
          → Keeps (SameAssets m) (snapshot_validators k ctx asset new_asset)
      unfolding snapshot_validators
      snapshot_validators-Same asset new_asset =
          search (keeps_rules, queue-Same, snapshot_validator-Same) depth 12

always :
    {W A : Type 0} (P : State W → Type 0) (p : Result A × State W) → P p.1 → OnOk (λ a s. P s) p
always P (ok a, s) h = h
always P (err e, s) h = tt
always P (panic, s) h = tt

-- Whether an update starts the counter of changes: the rate or the interval is another one, and no
-- change was scheduled before, the rate being one or the interval zero.
abbrev pub restarts : AllianceAsset → AllianceAsset → Bool
restarts asset new_asset =
    not (
      eqb_ℤ asset.reward_change_rate.units new_asset.reward_change_rate.units
      && eqb_ℤ asset.reward_change_interval new_asset.reward_change_interval)
    && (eqb_ℤ asset.reward_change_rate.units (pos (10 ^ 18))
        || eqb_ℤ asset.reward_change_interval (pos 0))

-- The asset of an update: its rates, its interval, its weight and the start of its changes are
-- new; tokens, shares, the start of rewards and the range stay.
abbrev pub taken_over : AllianceAsset → AllianceAsset → Time → AllianceAsset
taken_over asset new_asset start = record asset {
  take_rate = new_asset.take_rate;
  reward_weight = new_asset.reward_weight;
  reward_change_rate = new_asset.reward_change_rate;
  reward_change_interval = new_asset.reward_change_interval;
  last_reward_change_time = start;
}

abbrev pub updated : Time → AllianceAsset → AllianceAsset → AllianceAsset
updated now asset new_asset =
    taken_over asset new_asset
      (if restarts asset new_asset then now else new_asset.last_reward_change_time)

eqb_sym : (a b : ℤ) → eqb_ℤ a b ≡ eqb_ℤ b a
eqb_sym a b = ground arith

starts_at :
    (a b c d : Bool) (now last : Time)
    → (if not a || not b then (if c || d then now else last) else last)
      ≡ (if not (a && b) && (c || d) then now else last)
starts_at true true c d now last = refl
starts_at true false c d now last = refl
starts_at false b c d now last = refl

module _ {W : Type 0} (k : Sdk W) (laws : DecLaws k) (ctx : Context) where
  reward_change_start-restarts :
      (asset new_asset : AllianceAsset)
      → reward_change_start k ctx asset new_asset
        ≡ (if restarts asset new_asset then ctx.block_time else new_asset.last_reward_change_time)
  unfolding reward_change_start
  reward_change_start-restarts asset new_asset =
      rw
        (
          laws.equal_units new_asset.reward_change_rate asset.reward_change_rate,
          laws.equal_units asset.reward_change_rate k.one_dec,
          laws.one_units,
          eqb_sym new_asset.reward_change_rate.units asset.reward_change_rate.units,
          eqb_sym new_asset.reward_change_interval asset.reward_change_interval,
        )
        (starts_at (eqb_ℤ asset.reward_change_rate.units new_asset.reward_change_rate.units)
          (eqb_ℤ asset.reward_change_interval new_asset.reward_change_interval)
          (eqb_ℤ asset.reward_change_rate.units (pos (10 ^ 18)))
          (eqb_ℤ asset.reward_change_interval (pos 0)) ctx.block_time
          new_asset.last_reward_change_time)

  after_set :
      (asset a : AllianceAsset) (m n : Map Denom AllianceAsset)
      → n ≡ m
      → (lookup asset.denom (insert asset.denom a n) ≡ some a)
        × ((d : Denom) → d == asset.denom ≡ false → lookup d (insert asset.denom a n) ≡ lookup d m)
  after_set asset a m n same = (
    lookup-insert_self asset.denom a n,
    λ d other. lookup-insert_ne d asset.denom a n other ∙ ap (lookup d) same,
  )

  -- Under the laws of decimals, where an update of an asset that is stored returns, the asset
  -- under its denomination has the new take rate, weight, change rate and interval. Its changes
  -- count from the block's time if the rate or the interval is another one and no change was
  -- scheduled before, which is so at a rate of one or an interval of zero; else from the time
  -- that the update names. All else of it is as before, its tokens and shares among it, and the
  -- other assets are as before.
  pub update_alliance_asset_whitelist :
      (new_asset asset : AllianceAsset) (s : State W)
      → get_asset_by_denom new_asset.denom s ≡ some asset
      → OnOk
          (λ u s'.
            (lookup asset.denom s'.assets ≡ some (updated ctx.block_time asset new_asset))
            × ((d : Denom) → d == asset.denom ≡ false → lookup d s'.assets ≡ lookup d s.assets))
          (update_alliance_asset k ctx new_asset s)
  unfolding update_alliance_asset set_asset
  update_alliance_asset_whitelist new_asset asset s known = rw known (
      OnOk-guard _ _ (weight_out_of_range k ctx new_asset.reward_weight new_asset)
        reward_weight_out_of_bound s
        λ inside.
          OnOk-resume _ _ (λ u s'. SameAssets s.assets s')
            (snapshot_validators k ctx asset new_asset s)
            (always (SameAssets s.assets) _
              ((snapshot_validators-Same k ctx asset new_asset).at s (record { same = refl })))
            λ u s1 h.
              let (here, others) =
                after_set asset
                  (taken_over asset new_asset (reward_change_start k ctx asset new_asset)) s.assets
                  s1.assets h.same in
              (
                here
                    ∙ ap (λ t. some (taken_over asset new_asset t))
                        (reward_change_start-restarts asset new_asset),
                others,
              ))
