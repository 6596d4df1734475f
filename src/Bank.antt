-- ===== src/Bank.antt =====
-- custom/bank/keeper/keeper.go: the supply that the bank answers with, without the staking tokens
-- that x/alliance has minted.
pub mod Agreement
use alliance.Prelude.{ℕ, Bool, Option, none, some, List, [], ◌∷◌, ◌==◌, if◌then◌else◌}
use alliance.Prelude.Int.{ℤ, pos, ◌-ℤ◌, ltb_ℤ}
use alliance.Sdk.{Sdk, SdkDec, Denom, Coin, Coins, alliance_module, empty_denom}
use alliance.Sdk.Result.{Result, ok, err, or_panic, invalid_argument, internal, ◌>>=◌}
use alliance.Types.{AllianceAsset}
use alliance.Keeper.State.{State}
use alliance.Keeper.Store.{get_all_assets}
use alliance.Keeper.Rebalance.{get_alliance_bonded_amount}
use alliance.Keeper.Queries.{with_status}

-- What the keeper takes from the SDK's bank: GetSupply, GetPaginatedTotalSupply, and on coins
-- AmountOf and Sub, which panics where a coin would be negative.
pub record BankKeeper (W PageRequest PageResponse : Type 0) : Type 0 where
  pub get_supply : Denom → W → Coin
  pub get_paginated_total_supply : PageRequest → W → Result (Coins × PageResponse)
  pub amount_of : Coins → Denom → ℤ
  pub coins_sub : Coins → Coin → Option Coins

module _ {W PageRequest PageResponse : Type 0} (k : Sdk W)
    (b : BankKeeper W PageRequest PageResponse) where
  -- The sum of the weights, which nothing uses.
  unfoldable pub total_reward_weights : List AllianceAsset → SdkDec → SdkDec
  total_reward_weights [] total = total
  total_reward_weights (asset ∷ assets) total =
      total_reward_weights assets (k.add total asset.reward_weight)

  unfoldable pub alliance_bonded : State W → ℤ
  alliance_bonded s = get_alliance_bonded_amount k (k.get_module_address alliance_module) s.world

  unfoldable pub supply_amount : Denom → State W → ℤ
  unfolding total_reward_weights alliance_bonded
  supply_amount denom s =
      let supply = b.get_supply denom s.world in
      if denom == k.bond_denom s.world
      then (let weights = total_reward_weights (get_all_assets s) k.zero_dec in
          supply.amount -ℤ alliance_bonded s)
      else supply.amount

  -- SupplyOf; the request may be nil, and `sdk.NewCoin` panics at a negative amount.
  unfoldable pub supply_of : Option Denom → State W → Result Coin
  unfolding supply_amount
  supply_of none s = err invalid_argument
  supply_of (some denom) s =
      if denom == empty_denom
      then err invalid_argument
      else or_panic (k.new_coin denom (supply_amount denom s))

  -- The page of TotalSupply, without the bonded tokens where it has the bond denomination.
  unfoldable pub without_bonded : State W → Coins → Result Coins
  unfolding alliance_bonded
  without_bonded s supply =
      let denom = k.bond_denom s.world in
      if ltb_ℤ (pos 0) (b.amount_of supply denom)
      then (or_panic (k.new_coin denom (alliance_bonded s)) >>= λ coin.
          or_panic (b.coins_sub supply coin))
      else ok supply

  unfoldable pub total_supply : PageRequest → State W → Result (Coins × PageResponse)
  unfolding without_bonded
  total_supply req s =
      with_status (err internal) (b.get_paginated_total_supply req s.world) >>= λ (supply, page).
      without_bonded s supply >>= λ supply'. ok (supply', page)
