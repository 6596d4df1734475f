-- ===== src/Example/Answers.antt =====
-- The theorems on queries, on the supply and on the migration, at concrete states.
use mathlib.Core.Path.{subst}
use alliance.Prelude.{
  ◌≡◌, refl, ap, Option, none, some, List, [], ◌∷◌, ◌==◌, All, if◌then◌else◌, arith,
}
use alliance.Prelude.Int.{pos, ◌-ℤ◌}
use alliance.Prelude.Map.{lookup, nat_key}
use alliance.Sdk.{Denom, Coin, Coins}
use alliance.Sdk.Result.{Result, ok, err, panic, or_panic}
use alliance.Keeper.Call
use alliance.Keeper.Call.{pure}
use alliance.Keeper.Call.Post.{OnOk}
use alliance.Keeper.Store.{get_asset_by_denom, get_delegation_of}
use alliance.Types.Messages.{validate_claim}
use alliance.Keeper.MsgServer.{serve_claim}
use alliance.Keeper.Queries.{
  Paginate, DelegationRequest, alliance_validator, alliance_delegation, ibc_alliance_delegation,
  alliance_delegation_rewards,
}
use alliance.Keeper.Queries.Pages.{
  all_alliances_delegations, all_alliance_validators, alliances_delegation,
  alliances_delegation_by_validator,
}
use alliance.Keeper.Queries.Rewards.{claim_of, Paid, rewards_query_claims}
use alliance.Keeper.Queries.Untouched.{OnlyNewInfos, queries_write_new_infos}
use alliance.Keeper.Queries.Owned.{PagesHoldEntries, by_validator_owned}
use alliance.Keeper.Rebalance.{get_alliance_bonded_amount}
use alliance.Keeper.Migrations.{migrate}
use alliance.Keeper.Migrations.Lookups.{changed, ranged, migrate_lem}
use alliance.Bank.{BankKeeper, supply_of, total_supply}
use alliance.Bank.Agreement.{SupplyLaws, supply_of-total_supply}
use alliance.Example.World.{sdk, coins_of, Log}
use alliance.Example.Laws.{sdk-new_coin, sdk-DecLaws, sdk-TruncationLaws}
use alliance.Example.Tests.{ctx, asset, delegated, redelegated}
use alliance.Example.Keyed.{redelegated-WellKeyed}

-- Every page is the whole store.
abbrev whole : Paginate (Unit {0}) (Unit {0})
whole = λ V req entries. ok (entries, tt)

abbrev entries_of : {V : Type 0} → Result (List V × Unit {0}) → List V
entries_of (ok (entries, res)) = entries
entries_of (err e) = []
entries_of panic = []

whole-PagesHoldEntries : PagesHoldEntries whole
whole-PagesHoldEntries V P req entries page res all e = subst (All P) (ap entries_of e) all

abbrev plain : Denom → Option Denom
plain = λ denom. none

abbrev request : DelegationRequest
request = record { delegator_addr = 5; validator_addr = 3; denom = 1 }

rewards_query_claims_example :
    (Call.◌>>=◌
        (alliance_delegation_rewards sdk plain (λ h. h) ctx request)
        (λ coins. pure tt)
        delegated
      ≡ serve_claim sdk ctx (claim_of plain request) delegated)
    × OnOk
        (Paid sdk ctx 5 asset)
        (alliance_delegation_rewards sdk plain (λ h. h) ctx request delegated)
unfolding sdk get_asset_by_denom get_delegation_of lookup validate_claim
rewards_query_claims_example =
    rewards_query_claims sdk plain (λ h. h) ctx request delegated {asset = asset} refl refl refl
      refl refl refl

queries_write_new_infos_example :
    OnlyNewInfos delegated (alliance_validator sdk (some 8) delegated).1
    × OnlyNewInfos delegated (alliance_delegation sdk plain (λ h. h) ctx request delegated).1
    × OnlyNewInfos delegated (ibc_alliance_delegation sdk plain (λ h. h) ctx request delegated).1
    × OnlyNewInfos delegated (all_alliances_delegations sdk whole (some tt) delegated).1
    × OnlyNewInfos delegated (all_alliance_validators sdk whole (some tt) delegated).1
    × OnlyNewInfos delegated (alliances_delegation sdk whole 5 tt delegated).1
    × OnlyNewInfos delegated (alliances_delegation_by_validator sdk whole 5 3 tt delegated).1
queries_write_new_infos_example =
    queries_write_new_infos sdk whole plain (λ h. h) ctx delegated (some 8) (some tt) tt 5 3 request

by_validator_owned_example :
    OnOk
      (λ r _.
        All (λ x. (x.delegation.delegator_address ≡ 5) × (x.delegation.validator_address ≡ 3)) r.0)
      (alliances_delegation_by_validator sdk whole 5 3 tt redelegated)
unfolding sdk
by_validator_owned_example =
    by_validator_owned sdk whole whole-PagesHoldEntries 5 3 tt redelegated redelegated-WellKeyed
      refl refl

migrate_lem_example :
    lookup 1 (migrate sdk ctx delegated).1.assets
    ≡ changed (ranged (pos 1000)) (lookup 1 delegated.assets)
unfolding lookup
migrate_lem_example =
    migrate_lem sdk ctx sdk-DecLaws sdk-TruncationLaws delegated (refl, tt) (refl, tt) 1

-- Coins less a coin.
unfoldable lower : Coins → Coin → Option Coins
unfolding ◌-ℤ◌
lower cs c = some (record { denom = c.denom; amount = coins_of c.denom cs -ℤ c.amount } ∷ cs)

abbrev bank : BankKeeper Log (Unit {0}) (Unit {0})
bank = record {
  get_supply = λ d w. record { denom = d; amount = pos 1000 };
  get_paginated_total_supply = λ req w. ok (record { denom = 9; amount = pos 1000 } ∷ [], tt);
  amount_of = λ cs d. coins_of d cs;
  coins_sub = lower;
}

abbrev coins_or_nil : Option Coins → Coins
coins_or_nil none = []
coins_or_nil (some cs) = cs

lowered_at :
    (cs : Coins) (c : Coin) (d : Denom)
    → coins_of d (record { denom = c.denom; amount = coins_of c.denom cs -ℤ c.amount } ∷ cs)
      ≡ (if d == c.denom then coins_of d cs -ℤ c.amount else coins_of d cs)
unfolding coins_of
lowered_at cs c d = ground arith

lowered :
    (cs : Coins) (c : Coin) (left : Coins) (d : Denom)
    → lower cs c ≡ some left
    → coins_of d left ≡ (if d == c.denom then coins_of d cs -ℤ c.amount else coins_of d cs)
unfolding lower coins_of
lowered cs c left d h =
    subst (λ x. coins_of d x ≡ (if d == c.denom then coins_of d cs -ℤ c.amount else coins_of d cs))
      (ap coins_or_nil h) (lowered_at cs c d)

bank-SupplyLaws : SupplyLaws sdk bank
bank-SupplyLaws = record { new_coin = sdk-new_coin; sub_amount = lowered }

supply_of-total_supply_example :
    supply_of sdk bank (some 9) delegated ≡ or_panic (sdk.new_coin 9 (pos 990))
unfolding sdk total_supply coins_of lower get_alliance_bonded_amount
supply_of-total_supply_example =
    supply_of-total_supply sdk bank bank-SupplyLaws 9 tt delegated refl refl refl refl refl
