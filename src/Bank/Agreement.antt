-- ===== src/Bank/Agreement.antt =====
-- custom/bank/keeper/keeper.go: SupplyOf and TotalSupply say the same.
use alliance.Prelude.{◌≡◌, sym, ap, ◌∙◌, true, false, some, [], ◌==◌, if◌then◌else◌}
use alliance.Prelude.Int.{ℤ, pos, ◌-ℤ◌, ltb_ℤ}
use alliance.Sdk.{Sdk, Denom, Coin, Coins, empty_denom}
use alliance.Sdk.Result.{Result, ok, err, panic, or_panic, or_panic-eq-ok, >>=-parts}
use alliance.Keeper.State.{State}
use alliance.Bank.{
  BankKeeper, alliance_bonded, supply_amount, supply_of, without_bonded, total_supply,
}

-- What the SDK documents of its coins.
pub record SupplyLaws {W Req Res : Type 0} (k : Sdk W) (b : BankKeeper W Req Res) : Type 0 where
  pub new_coin :
      (d : Denom) (n : ℤ) (c : Coin)
      → k.new_coin d n ≡ some c
      → c ≡ record { denom = d; amount = n }
  pub sub_amount :
      (cs : Coins) (c : Coin) (left : Coins) (d : Denom)
      → b.coins_sub cs c ≡ some left
      → b.amount_of left d
        ≡ (if d == c.denom then b.amount_of cs d -ℤ c.amount else b.amount_of cs d)

abbrev first_or_nil : {Res : Type 0} → Result (Coins × Res) → Coins
first_or_nil (ok (cs, page)) = cs
first_or_nil (err e) = []
first_or_nil panic = []

module _ {W Req Res : Type 0} (k : Sdk W) (b : BankKeeper W Req Res) (laws : SupplyLaws k b) where
  without_bonded-amount :
      (d : Denom) (s : State W) (supply left : Coins)
      → ltb_ℤ (pos 0) (b.amount_of supply (k.bond_denom s.world)) ≡ true
      → b.amount_of supply d ≡ (b.get_supply d s.world).amount
      → without_bonded k b s supply ≡ ok left
      → b.amount_of left d ≡ supply_amount k b d s
  unfolding without_bonded supply_amount
  without_bonded-amount d s supply left pos_ same h =
      let (coin, made, taken) =
        >>=-parts (or_panic (k.new_coin (k.bond_denom s.world) (alliance_bonded k b s)))
          (λ coin. or_panic (b.coins_sub supply coin)) (sym (rw pos_) ∙ h) in
      let bonded = alliance_bonded k b s in
      let is_bond = laws.new_coin (k.bond_denom s.world) bonded coin (or_panic-eq-ok _ made) in
      laws.sub_amount supply coin left d (or_panic-eq-ok _ taken)
      ∙ (ap (λ c. if d == c.denom then b.amount_of supply d -ℤ c.amount else b.amount_of supply d)
            is_bond
          ∙ ap (λ x. if d == k.bond_denom s.world then x -ℤ bonded else x) same)

  -- For a denomination that is not empty, where the page that TotalSupply reads has the bond
  -- denomination and the bank's supply of this one, SupplyOf answers with the amount that
  -- TotalSupply lists, or panics where no such coin can be made.
  pub supply_of-total_supply :
      (d : Denom) (req : Req) (s : State W) {supply listed : Coins} {page page' : Res}
      → (d == empty_denom) ≡ false
      → b.get_paginated_total_supply req s.world ≡ ok (supply, page)
      → ltb_ℤ (pos 0) (b.amount_of supply (k.bond_denom s.world)) ≡ true
      → b.amount_of supply d ≡ (b.get_supply d s.world).amount
      → total_supply k b req s ≡ ok (listed, page')
      → supply_of k b (some d) s ≡ or_panic (k.new_coin d (b.amount_of listed d))
  unfolding total_supply supply_of
  supply_of-total_supply d req s {supply} {listed} {page} {page'} full read has_bond same h =
      let (left, less, made) =
        >>=-parts (without_bonded k b s supply) (λ cs. ok (cs, page)) (sym (rw read) ∙ h) in
      let is_listed : left ≡ listed = ap first_or_nil made in
      rw full (
        ap (λ n. or_panic (k.new_coin d n))
          (sym (without_bonded-amount d s supply left has_bond same less)
            ∙ ap (λ cs. b.amount_of cs d) is_listed))
