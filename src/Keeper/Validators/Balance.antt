-- ===== src/Keeper/Validators/Balance.antt =====
-- keeper/validator.go and invariants.go: the sum of the shares that the validators hold.
use alliance.Prelude.{
  ◌≡◌, sym, ◌∙◌, ap, true, false, some, arith, ◌==◌, Bool-cases, inl, inr, ==_iff, ==_refl,
  if◌then◌else◌,
}
use alliance.Prelude.Int.{ℤ, pos, ◌+ℤ◌, int_laws, +ℤ_parts, eq_of_parts, pos_part, neg_part}
use alliance.Prelude.Map.{
  Map, lookup, insert, total, total-insert, lookup-insert_self, lookup-insert_ne, nat_key,
}
use alliance.Sdk.{Sdk, Denom, SdkDec, DecCoins, ValAddress}
use alliance.Sdk.Result.{ok, or_panic, >>=-parts, or_panic-eq-ok}
use alliance.Types.{AllianceAsset, AllianceValidatorInfo}
use alliance.Types.Validator.{validator_shares_in, add_shares}
use alliance.Types.Laws.{DecLaws, CoinLaws}
use alliance.Keeper.Validators.{single_dec_coins}

module _ {W : Type 0} (k : Sdk W) where
  abbrev pub shares_units : Denom → AllianceValidatorInfo → ℤ
  shares_units d info = (validator_shares_in k d info.validator_shares).units

  -- The shares of an asset that the validators hold together.
  abbrev pub sum_of_shares : Denom → Map ValAddress AllianceValidatorInfo → ℤ
  sum_of_shares d infos = total (shares_units d) infos

  abbrev pub IsBalanced :
      Map Denom AllianceAsset → Map ValAddress AllianceValidatorInfo → Denom → Type 0
  IsBalanced assets infos d =
      (asset : AllianceAsset)
      → lookup d assets ≡ some asset
      → asset.total_validator_shares.units ≡ sum_of_shares d infos

  abbrev pub single_units : Denom → SdkDec → Denom → ℤ
  single_units denom x d = if denom == d then x.units else pos 0

  module _ (laws : DecLaws k) (coins : CoinLaws k) where
    open laws use {zero_units, add_units}

    pub single_dec_coins_lem :
        (denom : Denom) (x : SdkDec) (cs : DecCoins)
        → single_dec_coins k denom x ≡ ok cs
        → (k.dec_coins_is_valid cs ≡ true)
          × ((d : Denom) → (validator_shares_in k d cs).units ≡ single_units denom x d)
    unfolding single_dec_coins validator_shares_in
    single_dec_coins_lem denom x cs h =
        let (c, hc, hcs) = >>=-parts (or_panic (k.new_dec_coin_from_dec denom x)) _ h in
        let c_eq = coins.new_dec_coin denom x (or_panic-eq-ok _ hc) in
        let (valid, units) = coins.new_dec_coins_single c (or_panic-eq-ok _ hcs) in
        (valid, λ d. units d ∙ rw c_eq (ground (arith, zero_units)))

    -- The shares of a validator after `AddShares`.
    pub add_shares-units :
        (info : AllianceValidatorInfo) (ds vs : DecCoins) (d : Denom)
        → k.dec_coins_is_valid info.validator_shares ≡ true
        → k.dec_coins_is_valid vs ≡ true
        → shares_units d (add_shares k ds vs info)
          ≡ shares_units d info +ℤ (validator_shares_in k d vs).units
    unfolding add_shares
    add_shares-units info ds vs d hi hv = coins.add_amount info.validator_shares vs d hi hv

  moved_sum :
      (t t' s s' i i' x : ℤ) → t ≡ s → t' ≡ t +ℤ x → s' +ℤ i ≡ s +ℤ i' → i' ≡ i +ℤ x → t' ≡ s'
  moved_sum t t' s s' i i' x e0 e1 e2 e3 = eq_of_parts t' s' (
      omega (
        arith,
        +ℤ_parts t x,
        +ℤ_parts s' i,
        +ℤ_parts s i',
        +ℤ_parts i x,
        ap pos_part e0,
        ap neg_part e0,
        ap pos_part e1,
        ap neg_part e1,
        ap pos_part e2,
        ap neg_part e2,
        ap pos_part e3,
        ap neg_part e3,
      ))

  plus_zero : (i : ℤ) → i +ℤ pos 0 ≡ i
  plus_zero i = omega int_laws

  module _ (denom : Denom) (op : ValAddress) (x : ℤ) (asset asset' : AllianceAsset)
      (info info' : AllianceValidatorInfo) (assets : Map Denom AllianceAsset)
      (infos : Map ValAddress AllianceValidatorInfo) (known : lookup denom assets ≡ some asset)
      (stored : lookup op infos ≡ some info)
      (shares : (d : Denom)
        → shares_units d info' ≡ shares_units d info +ℤ (if denom == d then x else pos 0)) where
    moved :
        asset'.total_validator_shares.units ≡ asset.total_validator_shares.units +ℤ x
        → IsBalanced assets infos denom
        → (a : AllianceAsset) → lookup denom (insert denom asset' assets) ≡ some a
        → a.total_validator_shares.units ≡ sum_of_shares denom (insert op info' infos)
    moved ex h a ea =
        let a_eq : asset' ≡ a = cc (lookup-insert_self denom asset' assets) in
        let here : shares_units denom info' ≡ shares_units denom info +ℤ x =
          rw (==_refl denom) at (shares denom) in
        moved_sum _ _ _ _ _ _ x (h asset known)
          (ap (λ (b : AllianceAsset). b.total_validator_shares.units) (sym a_eq) ∙ ex)
          (total-insert (shares_units denom) op info' info infos stored) here

    unmoved :
        (d : Denom)
        → (d == denom) ≡ false
        → IsBalanced assets infos d
        → IsBalanced (insert denom asset' assets) (insert op info' infos) d
    unmoved d other h a ea =
        let there : shares_units d info' ≡ shares_units d info +ℤ pos 0 = shares d ∙ ground arith in
        moved_sum _ _ _ _ _ _ (pos 0)
          (h a (sym (lookup-insert_ne d denom asset' assets other) ∙ ea)) (sym (plus_zero _))
          (total-insert (shares_units d) op info' info infos stored) there

    -- An asset and a validator that change by the same amount of shares stay in balance.
    pub move-IsBalanced :
        asset'.total_validator_shares.units ≡ asset.total_validator_shares.units +ℤ x
        → ((d : Denom) → IsBalanced assets infos d)
        → (d : Denom) → IsBalanced (insert denom asset' assets) (insert op info' infos) d
    move-IsBalanced ex h d = elim (Bool-cases (d == denom)) [
      | inl same ↦ rw ((==_iff d denom).0 same) (moved ex (h denom))
      | inr other ↦ unmoved d other (h d)
    ]
