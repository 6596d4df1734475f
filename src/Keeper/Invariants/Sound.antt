-- ===== src/Keeper/Invariants/Sound.antt =====
-- invariants.go: what it says of the store that the check of delegations' shares passes.
use alliance.Prelude.{
  ◌≡◌, refl, sym, ap, ◌∙◌, Bool, true, false, ◌||◌, not, Option, none, some, [], ◌∷◌, if◌then◌else◌,
  Bool-cases, Option-cases, inl, inr, arith,
}
use alliance.Prelude.Int.{ℤ, pos, ◌+ℤ◌, int_laws, eqb_ℤ_iff}
use alliance.Prelude.Map.{
  Map, Key, lookup, insert, lookup-insert_self, lookup-insert_ne, nat_key, int_key, pair_key,
}
use alliance.Sdk.{Sdk, Denom, ValAddress, SdkDec}
use alliance.Types.{AllianceValidatorInfo, Delegation}
use alliance.Sdk.{DecCoins}
use mathlib.Core.Path.{subst}
use alliance.Sdk.Result.{Result, ok, or_panic, >>=-parts, or_panic-eq-ok}
use alliance.Types.Asset.{is_negative}
use alliance.Types.Laws.{DecLaws}
use alliance.Keeper.State.{State, DelegationKey}
use alliance.Keeper.Store.{get_alliance_validator_info}
use alliance.Keeper.Invariants.{
  plus, tally_delegations, info_differs, check_sum, any_validator_broken, broken_validators,
  delegator_shares_broken,
}

abbrev SharesKey : Type 0
SharesKey = ValAddress × Denom

abbrev pub units_or_zero : Option SdkDec → ℤ
units_or_zero none = pos 0
units_or_zero (some x) = x.units

pub both_false : (a b : Bool) → (a || b) ≡ false → (a ≡ false) × (b ≡ false)
both_false a b h = ground arith

pub unnegated : (a : Bool) → not a ≡ false → a ≡ true
unnegated a h = ground arith

some_eq : {x y : SdkDec} → some x ≡ some y → x ≡ y
some_eq h = cc

ok_eq : {a b : Bool} → ok a ≡ ok b → a ≡ b
ok_eq h = cc

-- The shares of the delegations to a validator in a denomination.
unfoldable pub shares_of : SharesKey → Map DelegationKey Delegation → ℤ
shares_of key [] = pos 0
shares_of key ((j, d) ∷ m) =
    let rest = shares_of key m in
    if pair_key.equal key (d.validator_address, d.denom) then d.shares.units +ℤ rest else rest

module _ {W : Type 0} (k : Sdk W) where
  -- An info whose set of delegators' shares is valid and has the amount in the denomination.
  abbrev pub InfoHas : Denom → ℤ → Option AllianceValidatorInfo → Type 0
  InfoHas denom amount o =
      (info : AllianceValidatorInfo) × (shares : DecCoins) × (o ≡ some info)
      × (k.new_dec_coins info.total_delegator_shares ≡ some shares)
      × ((k.dec_coins_amount_of shares denom).units ≡ amount)

module _ {W : Type 0} (k : Sdk W) (laws : DecLaws k) where
  units-plus : (x : SdkDec) (o : Option SdkDec) → (plus k x o).units ≡ units_or_zero o +ℤ x.units
  units-plus x none = omega int_laws
  units-plus x (some sum) = laws.add_units sum x

  module _ {K : Type 0} ⦃key : Key K⦄ where
    pub units-insert :
        (i at : K) (x : SdkDec) (sums : Map K SdkDec) (rest : ℤ)
        → units_or_zero (lookup i (insert at (plus k x (lookup at sums)) sums)) +ℤ rest
          ≡ units_or_zero (lookup i sums) +ℤ (if key.equal i at then x.units +ℤ rest else rest)
    units-insert i at x sums rest = elim (Bool-cases (key.equal i at)) [
      | inl same ↦
          let e = key.eq_of_equal i at same in
          rw same (
            rw
              (ap (λ j. lookup j (insert at (plus k x (lookup at sums)) sums)) e
                ∙ lookup-insert_self at (plus k x (lookup at sums)) sums)
              (rw (ap (λ j. lookup j sums) e)
                (ap (λ n. n +ℤ rest) (units-plus x (lookup at sums)) ∙ omega int_laws)))
      | inr other ↦ rw (other, lookup-insert_ne i at (plus k x (lookup at sums)) sums other)
    ]

    abbrev pub found_units : K → Option (Map K SdkDec) → ℤ
    found_units i none = pos 0
    found_units i (some sums) = units_or_zero (lookup i sums)

  units-tally :
      (key : SharesKey) (m : Map DelegationKey Delegation) (sums end : Map SharesKey SdkDec)
      → tally_delegations k m sums ≡ some end
      → units_or_zero (lookup key end) ≡ units_or_zero (lookup key sums) +ℤ shares_of key m
  unfolding tally_delegations shares_of
  units-tally key [] sums end h = sym (ap (found_units key) h) ∙ omega int_laws
  units-tally key ((j, d) ∷ m) sums end h = elim (Bool-cases (is_negative k d.shares)) [
    | inl negative ↦ cc (rw negative at h)
    | inr sound ↦
        units-tally key m _ end (rw sound at h)
        ∙ units-insert key (d.validator_address, d.denom) d.shares sums (shares_of key m)
  ]

  check_sum-InfoHas :
      (denom : Denom) (x : SdkDec) (o : Option AllianceValidatorInfo) (rest : Result Bool)
      → check_sum k denom x o rest ≡ ok false
      → InfoHas k denom x.units o × (rest ≡ ok false)
  check_sum-InfoHas denom x none rest h = cc
  check_sum-InfoHas denom x (some info) rest h =
      let (broken, compared, h1) = >>=-parts (info_differs k denom x info) _ h in
      let (more, checked, h2) = >>=-parts rest _ h1 in
      let (shares, valid, h3) =
        >>=-parts (or_panic (k.new_dec_coins info.total_delegator_shares)) _ compared in
      let (here, there) = both_false broken more (ok_eq h2) in
      (
        (
          info,
          shares,
          refl,
          or_panic-eq-ok _ valid,
          eqb_ℤ_iff _ _ (
              sym (laws.equal_units (k.dec_coins_amount_of shares denom) x)
              ∙ unnegated _ (ok_eq h3 ∙ here)),
        ),
        checked ∙ ap ok there,
      )

  any_validator-found :
      (key : SharesKey) (x : SdkDec) (s : State W) (sums : Map SharesKey SdkDec)
      → any_validator_broken k s sums ≡ ok false
      → lookup key sums ≡ some x
      → InfoHas k key.1 x.units (get_alliance_validator_info key.0 s)
  unfolding any_validator_broken lookup
  any_validator-found key x s [] sound found = cc
  any_validator-found key x s ((at, y) ∷ sums) sound found =
      let (here, there) = check_sum-InfoHas at.1 y (get_alliance_validator_info at.0 s) _ sound in
      elim (Bool-cases (pair_key.equal key at)) [
        | inl same ↦
            subst (λ i. InfoHas k i.1 x.units (get_alliance_validator_info i.0 s))
              (sym (pair_key.eq_of_equal key at same))
              (subst (λ z. InfoHas k at.1 z.units (get_alliance_validator_info at.0 s))
                (some_eq (rw same at found)) here)
        | inr other ↦ any_validator-found key x s sums there (rw other at found)
      ]

  module _ (s : State W) where
    sums_sound :
        (key : SharesKey) (o : Option (Map SharesKey SdkDec))
        → tally_delegations k s.delegations [] ≡ o
        → broken_validators k s o ≡ ok false
        → ¬ (shares_of key s.delegations ≡ pos 0)
        → InfoHas k key.1 (shares_of key s.delegations) (get_alliance_validator_info key.0 s)
    unfolding lookup
    sums_sound key none e sound positive = cc
    sums_sound key (some end) e sound positive =
        let tallied = units-tally key s.delegations [] end e ∙ omega int_laws in
        elim (Option-cases (lookup key end)) [
          | inl absent ↦ elim (positive (sym (sym (ap units_or_zero absent) ∙ tallied))) [ ]
          | inr (x, found) ↦
              subst (λ n. InfoHas k key.1 n (get_alliance_validator_info key.0 s))
                (sym (ap units_or_zero found) ∙ tallied)
                (any_validator-found key x s end sound found)
        ]

    -- Under the laws of decimals, where the check of the delegations' shares ends and finds
    -- nothing broken, every validator and denomination whose delegations hold shares has an info
    -- in the store; what NewDecCoins makes of the info's total of delegators' shares has, in the
    -- denomination, the sum of the shares of those delegations.
    pub delegator_shares_sound :
        (val : ValAddress) (denom : Denom)
        → delegator_shares_broken k s ≡ ok false
        → ¬ (shares_of (val, denom) s.delegations ≡ pos 0)
        → InfoHas k denom (shares_of (val, denom) s.delegations) (get_alliance_validator_info val s)
    unfolding delegator_shares_broken
    delegator_shares_sound val denom sound positive = sums_sound (val, denom) _ refl sound positive
