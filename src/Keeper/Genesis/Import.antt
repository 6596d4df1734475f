-- ===== src/Keeper/Genesis/Import.antt =====
-- keeper/genesis.go: what the loops of InitGenesis set.
use alliance.Prelude.{
  ◌≡◌, refl, sym, ap, ◌∙◌, true, false, Option, none, some, [], ◌∷◌, map, Bool-cases, inl, inr,
}
use alliance.Prelude.Int.{pos, ltb_ℤ}
use alliance.Types.{Params}
use alliance.Prelude.Map.{
  Map, Key, lookup, insert, lookup-insert_self, lookup-insert_ne, nat_key, int_key, pair_key,
}
use alliance.Sdk.{Sdk, Denom, ValAddress}
use alliance.Sdk.Result.{ok}
use alliance.Types.{AllianceAsset, AllianceValidatorInfo, Delegation, RewardWeightChangeSnapshot}
use alliance.Keeper.State.{State, DelegationKey, SnapshotKey}
use alliance.Keeper.Call.{for_each}
use alliance.Keeper.Store.{
  set_asset, set_validator_info, set_delegation, put_reward_weight_change_snapshot,
}
use alliance.Keeper.Genesis.{
  set_params, init_asset, init_delegation, init_validator_info, init_snapshot,
}
use alliance.Keeper.Keyed.{Everywhere, Everywhere-lookup, OwnAsset, OwnDelegation}

module _ {V : Type 0} where
  abbrev or_else : Option V → Option V → Option V
  or_else none o = o
  or_else (some v) o = some v

  or_else-same :
      (o : Option V) (v : V)
      → ((w : V) → o ≡ some w → some w ≡ some v)
      → or_else o (some v) ≡ some v
  or_else-same none v same = refl
  or_else-same (some w) v same = same w refl

  or_none : (o : Option V) → or_else o none ≡ o
  or_none none = refl
  or_none (some v) = refl

module _ {K V : Type 0} ⦃key : Key K⦄ where
  -- Every entry is what its key looks up.
  abbrev pub Once : Map K V → Type 0
  Once m = Everywhere (λ i v. lookup i m ≡ some v) m

  -- No key stands twice.
  unfoldable pub Apart : Map K V → Type 0
  Apart [] = Unit
  Apart ((i, v) ∷ m) = (lookup i m ≡ none) × Apart m

  -- No key of the entries has anything in the map.
  abbrev pub Fresh : Map K V → Map K V → Type 0
  Fresh entries m = Everywhere (λ i _. lookup i m ≡ none) entries

  -- The entries set one after another.
  unfoldable pub insert_all : Map K V → Map K V → Map K V
  insert_all [] m = m
  insert_all ((i, v) ∷ entries) m = insert_all entries (insert i v m)

  lookup-insert_all :
      (i : K) (all entries m : Map K V)
      → Everywhere (λ j v. lookup j all ≡ some v) entries
      → lookup i (insert_all entries m) ≡ or_else (lookup i entries) (lookup i m)
  unfolding insert_all lookup
  lookup-insert_all i all [] m looks = refl
  lookup-insert_all i all ((j, v) ∷ entries) m (here, looks) =
      lookup-insert_all i all entries (insert j v m) looks ∙ elim (Bool-cases (key.equal i j)) [
        | inl same ↦ rw same (
            ap (or_else (lookup i entries)) (
              ap (λ x. lookup x (insert j v m)) (key.eq_of_equal i j same)
              ∙ lookup-insert_self j v m)
            ∙ or_else-same (lookup i entries) v (λ w e.
              sym (Everywhere-lookup (λ j v. lookup j all ≡ some v) i entries looks w e)
              ∙ ap (λ x. lookup x all) (key.eq_of_equal i j same)
              ∙ here))
        | inr other ↦ rw other (ap (or_else (lookup i entries)) (lookup-insert_ne i j v m other))
      ]

  pub lookup-insert_all_empty :
      (i : K) (m : Map K V) → Once m → lookup i (insert_all m []) ≡ lookup i m
  unfolding lookup
  lookup-insert_all_empty i m once = lookup-insert_all i m m [] once ∙ or_none (lookup i m)

  other_key :
      (i j : K) (w : V) (m : Map K V)
      → lookup j ((i, w) ∷ m) ≡ none
      → (key.equal i j ≡ false) × (lookup j m ≡ none)
  unfolding lookup
  other_key i j w m absent = elim (Bool-cases (key.equal j i)) [
    | inl same ↦ cc (rw same at absent)
    | inr other ↦ elim (Bool-cases (key.equal i j)) [
      | inl back ↦
          cc (sym (key.equal_refl i), ap (λ x. key.equal x i) (key.eq_of_equal i j back), other)
      | inr apart ↦ (apart, rw other at absent)
    ]
  ]

  pub Fresh-insert :
      (j : K) (v : V) (entries m : Map K V)
      → lookup j entries ≡ none
      → Fresh entries m
      → Fresh entries (insert j v m)
  Fresh-insert j v [] m absent fresh = tt
  Fresh-insert j v ((i, w) ∷ entries) m absent (here, fresh) =
      let (apart, rest) = other_key i j w entries absent in
      (lookup-insert_ne i j v m apart ∙ here, Fresh-insert j v entries m rest fresh)

module _ {W : Type 0} where
  pub set_params-ok :
      (p : Params) (s : State W)
      → ltb_ℤ p.reward_delay_time (pos 0) ≡ false
      → ltb_ℤ p.take_rate_claim_interval (pos 0) ≡ false
      → set_params p s ≡ (ok tt, record s { params = p })
  unfolding set_params
  set_params-ok p s delay interval = rw (delay, interval)

  pub set_infos :
      (m : Map ValAddress AllianceValidatorInfo) (s : State W)
      → for_each m init_validator_info s
        ≡ (ok tt, record s { validator_infos = insert_all m s.validator_infos })
  unfolding for_each insert_all set_validator_info
  set_infos [] s = refl
  set_infos ((val, info) ∷ m) s = set_infos m _

  pub set_snapshots :
      (m : Map SnapshotKey RewardWeightChangeSnapshot) (s : State W)
      → for_each m init_snapshot s ≡ (ok tt, record s { snapshots = insert_all m s.snapshots })
  unfolding for_each insert_all put_reward_weight_change_snapshot
  set_snapshots [] s = refl
  set_snapshots (((denom, (val, height)), snapshot) ∷ m) s = set_snapshots m _

  pub set_delegations :
      (m : Map DelegationKey Delegation) (s : State W)
      → Everywhere OwnDelegation m
      → for_each (map (λ e. e.1) m) init_delegation s
        ≡ (ok tt, record s { delegations = insert_all m s.delegations })
  unfolding for_each insert_all set_delegation
  set_delegations [] s own = refl
  set_delegations (((del, (val, denom)), d) ∷ m) s (here, own) =
      rw (here.delegator, here.validator, here.denomination) (set_delegations m _ own)

  pub set_assets :
      (k : Sdk W) (m : Map Denom AllianceAsset) (s : State W)
      → Everywhere OwnAsset m
      → Everywhere (λ d _. k.validate_denom d ≡ true) m
      → for_each (map (λ e. e.1) m) (init_asset k) s
        ≡ (ok tt, record s { assets = insert_all m s.assets })
  unfolding for_each insert_all init_asset set_asset
  set_assets k [] s own valid = refl
  set_assets k ((d, a) ∷ m) s (here, own) (v, valid) = rw (here, v) (set_assets k m _ own valid)
