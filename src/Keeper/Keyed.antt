-- ===== src/Keeper/Keyed.antt =====
-- x/alliance/keeper: records stand in the store under the key that is made of their own fields,
-- and the setters of the keeper keep it so.
pub mod Claims
pub mod Queues
pub mod Delegations
pub mod Slash
pub mod Blocks
pub mod Reach
pub mod Genesis
use mathlib.Core.Path.{subst}
use alliance.Prelude.{
  ℕ, ◌≡◌, refl, sym, ap, ◌∙◌, Bool, true, false, Option, none, some, List, [], ◌∷◌, All, inl, inr,
  Bool-cases, Option-cases,
}
use alliance.Prelude.Map.{
  Map, Key, lookup, insert, erase, place, replace, nat_key, int_key, pair_key,
}
use alliance.Sdk.{Denom, AccAddress, ValAddress, Time}
use alliance.Sdk.Result.{Result}
use alliance.Types.{
  AllianceAsset, AllianceValidatorInfo, Delegation, Redelegation, Undelegation,
  RewardWeightChangeSnapshot,
}
use alliance.Keeper.State.{State, RedelegationKey, DelegationKey, UndelegationQueueKey}
use alliance.Keeper.Call.{Call, modify, other_module}
use alliance.Keeper.Call.Keeps.{Keeps, Keeps-modify}
use alliance.Keeper.Store.{
  set_asset, delete_asset_key, set_delegation, delete_delegation, get_delegation_of,
  get_asset_by_denom, queue_asset_rebalance_event, set_validator_info,
  put_reward_weight_change_snapshot, set_last_reward_claim_time,
}

-- A delegation's own fields.
pub record IsOf (del : AccAddress) (val : ValAddress) (denom : Denom) (d : Delegation)
    : Type 0 where
  pub delegator : d.delegator_address ≡ del
  pub validator : d.validator_address ≡ val
  pub denomination : d.denom ≡ denom

pub record IsUnder (key : RedelegationKey) (r : Redelegation) : Type 0 where
  pub delegator : r.delegator_address ≡ key.0
  pub denomination : r.balance.denom ≡ key.1.0
  pub destination : r.dst_validator_address ≡ key.1.1.0

abbrev pub AllOf : AccAddress → List Undelegation → Type 0
AllOf del entries = All (λ u. u.delegator_address ≡ del) entries

-- What holds of every entry of a map, and how setting and deleting keep it.
abbrev pub Everywhere : {K V : Type 0} → (K → V → Type 0) → Map K V → Type 0
Everywhere Q m = All (λ e. Q e.0 e.1) m

module _ {K V : Type 0} ⦃key : Key K⦄ (Q : K → V → Type 0) where
  Everywhere-place :
      (j : K) (v : V) (m : Map K V) → Q j v → Everywhere Q m → Everywhere Q (place j v m)
  unfolding place
  Everywhere-place j v [] q h = (q, tt)
  Everywhere-place j v ((i, w) ∷ m) q (r, h) = elim (Bool-cases (key.before j i)) [
    | inl first ↦ rw first (q, (r, h))
    | inr later ↦ rw later (r, Everywhere-place j v m q h)
  ]

  Everywhere-replace :
      (j : K) (v : V) (m : Map K V) → Q j v → Everywhere Q m → Everywhere Q (replace j v m)
  unfolding replace
  Everywhere-replace j v [] q h = tt
  Everywhere-replace j v ((i, w) ∷ m) q (r, h) = elim (Bool-cases (key.equal j i)) [
    | inl same ↦ rw same (q, h)
    | inr other ↦ rw other (r, Everywhere-replace j v m q h)
  ]

  pub Everywhere-insert :
      (j : K) (v : V) (m : Map K V) → Q j v → Everywhere Q m → Everywhere Q (insert j v m)
  unfolding insert
  Everywhere-insert j v m q h = elim (Option-cases (lookup j m)) [
    | inl new ↦ rw (new, insert) (Everywhere-place j v m q h)
    | inr (old, e) ↦ rw (e, insert) (Everywhere-replace j v m q h)
  ]

  pub Everywhere-erase : (j : K) (m : Map K V) → Everywhere Q m → Everywhere Q (erase j m)
  unfolding erase
  Everywhere-erase j [] h = tt
  Everywhere-erase j ((i, w) ∷ m) (r, h) = elim (Bool-cases (key.equal j i)) [
    | inl same ↦ rw same (Everywhere-erase j m h)
    | inr other ↦ rw other (r, Everywhere-erase j m h)
  ]

  pub Everywhere-lookup :
      (j : K) (m : Map K V) → Everywhere Q m → (v : V) → lookup j m ≡ some v → Q j v
  unfolding lookup
  Everywhere-lookup j [] h v found = cc
  Everywhere-lookup j ((i, w) ∷ m) (r, h) v found = elim (Bool-cases (key.equal j i)) [
    | inl same ↦
        let e : some w ≡ some v = sym (rw same) ∙ found in
        subst (λ x. Q x v) (sym (key.eq_of_equal j i same)) (subst (Q i) (cc e) r)
    | inr other ↦ Everywhere-lookup j m h v (sym (rw other) ∙ found)
  ]

abbrev pub OwnAsset : Denom → AllianceAsset → Type 0
OwnAsset denom asset = asset.denom ≡ denom

abbrev pub OwnDelegation : DelegationKey → Delegation → Type 0
OwnDelegation key d = IsOf key.0 key.1.0 key.1.1 d

abbrev pub OwnQueue : UndelegationQueueKey → List Undelegation → Type 0
OwnQueue key entries = AllOf key.1 entries

module _ {W : Type 0} where
  -- Assets stand under their denominations, delegations under their delegator, validator and
  -- denomination, redelegations under their delegator, denomination and destination, and the
  -- entries of a queue of undelegations are all of the delegator in its key.
  pub record WellKeyed (s : State W) : Type 0 where
    pub assets : Everywhere OwnAsset s.assets
    pub delegations : Everywhere OwnDelegation s.delegations
    pub redelegations : Everywhere IsUnder s.redelegations
    pub undelegations : Everywhere OwnQueue s.undelegation_queue

  pub set_asset-Keeps : (a : AllianceAsset) → Keeps WellKeyed (set_asset {W = W} a)
  unfolding set_asset
  set_asset-Keeps a = Keeps-modify _ λ s h. record {
    assets = Everywhere-insert OwnAsset a.denom a s.assets refl h.assets;
    delegations = h.delegations;
    redelegations = h.redelegations;
    undelegations = h.undelegations;
  }

  pub delete_asset_key-Keeps : (denom : Denom) → Keeps WellKeyed (delete_asset_key {W = W} denom)
  unfolding delete_asset_key
  delete_asset_key-Keeps denom = Keeps-modify _ λ s h. record {
    assets = Everywhere-erase OwnAsset denom s.assets h.assets;
    delegations = h.delegations;
    redelegations = h.redelegations;
    undelegations = h.undelegations;
  }

  pub set_delegation-Keeps :
      (del : AccAddress) (val : ValAddress) (denom : Denom) (d : Delegation)
      → IsOf del val denom d
      → Keeps WellKeyed (set_delegation {W = W} del val denom d)
  unfolding set_delegation
  set_delegation-Keeps del val denom d own = Keeps-modify _ λ s h. record {
    assets = h.assets;
    delegations =
        Everywhere-insert OwnDelegation (del, (val, denom)) d s.delegations own h.delegations;
    redelegations = h.redelegations;
    undelegations = h.undelegations;
  }

  pub delete_delegation-Keeps :
      (del : AccAddress) (val : ValAddress) (denom : Denom)
      → Keeps WellKeyed (delete_delegation {W = W} del val denom)
  unfolding delete_delegation
  delete_delegation-Keeps del val denom = Keeps-modify _ λ s h. record {
    assets = h.assets;
    delegations = Everywhere-erase OwnDelegation (del, (val, denom)) s.delegations h.delegations;
    redelegations = h.redelegations;
    undelegations = h.undelegations;
  }

  pub set_redelegations-Keeps :
      (f : State W → State W)
      → ((s : State W) → (f s).assets ≡ s.assets)
      → ((s : State W) → (f s).delegations ≡ s.delegations)
      → ((s : State W) → WellKeyed s → Everywhere IsUnder (f s).redelegations)
      → ((s : State W) → (f s).undelegation_queue ≡ s.undelegation_queue)
      → Keeps WellKeyed (modify f)
  set_redelegations-Keeps f ea ed er eu = Keeps-modify f λ s h. record {
    assets = subst (Everywhere OwnAsset) (sym (ea s)) h.assets;
    delegations = subst (Everywhere OwnDelegation) (sym (ed s)) h.delegations;
    redelegations = er s h;
    undelegations = subst (Everywhere OwnQueue) (sym (eu s)) h.undelegations;
  }

  pub set_undelegations-Keeps :
      (f : State W → State W)
      → ((s : State W) → (f s).assets ≡ s.assets)
      → ((s : State W) → (f s).delegations ≡ s.delegations)
      → ((s : State W) → (f s).redelegations ≡ s.redelegations)
      → ((s : State W) → WellKeyed s → Everywhere OwnQueue (f s).undelegation_queue)
      → Keeps WellKeyed (modify f)
  set_undelegations-Keeps f ea ed er eu = Keeps-modify f λ s h. record {
    assets = subst (Everywhere OwnAsset) (sym (ea s)) h.assets;
    delegations = subst (Everywhere OwnDelegation) (sym (ed s)) h.delegations;
    redelegations = subst (Everywhere IsUnder) (sym (er s)) h.redelegations;
    undelegations = eu s h;
  }

  -- What leaves these four parts of the store alone.
  pub frame-Keeps :
      (f : State W → State W)
      → ((s : State W) → (f s).assets ≡ s.assets)
      → ((s : State W) → (f s).delegations ≡ s.delegations)
      → ((s : State W) → (f s).redelegations ≡ s.redelegations)
      → ((s : State W) → (f s).undelegation_queue ≡ s.undelegation_queue)
      → Keeps WellKeyed (modify f)
  frame-Keeps f ea ed er eu = Keeps-modify f λ s h. record {
    assets = subst (Everywhere OwnAsset) (sym (ea s)) h.assets;
    delegations = subst (Everywhere OwnDelegation) (sym (ed s)) h.delegations;
    redelegations = subst (Everywhere IsUnder) (sym (er s)) h.redelegations;
    undelegations = subst (Everywhere OwnQueue) (sym (eu s)) h.undelegations;
  }

  pub other_module-Keeps : {A : Type 0} (f : W → Result A × W) → Keeps WellKeyed (other_module f)
  other_module-Keeps f = record {
    at = λ s h. record {
      assets = h.assets;
      delegations = h.delegations;
      redelegations = h.redelegations;
      undelegations = h.undelegations;
    };
  }

  pub queue_asset_rebalance_event-Keeps : Keeps WellKeyed (queue_asset_rebalance_event {W = W})
  unfolding queue_asset_rebalance_event
  queue_asset_rebalance_event-Keeps = frame-Keeps _ (λ s. refl) (λ s. refl) (λ s. refl) (λ s. refl)

  pub set_validator_info-Keeps :
      (val : ValAddress) (info : AllianceValidatorInfo)
      → Keeps WellKeyed (set_validator_info {W = W} val info)
  unfolding set_validator_info
  set_validator_info-Keeps val info = frame-Keeps _ (λ s. refl) (λ s. refl) (λ s. refl) (λ s. refl)

  pub put_reward_weight_change_snapshot-Keeps :
      (denom : Denom) (val : ValAddress) (height : ℕ) (snapshot : RewardWeightChangeSnapshot)
      → Keeps WellKeyed (put_reward_weight_change_snapshot {W = W} denom val height snapshot)
  unfolding put_reward_weight_change_snapshot
  put_reward_weight_change_snapshot-Keeps denom val height snapshot =
      frame-Keeps _ (λ s. refl) (λ s. refl) (λ s. refl) (λ s. refl)

  pub set_last_reward_claim_time-Keeps :
      (t : Time) → Keeps WellKeyed (set_last_reward_claim_time {W = W} t)
  unfolding set_last_reward_claim_time
  set_last_reward_claim_time-Keeps t = frame-Keeps _ (λ s. refl) (λ s. refl) (λ s. refl) (λ s. refl)

  -- A delegation that is found is the one that was asked for.
  pub get_delegation_of-IsOf :
      (del : AccAddress) (val : ValAddress) (denom : Denom) (s : State W)
      → WellKeyed s
      → (d : Delegation) → get_delegation_of del val denom s ≡ some d
      → IsOf del val denom d
  unfolding get_delegation_of
  get_delegation_of-IsOf del val denom s h d found =
      Everywhere-lookup OwnDelegation (del, (val, denom)) s.delegations h.delegations d found

pub ruleset setters_keep = (
  set_asset-Keeps, delete_asset_key-Keeps, set_delegation-Keeps, delete_delegation-Keeps,
  other_module-Keeps, queue_asset_rebalance_event-Keeps, set_validator_info-Keeps,
  put_reward_weight_change_snapshot-Keeps, set_last_reward_claim_time-Keeps,
)
