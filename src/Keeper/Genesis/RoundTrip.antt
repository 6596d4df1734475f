-- ===== src/Keeper/Genesis/RoundTrip.antt =====
-- keeper/genesis.go: what InitGenesis reads back of ExportGenesis.
use mathlib.Core.Path.{subst}
use alliance.Prelude.{◌≡◌, refl, sym, ap, ◌∙◌, true, false, none, List, [], ◌∷◌, map}
use alliance.Prelude.Int.{pos, ltb_ℤ}
use alliance.Prelude.Map.{Map, lookup, insert, nat_key, int_key, pair_key}
use alliance.Sdk.{Sdk, Denom, ValAddress, AccAddress, Time}
use alliance.Types.{
  AllianceAsset, AllianceValidatorInfo, Delegation, Redelegation, Undelegation, Params,
  RewardWeightChangeSnapshot,
}
use alliance.Keeper.State.{State, DelegationKey, SnapshotKey, RedelegationKey}
use alliance.Keeper.Call.{for_each}
use alliance.Keeper.Call.Post.{Returns, Returns-resume, Returns-mono}
use alliance.Keeper.Store.{get_all_assets}
use alliance.Keeper.Queues.{
  redelegation_key, merge_redelegation, queue_redelegation, add_redelegation,
  set_queued_undelegations, set_unbonding_index_by_val,
}
use alliance.Keeper.Genesis.{
  then_call, init_redelegation, init_undelegation, init_snapshot, index_undelegation, init_genesis,
  export_genesis, completion_of_redelegation,
}
use alliance.Keeper.Genesis.Import.{
  Once, Apart, Fresh, Fresh-insert, insert_all, lookup-insert_all_empty, set_params-ok, set_infos,
  set_snapshots, set_delegations, set_assets,
}
use alliance.Keeper.Keyed.{Everywhere, OwnAsset, OwnDelegation, IsUnder}

-- What the import sets before it comes to the queues, and the snapshots.
abbrev Parts : Type 0
Parts =
    Params
    × Map Denom AllianceAsset
    × Map ValAddress AllianceValidatorInfo
    × Map DelegationKey Delegation
    × Map SnapshotKey RewardWeightChangeSnapshot

key_of :
    (key : RedelegationKey) (r : Redelegation)
    → IsUnder key r
    → redelegation_key r.delegator_address r.balance.denom r.dst_validator_address key.1.1.1 ≡ key
key_of key r u = rw (u.delegator, u.denomination, u.destination) refl

nothing_stored : (m : Map RedelegationKey Redelegation) → Fresh m []
unfolding lookup
nothing_stored [] = tt
nothing_stored (e ∷ m) = (refl, nothing_stored m)

module _ {W : Type 0} where
  abbrev parts : State W → Parts
  parts s = (s.params, s.assets, s.validator_infos, s.delegations, s.snapshots)

  record Same (s s' : State W) : Type 0 where
    same : parts s' ≡ parts s

  -- A redelegation is stored under its key.
  record Adds (key : RedelegationKey) (s s' : State W) : Type 0 where
    value : Redelegation
    stored : s'.redelegations ≡ insert key value s.redelegations
    same : parts s' ≡ parts s

  init_redelegation-Adds :
      (k : Sdk W) (key : RedelegationKey) (r : Redelegation) (s : State W)
      → IsUnder key r
      → lookup key s.redelegations ≡ none
      → Returns (λ _ s'. Adds key s s') (init_redelegation k (key.1.1.1, r) s)
  unfolding init_redelegation add_redelegation merge_redelegation queue_redelegation
  init_redelegation-Adds k key r s u free =
      rw (ap (λ j. lookup j s.redelegations) (key_of key r u) ∙ free) (record {
        value = r;
        stored = ap (λ j. insert j r s.redelegations) (key_of key r u);
        same = refl;
      })

  redelegations-Same :
      (k : Sdk W) (m : Map RedelegationKey Redelegation) (s : State W)
      → Everywhere IsUnder m
      → Apart m
      → Fresh m s.redelegations
      → Returns
          (λ _ s'. Same s s')
          (for_each (map completion_of_redelegation m) (init_redelegation k) s)
  unfolding for_each Apart
  redelegations-Same k [] s own apart fresh = record { same = refl }
  redelegations-Same k (((del, (denom, (dst, t))), r) ∷ m) s (u, own) (absent, apart)
        (free, fresh) =
      let key : RedelegationKey = (del, (denom, (dst, t))) in
      Returns-resume (λ _ s'. Same s s') _ (λ _ s'. Adds key s s') (init_redelegation k (t, r) s)
        (init_redelegation-Adds k key r s u free)
        λ _ s1 a.
          Returns-mono (λ _ s'. Same s1 s') (λ _ s'. Same s s') _
            (redelegations-Same k m s1 own apart (
              subst (Fresh m) (sym a.stored)
                (Fresh-insert key a.value m s.redelegations absent fresh)))
            (λ _ s' h. record { same = h.same ∙ a.same })

  index-Same :
      (t : Time) (del : AccAddress) (entries : List Undelegation) (s : State W)
      → Returns (λ _ s'. Same s s') (for_each entries (index_undelegation t del) s)
  unfolding for_each set_unbonding_index_by_val
  index-Same t del [] s = record { same = refl }
  index-Same t del (u ∷ entries) s =
      Returns-mono (λ _ s'. Same _ s') (λ _ s'. Same s s') _ (index-Same t del entries _)
        (λ _ s' h. record { same = h.same })

  undelegations-Same :
      (us : List (Time × List Undelegation)) (s : State W)
      → Returns (λ _ s'. Same s s') (for_each us init_undelegation s)
  unfolding for_each init_undelegation set_queued_undelegations
  undelegations-Same [] s = record { same = refl }
  undelegations-Same ((t, []) ∷ us) s = undelegations-Same us s
  undelegations-Same ((t, u ∷ entries) ∷ us) s =
      Returns-resume (λ _ s'. Same s s') _ (λ _ s'. Same s s') _
        (Returns-mono (λ _ s'. Same _ s') (λ _ s'. Same s s') _
          (index-Same t u.delegator_address (u ∷ entries) _) (λ _ s' h. record { same = h.same }))
        λ _ s1 h1.
          Returns-mono (λ _ s'. Same s1 s') (λ _ s'. Same s s') _ (undelegations-Same us s1)
            (λ _ s' h. record { same = h.same ∙ h1.same })

  record Finished (m : Map SnapshotKey RewardWeightChangeSnapshot) (s s' : State W) : Type 0 where
    before : State W
    kept : parts before ≡ parts s
    snapshots : s' ≡ record before { snapshots = insert_all m before.snapshots }

  queues-Finished :
      (k : Sdk W) (rs : Map RedelegationKey Redelegation) (us : List (Time × List Undelegation))
      (m : Map SnapshotKey RewardWeightChangeSnapshot) (s : State W)
      → Everywhere IsUnder rs
      → Apart rs
      → Fresh rs s.redelegations
      → Returns
          (λ u s'. Finished m s s')
          (then_call
            (for_each (map completion_of_redelegation rs) (init_redelegation k))
            (λ _. then_call (for_each us init_undelegation) (λ _. for_each m init_snapshot))
            s)
  queues-Finished k rs us m s own apart fresh =
      Returns-resume (λ u s'. Finished m s s') _ (λ _ s'. Same s s')
        (for_each (map completion_of_redelegation rs) (init_redelegation k) s)
        (redelegations-Same k rs s own apart fresh)
        λ _ s1 h1.
          Returns-resume (λ u s'. Finished m s s') _ (λ _ s'. Same s1 s')
            (for_each us init_undelegation s1) (undelegations-Same us s1)
            λ _ s2 h2.
              rw (set_snapshots m s2)
                (record { before = s2; kept = h2.same ∙ h1.same; snapshots = refl })

  -- A store with nothing in it.
  abbrev pub empty_store : Params → W → State W
  empty_store params w = record {
    assets = [];
    validator_infos = [];
    rebalance_queued = false;
    snapshots = [];
    delegations = [];
    redelegations = [];
    redelegation_queue = [];
    undelegation_queue = [];
    redelegation_index = [];
    unbonding_index = [];
    params = params;
    world = w;
  }

  -- The parameters, and what the keys of the other four parts look up.
  pub record SameLookups (s s' : State W) : Type 0 where
    pub params : s'.params ≡ s.params
    pub assets : (denom : Denom) → lookup denom s'.assets ≡ lookup denom s.assets
    pub infos : (val : ValAddress) → lookup val s'.validator_infos ≡ lookup val s.validator_infos
    pub delegations : (j : DelegationKey) → lookup j s'.delegations ≡ lookup j s.delegations
    pub snapshots : (j : SnapshotKey) → lookup j s'.snapshots ≡ lookup j s.snapshots

  -- A store whose records stand under the keys of their own fields, each key once, whose assets
  -- have valid denominations, and whose durations are not below zero.
  pub record Exportable (k : Sdk W) (s : State W) : Type 0 where
    pub delay : ltb_ℤ s.params.reward_delay_time (pos 0) ≡ false
    pub interval : ltb_ℤ s.params.take_rate_claim_interval (pos 0) ≡ false
    pub own_assets : Everywhere OwnAsset s.assets
    pub valid_denoms : Everywhere (λ d _. k.validate_denom d ≡ true) s.assets
    pub own_delegations : Everywhere OwnDelegation s.delegations
    pub own_redelegations : Everywhere IsUnder s.redelegations
    pub once_assets : Once s.assets
    pub once_infos : Once s.validator_infos
    pub once_delegations : Once s.delegations
    pub once_snapshots : Once s.snapshots
    pub apart_redelegations : Apart s.redelegations

  -- The state that the first loops leave of an empty store.
  abbrev set_parts : State W → W → State W
  set_parts s w = record (empty_store s.params w) {
    assets = insert_all s.assets [];
    validator_infos = insert_all s.validator_infos [];
    delegations = insert_all s.delegations [];
  }

  Finished-lookups :
      (k : Sdk W) (s : State W) (w : W) (s' : State W)
      → Exportable k s
      → Finished s.snapshots (set_parts s w) s'
      → SameLookups s s'
  Finished-lookups k s w s' x f = record {
    params = ap (λ x. x.params) f.snapshots ∙ ap (λ x. x.0) f.kept;
    assets = λ j.
        ap (λ x. lookup j x.assets) f.snapshots
        ∙ ap (λ x. lookup j x.1) f.kept
        ∙ lookup-insert_all_empty j s.assets x.once_assets;
    infos = λ j.
        ap (λ x. lookup j x.validator_infos) f.snapshots
        ∙ ap (λ x. lookup j x.2) f.kept
        ∙ lookup-insert_all_empty j s.validator_infos x.once_infos;
    delegations = λ j.
        ap (λ x. lookup j x.delegations) f.snapshots
        ∙ ap (λ x. lookup j x.3) f.kept
        ∙ lookup-insert_all_empty j s.delegations x.once_delegations;
    snapshots = λ j.
        ap (λ x. lookup j x.snapshots) f.snapshots
        ∙ ap (λ x. lookup j (insert_all s.snapshots x.4)) f.kept
        ∙ lookup-insert_all_empty j s.snapshots x.once_snapshots;
  }

  -- Of a store whose records stand under the keys of their own fields, each key once, whose
  -- assets have valid denominations, and whose durations are not below zero: the import of what
  -- was exported from it, into an empty store, returns, with the same
  -- parameters, and with every asset, validator's info, delegation and snapshot of a reward
  -- weight back under its key, and no others.
  pub genesis_roundtrip :
      (k : Sdk W) (s : State W) (params : Params) (w : W)
      → Exportable k s
      → Returns
          (λ u s'. SameLookups s s')
          (init_genesis k (export_genesis s) (empty_store params w))
  unfolding init_genesis export_genesis get_all_assets
  genesis_roundtrip k s params w x =
      rw
        (
          set_params-ok s.params (empty_store params w) x.delay x.interval,
          set_assets k s.assets _ x.own_assets x.valid_denoms,
        )
        (rw (set_infos s.validator_infos) (
          rw (set_delegations s.delegations _ x.own_delegations) (
            Returns-mono (λ u s'. Finished s.snapshots (set_parts s w) s')
              (λ u s'. SameLookups s s') _
              (queues-Finished k s.redelegations (map (λ e. (e.0.0, e.1)) s.undelegation_queue)
                s.snapshots (set_parts s w) x.own_redelegations x.apart_redelegations
                (nothing_stored s.redelegations))
              (λ u s' f. Finished-lookups k s w s' x f))))
