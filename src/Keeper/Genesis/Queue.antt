-- ===== src/Keeper/Genesis/Queue.antt =====
-- keeper/genesis.go: the queue of redelegations in InitGenesis.
use alliance.Prelude.{◌≡◌, refl, ◌∙◌, ap, Option, none, some, [], ◌∷◌, ◌++◌}
use alliance.Prelude.Map.{lookup, int_key, nat_key, pair_key, lookup-insert_self}
use alliance.Sdk.{Sdk, AccAddress, ValAddress, Coin, Time}
use alliance.Sdk.Result.{ok, or_panic}
use alliance.Types.{Redelegation}
use alliance.Keeper.State.{State}
use alliance.Keeper.Call.Post.{OnOk, OnOk-value, OnOk-resume, OnOk-lift}
use alliance.Keeper.Queues.{
  queue_redelegation, add_redelegation, merge_redelegation, entries_or_nil, redelegation_key,
}
use alliance.Keeper.Genesis.{init_redelegation}

module _ {W : Type 0} (k : Sdk W) where
  abbrev SameQueue : {A : Type 0} → State W → A → State W → Type 0
  SameQueue s a s' = s'.redelegation_queue ≡ s.redelegation_queue

  merge_redelegation-SameQueue :
      (del : AccAddress) (src dst : ValAddress) (coin : Coin) (found : Option Redelegation)
      (s : State W)
      → OnOk (SameQueue s) (merge_redelegation k del src dst coin found s)
  unfolding merge_redelegation
  merge_redelegation-SameQueue del src dst coin none s = refl
  merge_redelegation-SameQueue del src dst coin (some r) s =
      OnOk-lift (SameQueue s) _ (or_panic (k.coin_add r.balance coin)) s (λ balance e. refl)

  abbrev Twice : Time → Redelegation → State W → Unit {0} → State W → Type 0
  Twice t r s u s' =
      lookup t s'.redelegation_queue
      ≡ some ((entries_or_nil (lookup t s.redelegation_queue) ++ r ∷ []) ++ r ∷ [])

  abbrev Once : Time → Redelegation → State W → Unit {0} → State W → Type 0
  Once t r s u s' =
      lookup t s'.redelegation_queue
      ≡ some (entries_or_nil (lookup t s.redelegation_queue) ++ r ∷ [])

  add_redelegation-Once :
      (t : Time) (r : Redelegation) (s : State W)
      → OnOk (Once t r s) (
          add_redelegation k r.delegator_address r.src_validator_address r.dst_validator_address
            r.balance t s)
  unfolding add_redelegation queue_redelegation
  add_redelegation-Once t r s =
      let found =
        lookup (redelegation_key r.delegator_address r.balance.denom r.dst_validator_address t)
          s.redelegations in
      OnOk-resume (Once t r s) _ (SameQueue s)
        (merge_redelegation k r.delegator_address r.src_validator_address r.dst_validator_address
          r.balance found s)
        (merge_redelegation-SameQueue r.delegator_address r.src_validator_address
          r.dst_validator_address r.balance found s)
        λ merged s' same.
          lookup-insert_self t _ s'.redelegation_queue
          ∙ ap (λ m. some (entries_or_nil (lookup t m) ++ r ∷ [])) same

  init_redelegation-Twice :
      (t : Time) (r : Redelegation) (s : State W)
      → OnOk (Twice t r s) (init_redelegation k (t, r) s)
  unfolding init_redelegation queue_redelegation
  init_redelegation-Twice t r s =
      OnOk-resume (Twice t r s) _ (Once t r s)
        (add_redelegation k r.delegator_address r.src_validator_address r.dst_validator_address
          r.balance t s)
        (add_redelegation-Once t r s)
        λ u s' once.
          lookup-insert_self t _ s'.redelegation_queue
          ∙ ap (λ o. some (entries_or_nil o ++ r ∷ [])) once

  -- Where the import of a redelegation returns, the queue for its completion time has gained two
  -- entries for it.
  pub init_redelegation_twice :
      (t : Time) (r : Redelegation) (s : State W)
      → (init_redelegation k (t, r) s).0 ≡ ok tt
      → lookup t (init_redelegation k (t, r) s).1.redelegation_queue
        ≡ some ((entries_or_nil (lookup t s.redelegation_queue) ++ r ∷ []) ++ r ∷ [])
  init_redelegation_twice t r s e =
      OnOk-value (Twice t r s) (init_redelegation k (t, r) s) (init_redelegation-Twice t r s) e
