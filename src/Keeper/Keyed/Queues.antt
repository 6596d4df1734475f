-- ===== src/Keeper/Keyed/Queues.antt =====
-- keeper/delegation.go: the queues of redelegations and undelegations keep their keys.
use alliance.Prelude.{ℕ, ◌≡◌, refl, ◌∙◌, Option, none, some, List, [], ◌∷◌, ◌++◌}
use alliance.Prelude.Map.{Map, lookup, insert, erase, nat_key, int_key, pair_key}
use alliance.Sdk.{Sdk, Denom, AccAddress, ValAddress, Time, Coin, Context}
use alliance.Sdk.Result.{or_panic, or_panic-eq-ok}
use alliance.Types.{Redelegation, Undelegation}
use alliance.Keeper.State.{State, RedelegationKey, UndelegationQueueKey}
use alliance.Keeper.Call.{Call, modify, gets, ◌>>=◌}
use alliance.Keeper.Call.Post.{OnOk, OnOk-lift}
use alliance.Keeper.Call.Keeps.{
  Keeps, Keeps-gets_bind, Keeps-post_bind, Keeps-for_each, Keeps-pure, Keeps-bind, keeps_rules,
}
use alliance.Keeper.Queues.{
  redelegation_key, entries_or_nil, queue_redelegation, merge_redelegation, add_redelegation,
  delete_redelegation, complete_redelegations_in, complete_redelegations, set_queued_undelegations,
  set_unbonding_index_by_val, queue_undelegation, pay_undelegation, complete_undelegations_in,
  burn_virtual_tokens, complete_undelegations,
}
use alliance.Keeper.Keyed.{
  WellKeyed, IsUnder, AllOf, OwnQueue, Everywhere-insert, Everywhere-erase, Everywhere-lookup,
  frame-Keeps, set_redelegations-Keeps, set_undelegations-Keeps, setters_keep,
}

AllOf-append :
    (del : AccAddress) (xs ys : List Undelegation)
    → AllOf del xs
    → AllOf del ys
    → AllOf del (xs ++ ys)
AllOf-append del [] ys hx hy = hy
AllOf-append del (x ∷ xs) ys (h, hx) hy = (h, AllOf-append del xs ys hx hy)

-- What the SDK documents of `Coin.Add`: the sum is a coin of the first denomination.
abbrev pub AddKeepsDenom : {W : Type 0} → Sdk W → Type 0
AddKeepsDenom k = (a b c : Coin) → k.coin_add a b ≡ some c → c.denom ≡ a.denom

module _ {W : Type 0} where
  pub queue_redelegation-Keeps :
      (del : AccAddress) (src dst : ValAddress) (coin : Coin) (t : Time)
      → Keeps WellKeyed (queue_redelegation {W = W} del src dst coin t)
  unfolding queue_redelegation
  queue_redelegation-Keeps del src dst coin t =
      frame-Keeps _ (λ s. refl) (λ s. refl) (λ s. refl) (λ s. refl)

  delete_redelegation-Keeps :
      (r : Redelegation) (t : Time) → Keeps WellKeyed (delete_redelegation {W = W} r t)
  unfolding delete_redelegation
  delete_redelegation-Keeps r t =
      set_redelegations-Keeps _ (λ s. refl) (λ s. refl)
        (λ s h. Everywhere-erase IsUnder _ s.redelegations h.redelegations) (λ s. refl)

  erase_redelegation_queue-Keeps :
      (t : Time)
      → Keeps WellKeyed
          (modify {W = W} λ s. record s { redelegation_queue = erase t s.redelegation_queue })
  erase_redelegation_queue-Keeps t = frame-Keeps _ (λ s. refl) (λ s. refl) (λ s. refl) (λ s. refl)

  complete_redelegations_in-Keeps :
      (q : Map Time (List Redelegation)) (n : ℕ)
      → Keeps WellKeyed (complete_redelegations_in {W = W} q n)
  unfolding complete_redelegations_in
  complete_redelegations_in-Keeps [] n = Keeps-pure n
  complete_redelegations_in-Keeps ((t, entries) ∷ q) n =
      search
        (
          keeps_rules,
          delete_redelegation-Keeps,
          erase_redelegation_queue-Keeps,
          complete_redelegations_in-Keeps q,
        )
        depth 12

  pub complete_redelegations-Keeps :
      (ctx : Context) → Keeps WellKeyed (complete_redelegations {W = W} ctx)
  unfolding complete_redelegations
  complete_redelegations-Keeps ctx = search (keeps_rules, complete_redelegations_in-Keeps)

  pub set_queued_undelegations-Keeps :
      (t : Time) (del : AccAddress) (entries : List Undelegation)
      → AllOf del entries
      → Keeps WellKeyed (set_queued_undelegations {W = W} t del entries)
  unfolding set_queued_undelegations
  set_queued_undelegations-Keeps t del entries all =
      set_undelegations-Keeps _ (λ s. refl) (λ s. refl) (λ s. refl)
        (λ s h.
          Everywhere-insert OwnQueue (t, del) entries s.undelegation_queue all h.undelegations)

  pub set_unbonding_index_by_val-Keeps :
      (val : ValAddress) (t : Time) (del : AccAddress) (denom : Denom)
      → Keeps WellKeyed (set_unbonding_index_by_val {W = W} val t del denom)
  unfolding set_unbonding_index_by_val
  set_unbonding_index_by_val-Keeps val t del denom =
      frame-Keeps _ (λ s. refl) (λ s. refl) (λ s. refl) (λ s. refl)

  -- The queue that is stored under a key is its delegator's.
  pub stored_queue-AllOf :
      (t : Time) (del : AccAddress) (s : State W)
      → WellKeyed s
      → AllOf del (entries_or_nil (lookup (t, del) s.undelegation_queue))
  stored_queue-AllOf t del s h =
      of_stored (lookup (t, del) s.undelegation_queue)
        (Everywhere-lookup OwnQueue (t, del) s.undelegation_queue h.undelegations)
    where
      of_stored :
          (o : Option (List Undelegation))
          → ((entries : List Undelegation) → o ≡ some entries → AllOf del entries)
          → AllOf del (entries_or_nil o)
      of_stored none h = tt
      of_stored (some entries) h = h entries refl

  module _ (k : Sdk W) where
    append_queue-Keeps :
        (t : Time) (del : AccAddress) (val : ValAddress) (coin : Coin) (queue : List Undelegation)
        → AllOf del queue
        → Keeps WellKeyed (
            set_queued_undelegations {W = W} t del (
              queue
              ++ record { delegator_address = del; validator_address = val; balance = coin } ∷ []))
    append_queue-Keeps t del val coin queue all =
        set_queued_undelegations-Keeps t del _ (AllOf-append del queue _ all (refl, tt))

    queue_bind :
        {B : Type 0} (t : Time) (del : AccAddress) (f : List Undelegation → Call W B)
        → ((queue : List Undelegation) → AllOf del queue → Keeps WellKeyed (f queue))
        → Keeps WellKeyed (gets (λ s. entries_or_nil (lookup (t, del) s.undelegation_queue)) >>= f)
    queue_bind t del f kf =
        Keeps-gets_bind (AllOf del) (λ s. entries_or_nil (lookup (t, del) s.undelegation_queue)) f
          (stored_queue-AllOf t del) kf

    pub queue_undelegation-Keeps :
        (ctx : Context) (del : AccAddress) (val : ValAddress) (coin : Coin)
        → Keeps WellKeyed (queue_undelegation k ctx del val coin)
    unfolding queue_undelegation
    queue_undelegation-Keeps ctx del val coin =
        search (queue_bind, append_queue-Keeps, set_unbonding_index_by_val-Keeps, keeps_rules) depth
          12

    erase_unbonding_index-Keeps :
        (f : State W → Map _ (Unit {0}))
        → Keeps WellKeyed (modify {W = W} λ s. record s { unbonding_index = f s })
    erase_unbonding_index-Keeps f = frame-Keeps _ (λ s. refl) (λ s. refl) (λ s. refl) (λ s. refl)

    pay_undelegation-Keeps :
        (t : Time) (u : Undelegation) → Keeps WellKeyed (pay_undelegation k t u)
    unfolding pay_undelegation
    pay_undelegation-Keeps t u =
        search (keeps_rules, setters_keep, erase_unbonding_index-Keeps) depth 12

    erase_undelegation_queue-Keeps :
        (key : UndelegationQueueKey)
        → Keeps WellKeyed
            (modify {W = W} λ s. record s { undelegation_queue = erase key s.undelegation_queue })
    erase_undelegation_queue-Keeps key =
        set_undelegations-Keeps _ (λ s. refl) (λ s. refl) (λ s. refl)
          (λ s h. Everywhere-erase OwnQueue key s.undelegation_queue h.undelegations)

    complete_undelegations_in-Keeps :
        (q : Map UndelegationQueueKey (List Undelegation))
        → Keeps WellKeyed (complete_undelegations_in k q)
    unfolding complete_undelegations_in
    complete_undelegations_in-Keeps [] = Keeps-pure tt
    complete_undelegations_in-Keeps ((key, entries) ∷ q) =
        Keeps-bind _ _ (Keeps-for_each entries _ (pay_undelegation-Keeps key.0)) (λ u.
          Keeps-bind _ _ (erase_undelegation_queue-Keeps key)
            (λ u'. complete_undelegations_in-Keeps q))

    burn_virtual_tokens-Keeps : Keeps WellKeyed (burn_virtual_tokens k)
    unfolding burn_virtual_tokens
    burn_virtual_tokens-Keeps = search (keeps_rules, setters_keep) depth 12

    pub complete_undelegations-Keeps :
        (ctx : Context) → Keeps WellKeyed (complete_undelegations k ctx)
    unfolding complete_undelegations
    complete_undelegations-Keeps ctx =
        search (keeps_rules, complete_undelegations_in-Keeps, burn_virtual_tokens-Keeps) depth 12

    module _ (same_denom : AddKeepsDenom k) where
      merge_redelegation-Keeps :
          (del : AccAddress) (src dst : ValAddress) (coin : Coin) (o : Option Redelegation)
          → Keeps WellKeyed (merge_redelegation k del src dst coin o)
      unfolding merge_redelegation
      merge_redelegation-Keeps del src dst coin none = search keeps_rules
      merge_redelegation-Keeps del src dst coin (some r) = search keeps_rules

      merge_redelegation-IsUnder :
          (del : AccAddress) (src dst : ValAddress) (coin : Coin) (t : Time)
          (o : Option Redelegation) (s : State W)
          → ((r : Redelegation) → o ≡ some r → IsUnder (redelegation_key del coin.denom dst t) r)
          → OnOk
              (λ r _. IsUnder (redelegation_key del coin.denom dst t) r)
              (merge_redelegation k del src dst coin o s)
      unfolding merge_redelegation
      merge_redelegation-IsUnder del src dst coin t none s own = record {
        delegator = refl;
        denomination = refl;
        destination = refl;
      }
      merge_redelegation-IsUnder del src dst coin t (some r) s own =
          OnOk-lift _ _ (or_panic (k.coin_add r.balance coin)) s λ c added. record {
            delegator = (own r refl).delegator;
            denomination =
                same_denom r.balance coin c (or_panic-eq-ok _ added) ∙ (own r refl).denomination;
            destination = (own r refl).destination;
          }

      set_redelegation-Keeps :
          (key : RedelegationKey) (r : Redelegation) (f : State W → Map _ (Unit {0}))
          → IsUnder key r
          → Keeps WellKeyed (
              modify {W = W} λ s. record s {
                redelegations = insert key r s.redelegations;
                redelegation_index = f s;
              })
      set_redelegation-Keeps key r f under =
          set_redelegations-Keeps _ (λ s. refl) (λ s. refl)
            (λ s h. Everywhere-insert IsUnder key r s.redelegations under h.redelegations)
            (λ s. refl)

      merge_bind :
          (del : AccAddress) (src dst : ValAddress) (coin : Coin) (t : Time)
          (f : Redelegation → Call W (Unit {0}))
          → ((r : Redelegation)
              → IsUnder (redelegation_key del coin.denom dst t) r
              → Keeps WellKeyed (f r))
          → Keeps WellKeyed (
              gets (λ s. lookup (redelegation_key del coin.denom dst t) s.redelegations) >>= λ o.
              merge_redelegation k del src dst coin o >>= f)
      merge_bind del src dst coin t f kf =
          let key = redelegation_key del coin.denom dst t in
          Keeps-gets_bind (λ o. (r : Redelegation) → o ≡ some r → IsUnder key r)
            (λ s. lookup key s.redelegations) (λ o. merge_redelegation k del src dst coin o >>= f)
            (λ s h. Everywhere-lookup IsUnder key s.redelegations h.redelegations)
            λ o own.
              Keeps-post_bind (IsUnder key) (merge_redelegation k del src dst coin o) f
                (merge_redelegation-Keeps del src dst coin o)
                (λ s h. merge_redelegation-IsUnder del src dst coin t o s own) kf

      pub add_redelegation-Keeps :
          (del : AccAddress) (src dst : ValAddress) (coin : Coin) (t : Time)
          → Keeps WellKeyed (add_redelegation k del src dst coin t)
      unfolding add_redelegation
      add_redelegation-Keeps del src dst coin t =
          search (merge_bind, set_redelegation-Keeps, queue_redelegation-Keeps, keeps_rules) depth
            12
