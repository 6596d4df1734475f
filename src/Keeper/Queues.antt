-- ===== src/Keeper/Queues.antt =====
-- keeper/delegation.go: the queues of redelegations and undelegations.
pub mod Completion
pub mod Transitive
pub mod Solvency
pub mod Payout
pub mod Merge
use alliance.Prelude.{
  ℕ, Bool, true, false, Option, none, some, List, [], ◌∷◌, ◌++◌, ◌+◌, ◌==◌, ◌&&◌, if◌then◌else◌,
  length,
}
use alliance.Prelude.Int.{◌+ℤ◌, ltb_ℤ, eqb_ℤ, pos}
use alliance.Prelude.Map.{Map, lookup, insert, erase, range, nat_key, int_key, pair_key}
use alliance.Sdk.{Sdk, Denom, AccAddress, ValAddress, Time, Coin, Context, alliance_module}
use alliance.Sdk.Result.{or_panic}
use alliance.Types.{Redelegation, Undelegation}
use alliance.Keeper.State.{
  State, RedelegationKey, RedelegationIndexKey, UndelegationQueueKey, UnbondingIndexKey,
}
use alliance.Keeper.Call.{Call, pure, lift, gets, modify, other_module, for_each, ◌>>=◌, ◌>>◌}

-- GetRedelegationKey, GetRedelegationIndexKey and GetUnbondingIndexKey.
abbrev pub redelegation_key : AccAddress → Denom → ValAddress → Time → RedelegationKey
redelegation_key del denom dst completion = (del, (denom, (dst, completion)))

abbrev pub redelegation_index_key :
    ValAddress → Time → Denom → ValAddress → AccAddress → RedelegationIndexKey
redelegation_index_key src completion denom dst del = (src, (completion, (denom, (dst, del))))

abbrev pub unbonding_index_key : ValAddress → Time → Denom → AccAddress → UnbondingIndexKey
unbonding_index_key val completion denom del = (val, (completion, (denom, del)))

abbrev pub entries_or_nil : {A : Type 0} → Option (List A) → List A
entries_or_nil none = []
entries_or_nil (some entries) = entries

abbrev pub has_redelegation_prefix :
    AccAddress → ValAddress → Denom → Map RedelegationKey Redelegation → Bool
has_redelegation_prefix del dst denom [] = false
has_redelegation_prefix del dst denom (((d, (n, (v, t))), r) ∷ m) =
    if d == del && n == denom && v == dst then true else has_redelegation_prefix del dst denom m

module _ {W : Type 0} where
  -- `b == nil` starts a queue with the entry, as appending to an empty one does.
  unfoldable pub queue_redelegation :
      AccAddress → ValAddress → ValAddress → Coin → Time → Call W (Unit {0})
  queue_redelegation del src dst coin completion = modify λ s. record s {
    redelegation_queue =
        insert completion
          (entries_or_nil (lookup completion s.redelegation_queue)
            ++ record {
              delegator_address = del;
              src_validator_address = src;
              dst_validator_address = dst;
              balance = coin;
            }
              ∷ [])
          s.redelegation_queue;
  }

  -- The entry under the key, with the coin added to its balance.
  unfoldable pub merge_redelegation :
      Sdk W
      → AccAddress
      → ValAddress
      → ValAddress
      → Coin
      → Option Redelegation
      → Call W Redelegation
  merge_redelegation k del src dst coin none = pure (record {
    delegator_address = del;
    src_validator_address = src;
    dst_validator_address = dst;
    balance = coin;
  })
  merge_redelegation k del src dst coin (some redelegation) = do
    balance ← lift (or_panic (k.coin_add redelegation.balance coin))
    pure (record redelegation { balance = balance })

  unfoldable pub add_redelegation :
      Sdk W → AccAddress → ValAddress → ValAddress → Coin → Time → Call W (Unit {0})
  unfolding queue_redelegation merge_redelegation
  add_redelegation k del src dst coin completion = do
    stored ← gets (λ s. lookup (redelegation_key del coin.denom dst completion) s.redelegations)
    redelegation ← merge_redelegation k del src dst coin stored
    modify λ s. record s {
      redelegations =
          insert (redelegation_key del coin.denom dst completion) redelegation s.redelegations;
      redelegation_index =
          insert (redelegation_index_key src completion coin.denom dst del) tt s.redelegation_index;
    }
    queue_redelegation del src dst coin completion

  -- Whether an iterator over the keys of delegator, denomination and destination is valid.
  unfoldable pub has_redelegation : AccAddress → ValAddress → Denom → State W → Bool
  has_redelegation del dst denom s = has_redelegation_prefix del dst denom s.redelegations

  unfoldable pub delete_redelegation : Redelegation → Time → Call W (Unit {0})
  delete_redelegation redel completion = modify λ s. record s {
    redelegations =
        erase
          (redelegation_key redel.delegator_address redel.balance.denom redel.dst_validator_address
            completion)
          s.redelegations;
    redelegation_index =
        erase
          (redelegation_index_key redel.src_validator_address completion redel.balance.denom
            redel.dst_validator_address redel.delegator_address)
          s.redelegation_index;
  }

  unfoldable pub delete_redelegations : List Redelegation → Time → Call W (Unit {0})
  unfolding delete_redelegation
  delete_redelegations entries completion =
      for_each entries (λ redel. delete_redelegation redel completion)

  -- The queue entries whose time lies before the block's: `store.Iterator` excludes its end.
  unfoldable pub matured_redelegations : Time → State W → Map Time (List Redelegation)
  matured_redelegations now s = range (λ completion. ltb_ℤ completion now) s.redelegation_queue

  unfoldable pub complete_redelegations_in : Map Time (List Redelegation) → ℕ → Call W ℕ
  unfolding delete_redelegations
  complete_redelegations_in [] deleted = pure deleted
  complete_redelegations_in ((completion, entries) ∷ queue) deleted = do
    delete_redelegations entries completion
    modify λ s. record s { redelegation_queue = erase completion s.redelegation_queue }
    complete_redelegations_in queue (deleted + length entries)

  unfoldable pub complete_redelegations : Context → Call W ℕ
  unfolding complete_redelegations_in
  complete_redelegations ctx = do
    queue ← gets (matured_redelegations ctx.block_time)
    complete_redelegations_in queue 0

  -- setQueuedUndelegations and setUnbondingIndexByVal
  unfoldable pub set_queued_undelegations :
      Time → AccAddress → List Undelegation → Call W (Unit {0})
  set_queued_undelegations completion del queue =
      modify
        λ s. record s { undelegation_queue = insert (completion, del) queue s.undelegation_queue }

  unfoldable pub set_unbonding_index_by_val :
      ValAddress → Time → AccAddress → Denom → Call W (Unit {0})
  set_unbonding_index_by_val val completion del denom = modify λ s. record s {
    unbonding_index = insert (unbonding_index_key val completion denom del) tt s.unbonding_index;
  }

  unfoldable pub queue_undelegation : Sdk W → Context → AccAddress → ValAddress → Coin → Call W Time
  unfolding set_queued_undelegations set_unbonding_index_by_val
  queue_undelegation k ctx del val coin = do
    completion ← gets (λ s. ctx.block_time +ℤ k.unbonding_time s.world)
    queue ← gets (λ s. entries_or_nil (lookup (completion, del) s.undelegation_queue))
    set_queued_undelegations completion del
        (queue ++ record { delegator_address = del; validator_address = val; balance = coin } ∷ [])
    set_unbonding_index_by_val val completion del coin.denom
    pure completion

  unfoldable pub pay_undelegation : Sdk W → Time → Undelegation → Call W (Unit {0})
  pay_undelegation k completion undel = do
    coins ← lift (or_panic (k.new_coins (undel.balance ∷ [])))
    other_module (k.send_coins_from_module_to_account alliance_module undel.delegator_address coins)
    modify λ s. record s {
      unbonding_index =
          erase
            (unbonding_index_key undel.validator_address completion undel.balance.denom
              undel.delegator_address)
            s.unbonding_index;
    }

  unfoldable pub matured_undelegations :
      Time → State W → Map UndelegationQueueKey (List Undelegation)
  matured_undelegations now s = range (λ key. ltb_ℤ key.0 now) s.undelegation_queue

  unfoldable pub complete_undelegations_in :
      Sdk W → Map UndelegationQueueKey (List Undelegation) → Call W (Unit {0})
  unfolding pay_undelegation
  complete_undelegations_in k [] = pure tt
  complete_undelegations_in k ((key, entries) ∷ queue) = do
    for_each entries (pay_undelegation k key.0)
    modify λ s. record s { undelegation_queue = erase key s.undelegation_queue }
    complete_undelegations_in k queue

  -- The staking tokens of the module account are virtual, and burnt.
  unfoldable pub burn_virtual_tokens : Sdk W → Call W (Unit {0})
  burn_virtual_tokens k = do
    coin ←
        gets
          (λ s. k.get_balance (k.get_module_address alliance_module) (k.bond_denom s.world) s.world)
    if eqb_ℤ coin.amount (pos 0) then pure tt else do
      coins ← lift (or_panic (k.new_coins (coin ∷ [])))
      other_module (k.burn_coins alliance_module coins)

  unfoldable pub complete_undelegations : Sdk W → Context → Call W (Unit {0})
  unfolding complete_undelegations_in burn_virtual_tokens
  complete_undelegations k ctx = do
    queue ← gets (matured_undelegations ctx.block_time)
    complete_undelegations_in k queue
    burn_virtual_tokens k
