-- ===== src/Keeper/Queues/Payout.antt =====
-- keeper/delegation.go: CompleteUndelegations, where the module's account has what is owed.
use mathlib.Core.Path.{subst}
use alliance.Prelude.{
  ◌≡◌, refl, sym, ap, ◌∙◌, Bool, none, List, [], ◌∷◌, All, if◌then◌else◌, Bool-cases, inl, inr,
  arith,
}
use alliance.Prelude.Int.{ℤ, pos, ◌+ℤ◌, ◌≤ℤ◌, eqb_ℤ, ltb_ℤ, int_laws}
use alliance.Prelude.Map.{
  Map, lookup, erase, erase_keys, nat_key, int_key, pair_key, lookup-erase_range,
}
use alliance.Sdk.{Sdk, Denom, AccAddress, Time, Coin, Context, alliance_module}
use alliance.Sdk.Result.{ok}
use alliance.Types.{Undelegation}
use alliance.Keeper.State.{State, UndelegationQueueKey}
use alliance.Keeper.Call.{for_each}
use alliance.Keeper.Call.Post.{Returns, Returns-value, Returns-resume, Returns-mono}
use alliance.Keeper.Queues.{
  unbonding_index_key, pay_undelegation, complete_undelegations_in, burn_virtual_tokens,
  complete_undelegations, matured_undelegations,
}
use alliance.Keeper.Queues.Solvency.{
  held, Payable, BankLaws, Entry, owed, owed_all, owed_all-not_negative, Covers, Entry-Payable,
  paid, paid-Covers,
}

more_covered : (a all : ℤ) → pos 0 +ℤ a ≤ℤ all → a ≤ℤ all
more_covered a all h = omega int_laws

module _ {W : Type 0} (k : Sdk W) (accepts : AccAddress → Bool) (bank : BankLaws k accepts) where
  -- What the bank is left with: each entry paid once, in order, then the staking tokens of the
  -- module's account burnt.
  unfoldable pub all_paid : List Undelegation → W → W
  all_paid [] w = w
  all_paid (u ∷ entries) w = all_paid entries (paid k bank u w)

  unfoldable pub queue_paid : Map UndelegationQueueKey (List Undelegation) → W → W
  unfolding all_paid
  queue_paid [] w = w
  queue_paid ((key, entries) ∷ q) w = queue_paid q (all_paid entries w)

  abbrev pub virtual_coin : W → Coin
  virtual_coin w = k.get_balance (k.get_module_address alliance_module) (k.bond_denom w) w

  abbrev pub virtual_burnt : W → W
  virtual_burnt w =
      if eqb_ℤ (virtual_coin w).amount (pos 0)
      then w
      else (k.burn_coins alliance_module (bank.make (virtual_coin w)) w).1

  pay_undelegation-eq :
      (t : Time) (u : Undelegation) (s : State W)
      → Entry k accepts u
      → Payable k u.balance s.world
      → pay_undelegation k t u s ≡ (
        ok tt,
        record s {
          world = paid k bank u s.world;
          unbonding_index =
              erase
                (unbonding_index_key u.validator_address t u.balance.denom u.delegator_address)
                s.unbonding_index;
        },
      )
  unfolding pay_undelegation
  pay_undelegation-eq t u s e p =
      rw (bank.made u.balance p.valid p.not_negative)
        (rw (bank.sent u.delegator_address u.balance s.world e.accepted p))

  record Pay (entries : List Undelegation) (more : Denom → ℤ) (s s' : State W) : Type 0 where
    queue : s'.undelegation_queue ≡ s.undelegation_queue
    world : s'.world ≡ all_paid entries s.world
    covers : (d : Denom) → more d ≤ℤ held k d s'.world

  for_each-Pay :
      (t : Time) (entries : List Undelegation) (more : Denom → ℤ) (s : State W)
      → All (Entry k accepts) entries
      → ((d : Denom) → pos 0 ≤ℤ more d)
      → Covers k accepts entries more s.world
      → Returns (λ _. Pay entries more s) (for_each entries (pay_undelegation k t) s)
  unfolding for_each all_paid owed
  for_each-Pay t [] more s all positive covers = record {
    queue = refl;
    world = refl;
    covers = λ d. more_covered _ _ (covers d);
  }
  for_each-Pay t (u ∷ entries) more s (e, all) positive covers =
      let p = Entry-Payable k accepts u entries more s.world e all positive covers in
      rw (pay_undelegation-eq t u s e p) (
        Returns-mono (λ _. Pay entries more _) (λ _. Pay (u ∷ entries) more s) _
          (for_each-Pay t entries more _ all positive
            (paid-Covers k accepts bank u entries more s.world e p covers))
          (λ _ s' p. record { queue = p.queue; world = p.world; covers = p.covers }))

  record PaysOut (q : Map UndelegationQueueKey (List Undelegation)) (s s' : State W) : Type 0 where
    queue : s'.undelegation_queue ≡ erase_keys q s.undelegation_queue
    world : s'.world ≡ queue_paid q s.world

  complete_in-PaysOut :
      (q : Map UndelegationQueueKey (List Undelegation)) (s : State W)
      → All (λ e. All (Entry k accepts) e.1) q
      → ((d : Denom) → owed_all d q ≤ℤ held k d s.world)
      → Returns (λ _. PaysOut q s) (complete_undelegations_in k q s)
  unfolding complete_undelegations_in erase_keys queue_paid owed_all
  complete_in-PaysOut [] s all covers = record { queue = refl; world = refl }
  complete_in-PaysOut ((key, entries) ∷ q) s (es, all) covers =
      let more : Denom → ℤ = λ d. owed_all d q in
      Returns-resume (λ _. PaysOut ((key, entries) ∷ q) s) _ (λ _. Pay entries more s)
        (for_each entries (pay_undelegation k key.0) s)
        (for_each-Pay key.0 entries more s es (λ d. owed_all-not_negative k accepts d q all) covers)
        λ _ s1 p.
          Returns-mono
            (λ _. PaysOut q (record s1 { undelegation_queue = erase key s1.undelegation_queue }))
            (λ _. PaysOut ((key, entries) ∷ q) s)
            (complete_undelegations_in k q
              (record s1 { undelegation_queue = erase key s1.undelegation_queue }))
            (complete_in-PaysOut q _ all p.covers)
            λ _ s' c. record {
              queue = c.queue ∙ ap (λ m. erase_keys q (erase key m)) p.queue;
              world = c.world ∙ ap (queue_paid q) p.world;
            }

  virtual-Payable : (w : W) → Payable k (virtual_coin w) w
  virtual-Payable w =
      let same = bank.balance_denom (k.bond_denom w) w in
      record {
        valid = ap k.validate_denom same ∙ bank.bond_denom_valid w;
        not_negative = bank.balance_not_negative (k.bond_denom w) w;
        covered = subst (λ d. (virtual_coin w).amount ≤ℤ held k d w) (sym same) (omega arith);
      }

  burn_virtual_tokens-eq :
      (s : State W) → burn_virtual_tokens k s ≡ (ok tt, record s { world = virtual_burnt s.world })
  unfolding burn_virtual_tokens
  burn_virtual_tokens-eq s = elim (Bool-cases (eqb_ℤ (virtual_coin s.world).amount (pos 0))) [
    | inl nothing ↦ rw nothing
    | inr some_ ↦ rw some_ (
        rw
          (bank.made (virtual_coin s.world) (virtual-Payable s.world).valid
            (virtual-Payable s.world).not_negative)
          (rw (bank.burnt (virtual_coin s.world) s.world (virtual-Payable s.world))))
  ]

  -- Under what the bank documents, where the matured entries are of valid denominations, not
  -- negative and of delegators that accept coins, and the module's account has in each
  -- denomination what they owe together: CompleteUndelegations returns. Every entry whose time
  -- lies before the block's has been paid once, in the order of the queue, and the staking tokens
  -- of the module's account are burnt after that; the entries of those times are out of the
  -- queue, and those of other times are in it.
  pub complete_undelegations_pay :
      (ctx : Context) (s : State W)
      → All (λ e. All (Entry k accepts) e.1) (matured_undelegations ctx.block_time s)
      → ((d : Denom) → owed_all d (matured_undelegations ctx.block_time s) ≤ℤ held k d s.world)
      → let s' = (complete_undelegations k ctx s).1 in
        ((complete_undelegations k ctx s).0 ≡ ok tt)
        × (s'.world ≡ virtual_burnt (queue_paid (matured_undelegations ctx.block_time s) s.world))
        × ((key : UndelegationQueueKey)
            → lookup key s'.undelegation_queue
              ≡ (if ltb_ℤ key.0 ctx.block_time then none else lookup key s.undelegation_queue))
  unfolding complete_undelegations matured_undelegations
  complete_undelegations_pay ctx s all covers =
      let q = matured_undelegations ctx.block_time s in
      let (u, e, c) = Returns-value (λ _. PaysOut q s) _ (complete_in-PaysOut q s all covers) in
      let s1 = (complete_undelegations_in k q s).1 in
      rw (e, burn_virtual_tokens-eq s1)
        (
          refl,
          ap virtual_burnt c.world,
          λ key.
              ap (lookup key) c.queue
              ∙ lookup-erase_range (λ j. ltb_ℤ j.0 ctx.block_time) key s.undelegation_queue,
        )
