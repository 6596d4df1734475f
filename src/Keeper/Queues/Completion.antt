-- ===== src/Keeper/Queues/Completion.antt =====
-- keeper/delegation.go: CompleteRedelegations.
use alliance.Prelude.{
  ℕ, ◌≡◌, refl, sym, ap, ◌∙◌, Bool, true, false, Option, none, some, List, [], ◌∷◌, ◌+◌, arith,
  length, All, if◌then◌else◌, Bool-cases, inl, inr,
}
use alliance.Prelude.Int.{ltb_ℤ, eqb_ℤ, eqb_ℤ_iff}
use alliance.Prelude.Map.{
  Map, lookup, erase, erase_keys, nat_key, int_key, pair_key, lookup-erase, lookup-erase_self,
  lookup-erase_range, lookup-range,
}
use alliance.Sdk.{Time, Context}
use alliance.Sdk.Result.{ok}
use alliance.Types.{Redelegation}
use alliance.Keeper.State.{State, RedelegationKey}
use alliance.Keeper.Call.Post.{Returns, Returns-value, Returns-resume, Returns-mono}
use alliance.Keeper.Queues.{
  redelegation_key, delete_redelegation, delete_redelegations, complete_redelegations_in,
  complete_redelegations, matured_redelegations, entries_or_nil,
}
use alliance.Keeper.Call.{for_each}
use mathlib.Core.Path.{subst}

-- The key that an entry of the queue is stored under.
abbrev pub key_of : Redelegation → Time → RedelegationKey
key_of r completion =
    redelegation_key r.delegator_address r.balance.denom r.dst_validator_address completion

-- The number of entries in a part of the queue.
unfoldable pub entries_in : Map Time (List Redelegation) → ℕ
entries_in [] = 0
entries_in ((t, entries) ∷ queue) = length entries + entries_in queue

abbrev Redelegations : Type 0
Redelegations = Map RedelegationKey Redelegation

abbrev Absent : Redelegations → Time → List Redelegation → Type 0
Absent m t = All (λ r. lookup (key_of r t) m ≡ none)

abbrev AllAbsent : Redelegations → Map Time (List Redelegation) → Type 0
AllAbsent m = All (λ e. Absent m e.0 e.1)

-- What is not stored is not stored after deletions.
abbrev StaysAbsent : Redelegations → Redelegations → Type 0
StaysAbsent m m' = (key : RedelegationKey) → lookup key m ≡ none → lookup key m' ≡ none

none_either_way : (b : Bool) → ◌≡◌ {A = Option Redelegation} (if b then none else none) none
none_either_way true = refl
none_either_way false = refl

erase-StaysAbsent : (key : RedelegationKey) (m : Redelegations) → StaysAbsent m (erase key m)
erase-StaysAbsent key m j h = rw (lookup-erase j key m, h) (none_either_way _)

Absent-mono :
    (m m' : Redelegations) (t : Time) (entries : List Redelegation)
    → StaysAbsent m m'
    → Absent m t entries
    → Absent m' t entries
Absent-mono m m' t [] stays a = tt
Absent-mono m m' t (r ∷ entries) stays (a, as') =
    (stays (key_of r t) a, Absent-mono m m' t entries stays as')

lookup-Absent :
    (m : Redelegations) (q : Map Time (List Redelegation)) (t : Time) {entries : List Redelegation}
    → AllAbsent m q
    → lookup t q ≡ some entries
    → Absent m t entries
unfolding lookup
lookup-Absent m [] t a h = cc
lookup-Absent m ((u, entries') ∷ q) t {entries} (a, as') h = elim (Bool-cases (eqb_ℤ t u)) [
  | inl same ↦
      subst (λ es. Absent m t es) (ap entries_or_nil (rw same at h))
        (subst (λ x. Absent m x entries') (sym (eqb_ℤ_iff t u same)) a)
  | inr other ↦ lookup-Absent m q t as' (rw other at h)
]

module _ {W : Type 0} where
  record Deletes (t : Time) (entries : List Redelegation) (s s' : State W) : Type 0 where
    queue : s'.redelegation_queue ≡ s.redelegation_queue
    absent : Absent s'.redelegations t entries
    stays : StaysAbsent s.redelegations s'.redelegations

  abbrev deleted : Redelegation → Time → State W → State W
  deleted r t s = (delete_redelegation r t s).1

  delete_redelegations-Deletes :
      (entries : List Redelegation) (t : Time) (s : State W)
      → Returns (λ u. Deletes t entries s) (delete_redelegations entries t s)
  unfolding delete_redelegations delete_redelegation for_each
  delete_redelegations-Deletes [] t s = record { queue = refl; absent = tt; stays = λ key h. h }
  delete_redelegations-Deletes (r ∷ entries) t s =
      Returns-mono (λ u. Deletes t entries (deleted r t s)) (λ u. Deletes t (r ∷ entries) s) _
        (delete_redelegations-Deletes entries t (deleted r t s))
        λ u s' d. record {
          queue = d.queue;
          absent = (d.stays _ (lookup-erase_self _ s.redelegations), d.absent);
          stays = λ key h. d.stays key (erase-StaysAbsent _ s.redelegations key h);
        }

  record Completes (q : Map Time (List Redelegation)) (so_far : ℕ) (s : State W) (n : ℕ)
      (s' : State W) : Type 0 where
    count : n ≡ so_far + entries_in q
    queue : s'.redelegation_queue ≡ erase_keys q s.redelegation_queue
    absent : AllAbsent s'.redelegations q
    stays : StaysAbsent s.redelegations s'.redelegations

  complete_in-Completes :
      (q : Map Time (List Redelegation)) (so_far : ℕ) (s : State W)
      → Returns (Completes q so_far s) (complete_redelegations_in q so_far s)
  unfolding complete_redelegations_in erase_keys entries_in
  complete_in-Completes [] so_far s = record {
    count = omega arith;
    queue = refl;
    absent = tt;
    stays = λ key h. h;
  }
  complete_in-Completes ((t, entries) ∷ q) so_far s =
      Returns-resume (Completes ((t, entries) ∷ q) so_far s) _ (λ u. Deletes t entries s)
        (delete_redelegations entries t s) (delete_redelegations-Deletes entries t s)
        λ u s1 d.
          Returns-mono
            (Completes q (so_far + length entries)
              (record s1 { redelegation_queue = erase t s1.redelegation_queue }))
            (Completes ((t, entries) ∷ q) so_far s)
            (complete_redelegations_in q (so_far + length entries)
              (record s1 { redelegation_queue = erase t s1.redelegation_queue }))
            (complete_in-Completes q (so_far + length entries) _)
            λ n s' c. record {
              count = omega (arith, c.count);
              queue = c.queue ∙ ap (λ m. erase_keys q (erase t m)) d.queue;
              absent = (
                Absent-mono s1.redelegations s'.redelegations t entries c.stays d.absent,
                c.absent,
              );
              stays = λ key h. c.stays key (d.stays key h);
            }

  -- The end of a block always completes the redelegations that lie behind it: the call returns
  -- how many entries had matured, takes every matured time out of the queue and no other, and
  -- leaves none of the matured entries in the store.
  pub complete_redelegations_matured :
      (ctx : Context) (s : State W)
      → let s' = (complete_redelegations ctx s).1 in
        ((complete_redelegations ctx s).0
          ≡ ok (entries_in (matured_redelegations ctx.block_time s)))
        × ((t : Time)
            → lookup t s'.redelegation_queue
              ≡ (if ltb_ℤ t ctx.block_time then none else lookup t s.redelegation_queue))
        × ((t : Time) (entries : List Redelegation)
            → lookup t s.redelegation_queue ≡ some entries
            → ltb_ℤ t ctx.block_time ≡ true
            → All (λ r. lookup (key_of r t) s'.redelegations ≡ none) entries)
  unfolding complete_redelegations matured_redelegations
  complete_redelegations_matured ctx s =
      let q = matured_redelegations ctx.block_time s in
      let (n, e, c) = Returns-value (Completes q 0 s) _ (complete_in-Completes q 0 s) in
      (
        e ∙ ap ok (omega (arith, c.count)),
        (λ t.
            ap (lookup t) c.queue
            ∙ lookup-erase_range (λ completion. ltb_ℤ completion ctx.block_time) t
                s.redelegation_queue),
        λ t entries h matured. lookup-Absent _ q t c.absent (
            lookup-range (λ completion. ltb_ℤ completion ctx.block_time) t s.redelegation_queue
            ∙ rw matured h),
      )
