-- ===== src/Keeper/Queues/Merge.antt =====
-- keeper/delegation.go: addRedelegation from two sources to one destination.
use alliance.Prelude.{◌≡◌, ap, ◌∙◌, none, some, Bool-cases, inl, inr}
use alliance.Prelude.Int.{ℤ}
use alliance.Prelude.Map.{
  Map, Key, lookup, insert, lookup-insert_self, lookup-insert_ne, nat_key, int_key, pair_key,
}
use alliance.Sdk.{Sdk, Denom, AccAddress, ValAddress, Coin, Time}
use alliance.Keeper.State.{State}
use alliance.Keeper.Queues.{
  redelegation_key, redelegation_index_key, merge_redelegation, queue_redelegation,
  add_redelegation,
}

marked :
    {K : Type 0} ⦃key : Key K⦄ (i j : K) (m : Map K (Unit {0}))
    → lookup i m ≡ some tt
    → lookup i (insert j tt m) ≡ some tt
marked ⦃key⦄ i j m h = elim (Bool-cases (key.equal i j)) [
  | inl same ↦
      ap (λ x. lookup x (insert j tt m)) (key.eq_of_equal i j same) ∙ lookup-insert_self j tt m
  | inr other ↦ lookup-insert_ne i j tt m other ∙ h
]

module _ {W : Type 0} (k : Sdk W) where
  module _ (del : AccAddress) (dst : ValAddress) (d : Denom) (t : Time) where
    abbrev pub after_add : ValAddress → ℤ → State W → State W
    after_add src n s = (add_redelegation k del src dst (record { denom = d; amount = n }) t s).1

    -- Where nothing of the delegator is on its way to a validator until a time, two redelegations
    -- to it for that time, of one denomination and from any two sources, leave one record: it
    -- names the first source alone and holds the sum of both amounts, while the index of
    -- redelegations leads from either source to it.
    pub add_redelegation_merges :
        (src src' : ValAddress) (n n' : ℤ) (total : Coin) (s : State W)
        → lookup (redelegation_key del d dst t) s.redelegations ≡ none
        → k.coin_add (record { denom = d; amount = n }) (record { denom = d; amount = n' })
          ≡ some total
        → let s' = after_add src' n' (after_add src n s) in
          (lookup (redelegation_key del d dst t) s'.redelegations
            ≡ some (record {
              delegator_address = del;
              src_validator_address = src;
              dst_validator_address = dst;
              balance = total;
            }))
          × (lookup (redelegation_index_key src t d dst del) s'.redelegation_index ≡ some tt)
          × (lookup (redelegation_index_key src' t d dst del) s'.redelegation_index ≡ some tt)
    unfolding add_redelegation merge_redelegation queue_redelegation
    add_redelegation_merges src src' n n' total s free sum =
        let key = redelegation_key del d dst t in
        rw (free, after_add)
          (rw
            (
              lookup-insert_self key
                  (record {
                    delegator_address = del;
                    src_validator_address = src;
                    dst_validator_address = dst;
                    balance = record { denom = d; amount = n };
                  })
                  s.redelegations,
              sum,
            )
            (
              lookup-insert_self key _ _,
              marked (redelegation_index_key src t d dst del)
                  (redelegation_index_key src' t d dst del) _
                  (lookup-insert_self (redelegation_index_key src t d dst del) tt
                    s.redelegation_index),
              lookup-insert_self (redelegation_index_key src' t d dst del) tt _,
            ))
