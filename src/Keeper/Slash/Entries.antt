-- ===== src/Keeper/Slash/Entries.antt =====
-- keeper/slash.go: what slashUndelegations does to a queue's entries.
use alliance.Prelude.{◌≡◌, ◌^◌, refl, ap, ◌∙◌, false, some, List, [], ◌∷◌, map}
use alliance.Prelude.Int.{ℤ, pos, ◌*ℤ◌, quot, ◌-ℤ◌, ltb_ℤ}
use alliance.Prelude.Map.{lookup, lookup-insert_self, nat_key, int_key, pair_key}
use alliance.Sdk.{Sdk, Denom, SdkDec, Coin, Context}
use alliance.Sdk.Result.{ok, or_panic, or_panic-eq-ok}
use alliance.Types.{Undelegation}
use alliance.Types.Laws.{TruncationLaws}
use alliance.Keeper.State.{State, UnbondingIndexKey}
use alliance.Keeper.Call.Post.{OnOk, OnOk-resume}
use alliance.Keeper.Call.Keeps.{
  Yields, Yields-pure, Yields-bind, Yields-lift_bind, Yields-post_bind,
}
use alliance.Keeper.Slash.{
  undelegation_key_of_index, tokens_to_slash, slash_entry, slash_entries, slash_undelegation,
}
use alliance.Keeper.Queues.{entries_or_nil}

-- An entry less the fraction of its balance, which is of 10^-18 and cut to a whole number.
abbrev pub slashed : SdkDec → Undelegation → Undelegation
slashed fraction u = record u {
  balance = record {
    denom = u.balance.denom;
    amount = u.balance.amount -ℤ quot (fraction.units *ℤ u.balance.amount) (pos (10 ^ 18));
  };
}

module _ {W : Type 0} (k : Sdk W) (laws : TruncationLaws k) where
  to_slash :
      (fraction : SdkDec) (amount : ℤ)
      → tokens_to_slash k fraction amount ≡ quot (fraction.units *ℤ amount) (pos (10 ^ 18))
  unfolding tokens_to_slash
  to_slash fraction amount =
      laws.truncate_units (k.mul_int fraction amount)
      ∙ ap (λ n. quot n (pos (10 ^ 18))) (laws.mul_int_units fraction amount)

  module _
      (new_coin_lem : (d : Denom) (n : ℤ) (c : Coin)
        → k.new_coin d n ≡ some c
        → c ≡ record { denom = d; amount = n }) where
    with_left :
        (fraction : SdkDec) (u : Undelegation) (left : Coin)
        → or_panic (
            k.new_coin u.balance.denom
              (u.balance.amount -ℤ tokens_to_slash k fraction u.balance.amount))
          ≡ ok left
        → record u { balance = left } ≡ slashed fraction u
    with_left fraction u left e =
        ap (λ c. record u { balance = c }) (new_coin_lem _ _ left (or_panic-eq-ok _ e))
        ∙ ap
            (λ n. record u {
              balance = record { denom = u.balance.denom; amount = u.balance.amount -ℤ n };
            })
            (to_slash fraction u.balance.amount)

    slash_entry-slashed :
        (fraction : SdkDec) (u : Undelegation)
        → Yields (λ u'. u' ≡ slashed fraction u) (slash_entry k fraction u)
    unfolding slash_entry
    slash_entry-slashed fraction u =
        search (Yields-lift_bind, Yields-bind, Yields-pure, with_left) depth 12

    slash_entries-slashed :
        (fraction : SdkDec) (entries : List Undelegation)
        → Yields (λ us. us ≡ map (slashed fraction) entries) (slash_entries k fraction entries)
    unfolding slash_entries
    slash_entries-slashed fraction [] = Yields-pure [] refl
    slash_entries-slashed fraction (u ∷ entries) =
        Yields-post_bind _ (slash_entry k fraction u) _ (slash_entry-slashed fraction u) λ u' e.
          Yields-post_bind _ (slash_entries k fraction entries) _
            (slash_entries-slashed fraction entries)
            (λ us es. Yields-pure _ (ap (λ x. x ∷ us) e ∙ ap (λ xs. slashed fraction u ∷ xs) es))

    module _ (ctx : Context) where
      -- Under the laws of truncation, and if a new coin has the denomination and amount it is made
      -- of: where the slash of an undelegation's index key returns, and the time of the key is not
      -- behind the block's, every entry of the delegator's queue for that time has lost the
      -- fraction of its balance, cut to a whole number, whichever validator it is from and of
      -- whichever denomination.
      pub slash_undelegation_all :
          (fraction : SdkDec) (index : UnbondingIndexKey) (s : State W)
          → ltb_ℤ index.1.0 ctx.block_time ≡ false
          → OnOk
              (λ u s'.
                lookup (undelegation_key_of_index index) s'.undelegation_queue
                ≡ some (
                    map (slashed fraction) (
                      entries_or_nil
                        (lookup (undelegation_key_of_index index) s.undelegation_queue))))
              (slash_undelegation k ctx fraction index s)
      unfolding slash_undelegation
      slash_undelegation_all fraction index s open_ =
          let key = undelegation_key_of_index index in
          let queue = entries_or_nil (lookup key s.undelegation_queue) in
          rw open_ (
            OnOk-resume _ _ (λ us s'. us ≡ map (slashed fraction) queue)
              (slash_entries k fraction queue s) ((slash_entries-slashed fraction queue).at s)
              λ us s' e. lookup-insert_self key us s'.undelegation_queue ∙ ap some e)
