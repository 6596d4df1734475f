-- ===== src/Example/Treasury.antt =====
-- A bank that keeps the balance of the module's account, and refuses to pay or to burn what is
-- not there and to pay a blocked address.
use mathlib.Core.Path.{subst}
use alliance.Prelude.{
  ℕ, ◌≡◌, refl, sym, Bool, true, false, not, ◌&&◌, some, none, [], ◌∷◌, ◌==◌, if◌then◌else◌,
  Bool-cases, inl, inr, arith, ==_iff,
}
use alliance.Prelude.Int.{ℤ, pos, ◌+ℤ◌, ◌-ℤ◌, ◌≤ℤ◌, ltb_ℤ, leb_ℤ, int_laws}
use alliance.Prelude.Map.{lookup, range, nat_key, int_key, pair_key}
use alliance.Sdk.{Sdk, Denom, AccAddress, Coin, Coins, alliance_module}
use alliance.Sdk.Result.{ok, err, external}
use alliance.Types.{Undelegation}
use alliance.Keeper.State.{State, UndelegationQueueKey}
use alliance.Keeper.Queues.{complete_undelegations, matured_undelegations}
use alliance.Keeper.Call.{for_each}
use alliance.Keeper.Queues.Solvency.{held, Payable, BankLaws, Entry, owed_all}
use alliance.Keeper.Queues.Payout.{queue_paid, virtual_burnt, complete_undelegations_pay}
use alliance.Example.World.{sdk, Account, user, module_account, supply, Log, coins_of}
use alliance.Example.Tests.{ctx, coin, delegated}

-- What a transfer brings an account's side, where it is the module's account.
unfoldable gain : Account → Denom → Coins → ℤ
gain (user a) d cs = pos 0
gain (module_account alliance_module) d cs = coins_of d cs
gain (module_account m) d cs = pos 0
gain supply d cs = pos 0

unfoldable net : Denom → Log → ℤ
unfolding gain ◌+ℤ◌ ◌-ℤ◌ coins_of
net d [] = pos 0
net d (t ∷ w) = (net d w +ℤ gain t.to d t.coins) -ℤ gain t.from d t.coins

abbrev clamp : ℤ → ℤ
clamp n = if ltb_ℤ n (pos 0) then pos 0 else n

abbrev balance : Denom → Log → ℤ
balance d w = clamp (net d w)

unfoldable has : Coins → Log → Bool
unfolding net
has [] w = true
has (c ∷ cs) w = let rest = has cs w in leb_ℤ c.amount (balance c.denom w) && rest

unfoldable sound : Coins → Bool
sound [] = true
sound (c ∷ cs) = let rest = sound cs in (not (c.denom == 0) && leb_ℤ (pos 0) c.amount) && rest

abbrev accepts : AccAddress → Bool
accepts a = not (a == 77)

unfoldable treasury : Sdk Log
unfolding sdk has sound
treasury = record sdk {
  new_coins = λ cs. if sound cs then some cs else none;
  get_balance = λ a d w. record { denom = d; amount = if a == 77 then balance d w else pos 0 };
  send_coins_from_module_to_account = λ m a cs w.
      if accepts a && has cs w
      then (ok tt, record { from = module_account m; to = user a; coins = cs } ∷ w)
      else (err (external 0), w);
  burn_coins = λ m cs w.
      if has cs w
      then (ok tt, record { from = module_account m; to = supply; coins = cs } ∷ w)
      else (err (external 0), w);
}

leb_of : (a b : ℤ) → a ≤ℤ b → leb_ℤ a b ≡ true
leb_of a b h = ground arith

clamp_not_negative : (n : ℤ) → pos 0 ≤ℤ clamp n
clamp_not_negative n = ground arith

clamp_less : (n a : ℤ) → pos 0 ≤ℤ a → a ≤ℤ clamp n → clamp ((n +ℤ pos 0) -ℤ a) ≡ clamp n -ℤ a
clamp_less n a h i = grind int_laws

clamp_same : (n : ℤ) → clamp ((n +ℤ pos 0) -ℤ pos 0) ≡ clamp n
clamp_same n = grind int_laws

and_true : (a : Bool) → a ≡ true → (a && true) ≡ true
and_true a h = ground arith

both : (a b : Bool) → a ≡ true → b ≡ true → ((a && b) && true) ≡ true
both a b h i = ground arith

one_has : (c : Coin) (w : Log) → Payable treasury c w → has (c ∷ []) w ≡ true
unfolding has treasury sdk
one_has c w p = and_true _ (leb_of c.amount (balance c.denom w) p.covered)

flipped : (a b : ℕ) (t : Bool) → (a == b) ≡ t → (b == a) ≡ t
flipped a b t h = ground arith

taken :
    (d : Denom) (c : Coin) (w : Log)
    → Payable treasury c w
    → clamp ((net d w +ℤ pos 0) -ℤ coins_of d (c ∷ []))
      ≡ (if d == c.denom then balance d w -ℤ c.amount else balance d w)
unfolding coins_of treasury sdk
taken d c w p = elim (Bool-cases (d == c.denom)) [
  | inl same ↦
      rw (same, flipped d c.denom true same)
        (clamp_less (net d w) c.amount p.not_negative
          (subst (λ x. c.amount ≤ℤ balance x w) (sym ((==_iff d c.denom).0 same)) p.covered))
  | inr other ↦ rw (other, flipped d c.denom false other) (clamp_same (net d w))
]

treasury-BankLaws : BankLaws treasury accepts
unfolding treasury sdk sound
treasury-BankLaws = record {
  make = λ c. c ∷ [];
  made = λ c valid positive. rw (both _ _ valid (leb_of (pos 0) c.amount positive)) refl;
  sent = λ to c w accepted p. rw (accepted, one_has c w p) refl;
  left = λ to c w accepted p d. rw (accepted, one_has c w p) (taken d c w p);
  burnt = λ c w p. rw (one_has c w p) refl;
  balance_denom = λ d w. refl;
  balance_not_negative = λ d w. clamp_not_negative (net d w);
  bond_denom_valid = λ w. refl;
}

abbrev undelegation : Undelegation
undelegation = record { delegator_address = 5; validator_address = 3; balance = coin }

-- One undelegation ended at 900, another ends at 1100. The module's account has 100 of the asset,
-- and 50 staking tokens, which are burnt.
abbrev undelegated : State Log
undelegated = record delegated {
  undelegation_queue = ((pos 900, 5), undelegation ∷ []) ∷ ((pos 1100, 5), undelegation ∷ []) ∷ [];
  unbonding_index = ((3, (pos 900, (1, 5))), tt) ∷ ((3, (pos 1100, (1, 5))), tt) ∷ [];
  world =
      record {
        from = supply;
        to = module_account alliance_module;
        coins = record { denom = 1; amount = pos 100 } ∷ record { denom = 9; amount = pos 50 } ∷ [];
      }
      ∷ [];
}

undelegation-Entry : Entry treasury accepts undelegation
unfolding treasury sdk
undelegation-Entry = record { accepted = refl; valid = refl; not_negative = omega arith }

of_asset :
    owed_all 1 (matured_undelegations (pos 1000) undelegated) ≤ℤ held treasury 1 undelegated.world
unfolding matured_undelegations range owed_all treasury sdk net coins_of
of_asset = omega arith

covered :
    (d : Denom)
    → owed_all d (matured_undelegations (pos 1000) undelegated) ≤ℤ held treasury d undelegated.world
unfolding matured_undelegations range owed_all treasury sdk ◌+ℤ◌
covered d = elim (Bool-cases (d == 1)) [
  | inl same ↦
      subst
        (λ x.
          owed_all x (matured_undelegations (pos 1000) undelegated)
          ≤ℤ held treasury x undelegated.world)
        (sym ((==_iff d 1).0 same)) of_asset
  | inr other ↦ rw (other, owed_all) (clamp_not_negative (net d undelegated.world))
]

complete_undelegations_pay_example :
    let s' = (complete_undelegations treasury ctx undelegated).1 in
    ((complete_undelegations treasury ctx undelegated).0 ≡ ok tt)
    × (s'.world
        ≡ virtual_burnt treasury accepts treasury-BankLaws (
            queue_paid treasury accepts treasury-BankLaws
              (matured_undelegations (pos 1000) undelegated)
              undelegated.world))
    × ((key : UndelegationQueueKey)
        → lookup key s'.undelegation_queue
          ≡ (if ltb_ℤ key.0 (pos 1000) then none else lookup key undelegated.undelegation_queue))
unfolding matured_undelegations range
complete_undelegations_pay_example =
    complete_undelegations_pay treasury accepts treasury-BankLaws ctx undelegated
      ((undelegation-Entry, tt), tt) covered

-- What is left of the account: 60 of the asset, and no staking tokens.
left_of_asset : balance 1 (complete_undelegations treasury ctx undelegated).1.world ≡ pos 60
unfolding complete_undelegations treasury sdk net coins_of lookup matured_undelegations range
    for_each
left_of_asset = refl
