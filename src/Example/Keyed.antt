-- ===== src/Example/Keyed.antt =====
-- The theorems on the keys of records, at a sequence of calls and at a genesis state.
use alliance.Prelude.{◌≡◌, refl, Bool, true, false, none, some, [], ◌∷◌, ◌==◌, if◌then◌else◌}
use alliance.Prelude.Int.{pos, ◌+ℤ◌}
use alliance.Sdk.{Coin}
use alliance.Types.Messages.{MsgDelegate, MsgUndelegate}
use alliance.Keeper.MsgServer.{serve_delegate, serve_undelegate}
use alliance.Keeper.EndBlock.{end_blocker}
use alliance.Keeper.Genesis.{GenesisState, init_genesis}
use alliance.Keeper.Keyed.{WellKeyed}
use alliance.Keeper.Keyed.Queues.{AddKeepsDenom}
use alliance.Keeper.Keyed.Reach.{
  here, then_step, serves_delegate, serves_undelegate, ends_block, Reach-WellKeyed,
}
use alliance.Keeper.Keyed.Genesis.{init_genesis-WellKeyed}
use alliance.Example.World.{sdk}
use alliance.Example.Tests.{
  ctx, coin, asset, info, redelegation, delegation, redelegated, delegated,
}

sum_of_same : (b : Bool) (x c : Coin) → (if b then some x else none) ≡ some c → c.denom ≡ x.denom
sum_of_same true x c h = cc
sum_of_same false x c h = cc

sdk-AddKeepsDenom : AddKeepsDenom sdk
unfolding sdk
sdk-AddKeepsDenom a b c h =
    sum_of_same (a.denom == b.denom) (record { denom = a.denom; amount = a.amount +ℤ b.amount }) c h

pub redelegated-WellKeyed : WellKeyed redelegated
redelegated-WellKeyed = record {
  assets = (refl, tt);
  delegations = (record { delegator = refl; validator = refl; denomination = refl }, tt);
  redelegations = (record { delegator = refl; denomination = refl; destination = refl }, tt);
  undelegations = tt;
}

abbrev to_delegate : MsgDelegate
to_delegate = record { delegator_address = 5; validator_address = 3; amount = coin }

abbrev to_undelegate : MsgUndelegate
to_undelegate = record { delegator_address = 5; validator_address = 3; amount = coin }

Reach-WellKeyed_example :
    WellKeyed
      (end_blocker sdk ctx
        (serve_undelegate sdk ctx to_undelegate
          (serve_delegate sdk ctx to_delegate redelegated).1).1).1
Reach-WellKeyed_example = Reach-WellKeyed sdk sdk-AddKeepsDenom redelegated-WellKeyed (
    then_step _ _ _
      (then_step _ _ _
        (then_step _ _ _ (here redelegated) (serves_delegate ctx to_delegate redelegated))
        (serves_undelegate ctx to_undelegate _))
      (ends_block ctx _))

abbrev genesis : GenesisState
genesis = record {
  params = delegated.params;
  assets = asset ∷ [];
  validator_infos = (3, info) ∷ [];
  reward_weight_change_snapshots = [];
  delegations = delegation ∷ [];
  redelegations = (pos 900, redelegation) ∷ [];
  undelegations =
      (
        pos 1100,
        record { delegator_address = 5; validator_address = 3; balance = coin }
            ∷ record { delegator_address = 5; validator_address = 4; balance = coin }
            ∷ [],
      )
      ∷ [];
}

init_genesis-WellKeyed_example : WellKeyed (init_genesis sdk genesis redelegated).1
init_genesis-WellKeyed_example =
    init_genesis-WellKeyed sdk sdk-AddKeepsDenom genesis redelegated ((refl, tt), tt)
      redelegated-WellKeyed
