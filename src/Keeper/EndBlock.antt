-- ===== src/Keeper/EndBlock.antt =====
-- abci.go: the end of a block. Every error is a panic.
use alliance.Sdk.{Sdk, Context}
use alliance.Sdk.Result.{Result, ok, err, panic}
use alliance.Keeper.Call.{Call, gets, ◌>>=◌, ◌>>◌}
use alliance.Keeper.Store.{get_all_assets}
use alliance.Keeper.Queues.{complete_redelegations, complete_undelegations}
use alliance.Keeper.Assets.{initialize_alliance_assets, reward_weight_change_hook}
use alliance.Keeper.TakeRate.{deduct_assets_hook}
use alliance.Keeper.Rebalance.{rebalance_hook}

abbrev pub panic_of_err : {A : Type 0} → Result A → Result A
panic_of_err (ok a) = ok a
panic_of_err (err e) = panic
panic_of_err panic = panic

module _ {W : Type 0} where
  abbrev pub must : {A : Type 0} → Call W A → Call W A
  must m s = let (r, s') = m s in (panic_of_err r, s')

  unfoldable pub end_blocker : Sdk W → Context → Call W (Unit {0})
  end_blocker k ctx = do
    deleted ← complete_redelegations ctx
    must (complete_undelegations k ctx)
    assets ← gets get_all_assets
    initialized ← initialize_alliance_assets k ctx assets
    (coins, deducted) ← must (deduct_assets_hook k ctx initialized)
    reweighted ← must (reward_weight_change_hook k ctx deducted)
    must (rebalance_hook k ctx reweighted)
