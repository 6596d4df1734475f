-- ===== src/Keeper/Proposals.antt =====
-- keeper/proposal.go and proposal_handler.go: what governance decides.
pub mod Lifecycle
use alliance.Prelude.{Bool, true, false, Option, none, some}
use alliance.Prelude.Int.{pos, ◌+ℤ◌, ltb_ℤ}
use alliance.Sdk.{Sdk, Context}
use alliance.Sdk.Result.{not_found, already_exists, reward_weight_out_of_bound, internal}
use alliance.Types.Proposals.{
  MsgCreateAllianceProposal, MsgUpdateAllianceProposal, MsgDeleteAllianceProposal,
}
use alliance.Keeper.Call.{Call, gets, found_or, guard_not, ◌>>=◌, ◌>>◌}
use alliance.Keeper.Store.{set_asset, get_asset_by_denom, delete_asset, reward_delay_time}
use alliance.Keeper.Assets.{weight_out_of_range, update_alliance_asset}

pub data Content : Type 0 where
  create : MsgCreateAllianceProposal → Content
  update : MsgUpdateAllianceProposal → Content
  delete : MsgDeleteAllianceProposal → Content

abbrev pub is_found : {A : Type 0} → Option A → Bool
is_found none = false
is_found (some a) = true

module _ {W : Type 0} (k : Sdk W) (ctx : Context) where
  unfoldable pub create_alliance : MsgCreateAllianceProposal → Call W (Unit {0})
  create_alliance req = do
    known ← gets (get_asset_by_denom req.denom)
    guard_not (is_found known) already_exists
    delay ← gets reward_delay_time
    let start = ctx.block_time +ℤ delay
    set_asset (record {
      denom = req.denom;
      reward_weight = req.reward_weight;
      take_rate = req.take_rate;
      total_tokens = pos 0;
      total_validator_shares = k.zero_dec;
      reward_start_time = start;
      reward_change_rate = req.reward_change_rate;
      reward_change_interval = req.reward_change_interval;
      last_reward_change_time = start;
      reward_weight_range = req.reward_weight_range;
      is_initialized = false;
    })

  unfoldable pub update_alliance : MsgUpdateAllianceProposal → Call W (Unit {0})
  update_alliance req = do
    known ← gets (get_asset_by_denom req.denom)
    asset ← found_or not_found known
    guard_not (weight_out_of_range k ctx req.reward_weight asset) reward_weight_out_of_bound
    update_alliance_asset k ctx (record asset {
      reward_weight = req.reward_weight;
      take_rate = req.take_rate;
      reward_change_rate = req.reward_change_rate;
      reward_change_interval = req.reward_change_interval;
    })

  unfoldable pub delete_alliance : MsgDeleteAllianceProposal → Call W (Unit {0})
  delete_alliance req = do
    known ← gets (get_asset_by_denom req.denom)
    asset ← found_or not_found known
    guard_not (ltb_ℤ (pos 0) asset.total_tokens) internal
    delete_asset asset

  unfoldable pub handle_proposal : Content → Call W (Unit {0})
  unfolding create_alliance update_alliance delete_alliance
  handle_proposal (create req) = create_alliance req
  handle_proposal (update req) = update_alliance req
  handle_proposal (delete req) = delete_alliance req
