-- ===== src/Keeper/Keyed/Reach.antt =====
-- x/alliance: the calls that reach the module from outside, in any order, and what they keep.
use alliance.Sdk.{Sdk, Context, StakingHook}
use alliance.Types.Messages.{MsgDelegate, MsgRedelegate, MsgUndelegate, MsgClaimDelegationRewards}
use alliance.Keeper.State.{State}
use alliance.Keeper.Call.Keeps.{Keeps, keeps_rules}
use alliance.Keeper.Store.{delete_asset}
use alliance.Keeper.Hooks.{staking_hook}
use alliance.Keeper.Proposals.{Content, create, update, delete, handle_proposal}
use alliance.Keeper.MsgServer.{serve_delegate, serve_redelegate, serve_undelegate, serve_claim}
use alliance.Keeper.EndBlock.{end_blocker}
use alliance.Keeper.Keyed.{WellKeyed, setters_keep}
use alliance.Keeper.Keyed.Claims.{get_alliance_validator-Keeps, claim_delegation_rewards-Keyed}
use alliance.Keeper.Keyed.Queues.{AddKeepsDenom}
use alliance.Keeper.Keyed.Delegations.{delegate-Keyed, undelegate-Keyed, redelegate-Keyed}
use alliance.Keeper.Keyed.Slash.{staking_hook-Keeps}
use alliance.Keeper.Keyed.Blocks.{update_alliance_asset-Keeps, end_blocker-Keeps}

module _ {W : Type 0} (k : Sdk W) where
  -- A message of a transaction, a proposal that passed, a hook of the staking module, the end of a
  -- block, or a step of another module. A call that fails may be rolled back or not.
  pub data Step : State W → State W → Type 0 where
    serves_delegate :
        (ctx : Context) (msg : MsgDelegate) (s : State W) → Step s (serve_delegate k ctx msg s).1
    serves_redelegate :
        (ctx : Context) (msg : MsgRedelegate) (s : State W)
        → Step s (serve_redelegate k ctx msg s).1
    serves_undelegate :
        (ctx : Context) (msg : MsgUndelegate) (s : State W)
        → Step s (serve_undelegate k ctx msg s).1
    serves_claim :
        (ctx : Context) (msg : MsgClaimDelegationRewards) (s : State W)
        → Step s (serve_claim k ctx msg s).1
    decides :
        (ctx : Context) (content : Content) (s : State W)
        → Step s (handle_proposal k ctx content s).1
    runs_hook :
        (ctx : Context) (hook : StakingHook) (s : State W) → Step s (staking_hook k ctx hook s).1
    ends_block : (ctx : Context) (s : State W) → Step s (end_blocker k ctx s).1
    elsewhere : (w : W) (s : State W) → Step s (record s { world = w })

  pub data Reach : State W → State W → Type 0 where
    here : (s : State W) → Reach s s
    then_step : (s t u : State W) → Reach s t → Step t u → Reach s u

  module _ (same_denom : AddKeepsDenom k) (ctx : Context) where
    serve_delegate-Keeps : (msg : MsgDelegate) → Keeps WellKeyed (serve_delegate k ctx msg)
    unfolding serve_delegate
    serve_delegate-Keeps msg =
        search (keeps_rules, get_alliance_validator-Keeps, delegate-Keyed) depth 20

    serve_redelegate-Keeps : (msg : MsgRedelegate) → Keeps WellKeyed (serve_redelegate k ctx msg)
    unfolding serve_redelegate
    serve_redelegate-Keeps msg =
        search (keeps_rules, get_alliance_validator-Keeps, redelegate-Keyed k ctx same_denom) depth
          20

    serve_undelegate-Keeps : (msg : MsgUndelegate) → Keeps WellKeyed (serve_undelegate k ctx msg)
    unfolding serve_undelegate
    serve_undelegate-Keeps msg =
        search (keeps_rules, get_alliance_validator-Keeps, undelegate-Keyed) depth 20

    serve_claim-Keeps : (msg : MsgClaimDelegationRewards) → Keeps WellKeyed (serve_claim k ctx msg)
    unfolding serve_claim
    serve_claim-Keeps msg =
        search (keeps_rules, get_alliance_validator-Keeps, claim_delegation_rewards-Keyed) depth 20

    delete_asset-Keeps : (asset : _) → Keeps WellKeyed (delete_asset {W = W} asset)
    unfolding delete_asset
    delete_asset-Keeps asset = search (keeps_rules, setters_keep) depth 12

    handle_proposal-Keeps : (content : Content) → Keeps WellKeyed (handle_proposal k ctx content)
    unfolding handle_proposal
    handle_proposal-Keeps (create req) = search (keeps_rules, setters_keep) depth 12
    handle_proposal-Keeps (update req) = search (keeps_rules, update_alliance_asset-Keeps) depth 12
    handle_proposal-Keeps (delete req) = search (keeps_rules, delete_asset-Keeps) depth 12

  module _ (same_denom : AddKeepsDenom k) where
    Step-WellKeyed : {s t : State W} → Step s t → WellKeyed s → WellKeyed t
    Step-WellKeyed (serves_delegate ctx msg s) h = (serve_delegate-Keeps same_denom ctx msg).at s h
    Step-WellKeyed (serves_redelegate ctx msg s) h =
        (serve_redelegate-Keeps same_denom ctx msg).at s h
    Step-WellKeyed (serves_undelegate ctx msg s) h =
        (serve_undelegate-Keeps same_denom ctx msg).at s h
    Step-WellKeyed (serves_claim ctx msg s) h = (serve_claim-Keeps same_denom ctx msg).at s h
    Step-WellKeyed (decides ctx content s) h = (handle_proposal-Keeps same_denom ctx content).at s h
    Step-WellKeyed (runs_hook ctx hook s) h = (staking_hook-Keeps k ctx hook).at s h
    Step-WellKeyed (ends_block ctx s) h = (end_blocker-Keeps k ctx).at s h
    Step-WellKeyed (elsewhere w s) h = record {
      assets = h.assets;
      delegations = h.delegations;
      redelegations = h.redelegations;
      undelegations = h.undelegations;
    }

    -- Where assets, delegations, redelegations and queued undelegations stand under the keys of
    -- their own fields, they do so after any sequence of messages, proposals, staking hooks, ends
    -- of blocks and steps of other modules, also of calls that end in an error or a panic, where
    -- adding coins keeps the denomination.
    pub Reach-WellKeyed : {s t : State W} → WellKeyed s → Reach s t → WellKeyed t
    Reach-WellKeyed h (here s) = h
    Reach-WellKeyed h (then_step s u t before step) = Step-WellKeyed step (Reach-WellKeyed h before)
