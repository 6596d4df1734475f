-- ===== src/Keeper.antt =====
-- x/alliance/keeper: the state of the module and its operations, a child for each part.
pub mod State
pub mod Call
pub mod Store
pub mod Validators
pub mod Accumulate
pub mod Rewards
pub mod Queues
pub mod Dust
pub mod Delegations
pub mod Slash
pub mod Hooks
pub mod Assets
pub mod TakeRate
pub mod Rebalance
pub mod Proposals
pub mod MsgServer
pub mod EndBlock
pub mod Genesis
pub mod Invariants
pub mod Keyed
pub mod Queries
pub mod Migrations
