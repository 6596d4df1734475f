-- ===== src/Keeper/State.antt =====
-- The module's part of the key-value store and of the parameter store, a map for each key prefix
-- of x/alliance/types/keys.go, beside the state `W` of the other modules.
use alliance.Prelude.{ℕ, Bool, List}
use alliance.Prelude.Map.{Map}
use alliance.Sdk.{Denom, AccAddress, ValAddress, Time}
use alliance.Types.{
  AllianceAsset, AllianceValidatorInfo, Delegation, Redelegation, Undelegation,
  RewardWeightChangeSnapshot, Params,
}

-- GetDelegationKey: delegator, validator, denomination.
abbrev pub DelegationKey : Type 0
DelegationKey = AccAddress × (ValAddress × Denom)

-- GetRedelegationKey: delegator, denomination, destination, completion time.
abbrev pub RedelegationKey : Type 0
RedelegationKey = AccAddress × (Denom × (ValAddress × Time))

-- GetRedelegationIndexKey: source, completion time, denomination, destination, delegator.
abbrev pub RedelegationIndexKey : Type 0
RedelegationIndexKey = ValAddress × (Time × (Denom × (ValAddress × AccAddress)))

-- GetUndelegationQueueKey: completion time, delegator.
abbrev pub UndelegationQueueKey : Type 0
UndelegationQueueKey = Time × AccAddress

-- GetUnbondingIndexKey: validator, completion time, denomination, delegator.
abbrev pub UnbondingIndexKey : Type 0
UnbondingIndexKey = ValAddress × (Time × (Denom × AccAddress))

-- GetRewardWeightChangeSnapshotKey: denomination, validator, height.
abbrev pub SnapshotKey : Type 0
SnapshotKey = Denom × (ValAddress × ℕ)

pub record State (W : Type 0) : Type 0 where
  pub assets : Map Denom AllianceAsset
  pub validator_infos : Map ValAddress AllianceValidatorInfo
  pub rebalance_queued : Bool
  pub snapshots : Map SnapshotKey RewardWeightChangeSnapshot
  pub delegations : Map DelegationKey Delegation
  pub redelegations : Map RedelegationKey Redelegation
  pub redelegation_queue : Map Time (List Redelegation)
  pub undelegation_queue : Map UndelegationQueueKey (List Undelegation)
  pub redelegation_index : Map RedelegationIndexKey (Unit {0})
  pub unbonding_index : Map UnbondingIndexKey (Unit {0})
  pub params : Params
  pub world : W
