-- ===== src/Example/Tests.antt =====
-- States that the operations are run on.
use alliance.Prelude.{◌*◌, ◌/◌, true, false, [], ◌∷◌}
use alliance.Prelude.Int.{pos}
use alliance.Sdk.{Context, Coin, DecCoins}
use alliance.Types.{
  AllianceAsset, AllianceValidator, AllianceValidatorInfo, Delegation, Redelegation,
}
use alliance.Keeper.State.{State}
use alliance.Example.World.{Log, dec, one, validator_at}

abbrev pub ctx : Context
ctx = record { block_time = pos 1000; block_height = 10 }

-- Denomination 1, with 100 tokens, whose rewards began at 500.
abbrev pub asset : AllianceAsset
asset = record {
  denom = 1;
  reward_weight = dec (pos (one / 2));
  take_rate = dec (pos (one / 10));
  total_tokens = pos 100;
  total_validator_shares = dec (pos (100 * one));
  reward_start_time = pos 500;
  reward_change_rate = dec (pos (one / 2));
  reward_change_interval = pos 200;
  last_reward_change_time = pos 500;
  reward_weight_range = record { min = dec (pos 0); max = dec (pos (one * 5)) };
  is_initialized = true;
}

abbrev pub hundred : DecCoins
hundred = record { denom = 1; amount = dec (pos (100 * one)) } ∷ []

abbrev pub info : AllianceValidatorInfo
info = record {
  global_reward_history = [];
  total_delegator_shares = hundred;
  validator_shares = hundred;
}

abbrev pub no_info : AllianceValidatorInfo
no_info = record { global_reward_history = []; total_delegator_shares = []; validator_shares = [] }

-- Validator 3 has the shares, validators 4 and 6 have none.
abbrev pub val : AllianceValidator
val = record { validator = validator_at 3; info = info }

abbrev pub other : AllianceValidator
other = record { validator = validator_at 4; info = no_info }

abbrev pub next : AllianceValidator
next = record { validator = validator_at 6; info = no_info }

abbrev pub delegation : Delegation
delegation = record {
  delegator_address = 5;
  validator_address = 3;
  denom = 1;
  shares = dec (pos (100 * one));
  reward_history = [];
  last_reward_claim_height = 8;
}

abbrev pub coin : Coin
coin = record { denom = 1; amount = pos 40 }

abbrev pub redelegation : Redelegation
redelegation = record {
  delegator_address = 5;
  src_validator_address = 4;
  dst_validator_address = 3;
  balance = coin;
}

-- Delegator 5 has delegated 100 to validator 3.
abbrev pub delegated : State Log
delegated = record {
  assets = (1, asset) ∷ [];
  validator_infos = (3, info) ∷ (4, no_info) ∷ [];
  rebalance_queued = false;
  snapshots = [];
  delegations = ((5, (3, 1)), delegation) ∷ [];
  redelegations = [];
  redelegation_queue = [];
  undelegation_queue = [];
  redelegation_index = [];
  unbonding_index = [];
  params = record {
    reward_delay_time = pos 700;
    take_rate_claim_interval = pos 300;
    last_take_rate_claim_time = pos 100;
  };
  world = [];
}

-- The same with a redelegation of 40 from validator 4, one that ends at 900.
abbrev pub redelegated : State Log
redelegated = record delegated {
  redelegations = ((5, (1, (3, pos 900))), redelegation) ∷ [];
  redelegation_queue = (pos 900, redelegation ∷ []) ∷ [];
  redelegation_index = ((4, (pos 900, (1, (3, 5)))), tt) ∷ [];
}

-- The same with a take rate that is claimed at intervals of zero.
abbrev pub every_instant : State Log
every_instant = record delegated {
  params = record delegated.params { take_rate_claim_interval = pos 0 };
}

abbrev pub nothing : Coin
nothing = record { denom = 1; amount = pos 0 }
