-- ===== src/Keeper/Queries/Rewards.antt =====
-- keeper/grpc_query.go: AllianceDelegationRewards beside the message that claims.
use alliance.Prelude.{◌≡◌, refl, Option, some}
use alliance.Sdk.{Sdk, Denom, AccAddress, ValAddress, Coins, StakingValidator, Context}
use alliance.Sdk.Result.{Result, ok, err, panic}
use alliance.Prelude.Map.{nat_key}
use alliance.Types.{AllianceAsset, AllianceValidator, Delegation}
use alliance.Types.Messages.{MsgClaimDelegationRewards, validate_claim}
use alliance.Keeper.State.{State}
use alliance.Keeper.Call.{pure, resume, ◌>>=◌}
use alliance.Keeper.Call.Post.{OnOk, OnOk-resume, OnOk-any, OnOk-if, OnOk-found, OnOk-lift}
use alliance.Keeper.Rewards.{pay_rewards, claim_validator_rewards, claim_delegation_rewards}
use alliance.Types.{get_operator}
use alliance.Types.Asset.{rewards_started}
use alliance.Sdk.{rewards_pool}
use alliance.Sdk.Result.{no_delegator_for_address}
use alliance.Prelude.{◌⊎◌, inl, inr, [], Bool, not, true, false, arith}
use alliance.Keeper.Accumulate.{calculate_delegation_rewards}
use alliance.Keeper.Store.{set_delegation}
use alliance.Keeper.Store.{get_asset_by_denom, get_delegation_of}
use alliance.Keeper.Validators.Known.{known_validator}
use alliance.Keeper.MsgServer.{serve_claim}
use alliance.Keeper.Queries.{DelegationRequest, decoded, alliance_delegation_rewards}

module _ {W : Type 0} where
  only_coins :
      (p : Result (Coins × AllianceValidator) × State W)
      → resume (λ c. pure tt) (resume (λ r. pure r.0) p.0 p.1).0 (resume (λ r. pure r.0) p.0 p.1).1
        ≡ resume (λ r. pure tt) p.0 p.1
  only_coins (ok r, s) = refl
  only_coins (err e, s) = refl
  only_coins (panic, s) = refl

unnegated_false : (b : Bool) → not b ≡ true → b ≡ false
unnegated_false b h = ground arith

-- The message that claims what the request asks for.
abbrev pub claim_of : (Denom → Option Denom) → DelegationRequest → MsgClaimDelegationRewards
claim_of query_unescape req = record {
  delegator_address = req.delegator_addr;
  validator_address = req.validator_addr;
  denom = decoded (query_unescape req.denom) req.denom;
}

module _ {W : Type 0} (k : Sdk W) (ctx : Context) where
  -- The coins are what the last payment from the rewards pool to the delegator sent, or there are
  -- none, the rewards of the asset not having begun.
  abbrev pub Paid : AccAddress → AllianceAsset → Coins → State W → Type 0
  Paid del asset coins s' =
      ((rewards_started asset ctx.block_time ≡ false) × (coins ≡ []))
      ⊎ ((w : W) × ((k.send_coins_from_module_to_account rewards_pool del coins w).0 ≡ ok tt)
          × (s'.world ≡ (k.send_coins_from_module_to_account rewards_pool del coins w).1))

  pay_rewards-Paid :
      (del : AccAddress) (val : AllianceValidator) (denom : Denom) (asset : AllianceAsset)
      (delegation : Delegation) (s : State W)
      → OnOk (λ r s'. Paid del asset r.0 s') (pay_rewards k ctx del val denom asset delegation s)
  unfolding pay_rewards set_delegation
  pay_rewards-Paid del val denom asset delegation s =
      let R : Coins × AllianceValidator → State W → Type 0 = λ r s'. Paid del asset r.0 s' in
      OnOk-resume R _ (λ r s'. Unit {0}) (claim_validator_rewards k ctx val s)
        (OnOk-any (claim_validator_rewards k ctx val s))
        λ (claimed, val') s1 reached.
          OnOk-lift R _ (calculate_delegation_rewards k s1 delegation val' asset) s1
            λ (coins, indices) e.
              OnOk-lift R _ (k.send_coins_from_module_to_account rewards_pool del coins s1.world).0
                _ λ u sent. inr (s1.world, sent, refl)

  claim-Paid :
      (del : AccAddress) (val : AllianceValidator) (denom : Denom) (s : State W)
      {asset : AllianceAsset}
      → get_asset_by_denom denom s ≡ some asset
      → OnOk (λ r s'. Paid del asset r.0 s') (claim_delegation_rewards k ctx del val denom s)
  unfolding claim_delegation_rewards
  claim-Paid del val denom s {asset} known = rw known (
      OnOk-if (λ r s'. Paid del asset r.0 s') (not (rewards_started asset ctx.block_time)) _ _ s
        (λ early. inl (unnegated_false _ early, refl))
        λ started.
          OnOk-found (λ r s'. Paid del asset r.0 s') _ no_delegator_for_address
            (get_delegation_of del (get_operator val) denom s) s
            λ delegation found. pay_rewards-Paid del val denom asset delegation s)

module _ {W : Type 0} (k : Sdk W) (query_unescape : Denom → Option Denom)
    (ibc_denom : Denom → Denom) (ctx : Context) where
  -- For a delegation and an asset that are there, addresses that decode and a message that passes
  -- ValidateBasic, the query for rewards ends as the message that claims them does: in the same
  -- error or panic, or returning with the same state. Where it returns, the last payment in that
  -- state's other modules sent the coins it answers with from the rewards pool to the delegator,
  -- or it answers with none, the asset's rewards not having begun.
  pub rewards_query_claims :
      (req : DelegationRequest) (s : State W) {del : AccAddress} {val_addr : ValAddress}
      {v : StakingValidator} {asset : AllianceAsset} {d : Delegation}
      → k.acc_address_from_bech32 req.delegator_addr ≡ some del
      → k.val_address_from_bech32 req.validator_addr ≡ some val_addr
      → k.get_validator val_addr s.world ≡ some v
      → get_asset_by_denom (decoded (query_unescape req.denom) req.denom) s ≡ some asset
      → get_delegation_of del v.operator (decoded (query_unescape req.denom) req.denom) s ≡ some d
      → validate_claim (claim_of query_unescape req) ≡ ok tt
      → ((alliance_delegation_rewards k query_unescape ibc_denom ctx req >>= λ coins. pure tt) s
          ≡ serve_claim k ctx (claim_of query_unescape req) s)
        × OnOk
            (Paid k ctx del asset)
            (alliance_delegation_rewards k query_unescape ibc_denom ctx req s)
  unfolding alliance_delegation_rewards serve_claim get_delegation_of get_asset_by_denom
  rewards_query_claims req s {del} {val_addr} {v} {asset} {d} hd hv hw ha hf hm =
      let (info, infos, found) = known_validator k val_addr s hw in
      rw (hm, hd, hv, ha, found, hf)
        (
          only_coins _,
          OnOk-resume (Paid k ctx del asset) _ (λ r s'. Paid k ctx del asset r.0 s')
              (claim_delegation_rewards k ctx del (record { validator = v; info = info })
                (decoded (query_unescape req.denom) req.denom)
                (record s { validator_infos = infos }))
              (claim-Paid k ctx del _ _ (record s { validator_infos = infos }) ha)
              (λ r s' paid. paid),
        )
