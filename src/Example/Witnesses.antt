-- ===== src/Example/Witnesses.antt =====
-- The theorems at concrete states, where their hypotheses hold.
use alliance.Prelude.{
  ◌≡◌, refl, sym, ap, ◌∙◌, ==_iff, ◌⊎◌, inl, true, false, Bool, none, some, List, [], ◌∷◌, ◌++◌,
  ◌==◌, ◌*◌, All, arith, if◌then◌else◌,
}
use alliance.Prelude.Int.{pos, ◌+ℤ◌, ◌≤ℤ◌, ltb_ℤ}
use alliance.Prelude.Map.{lookup, total, nat_key, int_key, pair_key}
use alliance.Sdk.{Denom, Time}
use alliance.Sdk.Result.{ok, err, panic, internal, invalid_argument, invalid_fraction}
use alliance.Types.{AllianceAsset, Redelegation}
use alliance.Types.Validator.{validator_shares_in}
use alliance.Types.Proposals.Checks.{IsSound, validate_create-ok}
use alliance.Example.World.{sdk, dec, one, distinct}
use alliance.Example.Laws.{sdk-DecLaws, sdk-CoinLaws, sdk-new_coin}
use alliance.Example.Tests.{
  ctx, asset, val, other, next, delegation, coin, redelegation, delegated, redelegated, nothing,
  every_instant,
}
use alliance.Example.Runs.{
  histories, proposal, deducted, run_of_delegate, run_of_undelegate, run_of_redelegate,
  has_redelegation_to_val, run_of_accumulate, run_of_deduct, run_of_validate_amount,
  run_of_init_redelegation, run_of_validate_create,
}
use alliance.Keeper.Store.{
  get_asset_by_denom, reward_delay_time, last_reward_claim_time, reward_claim_interval,
}
use alliance.Keeper.Call.Post.{OnOk}
use alliance.Keeper.Accumulate.{accumulate_histories}
use alliance.Keeper.Accumulate.Claims.{index_of, accumulate_twice}
use alliance.Keeper.Assets.{reward_weight_changed}
use alliance.Keeper.Assets.Weights.{reward_weight_changed_bounds}
use alliance.Keeper.Delegations.{delegate, undelegate, redelegate}
use alliance.Keeper.Delegations.Shares.{AllBalanced, EachBalanced, delegate-AllBalanced}
use alliance.Keeper.Delegations.Tokens.{GainsFor, delegate_tokens}
use alliance.Keeper.Delegations.Unbonding.{Unbonds, undelegate_unbonds}
use alliance.Keeper.Dust.Bounds.{validate_delegated_amount-le}
use alliance.Keeper.Genesis.{init_redelegation}
use alliance.Keeper.Genesis.Queue.{init_redelegation_twice}
use alliance.Keeper.MsgServer.{serve_delegate, serve_redelegate, serve_undelegate}
use alliance.Keeper.MsgServer.Guards.{serve_not_positive}
use alliance.Keeper.Proposals.{create_alliance, delete_alliance}
use alliance.Keeper.Proposals.Lifecycle.{create_alliance_new, delete_alliance_lem}
use alliance.Keeper.Queues.{complete_redelegations, matured_redelegations, entries_or_nil}
use alliance.Keeper.Queues.Completion.{entries_in, key_of, complete_redelegations_matured}
use alliance.Keeper.Queues.Transitive.{redelegate_chain, redelegate_transitive}
use alliance.Keeper.Validators.Balance.{sum_of_shares}
use alliance.Keeper.Rewards.{claim_delegation_rewards}
use alliance.Keeper.Rewards.Kept.{PaysAndKeeps, claim_delegation_rewards-Keeps}
use alliance.Keeper.Slash.{slash_validator}
use alliance.Keeper.Slash.Fraction.{slash_validator_out_of_range}
use alliance.Keeper.TakeRate.{deduct_asset, deduct_assets_hook}
use alliance.Keeper.TakeRate.Conservation.{
  Splits, deduct_asset_splits, deduct_assets_hook_zero_interval,
}

only_asset :
    (found : Bool) (a : AllianceAsset)
    → (if found then some asset else none) ≡ some a
    → (found ≡ true) × (a ≡ asset)
only_asset true a h = (refl, cc)
only_asset false a h = cc

keyed : (d : Denom) (a : AllianceAsset) → lookup d delegated.assets ≡ some a → a.denom ≡ d
unfolding lookup
keyed d a h =
    let (found, same) = only_asset (d == 1) a h in
    ap (λ x. x.denom) same ∙ sym ((==_iff d 1).0 found)

each_balanced : EachBalanced sdk ctx delegated
unfolding lookup total validator_shares_in sdk
each_balanced d a h =
    let (found, same) = only_asset (d == 1) a h in
    ap (λ x. x.total_validator_shares.units) same
    ∙ ap (λ n. sum_of_shares sdk n delegated.validator_infos) (sym ((==_iff d 1).0 found))

balanced : AllBalanced sdk ctx delegated
balanced = record { each = each_balanced }

delegate-AllBalanced_example : AllBalanced sdk ctx (delegate sdk ctx 5 val coin delegated).1
unfolding lookup sdk distinct
delegate-AllBalanced_example =
    delegate-AllBalanced sdk ctx sdk-DecLaws sdk-CoinLaws 5 val coin delegated keyed refl refl
      balanced run_of_delegate

undelegate_unbonds_example :
    Unbonds sdk ctx 5 val coin asset delegated
      (pos 1100)
      (undelegate sdk ctx 5 val coin delegated).1
unfolding get_asset_by_denom lookup
undelegate_unbonds_example =
    undelegate_unbonds sdk ctx 5 val coin asset delegated refl refl run_of_undelegate

complete_redelegations_matured_example :
    let s' = (complete_redelegations ctx redelegated).1 in
    ((complete_redelegations ctx redelegated).0
      ≡ ok (entries_in (matured_redelegations (pos 1000) redelegated)))
    × ((t : Time)
        → lookup t s'.redelegation_queue
          ≡ (if ltb_ℤ t (pos 1000) then none else lookup t redelegated.redelegation_queue))
    × ((t : Time) (entries : List Redelegation)
        → lookup t redelegated.redelegation_queue ≡ some entries
        → ltb_ℤ t (pos 1000) ≡ true
        → All (λ r. lookup (key_of r t) s'.redelegations ≡ none) entries)
complete_redelegations_matured_example = complete_redelegations_matured ctx redelegated

redelegate_chain_example : ¬ (
    (redelegate sdk ctx 5 other next coin (redelegate sdk ctx 5 val other coin delegated).1).0
    ≡ ok (pos 1100))
redelegate_chain_example =
    redelegate_chain sdk ctx 5 val other next coin coin delegated other refl refl run_of_redelegate

redelegate_transitive_example :
    ¬ ((redelegate sdk ctx 5 val other coin redelegated).0 ≡ ok (pos 1100))
redelegate_transitive_example =
    redelegate_transitive sdk ctx 5 val other coin redelegated (pos 1100) has_redelegation_to_val

accumulate_twice_example :
    (accumulate_histories sdk (dec (pos one)) (dec (pos one)) histories ([], histories)
      ≡ ok ([], histories))
    × ((d : Denom) → (index_of sdk d []).units ≤ℤ (index_of sdk d histories).units)
accumulate_twice_example =
    accumulate_twice sdk sdk-DecLaws (dec (pos (20 * one))) (dec (pos one)) (dec (pos one))
      (dec (pos one)) histories [] [] [] run_of_accumulate

delegate_tokens_example :
    GainsFor sdk ctx coin asset delegated.assets
      (dec (pos (40 * one)))
      (delegate sdk ctx 5 val coin delegated).1
unfolding get_asset_by_denom lookup
delegate_tokens_example =
    delegate_tokens sdk ctx 5 val coin asset delegated refl refl run_of_delegate

deduct_asset_splits_example :
    Splits sdk ctx asset [] delegated deducted (deduct_asset sdk ctx 1 asset [] delegated).1
deduct_asset_splits_example =
    deduct_asset_splits sdk ctx sdk-new_coin 1 asset [] delegated run_of_deduct

validate_delegated_amount-le_example : pos (40 * one) ≤ℤ pos (100 * one)
validate_delegated_amount-le_example =
    validate_delegated_amount-le sdk sdk-DecLaws delegation coin val asset run_of_validate_amount

reward_weight_changed_bounds_example :
    let asset' = reward_weight_changed sdk ctx asset in
    (pos 0 ≤ℤ asset'.reward_weight.units)
    × (asset'.reward_weight.units ≤ℤ pos (one * 5))
    × (asset'.reward_weight_range ≡ asset.reward_weight_range)
    × (asset'.total_tokens ≡ asset.total_tokens)
    × (asset'.total_validator_shares ≡ asset.total_validator_shares)
reward_weight_changed_bounds_example =
    reward_weight_changed_bounds sdk ctx sdk-DecLaws asset (omega arith)

claim_delegation_rewards-Keeps_example :
    OnOk (PaysAndKeeps sdk val delegated) (claim_delegation_rewards sdk ctx 5 val 1 delegated)
claim_delegation_rewards-Keeps_example = claim_delegation_rewards-Keeps sdk ctx 5 val 1 delegated

validate_create-ok_example : IsSound sdk sdk-DecLaws proposal tt
validate_create-ok_example = validate_create-ok sdk sdk-DecLaws proposal run_of_validate_create

init_redelegation_twice_example :
    lookup (pos 900) (init_redelegation sdk (pos 900, redelegation) delegated).1.redelegation_queue
    ≡ some (
        (entries_or_nil (lookup (pos 900) delegated.redelegation_queue) ++ redelegation ∷ [])
        ++ redelegation ∷ [])
init_redelegation_twice_example =
    init_redelegation_twice sdk (pos 900) redelegation delegated run_of_init_redelegation

slash_validator_out_of_range_example :
    slash_validator sdk ctx 3 (dec (pos 0)) delegated ≡ (err invalid_fraction, delegated)
slash_validator_out_of_range_example =
    slash_validator_out_of_range sdk ctx sdk-DecLaws 3 (dec (pos 0)) delegated (inl (omega arith))

serve_not_positive_example :
    (serve_delegate sdk ctx
        (record { delegator_address = 5; validator_address = 3; amount = nothing })
        delegated
      ≡ (err invalid_argument, delegated))
    × (serve_redelegate sdk ctx
          (record {
            delegator_address = 5;
            validator_src_address = 3;
            validator_dst_address = 4;
            amount = nothing;
          })
          delegated
        ≡ (err invalid_argument, delegated))
    × (serve_undelegate sdk ctx
          (record { delegator_address = 5; validator_address = 3; amount = nothing })
          delegated
        ≡ (err invalid_argument, delegated))
serve_not_positive_example = serve_not_positive sdk ctx 5 3 4 nothing delegated (omega arith)

delete_alliance_lem_example :
    ((ltb_ℤ (pos 0) (pos 100) ≡ true)
      × (delete_alliance sdk ctx (record { denom = 1 }) delegated ≡ (err internal, delegated)))
    ⊎ ((ltb_ℤ (pos 0) (pos 100) ≡ false)
        × ((delete_alliance sdk ctx (record { denom = 1 }) delegated).0 ≡ ok tt)
        × (get_asset_by_denom 1 (delete_alliance sdk ctx (record { denom = 1 }) delegated).1 ≡ none)
        × ((d : Denom)
            → d == 1 ≡ false
            → get_asset_by_denom d (delete_alliance sdk ctx (record { denom = 1 }) delegated).1
              ≡ get_asset_by_denom d delegated))
unfolding get_asset_by_denom lookup
delete_alliance_lem_example =
    delete_alliance_lem sdk ctx (record { denom = 1 }) asset delegated refl refl

create_alliance_new_example :
    let s' = (create_alliance sdk ctx proposal delegated).1 in
    ((create_alliance sdk ctx proposal delegated).0 ≡ ok tt)
    × ((a : AllianceAsset) × (get_asset_by_denom 2 s' ≡ some a)
        × (a.denom ≡ 2)
        × (a.total_tokens ≡ pos 0)
        × (a.total_validator_shares ≡ sdk.zero_dec)
        × (a.reward_start_time ≡ pos 1000 +ℤ reward_delay_time delegated)
        × (a.last_reward_change_time ≡ a.reward_start_time)
        × (a.is_initialized ≡ false))
    × ((d : Denom) → d == 2 ≡ false → get_asset_by_denom d s' ≡ get_asset_by_denom d delegated)
unfolding get_asset_by_denom lookup
create_alliance_new_example = create_alliance_new sdk ctx proposal delegated refl

deduct_assets_hook_zero_interval_example :
    deduct_assets_hook sdk ctx (asset ∷ []) every_instant ≡ (panic, every_instant)
unfolding reward_claim_interval last_reward_claim_time ◌+ℤ◌
deduct_assets_hook_zero_interval_example =
    deduct_assets_hook_zero_interval sdk ctx (asset ∷ []) every_instant refl refl refl
