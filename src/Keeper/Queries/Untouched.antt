-- ===== src/Keeper/Queries/Untouched.antt =====
-- keeper/grpc_query.go: what the queries write.
use alliance.Prelude.{
  ◌≡◌, refl, sym, ap, ◌∙◌, Option, none, some, List, [], ◌∷◌, Bool-cases, inl, inr,
}
use alliance.Prelude.Map.{Map, lookup, insert, lookup-insert_ne, nat_key}
use alliance.Sdk.{Sdk, Denom, AccAddress, ValAddress, Context}
use alliance.Sdk.Result.{Result, ok, err, panic}
use alliance.Types.{AllianceValidator, AllianceValidatorInfo, Delegation}
use alliance.Keeper.State.{State, DelegationKey}
use alliance.Keeper.Call.{Call, gets, resume, ◌>>=◌}
use alliance.Keeper.Call.Keeps.{Keeps, Keeps-pure, Keeps-raise, Keeps-bind, keeps_rules}
use alliance.Keeper.Store.{get_alliance_validator_info, set_validator_info}
use alliance.Keeper.Validators.{get_alliance_validator, info_or_new, create_alliance_validator_info}
use alliance.Keeper.Queries.{
  Paginate, DelegationRequest, or_status, collect, delegation_response, validator_response,
  alliance_validator, alliance_delegation, ibc_alliance_delegation,
}
use alliance.Keeper.Queries.Pages.{
  paged, entry_response, validator_entry, all_alliances_delegations, all_alliance_validators,
  alliances_delegation, alliances_delegation_by_validator,
}

-- The second state is the first, but for records of validators that had none.
pub record OnlyNewInfos {W : Type 0} (before s : State W) : Type 0 where
  pub same : record s { validator_infos = before.validator_infos } ≡ before
  pub kept :
      (val : ValAddress) (info : AllianceValidatorInfo)
      → lookup val before.validator_infos ≡ some info
      → lookup val s.validator_infos ≡ some info

module _ {W : Type 0} {before : State W} where
  new_info :
      (val : ValAddress) (info : AllianceValidatorInfo) (s : State W)
      → lookup val s.validator_infos ≡ none
      → OnlyNewInfos before s
      → OnlyNewInfos before (record s { validator_infos = insert val info s.validator_infos })
  new_info val info s missing h = record {
    same = h.same;
    kept = λ v i known. elim (Bool-cases (nat_key.equal v val)) [
      | inl same ↦
          let e : none ≡ some i =
            sym missing
            ∙ (ap (λ x. lookup x s.validator_infos) (sym (nat_key.eq_of_equal v val same))
                ∙ h.kept v i known) in
          cc e
      | inr other ↦ lookup-insert_ne v val info s.validator_infos other ∙ h.kept v i known
    ];
  }

  info_or_new-Keeps :
      (val : ValAddress) (s : State W) (o : Option AllianceValidatorInfo)
      → lookup val s.validator_infos ≡ o
      → OnlyNewInfos before s
      → OnlyNewInfos before (info_or_new val o s).1
  unfolding info_or_new create_alliance_validator_info set_validator_info
  info_or_new-Keeps val s none e h = new_info val _ s e h
  info_or_new-Keeps val s (some info) e h = h

  looked_up :
      {B : Type 0} (val : ValAddress) (f : AllianceValidatorInfo → Call W B)
      → ((info : AllianceValidatorInfo) → Keeps (OnlyNewInfos before) (f info))
      → Keeps
          (OnlyNewInfos before)
          (gets (get_alliance_validator_info val) >>= λ o. info_or_new val o >>= f)
  unfolding get_alliance_validator_info
  looked_up val f kf = record {
    at = λ s h.
        go s (info_or_new val (lookup val s.validator_infos) s).0
          (info_or_new val (lookup val s.validator_infos) s).1
          (info_or_new-Keeps val s (lookup val s.validator_infos) refl h);
  }
    where
      go :
          (s : State W) (r : Result AllianceValidatorInfo) (t : State W)
          → OnlyNewInfos before t
          → OnlyNewInfos before (resume f r t).1
      go s (ok info) t h = (kf info).at t h
      go s (err e) t h = h
      go s panic t h = h

  or_status-Keeps :
      {A : Type 0} (status : Result A) (m : Call W A)
      → Keeps (OnlyNewInfos before) m
      → Keeps (OnlyNewInfos before) (or_status status m)
  or_status-Keeps status m km = record { at = km.at }

  collect-Keeps :
      {A B : Type 0} (f : A → Call W B)
      → ((a : A) → Keeps (OnlyNewInfos before) (f a))
      → (entries : List A) → Keeps (OnlyNewInfos before) (collect f entries)
  unfolding collect
  collect-Keeps f kf [] = Keeps-pure []
  collect-Keeps f kf (a ∷ entries) =
      Keeps-bind _ _ (kf a) (λ b. Keeps-bind _ _ (collect-Keeps f kf entries) (λ bs. Keeps-pure _))

  module _ (k : Sdk W) where
    get_alliance_validator-Keeps :
        (val : ValAddress) → Keeps (OnlyNewInfos before) (get_alliance_validator k val)
    unfolding get_alliance_validator
    get_alliance_validator-Keeps val = search (looked_up, keeps_rules)

    delegation_response-Keeps :
        (d : Delegation) → Keeps (OnlyNewInfos before) (delegation_response k d)
    unfolding delegation_response
    delegation_response-Keeps d = search (keeps_rules, get_alliance_validator-Keeps) depth 12

    validator_response-Keeps :
        (addr : ValAddress) (val : AllianceValidator)
        → Keeps (OnlyNewInfos before) (validator_response k addr val)
    unfolding validator_response
    validator_response-Keeps addr val = search keeps_rules depth 12

    alliance_validator-Keeps :
        (req : Option ValAddress) → Keeps (OnlyNewInfos before) (alliance_validator k req)
    unfolding alliance_validator
    alliance_validator-Keeps none = Keeps-raise _
    alliance_validator-Keeps (some addr) =
        search (keeps_rules, or_status-Keeps, get_alliance_validator-Keeps) depth 12

    module _ (query_unescape : Denom → Option Denom) (ibc_denom : Denom → Denom)
        (ctx : Context) where
      alliance_delegation-Keeps :
          (req : DelegationRequest)
          → Keeps (OnlyNewInfos before) (alliance_delegation k query_unescape ibc_denom ctx req)
      unfolding alliance_delegation
      alliance_delegation-Keeps req =
          search (keeps_rules, or_status-Keeps, get_alliance_validator-Keeps) depth 20

    module _ {PageRequest PageResponse : Type 0}
        (paginate : Paginate PageRequest PageResponse) where
      paged-Keeps :
          {K V B : Type 0} (f : K × V → Call W B) (req : PageRequest) (m : Map K V)
          → ((e : K × V) → Keeps (OnlyNewInfos before) (f e))
          → Keeps (OnlyNewInfos before) (paged k paginate f req m)
      unfolding paged
      paged-Keeps f req m kf = search (keeps_rules, collect-Keeps) depth 12

      entry_response-Keeps :
          (e : DelegationKey × Delegation)
          → Keeps (OnlyNewInfos before) (entry_response k paginate e)
      unfolding entry_response
      entry_response-Keeps (key, d) = delegation_response-Keeps d

      validator_entry-Keeps :
          (e : ValAddress × AllianceValidatorInfo)
          → Keeps (OnlyNewInfos before) (validator_entry k paginate e)
      unfolding validator_entry
      validator_entry-Keeps (val, info) =
          search (keeps_rules, get_alliance_validator-Keeps) depth 12

      all_alliances_delegations-Keeps :
          (req : Option PageRequest)
          → Keeps (OnlyNewInfos before) (all_alliances_delegations k paginate req)
      unfolding all_alliances_delegations
      all_alliances_delegations-Keeps none = Keeps-raise _
      all_alliances_delegations-Keeps (some req) =
          search (paged-Keeps, entry_response-Keeps, keeps_rules) depth 12

      all_alliance_validators-Keeps :
          (req : Option PageRequest)
          → Keeps (OnlyNewInfos before) (all_alliance_validators k paginate req)
      unfolding all_alliance_validators
      all_alliance_validators-Keeps none = Keeps-raise _
      all_alliance_validators-Keeps (some req) =
          search (paged-Keeps, validator_entry-Keeps, keeps_rules) depth 12

      alliances_delegation-Keeps :
          (addr : AccAddress) (req : PageRequest)
          → Keeps (OnlyNewInfos before) (alliances_delegation k paginate addr req)
      unfolding alliances_delegation
      alliances_delegation-Keeps addr req =
          search (paged-Keeps, entry_response-Keeps, keeps_rules) depth 12

      alliances_delegation_by_validator-Keeps :
          (addr : AccAddress) (val : ValAddress) (req : PageRequest)
          → Keeps (OnlyNewInfos before) (alliances_delegation_by_validator k paginate addr val req)
      unfolding alliances_delegation_by_validator
      alliances_delegation_by_validator-Keeps addr val req =
          search (paged-Keeps, entry_response-Keeps, keeps_rules) depth 12

module _ {W PageRequest PageResponse : Type 0} (k : Sdk W)
    (paginate : Paginate PageRequest PageResponse) (query_unescape : Denom → Option Denom)
    (ibc_denom : Denom → Denom) (ctx : Context) where
  unwritten : (s : State W) → OnlyNewInfos s s
  unwritten s = record { same = refl; kept = λ val info known. known }

  -- The queries for validators and delegations change nothing but that validators without a
  -- record get one, also where they end in an error or a panic.
  pub queries_write_new_infos :
      (s : State W) (validator : Option ValAddress) (page : Option PageRequest)
      (of_page : PageRequest) (del : AccAddress) (val : ValAddress) (req : DelegationRequest)
      → OnlyNewInfos s (alliance_validator k validator s).1
        × OnlyNewInfos s (alliance_delegation k query_unescape ibc_denom ctx req s).1
        × OnlyNewInfos s (ibc_alliance_delegation k query_unescape ibc_denom ctx req s).1
        × OnlyNewInfos s (all_alliances_delegations k paginate page s).1
        × OnlyNewInfos s (all_alliance_validators k paginate page s).1
        × OnlyNewInfos s (alliances_delegation k paginate del of_page s).1
        × OnlyNewInfos s (alliances_delegation_by_validator k paginate del val of_page s).1
  unfolding ibc_alliance_delegation
  queries_write_new_infos s validator page of_page del val req =
      let h = unwritten s in
      (
        (alliance_validator-Keeps k validator).at s h,
        (alliance_delegation-Keeps k query_unescape ibc_denom ctx req).at s h,
        (alliance_delegation-Keeps k query_unescape ibc_denom ctx _).at s h,
        (all_alliances_delegations-Keeps k paginate page).at s h,
        (all_alliance_validators-Keeps k paginate page).at s h,
        (alliances_delegation-Keeps k paginate del of_page).at s h,
        (alliances_delegation_by_validator-Keeps k paginate del val of_page).at s h,
      )
