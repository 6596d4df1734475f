-- ===== src/Keeper/Queries/Owned.antt =====
-- keeper/grpc_query.go: whose delegations a page holds.
use alliance.Prelude.{
  ◌≡◌, ap, ◌∙◌, some, List, [], ◌∷◌, ◌&&◌, ◌==◌, ==_iff, All, Bool-cases, inl, inr, arith,
}
use alliance.Prelude.Map.{Map, range, nat_key, int_key, pair_key}
use alliance.Sdk.{Sdk, AccAddress, ValAddress}
use alliance.Sdk.Result.{ok, not_found}
use alliance.Types.{Delegation}
use alliance.Keeper.State.{State, DelegationKey}
use alliance.Keeper.Call.{Call, pure, ◌>>=◌}
use alliance.Keeper.Call.Post.{OnOk, OnOk-lift, OnOk-mono, OnOk-found}
use alliance.Keeper.Call.Keeps.{Yields, Yields-pure, Yields-bind, Yields-post_bind}
use alliance.Keeper.Keyed.{WellKeyed, OwnDelegation, Everywhere}
use alliance.Keeper.Queries.{Paginate, collect, delegation_response}
use alliance.Keeper.Queries.Pages.{
  paged, entry_response, delegations_by_to, alliances_delegation_by_validator,
}

-- What `query.Paginate` documents: a page holds entries of the store.
abbrev pub PagesHoldEntries : {Req Res : Type 0} → Paginate Req Res → Type 1
PagesHoldEntries {Req} {Res} paginate =
    (V : Type 0) (P : V → Type 0) (req : Req) (entries page : List V) (res : Res)
    → All P entries
    → paginate V req entries ≡ ok (page, res)
    → All P page

delegation_response-same :
    {W : Type 0} (k : Sdk W) (d : Delegation)
    → Yields (λ r. r.delegation ≡ d) (delegation_response k d)
unfolding delegation_response
delegation_response-same k d = search (Yields-bind, Yields-pure) depth 12

module _ {W A B : Type 0} (P : A → Type 0) (Q : B → Type 0) (f : A → Call W B) where
  collect-All :
      ((a : A) → P a → Yields Q (f a))
      → (entries : List A) → All P entries
      → Yields (All Q) (collect f entries)
  unfolding collect
  collect-All yf [] all = Yields-pure [] tt
  collect-All yf (a ∷ entries) (p, all) = Yields-post_bind Q (f a) _ (yf a p) λ b q.
      Yields-post_bind (All Q) (collect f entries) _ (collect-All yf entries all)
        (λ bs qs. Yields-pure _ (q, qs))

-- A delegation that stands under the key of its own fields, with a delegator and a validator.
abbrev Between : AccAddress → ValAddress → DelegationKey × Delegation → Type 0
Between del val e = (e.1.delegator_address ≡ del) × (e.1.validator_address ≡ val)

kept-Between :
    (del : AccAddress) (val : ValAddress) (m : Map DelegationKey Delegation)
    → Everywhere OwnDelegation m
    → All (Between del val) (range (λ key. key.0 == del && key.1.0 == val) m)
unfolding range
kept-Between del val [] own = tt
kept-Between del val (((d, (v, n)), e) ∷ m) (own, rest) = elim (Bool-cases (d == del && v == val)) [
  | inl here ↦ rw here (
    (
      own.delegator ∙ (==_iff d del).0 (ground (arith, here)),
      own.validator ∙ (==_iff v val).0 (ground (arith, here)),
    ),
    kept-Between del val m rest,
  )
  | inr other ↦ rw other (kept-Between del val m rest)
]

module _ {W PageRequest PageResponse : Type 0} (k : Sdk W)
    (paginate : Paginate PageRequest PageResponse) (holds : PagesHoldEntries paginate) where
  paged-All :
      {K V B : Type 0} (P : K × V → Type 0) (Q : B → Type 0) (f : K × V → Call W B)
      (req : PageRequest) (m : Map K V)
      → ((e : K × V) → P e → Yields Q (f e))
      → All P m
      → Yields (λ r. All Q r.0) (paged k paginate f req m)
  unfolding paged
  paged-All {K} {V} {B} P Q f req m yf all = record {
    at = λ s.
        OnOk-lift (λ r _. All Q r.0) (answered f) (paginate (K × V) req m) s
          (λ a e. (answered-All a.0 a.1 (holds (K × V) P req m a.0 a.1 all e)).at s);
  }
    where
      answered : (K × V → Call W B) → List (K × V) × PageResponse → Call W (List B × PageResponse)
      answered g a = collect g a.0 >>= λ results. pure (results, a.1)

      answered-All :
          (page : List (K × V)) (res : PageResponse)
          → All P page
          → Yields (λ r. All Q r.0) (answered f (page, res))
      answered-All page res all' =
          Yields-post_bind (All Q) (collect f page) _ (collect-All P Q f yf page all')
            (λ bs qs. Yields-pure (bs, res) qs)

  response-Between :
      (del : AccAddress) (val : ValAddress) (e : DelegationKey × Delegation)
      → Between del val e
      → Yields
          (λ r. (r.delegation.delegator_address ≡ del) × (r.delegation.validator_address ≡ val))
          (entry_response k paginate e)
  unfolding entry_response
  response-Between del val (key, d) (same_del, same_val) = record {
    at = λ s.
        OnOk-mono _ _ (delegation_response k d s) ((delegation_response-same k d).at s) λ r s' same.
          (
            ap (λ x. x.delegator_address) same ∙ same_del,
            ap (λ x. x.validator_address) same ∙ same_val,
          );
  }

  -- Where delegations stand under the keys of their own fields and a page holds entries of the
  -- store, the delegations that AlliancesDelegationByValidator answers with are of the delegator
  -- and the validator that were asked for.
  pub by_validator_owned :
      (delegator_addr : AccAddress) (validator_addr : ValAddress) (req : PageRequest) (s : State W)
      {del : AccAddress} {val : ValAddress}
      → WellKeyed s
      → k.acc_address_from_bech32 delegator_addr ≡ some del
      → k.val_address_from_bech32 validator_addr ≡ some val
      → OnOk
          (λ r _.
            All
              (λ x. (x.delegation.delegator_address ≡ del) × (x.delegation.validator_address ≡ val))
              r.0)
          (alliances_delegation_by_validator k paginate delegator_addr validator_addr req s)
  unfolding alliances_delegation_by_validator delegations_by_to
  by_validator_owned delegator_addr validator_addr req s {del} {val} h ha hv =
      rw (ha, hv)
        (OnOk-found _ _ not_found (k.get_validator val s.world) s λ v known.
          (paged-All (Between del val) _ (entry_response k paginate) req
              (range (λ key. key.0 == del && key.1.0 == val) s.delegations)
              (response-Between del val) (kept-Between del val s.delegations h.delegations)).at
            s)
