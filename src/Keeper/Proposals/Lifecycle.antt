-- ===== src/Keeper/Proposals/Lifecycle.antt =====
-- keeper/proposal.go: CreateAlliance and DeleteAlliance.
use alliance.Prelude.{◌≡◌, refl, true, false, none, some, ◌⊎◌, Bool-cases, ◌==◌, inl, inr}
use alliance.Prelude.Int.{pos, ◌+ℤ◌, ltb_ℤ}
use alliance.Prelude.Map.{
  nat_key, lookup-insert_self, lookup-insert_ne, lookup-erase_self, lookup-erase_ne,
}
use alliance.Sdk.{Sdk, Context, Denom}
use alliance.Sdk.Result.{ok, err, internal}
use alliance.Types.{AllianceAsset}
use alliance.Types.Proposals.{MsgCreateAllianceProposal, MsgDeleteAllianceProposal}
use alliance.Keeper.State.{State}
use alliance.Keeper.Store.{
  set_asset, get_asset_by_denom, delete_asset, delete_asset_key, reward_delay_time,
}
use alliance.Keeper.Proposals.{create_alliance, delete_alliance}

module _ {W : Type 0} (k : Sdk W) (ctx : Context) where
  -- An alliance for a denomination that has none is created without tokens or shares; its
  -- rewards begin a delay after the block and its weight changes from then on; the other
  -- alliances are as before.
  pub create_alliance_new :
      (req : MsgCreateAllianceProposal) (s : State W)
      → get_asset_by_denom req.denom s ≡ none
      → let s' = (create_alliance k ctx req s).1 in
        ((create_alliance k ctx req s).0 ≡ ok tt)
        × ((a : AllianceAsset) × (get_asset_by_denom req.denom s' ≡ some a)
            × (a.denom ≡ req.denom)
            × (a.total_tokens ≡ pos 0)
            × (a.total_validator_shares ≡ k.zero_dec)
            × (a.reward_start_time ≡ ctx.block_time +ℤ reward_delay_time s)
            × (a.last_reward_change_time ≡ a.reward_start_time)
            × (a.is_initialized ≡ false))
        × ((d : Denom) → d == req.denom ≡ false → get_asset_by_denom d s' ≡ get_asset_by_denom d s)
  unfolding create_alliance set_asset get_asset_by_denom
  create_alliance_new req s h = rw h (
    refl,
    (_, lookup-insert_self req.denom _ s.assets, refl, refl, refl, refl, refl, refl),
    λ d ne. lookup-insert_ne d req.denom _ s.assets ne,
  )

  -- Deleting an alliance that is stored under its denomination: refused while it has tokens,
  -- with nothing written; otherwise the call returns, the alliance is gone from the store, and
  -- the other alliances are as before.
  pub delete_alliance_lem :
      (req : MsgDeleteAllianceProposal) (asset : AllianceAsset) (s : State W)
      → get_asset_by_denom req.denom s ≡ some asset
      → asset.denom ≡ req.denom
      → ((ltb_ℤ (pos 0) asset.total_tokens ≡ true)
          × (delete_alliance k ctx req s ≡ (err internal, s)))
        ⊎ ((ltb_ℤ (pos 0) asset.total_tokens ≡ false)
            × ((delete_alliance k ctx req s).0 ≡ ok tt)
            × (get_asset_by_denom req.denom (delete_alliance k ctx req s).1 ≡ none)
            × ((d : Denom)
                → d == req.denom ≡ false
                → get_asset_by_denom d (delete_alliance k ctx req s).1 ≡ get_asset_by_denom d s))
  unfolding delete_alliance get_asset_by_denom delete_asset delete_asset_key
  delete_alliance_lem req asset s h keyed = elim (Bool-cases (ltb_ℤ (pos 0) asset.total_tokens)) [
    | inl staked ↦ inl (staked, rw (h, staked) refl)
    | inr empty ↦ inr (
      empty,
      rw (h, empty) refl,
      rw (h, empty, keyed) (lookup-erase_self req.denom s.assets),
      λ d ne. rw (h, empty, keyed) (lookup-erase_ne d req.denom s.assets ne),
    )
  ]
