-- ===== src/Keeper/Migrations/Lookups.antt =====
-- migrations/v4/migrations.go: what every denomination has after the migration.
use alliance.Prelude.{
  ◌≡◌, refl, sym, ap, ◌∙◌, Bool, true, false, Option, none, some, List, [], ◌∷◌, ◌==◌, ==_iff, All,
  map, if◌then◌else◌, Bool-cases, inl, inr, arith, ◌||◌,
}
use alliance.Prelude.Map.{Map, lookup, insert, lookup-insert_self, lookup-insert_ne, nat_key}
use alliance.Sdk.{Sdk, Denom, Context, Time, SdkDec}
use alliance.Types.{AllianceAsset}
use alliance.Types.Laws.{DecLaws, TruncationLaws}
use alliance.Prelude.{◌*◌, ◌^◌, not}
use alliance.Prelude.Int.{pos, ltb_ℤ, eqb_ℤ, ◌*ℤ◌}
use alliance.Types.Asset.{rewards_started}
use alliance.Keeper.State.{State}
use alliance.Keeper.Call.{for_each}
use alliance.Keeper.Store.{set_asset, get_all_assets}
use alliance.Keeper.Migrations.{with_default_range, migrate}
use alliance.Keeper.Keyed.{OwnAsset, Everywhere}

-- The asset of a denomination, with a function applied.
abbrev pub changed : (AllianceAsset → AllianceAsset) → Option AllianceAsset → Option AllianceAsset
changed f none = none
changed f (some asset) = some (f asset)

abbrev with_range : SdkDec → SdkDec → AllianceAsset → Bool → AllianceAsset
with_range x y a b = record a {
  reward_weight_range = record { min = x; max = y };
  is_initialized = b;
}

begun : (now start : Time) → (ltb_ℤ start now || eqb_ℤ now start) ≡ not (ltb_ℤ now start)
begun now start = ground arith

initialized_if :
    (x y : SdkDec) (a : AllianceAsset) (i b : Bool)
    → (if b then with_range x y a true else with_range x y a i) ≡ with_range x y a (i || b)
initialized_if x y a true true = refl
initialized_if x y a true false = refl
initialized_if x y a false true = refl
initialized_if x y a false false = refl

at_start :
    (x y : SdkDec) (now : Time) (a : AllianceAsset)
    → (if rewards_started a now then with_range x y a true else with_range x y a (a.is_initialized))
      ≡ with_range x y a (a.is_initialized || not (ltb_ℤ now a.reward_start_time))
unfolding rewards_started
at_start x y now a =
    initialized_if x y a a.is_initialized (rewards_started a now)
    ∙ ap (λ b. with_range x y a (a.is_initialized || b)) (begun now a.reward_start_time)

-- The asset with weights from zero to 2^63 - 1, in units of 10^-18, and initialized where its
-- rewards have begun.
abbrev pub ranged : Time → AllianceAsset → AllianceAsset
ranged now a = record a {
  reward_weight_range = record {
    min = record { units = pos 0 };
    max = record { units = pos (9223372036854775807 * 10 ^ 18) };
  };
  is_initialized = a.is_initialized || not (ltb_ℤ now a.reward_start_time);
}

unfoldable lists_denom : Denom → List AllianceAsset → Bool
lists_denom denom [] = false
lists_denom denom (asset ∷ assets) = asset.denom == denom || lists_denom denom assets

-- Every entry is what its denomination looks up.
abbrev pub LooksUp : Map Denom AllianceAsset → Type 0
LooksUp m = Everywhere (λ denom asset. lookup denom m ≡ some asset) m

unlisted-none :
    (denom : Denom) (m : Map Denom AllianceAsset)
    → Everywhere OwnAsset m
    → lists_denom denom (map (λ e. e.1) m) ≡ false
    → lookup denom m ≡ none
unfolding lists_denom lookup
unlisted-none denom [] own h = refl
unlisted-none denom ((d, a) ∷ m) (same, own) h = ground (arith, unlisted-none denom m own)

listed :
    (m all : Map Denom AllianceAsset)
    → Everywhere OwnAsset m
    → Everywhere (λ denom asset. lookup denom all ≡ some asset) m
    → All (λ a. lookup a.denom all ≡ some a) (map (λ e. e.1) m)
listed [] all own looks = tt
listed ((d, a) ∷ m) all (same, own) (found, looks) =
    (ap (λ x. lookup x all) same ∙ found, listed m all own looks)

either_way : (b : Bool) {x y : Option AllianceAsset} → y ≡ x → (if b then x else y) ≡ x
either_way true e = refl
either_way false e = e

module _ {W : Type 0} (k : Sdk W) (ctx : Context) where
  range_keeps_denom : (a : AllianceAsset) → (with_default_range k ctx a).denom ≡ a.denom
  unfolding with_default_range rewards_started
  range_keeps_denom a = elim (Bool-cases (rewards_started a ctx.block_time)) [
    | inl started ↦ rw started
    | inr waits ↦ rw waits
  ]

  set_here :
      (denom : Denom) (a : AllianceAsset) (m : Map Denom AllianceAsset)
      → (a.denom == denom) ≡ true
      → lookup denom (insert (with_default_range k ctx a).denom (with_default_range k ctx a) m)
        ≡ some (with_default_range k ctx a)
  set_here denom a m same =
      ap (λ d. lookup denom (insert d (with_default_range k ctx a) m))
        (range_keeps_denom a ∙ (==_iff a.denom denom).0 same)
      ∙ lookup-insert_self denom (with_default_range k ctx a) m

  set_elsewhere :
      (denom : Denom) (a : AllianceAsset) (m : Map Denom AllianceAsset)
      → (a.denom == denom) ≡ false
      → lookup denom (insert (with_default_range k ctx a).denom (with_default_range k ctx a) m)
        ≡ lookup denom m
  set_elsewhere denom a m other =
      ap (λ d. lookup denom (insert d (with_default_range k ctx a) m)) (range_keeps_denom a)
      ∙ lookup-insert_ne denom a.denom (with_default_range k ctx a) m (ground (arith, other))

  lookup-loop :
      (denom : Denom) (all : Map Denom AllianceAsset) (assets : List AllianceAsset) (s : State W)
      → All (λ a. lookup a.denom all ≡ some a) assets
      → lookup denom (for_each assets (λ a. set_asset (with_default_range k ctx a)) s).1.assets ≡ (
          if lists_denom denom assets
          then changed (with_default_range k ctx) (lookup denom all)
          else lookup denom s.assets)
  unfolding for_each lists_denom set_asset
  lookup-loop denom all [] s looks = refl
  lookup-loop denom all (a ∷ assets) s (found, looks) =
      let set = insert (with_default_range k ctx a).denom (with_default_range k ctx a) s.assets in
      rw (lookup-loop denom all assets (record s { assets = set }) looks)
        (elim (Bool-cases (a.denom == denom)) [
          | inl same ↦ rw same (
              either_way (lists_denom denom assets) (
                set_here denom a s.assets same
                ∙ sym (
                    ap (changed (with_default_range k ctx))
                      (ap (λ d. lookup d all) (sym ((==_iff a.denom denom).0 same)) ∙ found))))
          | inr other ↦ rw other (
              ap
                (λ x.
                  if lists_denom denom assets
                  then changed (with_default_range k ctx) (lookup denom all)
                  else x)
                (set_elsewhere denom a s.assets other))
        ])

  migrate-lookups :
      (s : State W)
      → Everywhere OwnAsset s.assets
      → LooksUp s.assets
      → (denom : Denom)
      → lookup denom (migrate k ctx s).1.assets
        ≡ changed (with_default_range k ctx) (lookup denom s.assets)
  unfolding migrate get_all_assets
  migrate-lookups s own looks denom =
      lookup-loop denom s.assets (map (λ e. e.1) s.assets) s (listed s.assets s.assets own looks)
      ∙ elim (Bool-cases (lists_denom denom (map (λ e. e.1) s.assets))) [
        | inl found ↦ rw found
        | inr missing ↦ rw (missing, unlisted-none denom s.assets own missing)
      ]

  module _ (laws : DecLaws k) (truncation : TruncationLaws k) where
    with_default_range-eq :
        (a : AllianceAsset) → with_default_range k ctx a ≡ ranged ctx.block_time a
    unfolding with_default_range ◌*ℤ◌ rewards_started
    with_default_range-eq a =
        let set = a.is_initialized || not (ltb_ℤ ctx.block_time a.reward_start_time) in
        at_start k.zero_dec (k.new_dec_from_int (pos 9223372036854775807)) ctx.block_time a
        ∙ ap
            (λ n.
              with_range (record { units = n }) (k.new_dec_from_int (pos 9223372036854775807)) a
                set)
            laws.zero_units
        ∙ ap (λ n. with_range (record { units = pos 0 }) (record { units = n }) a set)
            (truncation.from_int_units (pos 9223372036854775807))

    changed-eq :
        (o : Option AllianceAsset)
        → changed (with_default_range k ctx) o ≡ changed (ranged ctx.block_time) o
    changed-eq none = refl
    changed-eq (some a) = ap some (with_default_range-eq a)

    -- Under the laws of decimals, after the migration every denomination has the asset it had,
    -- with the range from zero to 2^63 - 1 for its weight, and initialized where it was or where
    -- the block's time is not before the start of its rewards; denominations without an asset
    -- have none. It is so where assets stand under their denominations and each key stands once.
    pub migrate_lem :
        (s : State W)
        → Everywhere OwnAsset s.assets
        → LooksUp s.assets
        → (denom : Denom)
        → lookup denom (migrate k ctx s).1.assets
          ≡ changed (ranged ctx.block_time) (lookup denom s.assets)
    migrate_lem s own looks denom = migrate-lookups s own looks denom ∙ changed-eq _
