-- ===== src/Keeper/Dust/Bounds.antt =====
-- keeper/delegation.go: the results of ValidateDelegatedAmount.
use alliance.Prelude.{◌≡◌, arith}
use alliance.Prelude.Int.{pos, ◌≤ℤ◌}
use alliance.Sdk.{Sdk, SdkDec, Coin}
use alliance.Sdk.Result.{ok, OkThen, OkThen-if, OkThen-bind, OkThen-value}
use alliance.Types.{AllianceAsset, AllianceValidator, Delegation}
use alliance.Types.Asset.{gt}
use alliance.Types.Shares.{get_delegation_shares_from_tokens}
use alliance.Types.Laws.{DecLaws}
use alliance.Keeper.Dust.{cap_shares, validate_delegated_amount}

module _ {W : Type 0} (k : Sdk W) (laws : DecLaws k) where
  open laws use {lt_units}

  -- At most what is owned.
  abbrev AtMost : SdkDec → SdkDec → Type 0
  AtMost owned shares = shares.units ≤ℤ owned.units

  cap_shares-AtMost : (owned wanted : SdkDec) → OkThen (AtMost owned) (cap_shares k owned wanted)
  unfolding cap_shares
  cap_shares-AtMost owned wanted =
      OkThen-if (AtMost owned) (k.lt (k.abs (k.sub owned wanted)) (k.new_dec_with_prec (pos 1) 6)) _
        _ (λ close. omega arith)
        λ apart.
          OkThen-if (AtMost owned) (k.lt owned (k.truncate_dec wanted)) _ _ (λ short. tt)
            λ enough.
              OkThen-if (AtMost owned) (gt k wanted owned) _ _ (λ over. omega arith)
                (λ under. ground (arith, lt_units owned wanted))

  -- Under the laws of decimals, the shares that a coin is exchanged for are never more than the
  -- delegation owns.
  pub validate_delegated_amount-le :
      (delegation : Delegation) (coin : Coin) (val : AllianceValidator) (asset : AllianceAsset)
      {shares : SdkDec}
      → validate_delegated_amount k delegation coin val asset ≡ ok shares
      → shares.units ≤ℤ delegation.shares.units
  unfolding validate_delegated_amount
  validate_delegated_amount-le delegation coin val asset e =
      OkThen-value (AtMost delegation.shares) _
        (OkThen-bind (AtMost delegation.shares)
          (get_delegation_shares_from_tokens k val asset coin.amount) _
          (λ wanted found. cap_shares-AtMost delegation.shares wanted))
        e
