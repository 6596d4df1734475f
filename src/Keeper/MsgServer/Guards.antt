-- ===== src/Keeper/MsgServer/Guards.antt =====
-- keeper/msg_server.go and types/msg.go: the checks of the amounts.
use alliance.Prelude.{◌≡◌, refl, true, not, arith}
use alliance.Prelude.Int.{ℤ, pos, ◌≤ℤ◌, ltb_ℤ, leb_ℤ}
use alliance.Sdk.{Sdk, Bech32, Coin, Context}
use alliance.Sdk.Result.{err, invalid_argument}
use alliance.Types.Messages.{validate_delegate, validate_redelegate, validate_undelegate}
use alliance.Keeper.State.{State}
use alliance.Keeper.MsgServer.{serve_delegate, serve_redelegate, serve_undelegate}

not_positive : (n : ℤ) → n ≤ℤ pos 0 → (not (ltb_ℤ (pos 0) n) ≡ true) × (leb_ℤ n (pos 0) ≡ true)
not_positive n h = (ground arith, ground arith)

module _ {W : Type 0} (k : Sdk W) (ctx : Context) where
  -- A message to delegate, redelegate or undelegate an amount of zero or less is refused as an
  -- invalid argument, whatever its addresses, and nothing is written.
  pub serve_not_positive :
      (del val dst : Bech32) (coin : Coin) (s : State W)
      → coin.amount ≤ℤ pos 0
      → (serve_delegate k ctx
            (record { delegator_address = del; validator_address = val; amount = coin })
            s
          ≡ (err invalid_argument, s))
        × (serve_redelegate k ctx
              (record {
                delegator_address = del;
                validator_src_address = val;
                validator_dst_address = dst;
                amount = coin;
              })
              s
            ≡ (err invalid_argument, s))
        × (serve_undelegate k ctx
              (record { delegator_address = del; validator_address = val; amount = coin })
              s
            ≡ (err invalid_argument, s))
  unfolding serve_delegate serve_redelegate serve_undelegate validate_delegate validate_redelegate
      validate_undelegate
  serve_not_positive del val dst coin s h =
      let (low, low') = not_positive coin.amount h in (rw low refl, rw low' refl, rw low' refl)
