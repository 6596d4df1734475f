-- ===== src/Lib.antt =====
-- x/alliance, the module of the Alliance chain that lets other tokens than the staking token be
-- staked. Governance whitelists an asset (a denomination) with a reward weight and a take rate;
-- users delegate its tokens to validators; the module mints staking tokens and delegates them to
-- the validators so that an asset has its weight in the staking module, withdraws the rewards of
-- those delegations, and shares them among the delegators.
--
-- The parts and their files. The source is Go; functions keep their names, in snake_case.
--   x/alliance/types: Types. Records are the structs, Asset, Validator, Shares and History the
--     functions of asset.go, validator.go and params.go, Messages and Proposals the checks of
--     msg.go and gov.go. Laws are what the SDK documents of its decimals and coins. Keys has the
--     bytes of keys.go, with the SDK's prefixes, times and numbers as the parameter KeyCodec.
--   x/alliance/keeper: Keeper. State is the store, a map for each key prefix of types/keys.go;
--     Store has its getters and setters; Call is a function that writes it. Then by file:
--     delegation.go is Delegations, Queues and Dust; asset.go is Assets, TakeRate and Rebalance;
--     reward.go is Rewards, with what writes nothing in Accumulate; slash.go is Slash;
--     validator.go is Validators; hooks.go is Hooks; proposal.go and ../proposal_handler.go are
--     Proposals; msg_server.go is MsgServer; genesis.go and ../genesis.go are Genesis;
--     grpc_query.go is Queries, with the queries of pages in Queries.Pages. Call.Keeps has rules
--     for what a call keeps however it ends; Keyed applies them to every operation, and
--     Keyed.Reach has the relation of all calls from outside.
--   x/alliance/migrations/v4 is Keeper.Migrations, custom/bank/keeper is Bank.
--   x/alliance/abci.go is Keeper.EndBlock, x/alliance/invariants.go is Keeper.Invariants.
--   The files below a module state and prove facts of it. Example has a concrete SDK, states,
--     and the theorems applied to them.
--
-- How the parts interact. MsgServer checks a message, decodes its addresses and calls
-- Delegations, which claim rewards before they change shares and ask for a rebalancing by a flag
-- in the store. EndBlock completes the queues, initialises assets, deducts the take rate, changes
-- the weights, and rebalances where the flag is set. The staking module calls Hooks: they set the
-- flag, or slash.
--
-- Conventions.
--   A call is a function of the state to a result and a state. The result is a value, an error or
--   a panic. A call that fails keeps what it wrote: that a transaction is rolled back is done
--   outside the module.
--   The other modules (bank, staking, distribution, accounts) and the SDK's decimals and coins
--   are the record Sdk, a parameter, with their state W. Where a theorem relies on what they do,
--   it has that as a hypothesis, in DecLaws, TruncationLaws, CoinLaws or BankLaws or by itself. The
--   codec's UnmarshalInterface, which one getter of infos calls, is a parameter of that getter.
--   Denominations and addresses are numbers, and a bech32 string stands for what it encodes.
--   Times and durations are integers of nanoseconds, and 0 is the time that is not set; the
--   conversions to uint64 and int64 wrap. sdk.Int is unbounded: the panic at 256 bits is left out.
--   A pointer that a callee writes through comes back as a result: validators from a claim,
--   assets from the hooks at the end of a block.
--   An iterator goes through the entries that its range has when it is opened.
--   The staking module's hooks run after the call that causes them.
-- No function is on fuel: the loops of the module go through lists.
--
-- A query answers a page that `query.Paginate` selects, a parameter that maps the entries of a
-- store to those of the page. The keeper's maps have tuples for keys; Types.Keys.Unique and
-- Types.Keys.RoundTrip are about the bytes.
--
-- Not modelled: events, gas, telemetry and logs; command lines, protobuf and the wiring of the
-- application, which hold no state of the module; the registration of the parameters, though
-- SetParams writes them with the checks of types/params.go. Where the module's own checks go
-- through a Go map, the model goes through it in the order of the keys.
pub mod Prelude
pub mod Sdk
pub mod Types
pub mod Keeper
pub mod Bank
pub mod Example
