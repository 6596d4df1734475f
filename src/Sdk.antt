-- ===== src/Sdk.antt =====
-- What the module imports: the decimals, coins and keepers of the Cosmos SDK, which are not part
-- of the repository. Their operations are the fields of `Sdk`, a parameter of every definition
-- that calls them (x/alliance/types/keeper_interfaces.go lists the keepers' methods); what the
-- code relies on is stated in Types/Laws.antt, as hypotheses.
mod Base
mod Interface
pub mod Result
pub use Base.*
pub use Interface.*
