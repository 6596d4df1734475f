-- ===== src/Types.antt =====
-- The stored records of x/alliance/types: the structs of alliance.pb.go, delegations.pb.go and
-- params.pb.go, and the pure functions of asset.go, validator.go, delegations.go, alliance.go,
-- params.go, gov.go, msg.go and keys.go in the children.
mod Records
pub mod Asset
pub mod Validator
pub mod Shares
pub mod History
pub mod Proposals
pub mod Messages
pub mod Laws
pub mod Keys
unfoldable pub use Records.*
