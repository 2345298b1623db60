-- ===== src/Token.antt =====
-- crates/permission_engine/src/engine.rs: the SIDs of an access token. `WellKnown` has the tests
-- on well-known SIDs, `Build` the token, `LocalGroups` the local groups of a server and `Uac` the
-- groups that User Account Control filters.
pub mod WellKnown
pub mod Build
pub mod LocalGroups
pub mod Uac
pub mod FilteredKind
pub mod Members
pub mod Groups
pub mod Filtering
mod Tests
