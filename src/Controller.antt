-- ===== src/Controller.antt =====
-- controller.go: the goroutine that decides which peer downloads which piece. `State` has its data,
-- `Rarity` and `Priority` the order of the pieces, `Requests` and `Cancel` what it sends to the peers,
-- `Run` its handlers; the children prove what holds of them.
pub mod Rarity
pub mod State
pub mod Availability
pub mod Priority
pub mod Requests
pub mod Cancel
pub mod Accounts
pub mod Invariant
pub mod Run
mod Tests
