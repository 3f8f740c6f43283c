-- ===== src/Pool.antt =====
-- internal/pool/pool.go: the resident models, their leases, eviction and hot swap. Each function is
-- one critical section; loading a model happens between two of them, outside the lock.
--
-- A manifest is read here for its revision and its size only, which are arguments. The wait for a load,
-- its timeout and the observer are outside the critical sections, and List only reads.
--
-- An entry is shared by pointer, so entries live in `entries` under the handle they were made with.
-- A recogniser is the number that the loader gave it; one that is closed goes to `closed_recs`. The
-- maps are walked in the order of their association lists, where Go's order is unspecified, and of
-- equally old candidates for eviction the first is taken, where sort.Slice may take any.
pub mod State
pub mod Acquire
pub mod Manage
pub mod Invariant
pub mod Closing
pub mod Eviction
pub mod Sweeping
pub mod Leases
pub mod Loading
pub mod Swapping
pub mod Admin
pub mod Limits
pub mod Serving
pub mod Idle
pub mod Shutdown
mod Examples
