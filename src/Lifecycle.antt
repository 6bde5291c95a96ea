-- ===== src/Lifecycle.antt =====
-- backend/app/torrents/lifecycle.py, backend/app/torrents/deduplication.py and
-- backend/app/scheduler/queue_visibility.py: the rights of the users on the shared torrents, from the
-- request to the deferred purge. An object that the session holds is a row that is changed in place.
pub mod Rows
pub mod Visibility
pub mod Ranks
pub mod Rights
pub mod Sums
pub mod Balance
pub mod Cancellation
pub mod Distinct
pub mod Expiration
pub mod Purges
pub mod Requests
pub mod Debts
pub mod Grants
pub mod Admission
pub mod Races
mod Examples
