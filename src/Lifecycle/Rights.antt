-- ===== src/Lifecycle/Rights.antt =====
-- backend/app/torrents/lifecycle.py: the right of a user becomes ready, expires or is cancelled.
mod Ready
mod Expiry
mod Cancel
unfoldable pub use Ready.*
unfoldable pub use Expiry.*
unfoldable pub use Cancel.*
