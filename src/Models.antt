-- ===== src/Models.antt =====
-- backend/app/models/torrent_v2.py and backend/app/models/auth.py: the rows of the tables that the
-- other modules read and write.
--
-- A row is a record with the columns that the modelled code uses. Identifiers (UUIDs) are numbers:
-- their canonical text sorts as the number does. Instants are microseconds of UTC, so the code's
-- conversions between naive and aware timestamps are the identity. `progress`, a float from 0 to 1,
-- is counted in millionths.
use world_of_seeds.Prelude.{ℕ, ◌*◌, String, Bool, true, false, Option}

abbrev pub Uuid : Type 0
Uuid = ℕ

abbrev pub Instant : Type 0
Instant = ℕ

-- `timedelta(hours=n)`
abbrev pub hours : ℕ → ℕ
hours n = n * 3600000000

-- `timedelta(seconds=n)`
abbrev pub seconds : ℕ → ℕ
seconds n = n * 1000000

pub data ManagedTorrentState : Type 0 where
  pending adding downloading paused retry_wait error ready purge_pending purging purged :
      ManagedTorrentState

pub data TorrentRequestState : Type 0 where
  requested active ready cancelled expired : TorrentRequestState

pub data TorrentJobState : Type 0 where
  queued running completed failed cancelled : TorrentJobState

pub data StoragePressureState : Type 0 where
  normal warning critical : StoragePressureState

pub record StorageLedger : Type 0 where
  pub managed_bytes : ℕ
  pub disk_total_bytes : ℕ
  pub disk_free_bytes : ℕ
  pub pressure : StoragePressureState
  pub updated_at : Instant

pub record UserStorageUsage : Type 0 where
  pub user_id : Uuid
  pub logical_bytes : ℕ
  pub updated_at : Instant

pub record User : Type 0 where
  pub id : Uuid
  pub is_active : Bool
  pub deleted_at : Option Instant

pub record ManagedTorrent : Type 0 where
  pub id : Uuid
  pub info_hash : String
  pub storage_key : Uuid
  pub name : String
  pub total_size : ℕ
  pub state : ManagedTorrentState
  pub qb_state : Option String
  pub progress : ℕ
  pub retry_at : Option Instant
  pub last_downloaded_bytes : Option ℕ
  pub scheduler_retry_at : Option Instant
  pub purge_after : Option Instant
  pub ready_at : Option Instant
  pub retention_expires_at : Option Instant
  pub purge_stop_pending : Bool
  pub lifecycle_generation : ℕ
  pub desired_active : Bool
  pub admin_forced_active : Bool
  pub created_at : Instant
  pub updated_at : Instant

pub record TorrentRequest : Type 0 where
  pub id : Uuid
  pub user_id : Uuid
  pub managed_torrent_id : Uuid
  pub state : TorrentRequestState
  pub ready_at : Option Instant
  pub unsubscribe_at : Option Instant
  pub cancelled_at : Option Instant
  pub expires_at : Option Instant
  pub created_at : Instant
  pub updated_at : Instant

-- The unique text of a job. The purge jobs' `purge:<torrent>:<generation>` is kept apart from the
-- texts that other code makes.
pub data IdempotencyKey : Type 0 where
  purge : Uuid → ℕ → IdempotencyKey
  other : String → IdempotencyKey

pub record TorrentJob : Type 0 where
  pub id : Uuid
  pub managed_torrent_id : Uuid
  pub torrent_request_id : Option Uuid
  pub job_type : String
  pub idempotency_key : IdempotencyKey
  pub state : TorrentJobState
  pub attempt_count : ℕ
  pub max_attempts : ℕ
  pub available_at : Instant
  pub timeout_at : Option Instant
  pub claimed_by : Option String
  pub claim_expires_at : Option Instant
  pub cancel_requested_at : Option Instant
  pub last_error_code : Option String
  pub finished_at : Option Instant
  pub created_at : Instant
  pub updated_at : Instant

-- The members of the states' `in (...)` tests.
abbrev pub is_queued : TorrentJobState → Bool
is_queued queued = true
is_queued _ = false

abbrev pub is_running : TorrentJobState → Bool
is_running running = true
is_running _ = false

-- `ACTIVE_REQUEST_STATES`
abbrev pub is_active_state : TorrentRequestState → Bool
is_active_state requested = true
is_active_state active = true
is_active_state TorrentRequestState.ready = true
is_active_state _ = false

-- REQUESTED or ACTIVE: a subscription whose content is not there yet.
abbrev pub is_pending_state : TorrentRequestState → Bool
is_pending_state requested = true
is_pending_state active = true
is_pending_state _ = false
