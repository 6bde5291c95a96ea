-- ===== src/Lifecycle/Requests.antt =====
-- backend/app/torrents/deduplication.py: one canonical torrent and one active right for a request.
use world_of_seeds.Prelude.{
  ℕ, ◌+◌, String, Bool, true, false, not, ◌&&◌, ◌||◌, Option, none, some, List, ◌∷◌, map, head?,
  str_eq, leb, ◌==◌, if◌then◌else◌, between, is_some, length, where_rows, any, all, Result, ok, err,
  ◌>>=◌, ◌>>◌, guard,
}
use world_of_seeds.Models.{
  Uuid, Instant, hours, ManagedTorrent, ManagedTorrentState, TorrentRequest, TorrentRequestState,
  TorrentJob, TorrentJobState, StoragePressureState, is_active_state, is_queued, is_running,
}
use world_of_seeds.Jobs.Validation.{codes}
use world_of_seeds.Jobs.Queue.{Jobs}
use world_of_seeds.Storage.{Tables, StorageDiskSnapshot, StorageAdmissionPolicy, StorageError}
use world_of_seeds.Storage.Accounting.{
  find_torrent, prepare_storage_accounting, apply_storage_accounting, is_purged,
}
use world_of_seeds.Lifecycle.Rows.{Store, update_torrent}
use world_of_seeds.Lifecycle.Visibility.{is_active_user, is_cooling, is_ranked_queue_member}
use world_of_seeds.Lifecycle.Rights.{end_request, expired_row, is_due_request}

-- The `TorrentDeduplicationError`s, those that it stands above, and what the storage refuses.
pub data DeduplicationError : Type 0 where
  bad_info_hash bad_name bad_total_size bad_unsubscribe_hours owner_missing metadata_conflict
        purge_in_progress torrent_race request_race :
      DeduplicationError
  refused : StorageError → DeduplicationError

pub record ManagedTorrentRequestResult : Type 0 where
  pub managed_torrent : ManagedTorrent
  pub request : TorrentRequest
  pub managed_torrent_created : Bool
  pub request_created : Bool
  pub managed_torrent_reactivated : Bool
  pub retention_extended : Bool
  pub storage_pressure : StoragePressureState
  pub queue_membership_changed : Bool

-- What the caller gives, the new identifiers, and the time that `onupdate` writes.
pub record RequestInput : Type 0 where
  pub user_id : Uuid
  pub info_hash : String
  pub name : String
  pub total_size : ℕ
  pub now : Instant
  pub storage_policy : Option StorageAdmissionPolicy
  pub disk_snapshot : Option StorageDiskSnapshot
  pub auto_unsubscribe_hours : ℕ
  pub managed_id : Uuid
  pub storage_key : Uuid
  pub request_id : Uuid
  pub touched : Instant

abbrev is_hex : ℕ → Bool
is_hex c = between b'0' b'9' c || between b'a' b'f' c

-- `_INFO_HASH_RE.fullmatch`
unfoldable pub is_info_hash : String → Bool
is_info_hash text = length (codes text) == 40 && all is_hex (codes text)

unfoldable pub validate_metadata : RequestInput → Result DeduplicationError (Unit {0})
unfolding is_info_hash
validate_metadata i = do
  guard (is_info_hash i.info_hash) bad_info_hash
  guard (between 1 4096 (length (codes i.name)) && all (λ c. not (c == 0)) (codes i.name)) bad_name
  guard (leb i.total_size 9223372036854775807) bad_total_size

abbrev pub new_torrent : RequestInput → ManagedTorrent
new_torrent i = record {
  id = i.managed_id;
  info_hash = i.info_hash;
  storage_key = i.storage_key;
  name = i.name;
  total_size = i.total_size;
  state = ManagedTorrentState.pending;
  qb_state = none;
  progress = 0;
  retry_at = none;
  last_downloaded_bytes = none;
  scheduler_retry_at = none;
  purge_after = none;
  ready_at = none;
  retention_expires_at = none;
  purge_stop_pending = false;
  lifecycle_generation = 0;
  desired_active = false;
  admin_forced_active = false;
  created_at = i.now;
  updated_at = i.now;
}

-- The unique columns: `on_conflict_do_nothing` leaves the table where one of them is taken.
unfoldable pub torrent_conflicts : RequestInput → List ManagedTorrent → Bool
torrent_conflicts i ts =
    any
      (λ (t : ManagedTorrent).
        t.id == i.managed_id || str_eq t.info_hash i.info_hash || t.storage_key == i.storage_key)
      ts

unfoldable pub insert_managed_torrent : RequestInput → Tables → Tables × Bool
unfolding torrent_conflicts
insert_managed_torrent i db =
    if torrent_conflicts i db.torrents
    then (db, false)
    else (record db { torrents = new_torrent i ∷ db.torrents }, true)

abbrev pub new_request : RequestInput → Uuid → TorrentRequest
new_request i torrent_id = record {
  id = i.request_id;
  user_id = i.user_id;
  managed_torrent_id = torrent_id;
  state = TorrentRequestState.requested;
  ready_at = none;
  unsubscribe_at = none;
  cancelled_at = none;
  expires_at = none;
  created_at = i.now;
  updated_at = i.now;
}

-- The active right of the user, of which `uq_torrent_requests_active_owner` allows one.
abbrev pub is_right_of : Uuid → Uuid → TorrentRequest → Bool
is_right_of user torrent_id r =
    r.user_id == user && r.managed_torrent_id == torrent_id && is_active_state r.state

unfoldable pub active_request : List TorrentRequest → Uuid → Uuid → Option TorrentRequest
active_request rs user torrent_id = head? (where_rows (is_right_of user torrent_id) rs)

unfoldable pub request_conflicts : RequestInput → Uuid → List TorrentRequest → Bool
request_conflicts i torrent_id rs =
    any (λ r. r.id == i.request_id || is_right_of i.user_id torrent_id r) rs

-- The request that the insertion and the update after it leave, with the state of its torrent: the model
-- sets the state at once, since nothing reads the row in between.
unfoldable pub first_state : RequestInput → ManagedTorrent → TorrentRequest → TorrentRequest
first_state i t r = elim t.state [
  | ManagedTorrentState.ready ↦ record r {
    state = TorrentRequestState.ready;
    ready_at = some i.now;
    unsubscribe_at = some (i.now + hours i.auto_unsubscribe_hours);
    updated_at = i.touched;
  }
  | ManagedTorrentState.pending ↦ r
  | ManagedTorrentState.adding ↦ r
  | ManagedTorrentState.downloading ↦ record r {
    state = TorrentRequestState.active;
    updated_at = i.touched;
  }
  | ManagedTorrentState.paused ↦ record r {
    state = TorrentRequestState.active;
    updated_at = i.touched;
  }
  | ManagedTorrentState.retry_wait ↦ record r {
    state = TorrentRequestState.active;
    updated_at = i.touched;
  }
  | ManagedTorrentState.error ↦ record r {
    state = TorrentRequestState.active;
    updated_at = i.touched;
  }
  | ManagedTorrentState.purge_pending ↦ record r {
    state = TorrentRequestState.active;
    updated_at = i.touched;
  }
  | ManagedTorrentState.purging ↦ record r {
    state = TorrentRequestState.active;
    updated_at = i.touched;
  }
  | ManagedTorrentState.purged ↦ record r {
    state = TorrentRequestState.active;
    updated_at = i.touched;
  }
]

unfoldable pub insert_torrent_request : RequestInput → ManagedTorrent → Tables → Tables × Bool
unfolding request_conflicts first_state
insert_torrent_request i t db =
    if request_conflicts i t.id db.requests
    then (db, false)
    else (record db { requests = first_state i t (new_request i t.id) ∷ db.requests }, true)

-- `_cancel_deferred_purge_jobs`
unfoldable pub cancel_purge_job : Uuid → Instant → TorrentJob → TorrentJob
cancel_purge_job torrent_id now job =
    if job.managed_torrent_id == torrent_id
      && str_eq job.job_type "PURGE_TORRENT"
      && (is_queued job.state || is_running job.state)
    then if is_queued job.state
      then record job {
        state = TorrentJobState.cancelled;
        cancel_requested_at = some now;
        finished_at = some now;
        updated_at = now;
      }
      else record job { cancel_requested_at = some now; updated_at = now }
    else job

unfoldable pub cancel_deferred_purge_jobs : Uuid → Instant → Jobs → Jobs
unfolding cancel_purge_job
cancel_deferred_purge_jobs torrent_id now jobs = map (cancel_purge_job torrent_id now) jobs

-- The torrent as a new right finds it: purged content starts over, and a purge that is due later is called
-- off. The second part tells whether its purge jobs are.
unfoldable pub revived :
    Instant → ManagedTorrent → Result DeduplicationError (ManagedTorrent × Bool)
revived now t = elim t.state [
  | ManagedTorrentState.purged ↦ ok (
    record t {
      state = ManagedTorrentState.pending;
      progress = 0;
      qb_state = none;
      retry_at = none;
      purge_after = none;
      ready_at = none;
      retention_expires_at = none;
      purge_stop_pending = false;
      updated_at = now;
    },
    false,
  )
  | ManagedTorrentState.purge_pending ↦ recalled now t
  | ManagedTorrentState.purging ↦ err purge_in_progress
  | ManagedTorrentState.pending ↦ ok (kept now t)
  | ManagedTorrentState.adding ↦ ok (kept now t)
  | ManagedTorrentState.downloading ↦ ok (kept now t)
  | ManagedTorrentState.paused ↦ ok (kept now t)
  | ManagedTorrentState.retry_wait ↦ ok (kept now t)
  | ManagedTorrentState.error ↦ ok (kept now t)
  | ManagedTorrentState.ready ↦ ok (kept now t)
]
  where
    kept : Instant → ManagedTorrent → ManagedTorrent × Bool
    kept now t =
        if is_some t.purge_after
        then (
          record t {
            admin_forced_active = false;
            purge_stop_pending = false;
            lifecycle_generation = t.lifecycle_generation + 1;
            purge_after = none;
            updated_at = now;
          },
          true,
        )
        else (t, false)

    recalled : Instant → ManagedTorrent → Result DeduplicationError (ManagedTorrent × Bool)
    recalled now t = do
      guard (is_cooling t.purge_after now) purge_in_progress
      ok (
        record t {
          state =
              (if leb 1000000 t.progress
                then ManagedTorrentState.ready
                else ManagedTorrentState.downloading);
          purge_after = none;
          purge_stop_pending = false;
          updated_at = now;
        },
        true,
      )

abbrev pub refuse {ℓ} : {A : Type ℓ} → Result StorageError A → Result DeduplicationError A
refuse (ok a) = ok a
refuse (err e) = err (refused e)

abbrev pub found_or {ℓ} : {A : Type ℓ} → DeduplicationError → Option A → Result DeduplicationError A
found_or e none = err e
found_or e (some a) = ok a

-- A right whose deadline has passed ends before the new one is counted.
unfoldable pub expire_due : RequestInput → ManagedTorrent → Tables → Tables
unfolding active_request end_request expired_row is_due_request
expire_due i t db = elim (active_request db.requests i.user_id t.id) [
  | none ↦ db
  | some r ↦
      let ended = end_request (expired_row i.now) t.total_size i.now r db in
      if is_due_request i.now r then ended else db
]

-- The accounting, and the right that it is for; the second part tells whether the right is new.
unfoldable pub grant :
    RequestInput
    → ManagedTorrent
    → Bool
    → Tables
    → Result DeduplicationError (Tables × Bool × TorrentRequest × StoragePressureState)
unfolding prepare_storage_accounting insert_torrent_request active_request apply_storage_accounting
grant i t missing db = do
  (prepared, context) ← refuse (
      prepare_storage_accounting db i.user_id i.info_hash i.total_size i.storage_policy
        i.disk_snapshot i.now (some missing))
  let inserted = insert_torrent_request i t prepared
  r ← found_or request_race (active_request inserted.0.requests i.user_id t.id)
  ok (
    apply_storage_accounting context inserted.1 missing i.total_size i.now inserted.0,
    inserted.1,
    r,
    context.pressure,
  )

-- From the torrent's row on, which the upsert has left.
unfoldable pub admit_request :
    RequestInput
    → Bool
    → ManagedTorrent
    → Tables
    → Jobs
    → Result DeduplicationError (Store × ManagedTorrentRequestResult)
unfolding is_ranked_queue_member revived update_torrent cancel_deferred_purge_jobs expire_due grant
admit_request i created t db jobs = do
  guard (str_eq t.name i.name && t.total_size == i.total_size) metadata_conflict
  let was_ranked = is_ranked_queue_member db t i.now
  let reactivated = is_purged t.state
  (u, called_off) ← revived i.now t
  let changed = record db { torrents = update_torrent t.id (λ _. u) db.torrents }
  (granted, request_created, r, pressure) ←
      grant i u (created || reactivated) (expire_due i u changed)
  let is_ranked = is_ranked_queue_member granted u i.now
  ok (
    record {
      tables = granted;
      jobs = (if called_off then cancel_deferred_purge_jobs t.id i.now jobs else jobs);
    },
    record {
      managed_torrent = u;
      request = r;
      managed_torrent_created = created;
      request_created = request_created;
      managed_torrent_reactivated = reactivated;
      retention_extended = false;
      storage_pressure = pressure;
      queue_membership_changed = (if was_ranked then not is_ranked else is_ranked);
    },
  )

unfoldable pub create_or_get_torrent_request :
    RequestInput → Store → Result DeduplicationError (Store × ManagedTorrentRequestResult)
unfolding validate_metadata is_active_user insert_managed_torrent find_torrent admit_request
create_or_get_torrent_request i s = do
  validate_metadata i
  guard (between 1 2160 i.auto_unsubscribe_hours) bad_unsubscribe_hours
  guard (is_active_user s.tables.users i.user_id) owner_missing
  let inserted = insert_managed_torrent i s.tables
  t ← found_or torrent_race (find_torrent inserted.0.torrents i.info_hash)
  admit_request i inserted.1 t inserted.0 s.jobs
