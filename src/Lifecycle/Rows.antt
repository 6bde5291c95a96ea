-- ===== src/Lifecycle/Rows.antt =====
-- backend/app/torrents/lifecycle.py: the rows that its functions read and change, and the purge they
-- schedule.
use world_of_seeds.Prelude.{
  ℕ, ◌+◌, ◌-◌, ◌&&◌, ◌||◌, Option, none, some, List, [], ◌∷◌, ◌++◌, head?, ◌==◌, if◌then◌else◌,
  where_rows, count_rows,
}
use world_of_seeds.Prelude.Dict.{get, put}
use world_of_seeds.Models.{
  Uuid, Instant, ManagedTorrent, TorrentRequest, TorrentJob, queued, is_active_state, purge,
}
use world_of_seeds.Jobs.Queue.{Jobs}
use world_of_seeds.Storage.{Tables}

-- The tables and the jobs.
pub record Store : Type 0 where
  pub tables : Tables
  pub jobs : Jobs

-- The changes to the row of an identifier.
unfoldable pub update_torrent :
    Uuid → (ManagedTorrent → ManagedTorrent) → List ManagedTorrent → List ManagedTorrent
update_torrent i f [] = []
update_torrent i f (t ∷ ts) = (if t.id == i then f t else t) ∷ update_torrent i f ts

unfoldable pub update_request :
    Uuid → (TorrentRequest → TorrentRequest) → List TorrentRequest → List TorrentRequest
update_request i f [] = []
update_request i f (r ∷ rs) = (if r.id == i then f r else r) ∷ update_request i f rs

-- `session.get(ManagedTorrent, id)`, and the row of an owner's request.
unfoldable pub get_torrent : List ManagedTorrent → Uuid → Option ManagedTorrent
get_torrent ts i = head? (where_rows (λ t. t.id == i) ts)

unfoldable pub find_request : List TorrentRequest → Uuid → Uuid → Option TorrentRequest
find_request rs i user = head? (where_rows (λ r. r.id == i && r.user_id == user) rs)

-- `usage.logical_bytes = max(0, usage.logical_bytes - total_size)`, where the row is there
unfoldable pub release_usage : Uuid → ℕ → Instant → Tables → Tables
unfolding get put
release_usage user size now db = record db {
  usages = elim (get db.usages user) [
    | none ↦ db.usages
    | some u ↦
        put db.usages user (record u { logical_bytes = u.logical_bytes - size; updated_at = now })
  ];
}

-- `remaining`
unfoldable pub remaining : Tables → Uuid → ℕ
remaining db torrent_id =
    count_rows (λ r. r.managed_torrent_id == torrent_id && is_active_state r.state) db.requests

-- `_schedule_deferred_purge`: the torrent, and the new job of this identifier and age
unfoldable pub deferred : Instant → Instant → ManagedTorrent → ManagedTorrent
deferred purge_after now t = record t {
  lifecycle_generation = t.lifecycle_generation + 1;
  purge_stop_pending = t.admin_forced_active || t.purge_stop_pending;
  purge_after = some purge_after;
  updated_at = now;
}

unfoldable pub purge_job : Uuid → Instant → ManagedTorrent → Option Uuid → Instant → TorrentJob
purge_job job_id created t origin purge_after = record {
  id = job_id;
  managed_torrent_id = t.id;
  torrent_request_id = origin;
  job_type = "PURGE_TORRENT";
  idempotency_key = purge t.id (t.lifecycle_generation + 1);
  state = queued;
  attempt_count = 0;
  max_attempts = 20;
  available_at = purge_after;
  timeout_at = none;
  claimed_by = none;
  claim_expires_at = none;
  cancel_requested_at = none;
  last_error_code = none;
  finished_at = none;
  created_at = created;
  updated_at = created;
}

unfoldable pub schedule_deferred_purge :
    Uuid → Instant → ManagedTorrent → Option Uuid → Instant → Instant → Store → Store
unfolding update_torrent deferred purge_job
schedule_deferred_purge job_id created t origin purge_after now s = record s {
  tables = record s.tables {
    torrents = update_torrent t.id (deferred purge_after now) s.tables.torrents;
  };
  jobs = s.jobs ++ purge_job job_id created t origin purge_after ∷ [];
}
