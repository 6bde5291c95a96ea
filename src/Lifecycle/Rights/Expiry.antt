-- ===== src/Lifecycle/Rights/Expiry.antt =====
-- backend/app/torrents/lifecycle.py: the batch that expires the due rights.
use world_of_seeds.Prelude.{
  ℕ, ◌+◌, min, Bool, false, not, ◌&&◌, Option, none, some, List, [], ◌∷◌, map, ltb, leb, ◌==◌,
  if◌then◌else◌, between, length, take, where_rows, any, Result, ok, ◌>>◌, guard,
}
use world_of_seeds.Prelude.Sorting.{sort_by}
use world_of_seeds.Models.{
  Uuid, Instant, hours, ManagedTorrent, TorrentRequest, TorrentRequestState,
}
use world_of_seeds.Storage.{Tables}
use world_of_seeds.Lifecycle.Rows.{
  Store, update_request, release_usage, remaining, schedule_deferred_purge,
}
use world_of_seeds.Lifecycle.Rights.Ready.{
  LifecycleError, bad_batch_limit, validate_lifecycle_hours, is_ready_state,
}

pub record ExpiredTorrentRequest : Type 0 where
  pub user_id : Uuid
  pub request_id : Uuid

pub record TorrentExpirationResult : Type 0 where
  pub managed_torrent_id : Uuid
  pub requests : List ExpiredTorrentRequest
  pub purge_job_id : Option Uuid

abbrev deadline_reached : Option Instant → Instant → Bool
deadline_reached none now = false
deadline_reached (some t) now = leb t now

-- `due`
unfoldable pub is_due_request : Instant → TorrentRequest → Bool
is_due_request now r = is_ready_state r.state && deadline_reached r.unsubscribe_at now

abbrev pub deadline_of : TorrentRequest → ℕ
deadline_of r = elim r.unsubscribe_at [ none ↦ 0 | some t ↦ t ]

-- `func.min(unsubscribe_at)` over the rows
unfoldable pub first_deadline : List TorrentRequest → ℕ
first_deadline [] = 0
first_deadline (r ∷ []) = deadline_of r
first_deadline (r ∷ s ∷ rs) = min (deadline_of r) (first_deadline (s ∷ rs))

unfoldable pub due_of : Instant → Tables → Uuid → List TorrentRequest
unfolding is_due_request
due_of now db torrent_id =
    where_rows (λ r. r.managed_torrent_id == torrent_id && is_due_request now r) db.requests

unfoldable pub due_torrents : Instant → ℕ → (Uuid → Bool) → Tables → List ManagedTorrent
unfolding sort_by first_deadline due_of
due_torrents now limit locked db = take limit (
    sort_by (λ t. first_deadline (due_of now db t.id) ∷ t.id ∷ [])
      (where_rows (λ t. ltb 0 (length (due_of now db t.id)) && not (locked t.id)) db.torrents))

unfoldable pub due_requests :
    Instant → ℕ → (Uuid → Bool) → List ManagedTorrent → Tables → List TorrentRequest
unfolding sort_by is_due_request
due_requests now limit locked torrents db = take limit (
    sort_by (λ r. deadline_of r ∷ r.id ∷ [])
      (where_rows
        (λ r.
          is_due_request now r
          && any (λ (t : ManagedTorrent). t.id == r.managed_torrent_id) torrents
          && not (locked r.id))
        db.requests))

unfoldable pub expired_row : Instant → TorrentRequest → TorrentRequest
expired_row now r = record r {
  state = TorrentRequestState.expired;
  expires_at = some now;
  updated_at = now;
}

-- A right ends: its row changes, and the bytes are no longer counted for its user.
unfoldable pub end_request :
    (TorrentRequest → TorrentRequest) → ℕ → Instant → TorrentRequest → Tables → Tables
unfolding update_request release_usage
end_request f size now r db =
    release_usage r.user_id size now (record db { requests = update_request r.id f db.requests })

unfoldable pub expire_requests : ℕ → Instant → List TorrentRequest → Tables → Tables
unfolding end_request expired_row
expire_requests size now [] db = db
expire_requests size now (r ∷ rs) db =
    expire_requests size now rs (end_request (expired_row now) size now r db)

abbrev pub origin : List TorrentRequest → Option Uuid
origin [] = none
origin (r ∷ rs) = some r.id

-- The round of the loop for one torrent and its due requests.
unfoldable pub expire_torrent :
    Uuid
    → Instant
    → Instant
    → ℕ
    → ManagedTorrent
    → List TorrentRequest
    → Store
    → Store × TorrentExpirationResult
unfolding expire_requests remaining schedule_deferred_purge
expire_torrent job_id created now retention_hours t requests s =
    let db = expire_requests t.total_size now requests s.tables in
    let expired = record s { tables = db } in
    let is_last = remaining db t.id == 0 in
    (
      if is_last
          then schedule_deferred_purge job_id created t (origin requests)
              (now + hours retention_hours) now expired
          else expired,
      record {
        managed_torrent_id = t.id;
        requests = map (λ r. record { user_id = r.user_id; request_id = r.id }) requests;
        purge_job_id = (if is_last then some job_id else none);
      },
    )

unfoldable pub expire_torrents :
    (Uuid → Uuid)
    → Instant
    → Instant
    → ℕ
    → List TorrentRequest
    → List ManagedTorrent
    → Store
    → Store × List TorrentExpirationResult
unfolding expire_torrent
expire_torrents job_id created now retention_hours due [] s = (s, [])
expire_torrents job_id created now retention_hours due (t ∷ ts) s =
    let round =
      expire_torrent (job_id t.id) created now retention_hours t
        (where_rows (λ r. r.managed_torrent_id == t.id) due) s in
    let rest = expire_torrents job_id created now retention_hours due ts round.0 in
    (rest.0, round.1 ∷ rest.1)

-- `job_id` are the identifiers of the new jobs, and `locked` tells the rows that others have locked.
unfoldable pub expire_ready_torrents_batch :
    (Uuid → Uuid)
    → Instant
    → (Uuid → Bool)
    → Instant
    → ℕ
    → ℕ
    → Store
    → Result LifecycleError (Store × List TorrentExpirationResult)
unfolding validate_lifecycle_hours due_torrents due_requests expire_torrents sort_by
expire_ready_torrents_batch job_id created locked now retention_hours limit s = do
  validate_lifecycle_hours retention_hours
  guard (between 1 500 limit) bad_batch_limit
  let torrents = due_torrents now limit locked s.tables
  let due = due_requests now limit locked torrents s.tables
  let has_due = λ (t : ManagedTorrent). any (λ r. r.managed_torrent_id == t.id) due
  ok (
      expire_torrents job_id created now retention_hours due
        (sort_by (λ t. t.id ∷ []) (where_rows has_due torrents)) s)
