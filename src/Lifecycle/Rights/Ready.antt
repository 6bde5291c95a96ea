-- ===== src/Lifecycle/Rights/Ready.antt =====
-- backend/app/torrents/lifecycle.py: the rights of a torrent become ready.
use world_of_seeds.Prelude.{
  ℕ, ◌+◌, Bool, true, false, not, ◌&&◌, some, List, [], ◌∷◌, map, ◌==◌, if◌then◌else◌, between,
  is_some, length, take, where_rows, Result, ok, ◌>>◌, guard,
}
use world_of_seeds.Prelude.Sorting.{sort_by}
use world_of_seeds.Models.{
  Uuid, Instant, hours, ManagedTorrent, ManagedTorrentState, TorrentRequest, TorrentRequestState,
  is_pending_state,
}
use world_of_seeds.Storage.{Tables}
use world_of_seeds.Lifecycle.Rows.{update_torrent, update_request}

-- The `ValueError`s.
pub data LifecycleError : Type 0 where
  torrent_not_ready bad_lifecycle_hours bad_batch_limit : LifecycleError

unfoldable pub validate_lifecycle_hours : ℕ → Result LifecycleError (Unit {0})
validate_lifecycle_hours value = guard (between 1 2160 value) bad_lifecycle_hours

abbrev pub is_ready_state : TorrentRequestState → Bool
is_ready_state TorrentRequestState.ready = true
is_ready_state _ = false

abbrev pub is_ready_torrent : ManagedTorrentState → Bool
is_ready_torrent ManagedTorrentState.ready = true
is_ready_torrent _ = false

-- `touched` is the time of the update, which `onupdate` writes.
unfoldable pub set_ready_at : Instant → Instant → ManagedTorrent → ManagedTorrent
set_ready_at touched now t =
    if is_some t.ready_at then t else record t { ready_at = some now; updated_at = touched }

unfoldable pub ready_row : Instant → Instant → TorrentRequest → TorrentRequest
ready_row now deadline r = record r {
  state = TorrentRequestState.ready;
  ready_at = some now;
  unsubscribe_at = some deadline;
  updated_at = now;
}

-- The rows of the selection are changed in place.
unfoldable pub change_rows :
    List TorrentRequest
    → (TorrentRequest → TorrentRequest)
    → List TorrentRequest
    → List TorrentRequest
unfolding update_request
change_rows [] f rs = rs
change_rows (x ∷ xs) f rs = change_rows xs f (update_request x.id f rs)

unfoldable pub pending_requests : Tables → Uuid → List TorrentRequest
unfolding sort_by
pending_requests db torrent_id =
    sort_by (λ r. r.user_id ∷ r.id ∷ [])
      (where_rows (λ r. r.managed_torrent_id == torrent_id && is_pending_state r.state) db.requests)

unfoldable pub mark_ready_requests :
    Instant
    → ManagedTorrent
    → Instant
    → ℕ
    → Tables
    → Result LifecycleError (Tables × List TorrentRequest)
unfolding validate_lifecycle_hours pending_requests change_rows ready_row update_torrent
    set_ready_at
mark_ready_requests touched t now auto_unsubscribe_hours db = do
  guard (is_ready_torrent t.state) torrent_not_ready
  validate_lifecycle_hours auto_unsubscribe_hours
  let selected = pending_requests db t.id
  let set_ready = ready_row now (now + hours auto_unsubscribe_hours)
  ok (
    record db {
      torrents = update_torrent t.id (set_ready_at touched now) db.torrents;
      requests = change_rows selected set_ready db.requests;
    },
    map set_ready selected,
  )

unfoldable pub legacy_requests : Tables → (Uuid → Bool) → List TorrentRequest
unfolding sort_by
legacy_requests db locked =
    sort_by (λ r. r.id ∷ [])
      (where_rows
        (λ r. is_ready_state r.state && not (is_some r.unsubscribe_at) && not (locked r.id))
        db.requests)

unfoldable pub backfill_ready_unsubscribe_deadlines_batch :
    Instant → ℕ → ℕ → (Uuid → Bool) → Tables → Result LifecycleError (Tables × ℕ)
unfolding validate_lifecycle_hours legacy_requests change_rows
backfill_ready_unsubscribe_deadlines_batch now auto_unsubscribe_hours limit locked db = do
  validate_lifecycle_hours auto_unsubscribe_hours
  guard (between 1 500 limit) bad_batch_limit
  let selected = take limit (legacy_requests db locked)
  let deadline = now + hours auto_unsubscribe_hours
  ok (
    record db {
      requests =
          change_rows selected (λ r. record r { unsubscribe_at = some deadline; updated_at = now })
            db.requests;
    },
    length selected,
  )
