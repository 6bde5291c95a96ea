-- ===== src/Lifecycle/Rights/Cancel.antt =====
-- backend/app/torrents/lifecycle.py: a user cancels a right.
use world_of_seeds.Prelude.{
  ℕ, ◌+◌, Bool, true, false, not, ◌&&◌, Option, none, some, ◌==◌, if◌then◌else◌, any, Result, ok,
  ◌>>◌,
}
use world_of_seeds.Models.{
  Uuid, Instant, hours, ManagedTorrent, ManagedTorrentState, TorrentRequest, TorrentRequestState,
  User, is_active_state,
}
use world_of_seeds.Storage.{Tables}
use world_of_seeds.Lifecycle.Rows.{
  Store, get_torrent, find_request, remaining, deferred, schedule_deferred_purge,
}
use world_of_seeds.Lifecycle.Visibility.{is_ranked_queue_member}
use world_of_seeds.Lifecycle.Rights.Ready.{LifecycleError, validate_lifecycle_hours}
use world_of_seeds.Lifecycle.Rights.Expiry.{end_request}

pub record TorrentCancellationResult : Type 0 where
  pub request_id : Uuid
  pub managed_torrent_id : Uuid
  pub cancelled : Bool
  pub purge_scheduled : Bool
  pub purge_after : Option Instant
  pub queue_membership_changed : Bool

abbrev pub is_error : ManagedTorrentState → Bool
is_error ManagedTorrentState.error = true
is_error _ = false

abbrev pub is_cancelled : TorrentRequestState → Bool
is_cancelled TorrentRequestState.cancelled = true
is_cancelled _ = false

unfoldable pub cancelled_row : Instant → TorrentRequest → TorrentRequest
cancelled_row now r = record r {
  state = TorrentRequestState.cancelled;
  cancelled_at = some now;
  updated_at = now;
}

-- The torrent's row after the changes, for `is_ranked_queue_member`.
abbrev ranked_now : Bool → Tables → ManagedTorrent → Instant → Bool
ranked_now detect db t now = detect && is_ranked_queue_member db t now

-- A failed add has nothing to keep.
unfoldable pub cancel_deadline : ManagedTorrent → Instant → ℕ → Instant
cancel_deadline t now retention_hours =
    if is_error t.state then now else now + hours retention_hours

unfoldable pub cancel_active :
    Uuid
    → Instant
    → Instant
    → ℕ
    → Bool
    → TorrentRequest
    → ManagedTorrent
    → Store
    → Store × TorrentCancellationResult
unfolding is_ranked_queue_member end_request cancelled_row remaining schedule_deferred_purge
    deferred cancel_deadline
cancel_active job_id created now retention_hours detect r t s =
    let was_ranked = ranked_now detect s.tables t now in
    let db = end_request (cancelled_row now) t.total_size now r s.tables in
    let ended = record s { tables = db } in
    let is_last = remaining db t.id == 0 in
    let purge_after = cancel_deadline t now retention_hours in
    let kept = ranked_now detect db t now in
    let purged = schedule_deferred_purge job_id created t (some r.id) purge_after now ended in
    let after = ranked_now detect purged.tables (deferred purge_after now t) now in
    if is_last
    then (
      purged,
      record {
        request_id = r.id;
        managed_torrent_id = t.id;
        cancelled = true;
        purge_scheduled = true;
        purge_after = some purge_after;
        queue_membership_changed = (if was_ranked then not after else after);
      },
    )
    else (
      ended,
      record {
        request_id = r.id;
        managed_torrent_id = t.id;
        cancelled = true;
        purge_scheduled = false;
        purge_after = none;
        queue_membership_changed = (if was_ranked then not kept else kept);
      },
    )

unfoldable pub cancel_found :
    Uuid
    → Instant
    → Instant
    → ℕ
    → Bool
    → TorrentRequest
    → Option ManagedTorrent
    → Store
    → Store × Option TorrentCancellationResult
unfolding cancel_active
cancel_found job_id created now retention_hours detect r none s = (s, none)
cancel_found job_id created now retention_hours detect r (some t) s =
    let ended = cancel_active job_id created now retention_hours detect r t s in
    if is_cancelled r.state
    then (
      s,
      some (record {
        request_id = r.id;
        managed_torrent_id = t.id;
        cancelled = false;
        purge_scheduled = false;
        purge_after = t.purge_after;
        queue_membership_changed = false;
      }),
    )
    else if is_active_state r.state
    then (ended.0, some ended.1)
    else (s, none)

unfoldable pub cancel_owned_torrent_request :
    Uuid
    → Instant
    → Instant
    → Uuid
    → Uuid
    → ℕ
    → Bool
    → Store
    → Result LifecycleError (Store × Option TorrentCancellationResult)
unfolding validate_lifecycle_hours find_request get_torrent cancel_found
cancel_owned_torrent_request job_id created now user torrent_request_id retention_hours detect s =
    do
      validate_lifecycle_hours retention_hours
      ok (elim (find_request s.tables.requests torrent_request_id user) [
        | none ↦ (s, none)
        | some r ↦
            let ended =
              cancel_found job_id created now retention_hours detect r
                (get_torrent s.tables.torrents r.managed_torrent_id) s in
            if any (λ (u : User). u.id == user) s.tables.users then ended else (s, none)
      ])
