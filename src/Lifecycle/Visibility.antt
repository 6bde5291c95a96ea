-- ===== src/Lifecycle/Visibility.antt =====
-- backend/app/scheduler/queue_visibility.py: what a user sees of the waiting queue.
use world_of_seeds.Prelude.{
  ℕ, ◌+◌, String, ◌≡◌, Bool, true, false, not, ◌&&◌, Option, none, some, List, [], ◌∷◌, map, arith,
  ltb, ◌==◌, if◌then◌else◌, between, is_some, length, where_rows, any,
}
use world_of_seeds.Prelude.Sorting.{sort_by}
use world_of_seeds.Models.{
  Uuid, Instant, ManagedTorrent, ManagedTorrentState, User, is_pending_state,
}
use world_of_seeds.Jobs.Validation.{codes}
use world_of_seeds.Storage.{Tables}

pub data TorrentQueueStatus : Type 0 where
  waiting downloading stalled cooldown : TorrentQueueStatus

pub record TorrentQueueVisibility : Type 0 where
  pub status : TorrentQueueStatus
  pub position_estimate : Option ℕ
  pub total_estimate : Option ℕ

abbrev pub is_queue_state : ManagedTorrentState → Bool
is_queue_state ManagedTorrentState.downloading = true
is_queue_state ManagedTorrentState.paused = true
is_queue_state _ = false

abbrev is_waiting_state : ManagedTorrentState → Bool
is_waiting_state ManagedTorrentState.pending = true
is_waiting_state ManagedTorrentState.adding = true
is_waiting_state ManagedTorrentState.downloading = true
is_waiting_state ManagedTorrentState.paused = true
is_waiting_state ManagedTorrentState.retry_wait = true
is_waiting_state _ = false

-- `scheduler_retry_at is not None and scheduler_retry_at > now`
abbrev pub is_cooling : Option Instant → Instant → Bool
is_cooling none now = false
is_cooling (some t) now = ltb now t

-- `lower` on the letters that a prefix of `stalled` has.
abbrev lower : ℕ → ℕ
lower c = if between b'A' b'Z' c then c + 32 else c

abbrev starts_with : List ℕ → List ℕ → Bool
starts_with [] cs = true
starts_with (p ∷ ps) [] = false
starts_with (p ∷ ps) (c ∷ cs) = c == p && starts_with ps cs

abbrev reports_stalled : Option String → Bool
reports_stalled none = false
reports_stalled (some s) = starts_with (codes "stalled") (map lower (codes s))

unfoldable pub torrent_queue_status : ManagedTorrent → Instant → Option TorrentQueueStatus
torrent_queue_status t now =
    if not (is_waiting_state t.state)
    then none
    else if is_cooling t.scheduler_retry_at now
    then some cooldown
    else if reports_stalled t.qb_state
    then some stalled
    else if t.desired_active
    then some downloading
    else some waiting

-- The rows of users that the join finds.
abbrev pub is_present : User → Bool
is_present u = u.is_active && not (is_some u.deleted_at)

unfoldable pub is_active_user : List User → Uuid → Bool
is_active_user users i = any (λ (u : User). u.id == i && is_present u) users

-- A torrent that may have a rank.
unfoldable pub is_rankable : Instant → ManagedTorrent → Bool
is_rankable now t =
    is_queue_state t.state && not t.desired_active && not (is_cooling t.scheduler_retry_at now)

unfoldable pub has_active_owner : Tables → ManagedTorrent → Bool
unfolding is_active_user
has_active_owner db t =
    any
      (λ r.
        r.managed_torrent_id == t.id
        && is_pending_state r.state
        && is_active_user db.users r.user_id)
      db.requests

unfoldable pub is_ranked_queue_member : Tables → ManagedTorrent → Instant → Bool
unfolding is_rankable has_active_owner
is_ranked_queue_member db t now = is_rankable now t && has_active_owner db t

-- `other_active_owner`
unfoldable pub has_other_owner : Tables → Uuid → ManagedTorrent → Bool
unfolding is_active_user
has_other_owner db user t =
    any
      (λ r.
        r.managed_torrent_id == t.id
        && not (r.user_id == user)
        && is_pending_state r.state
        && is_active_user db.users r.user_id)
      db.requests

unfoldable pub is_owner : Tables → Uuid → ManagedTorrent → Bool
is_owner db user t =
    any (λ r. r.managed_torrent_id == t.id && r.user_id == user && is_pending_state r.state)
      db.requests

unfoldable pub user_active_status_changes_ranked_queue : Tables → Uuid → Instant → Bool
unfolding is_rankable has_other_owner is_owner
user_active_status_changes_ranked_queue db user now =
    any (λ t. is_owner db user t && (is_rankable now t && not (has_other_owner db user t)))
      db.torrents

-- The ranked torrents, in the order of the window.
unfoldable pub ranked : Tables → Instant → List ManagedTorrent
unfolding is_ranked_queue_member sort_by
ranked db now =
    sort_by (λ t. t.created_at ∷ t.id ∷ [])
      (where_rows (λ t. is_ranked_queue_member db t now) db.torrents)

-- `row_number()` of the torrent of this identifier
unfoldable pub row_number : List ManagedTorrent → Uuid → Option ℕ
row_number [] i = none
row_number (t ∷ ts) i = let behind = row_number ts i in if t.id == i then some 1 else map_suc behind
  where
    map_suc : Option ℕ → Option ℕ
    map_suc none = none
    map_suc (some n) = some (n + 1)

abbrev is_waiting : Option TorrentQueueStatus → Bool
is_waiting (some waiting) = true
is_waiting _ = false

abbrev visibility_of : Option TorrentQueueStatus → Option TorrentQueueVisibility
visibility_of none = none
visibility_of (some s) =
    some (record { status = s; position_estimate = none; total_estimate = none })

abbrev placed : ℕ → Option TorrentQueueVisibility → Option ℕ → Option TorrentQueueVisibility
placed total visibility none = visibility
placed total visibility (some n) =
    some (record { status = waiting; position_estimate = some n; total_estimate = some total })

-- What the page shows of one of its torrents.
unfoldable pub visibility : Tables → Instant → ManagedTorrent → Option TorrentQueueVisibility
unfolding torrent_queue_status ranked row_number
visibility db now t =
    let status = torrent_queue_status t now in
    if is_waiting status && is_queue_state t.state
    then placed (length (ranked db now)) (visibility_of status) (row_number (ranked db now) t.id)
    else visibility_of status

unfoldable pub load_torrent_queue_visibility :
    Tables → List ManagedTorrent → Instant → List (Uuid × Option TorrentQueueVisibility)
unfolding visibility
load_torrent_queue_visibility db torrents now = map (λ t. (t.id, visibility db now t)) torrents

-- The table where an administrator has set the user's `is_active`.
unfoldable pub set_active : Uuid → Bool → List User → List User
set_active i b [] = []
set_active i b (u ∷ us) = (if u.id == i then record u { is_active = b } else u) ∷ set_active i b us

abbrev pub with_active : Uuid → Bool → Tables → Tables
with_active i b db = record db { users = set_active i b db.users }

-- The user has a row and was not deleted.
abbrev pub is_known : List User → Uuid → Bool
is_known users i = any (λ (u : User). u.id == i && not (is_some u.deleted_at)) users

pub is_active_user-set_active :
    (user : Uuid) (b : Bool) (users : List User) (i : Uuid)
    → is_active_user (set_active user b users) i
      ≡ (if i == user then b && is_known users user else is_active_user users i)
unfolding is_active_user set_active
is_active_user-set_active user b [] i = ground arith
is_active_user-set_active user b (u ∷ us) i = ground (arith, is_active_user-set_active user b us i)
