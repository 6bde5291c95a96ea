-- ===== src/Storage/Reconcile.antt =====
-- backend/app/storage/accounting.py: `reconcile_storage_counters`.
use world_of_seeds.Prelude.{
  ℕ, ◌+◌, Bool, not, ◌&&◌, Option, none, some, List, [], ◌∷◌, map, ltb, ◌==◌, if◌then◌else◌,
  between, length, take, where_rows, sum_of, Result, ok, ◌>>◌, guard,
}
use world_of_seeds.Prelude.Sorting.{sort_by}
use world_of_seeds.Prelude.Dict.{put}
use world_of_seeds.Models.{
  Uuid, Instant, StoragePressureState, StorageLedger, User, ManagedTorrent, TorrentRequest,
  is_active_state,
}
use world_of_seeds.Storage.{
  StorageDiskSnapshot, StorageAdmissionPolicy, StorageError, classify_storage_pressure, Tables,
  bad_batch_size,
}
use world_of_seeds.Storage.Accounting.{is_purged, usage_row, lock_storage_ledger}

pub record StorageReconcileResult : Type 0 where
  pub processed_users : ℕ
  pub next_user_id : Option Uuid
  pub completed : Bool
  pub managed_bytes : ℕ
  pub pressure : StoragePressureState

-- The sizes that a request's join with its torrent adds up.
abbrev pub joined_size : List ManagedTorrent → Uuid → ℕ
joined_size torrents id = sum_of (λ t. if t.id == id then t.total_size else 0) torrents

-- `SUM(total_size)` over the user's active requests
unfoldable pub logical_bytes_of : List ManagedTorrent → List TorrentRequest → Uuid → ℕ
logical_bytes_of torrents requests user =
    sum_of
      (λ r.
        if r.user_id == user && is_active_state r.state
        then joined_size torrents r.managed_torrent_id
        else 0)
      requests

-- `SUM(total_size)` over the torrents that are not purged
unfoldable pub managed_bytes_of : List ManagedTorrent → ℕ
managed_bytes_of torrents = sum_of (λ t. if is_purged t.state then 0 else t.total_size) torrents

-- The users behind the cursor, in the order of their identifiers.
unfoldable pub users_after : List User → Option Uuid → List Uuid
unfolding sort_by
users_after users none = sort_by (λ i. i ∷ []) (map (λ u. u.id) users)
users_after users (some after) =
    sort_by (λ i. i ∷ []) (where_rows (λ i. ltb after i) (map (λ u. u.id) users))

abbrev pub last : List Uuid → Option Uuid
last [] = none
last (x ∷ []) = some x
last (x ∷ y ∷ xs) = last (y ∷ xs)

-- The loop over the selected users.
unfoldable pub recount_users : List Uuid → Instant → Tables → Tables
unfolding usage_row logical_bytes_of put
recount_users [] now db = db
recount_users (user ∷ users) now db =
    let usage = usage_row db user now in
    recount_users users now (record db {
      usages = put db.usages user (record usage {
        logical_bytes = logical_bytes_of db.torrents db.requests user;
        updated_at = now;
      });
    })

unfoldable pub recount_ledger :
    StorageAdmissionPolicy → StorageDiskSnapshot → Instant → Tables → StorageLedger
unfolding lock_storage_ledger managed_bytes_of classify_storage_pressure
recount_ledger policy disk now db = record (lock_storage_ledger db now) {
  managed_bytes = managed_bytes_of db.torrents;
  disk_total_bytes = disk.total_bytes;
  disk_free_bytes = disk.free_bytes;
  pressure = classify_storage_pressure disk policy;
  updated_at = now;
}

unfoldable pub reconcile_storage_counters :
    StorageAdmissionPolicy
    → StorageDiskSnapshot
    → ℕ
    → Option Uuid
    → Instant
    → Tables
    → Result StorageError (Tables × StorageReconcileResult)
unfolding users_after recount_users recount_ledger
reconcile_storage_counters policy disk batch_size after now db = do
  guard (between 1 500 batch_size) bad_batch_size
  let user_ids = take (batch_size + 1) (users_after db.users after)
  let has_more = ltb batch_size (length user_ids)
  let selected = take batch_size user_ids
  let recounted = recount_users selected now db
  let l = recount_ledger policy disk now recounted
  ok (
    record recounted { ledger = some l },
    record {
      processed_users = length selected;
      next_user_id = (if has_more then last selected else none);
      completed = not has_more;
      managed_bytes = l.managed_bytes;
      pressure = l.pressure;
    },
  )
