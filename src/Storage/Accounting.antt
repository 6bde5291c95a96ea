-- ===== src/Storage/Accounting.antt =====
-- backend/app/storage/accounting.py: `prepare_storage_accounting`, `apply_storage_accounting` and
-- `reconcile_storage_counters`. The transaction's tables are the record `Tables`; an error rolls them
-- back, so it carries none.
use world_of_seeds.Prelude.{
  ℕ, ◌+◌, ◌-◌, String, Bool, true, false, not, ◌&&◌, ◌||◌, Option, none, some, List, [], ◌∷◌, head?,
  str_eq, leb, ◌==◌, if◌then◌else◌, is_some, where_rows, any, all, Result, ok, err, ◌>>=◌, ◌>>◌,
  guard,
}
use world_of_seeds.Prelude.Dict.{get_or, put}
use world_of_seeds.Models.{
  Uuid, Instant, StoragePressureState, normal, critical, StorageLedger, UserStorageUsage,
  ManagedTorrent, ManagedTorrentState, purged, is_active_state,
}
use world_of_seeds.Storage.{
  StorageDiskSnapshot, StorageAdmissionPolicy, StorageError, classify_storage_pressure,
  managed_reservation_capacity, Tables, policy_required, disk_required, user_quota_exceeded,
  managed_quota_exceeded, managed_capacity_exceeded, disk_pressure_critical,
}

-- The usage row and the ledger are locked rows of the tables: they are known by their keys.
pub record StorageAccountingContext : Type 0 where
  pub user_id : Uuid
  pub pressure : StoragePressureState

abbrev pub new_usage : Uuid → Instant → UserStorageUsage
new_usage user now = record { user_id = user; logical_bytes = 0; updated_at = now }

abbrev pub new_storage_ledger : Instant → StorageLedger
new_storage_ledger now = record {
  managed_bytes = 0;
  disk_total_bytes = 0;
  disk_free_bytes = 0;
  pressure = normal;
  updated_at = now;
}

-- `_usage_row`
unfoldable pub usage_row : Tables → Uuid → Instant → UserStorageUsage
unfolding get_or
usage_row db user now = get_or db.usages user (new_usage user now)

abbrev pub ledger_or : Option StorageLedger → Instant → StorageLedger
ledger_or none now = new_storage_ledger now
ledger_or (some l) now = l

-- `lock_storage_ledger`
unfoldable pub lock_storage_ledger : Tables → Instant → StorageLedger
lock_storage_ledger db now = ledger_or db.ledger now

-- `SELECT ... WHERE info_hash = ...`
unfoldable pub find_torrent : List ManagedTorrent → String → Option ManagedTorrent
find_torrent torrents info_hash = head? (where_rows (λ t. str_eq t.info_hash info_hash) torrents)

-- `existing_request is not None`
unfoldable pub has_request : Tables → Uuid → Option ManagedTorrent → Bool
has_request db user none = false
has_request db user (some t) =
    any (λ r. r.user_id == user && r.managed_torrent_id == t.id && is_active_state r.state)
      db.requests

abbrev pub is_purged : ManagedTorrentState → Bool
is_purged purged = true
is_purged _ = false

unfoldable pub content_missing : Option ManagedTorrent → Option Bool → Bool
content_missing t (some b) = b
content_missing none none = true
content_missing (some t) none = is_purged t.state

-- The ledger with the pressure that the disk would be under.
unfoldable pub observe_disk :
    Option StorageDiskSnapshot
    → Option StorageAdmissionPolicy
    → ℕ
    → Instant
    → StorageLedger
    → Result StorageError StorageLedger
unfolding classify_storage_pressure
observe_disk none policy added now l = ok l
observe_disk (some disk) none added now l = err policy_required
observe_disk (some disk) (some policy) added now l = ok (record l {
  disk_total_bytes = disk.total_bytes;
  disk_free_bytes = disk.free_bytes;
  pressure =
      classify_storage_pressure (record disk { free_bytes = disk.free_bytes - added }) policy;
  updated_at = now;
})

abbrev pub is_critical : StoragePressureState → Bool
is_critical critical = true
is_critical _ = false

unfoldable pub admit_content :
    Option StorageDiskSnapshot
    → StorageAdmissionPolicy
    → ℕ
    → StorageLedger
    → Result StorageError (Unit {0})
unfolding managed_reservation_capacity
admit_content disk policy total l = do
  guard (policy.managed_max_bytes == 0 || leb (l.managed_bytes + total) policy.managed_max_bytes)
      (managed_quota_exceeded l.pressure)
  guard (is_some disk) disk_required
  guard
      (all
        (λ (d : StorageDiskSnapshot).
          leb (l.managed_bytes + total) (managed_reservation_capacity d policy))
        (elim disk [ none ↦ [] | some d ↦ d ∷ [] ]))
      (managed_capacity_exceeded l.pressure)
  guard (not (is_critical l.pressure)) (disk_pressure_critical l.pressure)

unfoldable pub admit_storage :
    Option StorageAdmissionPolicy
    → Option StorageDiskSnapshot
    → Bool
    → Bool
    → ℕ
    → UserStorageUsage
    → StorageLedger
    → Result StorageError (Unit {0})
unfolding admit_content
admit_storage none disk known missing total usage l = ok tt
admit_storage (some policy) disk known missing total usage l = do
  guard
      (known
        || policy.user_max_bytes == 0
        || leb (usage.logical_bytes + total) policy.user_max_bytes)
      (user_quota_exceeded l.pressure)
  if missing then admit_content disk policy total l else ok tt

unfoldable pub prepare_storage_accounting :
    Tables
    → Uuid
    → String
    → ℕ
    → Option StorageAdmissionPolicy
    → Option StorageDiskSnapshot
    → Instant
    → Option Bool
    → Result StorageError (Tables × StorageAccountingContext)
unfolding usage_row lock_storage_ledger find_torrent has_request content_missing observe_disk
    admit_storage put
prepare_storage_accounting db user info_hash total policy disk now physical_content_missing = do
  let usage = usage_row db user now
  let existing = find_torrent db.torrents info_hash
  let missing = content_missing existing physical_content_missing
  l ← observe_disk disk policy (if missing then total else 0) now (lock_storage_ledger db now)
  admit_storage policy disk (has_request db user existing) missing total usage l
  ok (
    record db { usages = put db.usages user usage; ledger = some l },
    record { user_id = user; pressure = l.pressure },
  )

unfoldable pub apply_storage_accounting :
    StorageAccountingContext → Bool → Bool → ℕ → Instant → Tables → Tables
unfolding usage_row lock_storage_ledger put
apply_storage_accounting context request_created managed_torrent_created total now db =
    let usage = usage_row db context.user_id now in
    let l = lock_storage_ledger db now in
    record db {
      usages =
          (if request_created
            then put db.usages context.user_id
                (record usage { logical_bytes = usage.logical_bytes + total; updated_at = now })
            else db.usages);
      ledger =
          (if managed_torrent_created
            then some (record l { managed_bytes = l.managed_bytes + total; updated_at = now })
            else db.ledger);
    }
