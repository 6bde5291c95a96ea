-- ===== src/Storage.antt =====
-- backend/app/storage/accounting.py: the disk and policy checks, the disk pressure, the reservation
-- capacity, and the tables that the accounting reads and writes. A byte count or a percentage that the
-- code refuses when it is negative is a natural number here; `/` is Python's `//` on them.
pub mod Accounting
pub mod Reservation
pub mod Admission
pub mod Reconcile
pub mod Recount
pub mod Balance
mod Examples
use world_of_seeds.Prelude.{
  if_ind, ℕ, zero, suc, ◌+◌, ◌-◌, ◌*◌, ◌/◌, ◌%◌, ◌^◌, ◌≤◌, ◌<◌, min, max, String, ◌≡◌, refl, sym,
  ap, subst, ◌∙◌, ◌≢◌, ◌↔◌, ◌⊎◌, inl, inr, Bool, true, false, not, ◌&&◌, ◌||◌, Option, none, some,
  List, [], ◌∷◌, ◌++◌, map, head?, arith, str_eq, eq_iff, ltb, leb, ◌==◌, if◌then◌else◌, between,
  is_some, is_number, leb→le, le→leb, ==_iff, ==_refl, Bool-cases, Option-cases, ℤ, pos, negsuc,
  is_positive, is_natural, shift, length, take, drop, where_rows, count_rows, any, all, sum_of, All,
  length-append, length-take-le, length-where_rows-le, All-append, All-if, All-if_of,
  All-where_rows_test, All_both, All-where_rows, All-take, All_imp, All_of_mem, All_at,
  mem_of_mem-where_rows, mem-where_rows, contains, Result, ok, err, ◌>>=◌, ◌>>◌, guard, OnOk,
  Returns, Returns-bind, Returns→OnOk, Returns-if, OnOk-if, OnOk-bind, OnOk_at, >>=-eq-ok,
}
use mathlib.Core.List.{Memᴰ}
use world_of_seeds.Prelude.Sorting.{
  lex_le, lex_le_refl, lex_le_total, lex_le_trans, insert_by, sort_by, IsLeast, IsSorted,
  All-insert_by, All-sort_by, length-insert_by, length-sort_by, sort_by-IsSorted, mem-sort_by,
}
use world_of_seeds.Prelude.Dict.{Dict, get, get_or, put, keys, get-put, get_or-put}
use world_of_seeds.Models.{
  Uuid, Instant, StoragePressureState, normal, warning, critical, StorageLedger, UserStorageUsage,
  User, ManagedTorrent, TorrentRequest,
}

pub record StorageDiskSnapshot : Type 0 where
  pub total_bytes : ℕ
  pub free_bytes : ℕ

pub record StorageAdmissionPolicy : Type 0 where
  pub managed_max_bytes : ℕ
  pub user_max_bytes : ℕ
  pub min_free_bytes : ℕ
  pub min_free_percent : ℕ
  pub warning_percent : ℕ
  pub critical_percent : ℕ

-- The codes of `StorageAdmissionError`, with the pressure they carry, and the `ValueError`s.
pub data StorageError : Type 0 where
  bad_disk bad_policy bad_free_percent bad_thresholds bad_batch_size policy_required disk_required :
      StorageError
  user_quota_exceeded managed_quota_exceeded managed_capacity_exceeded disk_pressure_critical :
      StoragePressureState → StorageError

-- `StorageDiskSnapshot.__post_init__`
unfoldable pub check_disk : StorageDiskSnapshot → Result StorageError (Unit {0})
check_disk d = guard (ltb 0 d.total_bytes && leb d.free_bytes d.total_bytes) bad_disk

-- `StorageAdmissionPolicy.__post_init__`
unfoldable pub check_storage_policy : StorageAdmissionPolicy → Result StorageError (Unit {0})
check_storage_policy p = do
  guard (leb p.min_free_percent 90) bad_free_percent
  guard
      (leb 1 p.warning_percent
        && ltb p.warning_percent p.critical_percent
        && leb p.critical_percent 99)
      bad_thresholds

unfoldable pub classify_storage_pressure :
    StorageDiskSnapshot → StorageAdmissionPolicy → StoragePressureState
classify_storage_pressure d p =
    let used_percent = ((d.total_bytes - d.free_bytes) * 100) / d.total_bytes in
    let free_percent = (d.free_bytes * 100) / d.total_bytes in
    if leb p.critical_percent used_percent
      || ltb d.free_bytes p.min_free_bytes
      || ltb free_percent p.min_free_percent
    then critical
    else if leb p.warning_percent used_percent
    then warning
    else normal

unfoldable pub managed_reservation_capacity : StorageDiskSnapshot → StorageAdmissionPolicy → ℕ
managed_reservation_capacity d p =
    let reserve_percent = max p.min_free_percent (100 - p.critical_percent) in
    let percent_reserve = (d.total_bytes * reserve_percent + 99) / 100 in
    let disk_capacity = (d.total_bytes - max p.min_free_bytes percent_reserve) - 1 in
    if not (p.managed_max_bytes == 0) then min p.managed_max_bytes disk_capacity else disk_capacity

-- The tables. A user's usage row is found by its primary key, and the ledger has one row at most.
pub record Tables : Type 0 where
  pub users : List User
  pub torrents : List ManagedTorrent
  pub requests : List TorrentRequest
  pub usages : Dict UserStorageUsage
  pub ledger : Option StorageLedger
