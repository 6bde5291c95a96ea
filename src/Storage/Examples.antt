-- ===== src/Storage/Examples.antt =====
-- One admission on an empty disk and the reconciliation after it (backend/app/storage/accounting.py).
use world_of_seeds.Prelude.{
  ◌≡◌, refl, ◌≢◌, true, false, none, some, [], ◌∷◌, arith, OnOk, ok, take, contains, if◌then◌else◌,
  ◌-◌,
}
use world_of_seeds.Models.{
  critical, ManagedTorrent, ManagedTorrentState, TorrentRequest, TorrentRequestState,
}
use world_of_seeds.Storage.{
  StorageDiskSnapshot, StorageAdmissionPolicy, Tables, check_disk, check_storage_policy,
  classify_storage_pressure, managed_reservation_capacity,
}
use world_of_seeds.Storage.Accounting.{
  find_torrent, has_request, prepare_storage_accounting, apply_storage_accounting,
  lock_storage_ledger, usage_row,
}
use world_of_seeds.Storage.Reconcile.{
  reconcile_storage_counters, users_after, managed_bytes_of, logical_bytes_of,
}
use world_of_seeds.Storage.Reservation.{reserved-not_critical}
use world_of_seeds.Storage.Admission.{IsAdmitted, admission-IsAdmitted}
use world_of_seeds.Storage.Recount.{logical, recounted, reconcile-exact}
use world_of_seeds.Storage.Balance.{
  IsBalanced, insert_torrent, insert_request, admission-IsBalanced,
}

abbrev disk : StorageDiskSnapshot
disk = record { total_bytes = 1000; free_bytes = 1000 }

abbrev policy : StorageAdmissionPolicy
policy = record {
  managed_max_bytes = 0;
  user_max_bytes = 500;
  min_free_bytes = 100;
  min_free_percent = 5;
  warning_percent = 70;
  critical_percent = 90;
}

abbrev torrent : ManagedTorrent
torrent = record {
  id = 7;
  info_hash = "a1";
  storage_key = 70;
  name = "seeds";
  total_size = 300;
  state = ManagedTorrentState.pending;
  qb_state = none;
  progress = 0;
  retry_at = none;
  last_downloaded_bytes = none;
  scheduler_retry_at = none;
  purge_after = none;
  ready_at = none;
  retention_expires_at = none;
  purge_stop_pending = false;
  lifecycle_generation = 0;
  desired_active = false;
  admin_forced_active = false;
  created_at = 0;
  updated_at = 0;
}

abbrev request : TorrentRequest
request = record {
  id = 9;
  user_id = 1;
  managed_torrent_id = 7;
  state = TorrentRequestState.requested;
  ready_at = none;
  unsubscribe_at = none;
  cancelled_at = none;
  expires_at = none;
  created_at = 0;
  updated_at = 0;
}

abbrev tables : Tables
tables = record {
  users = record { id = 1; is_active = true; deleted_at = none } ∷ [];
  torrents = [];
  requests = [];
  usages = [];
  ledger = none;
}

valid_disk : check_disk disk ≡ ok tt
unfolding check_disk
valid_disk = refl

valid_policy : check_storage_policy policy ≡ ok tt
unfolding check_storage_policy
valid_policy = refl

capacity : managed_reservation_capacity disk policy ≡ 899
unfolding managed_reservation_capacity
capacity = refl

reserved-not_critical_example :
    classify_storage_pressure (record disk { free_bytes = 1000 - 899 }) policy ≢ critical
reserved-not_critical_example =
    reserved-not_critical disk policy 899 valid_disk valid_policy (omega (arith, capacity))
      (omega (arith, capacity))

no_request : has_request tables 1 (find_torrent tables.torrents "a1") ≡ false
unfolding has_request find_torrent
no_request = refl

admission-IsAdmitted_example :
    OnOk
      (λ r. IsAdmitted policy disk 1 5 (apply_storage_accounting r.1 true true 300 5 r.0))
      (prepare_storage_accounting tables 1 "a1" 300 (some policy) (some disk) 5 (some true))
admission-IsAdmitted_example = admission-IsAdmitted policy disk tables 1 "a1" 300 5 no_request

reconcile-exact_example :
    OnOk
      (λ r.
        (logical r.0 1 ≡ (
          if contains (take 10 (users_after tables.users none)) 1
          then recounted tables 1
          else logical tables 1))
        × ((lock_storage_ledger r.0 5).managed_bytes ≡ managed_bytes_of tables.torrents)
        × ((lock_storage_ledger r.0 5).pressure ≡ classify_storage_pressure disk policy)
        × (r.0.torrents ≡ tables.torrents)
        × (r.0.requests ≡ tables.requests))
      (reconcile_storage_counters policy disk 10 none 5 tables)
reconcile-exact_example = reconcile-exact policy disk 10 none 5 tables 1

empty-IsBalanced : IsBalanced tables
unfolding usage_row lock_storage_ledger logical_bytes_of managed_bytes_of
empty-IsBalanced = record { users = λ u. refl; content = refl }

admission-IsBalanced_example :
    OnOk
      (λ x. IsBalanced (apply_storage_accounting x.1 true true 300 5 (insert_request request x.0)))
      (prepare_storage_accounting
        (insert_torrent torrent tables)
        1
        "a1"
        300
        (some policy)
        (some disk)
        5
        none)
admission-IsBalanced_example =
    admission-IsBalanced tables torrent request "a1" (some policy) (some disk) 5 none
      empty-IsBalanced refl refl refl refl
