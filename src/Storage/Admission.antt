-- ===== src/Storage/Admission.antt =====
-- What an admission (backend/app/storage/accounting.py) lets into the tables.
use world_of_seeds.Prelude.{
  ℕ, ◌+◌, ◌-◌, ◌≤◌, String, ◌≡◌, sym, subst, ◌≢◌, ◌⊎◌, Bool, true, false, ◌||◌, some, arith, leb,
  ◌==◌, ==_refl, ok, OnOk, OnOk-check,
}
use world_of_seeds.Prelude.Dict.{Dict, get_or, put, get_or-put}
use world_of_seeds.Models.{
  Uuid, Instant, StoragePressureState, critical, StorageLedger, UserStorageUsage,
}
use world_of_seeds.Storage.{
  StorageDiskSnapshot, StorageAdmissionPolicy, classify_storage_pressure,
  managed_reservation_capacity, Tables,
}
use world_of_seeds.Storage.Accounting.{
  usage_row, lock_storage_ledger, find_torrent, has_request, content_missing,
  prepare_storage_accounting, apply_storage_accounting, observe_disk, admit_storage, admit_content,
  is_critical, new_usage,
}

-- What the tables hold once the admitted content is reserved for the user.
pub record IsAdmitted (policy : StorageAdmissionPolicy) (disk : StorageDiskSnapshot) (user : Uuid)
    (now : Instant) (db : Tables) : Type 0 where
  pub within_capacity :
      (lock_storage_ledger db now).managed_bytes ≤ managed_reservation_capacity disk policy
  pub within_quota :
      (policy.user_max_bytes ≡ 0) ⊎ ((usage_row db user now).logical_bytes ≤ policy.user_max_bytes)
  pub not_critical : (lock_storage_ledger db now).pressure ≢ critical

module _ (policy : StorageAdmissionPolicy) (disk : StorageDiskSnapshot) where
  admit_content-bounds :
      (total : ℕ) (l : StorageLedger)
      → admit_content (some disk) policy total l ≡ ok tt
      → (l.managed_bytes + total ≤ managed_reservation_capacity disk policy)
        × (is_critical l.pressure ≡ false)
  unfolding admit_content
  admit_content-bounds total l h = ground arith

  admit_storage-bounds :
      (known : Bool) (total : ℕ) (usage : UserStorageUsage) (l : StorageLedger)
      → known ≡ false
      → admit_storage (some policy) (some disk) known true total usage l ≡ ok tt
      → (l.managed_bytes + total ≤ managed_reservation_capacity disk policy)
        × (is_critical l.pressure ≡ false)
        × ((policy.user_max_bytes == 0 || leb (usage.logical_bytes + total) policy.user_max_bytes)
            ≡ true)
  unfolding admit_storage
  admit_storage-bounds known total usage l fresh h = ground (arith, admit_content-bounds total l)

  quota_of_test :
      (bytes : ℕ)
      → (policy.user_max_bytes == 0 || leb bytes policy.user_max_bytes) ≡ true
      → (policy.user_max_bytes ≡ 0) ⊎ (bytes ≤ policy.user_max_bytes)
  quota_of_test bytes h = ground arith

  usage_row-put :
      (usages : Dict UserStorageUsage) (user : Uuid) (u v : UserStorageUsage)
      → get_or (put usages user u) user v ≡ u
  usage_row-put usages user u v = ground (arith, get_or-put usages user user u v, ==_refl user)

  -- The ledger with the disk as the admission sees it.
  abbrev observed : Tables → ℕ → Instant → StorageLedger
  observed db total now = record (lock_storage_ledger db now) {
    disk_total_bytes = disk.total_bytes;
    disk_free_bytes = disk.free_bytes;
    pressure =
        classify_storage_pressure (record disk { free_bytes = disk.free_bytes - total }) policy;
    updated_at = now;
  }

  reserved_quota :
      (db : Tables) (user : Uuid) (l : StorageLedger) (total : ℕ) (now : Instant)
      (p : StoragePressureState)
      → (policy.user_max_bytes == 0
          || leb ((usage_row db user now).logical_bytes + total) policy.user_max_bytes)
        ≡ true
      → (policy.user_max_bytes ≡ 0)
        ⊎ ((usage_row
              (apply_storage_accounting
                (record { user_id = user; pressure = p })
                true
                true
                total
                now
                (record db {
                  usages = put db.usages user (usage_row db user now);
                  ledger = some l;
                }))
              user
              now).logical_bytes
            ≤ policy.user_max_bytes)
  unfolding usage_row apply_storage_accounting
  reserved_quota db user l total now p h =
      let u = usage_row db user now in
      let kept = usage_row-put db.usages user u (new_usage user now) in
      let stored = get_or (put db.usages user u) user (new_usage user now) in
      let next = record stored { logical_bytes = stored.logical_bytes + total; updated_at = now } in
      let raised = usage_row-put (put db.usages user u) user next (new_usage user now) in
      subst
        (λ (x : UserStorageUsage).
          (policy.user_max_bytes ≡ 0) ⊎ (x.logical_bytes ≤ policy.user_max_bytes))
        (sym raised)
        (subst
          (λ (x : UserStorageUsage).
            (policy.user_max_bytes ≡ 0) ⊎ (x.logical_bytes + total ≤ policy.user_max_bytes))
          (sym kept) (quota_of_test (u.logical_bytes + total) h))

  calm_of_test : (p : StoragePressureState) → is_critical p ≡ false → p ≢ critical
  calm_of_test p h = ground arith

  -- An admission of missing content for a user without an active request on it, once reserved, stays
  -- within the reservation capacity of the disk and within the user's quota where there is one, and the
  -- pressure it records is not critical.
  pub admission-IsAdmitted :
      (db : Tables) (user : Uuid) (info_hash : String) (total : ℕ) (now : Instant)
      → has_request db user (find_torrent db.torrents info_hash) ≡ false
      → OnOk
          (λ r.
            IsAdmitted policy disk user now (apply_storage_accounting r.1 true true total now r.0))
          (prepare_storage_accounting db user info_hash total
            (some policy)
            (some disk)
            now
            (some true))
  unfolding prepare_storage_accounting apply_storage_accounting observe_disk content_missing
      lock_storage_ledger
  admission-IsAdmitted db user info_hash total now fresh =
      OnOk-check _
        (admit_storage (some policy) (some disk)
          (has_request db user (find_torrent db.torrents info_hash)) true total
          (usage_row db user now) (observed db total now))
        _
        (λ e.
          let (room, calm, quota) =
            admit_storage-bounds _ total (usage_row db user now) (observed db total now) fresh e in
          record {
            within_capacity = room;
            within_quota =
                reserved_quota db user (observed db total now) total now
                  (observed db total now).pressure quota;
            not_critical = calm_of_test (observed db total now).pressure calm;
          })
