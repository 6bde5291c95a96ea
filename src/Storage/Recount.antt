-- ===== src/Storage/Recount.antt =====
-- What `reconcile_storage_counters` (backend/app/storage/accounting.py) leaves in the counters.
use world_of_seeds.Prelude.{
  ℕ, zero, suc, ◌+◌, ◌≤◌, ◌≡◌, refl, ap, ◌∙◌, inl, inr, Option, List, [], ◌∷◌, arith, ◌==◌,
  if◌then◌else◌, between, ==_iff, Bool-cases, take, contains, guard, OnOk, OnOk-check,
}
use world_of_seeds.Prelude.Dict.{Dict, get_or, put, get_or-put}
use world_of_seeds.Models.{Uuid, Instant, UserStorageUsage}
use world_of_seeds.Storage.{
  StorageDiskSnapshot, StorageAdmissionPolicy, bad_batch_size, classify_storage_pressure, Tables,
}
use world_of_seeds.Storage.Accounting.{usage_row, lock_storage_ledger, new_usage}
use world_of_seeds.Storage.Reconcile.{
  logical_bytes_of, managed_bytes_of, users_after, recount_users, recount_ledger,
  reconcile_storage_counters,
}

-- The user's counter.
abbrev pub logical : Tables → Uuid → ℕ
logical db user = (usage_row db user 0).logical_bytes

abbrev pub recounted : Tables → Uuid → ℕ
recounted db user = logical_bytes_of db.torrents db.requests user

get_or-bytes :
    (d : Dict UserStorageUsage) (user : Uuid) (a b : Instant)
    → (get_or d user (new_usage user a)).logical_bytes
      ≡ (get_or d user (new_usage user b)).logical_bytes
unfolding get_or
get_or-bytes [] user a b = refl
get_or-bytes ((k, u) ∷ d) user a b = ground (arith, get_or-bytes d user a b)

pub usage_row-bytes :
    (db : Tables) (user : Uuid) (a : Instant)
    → (usage_row db user a).logical_bytes ≡ logical db user
unfolding usage_row
usage_row-bytes db user a = get_or-bytes db.usages user a 0

pub logical-put :
    (db : Tables) (user v : Uuid) (u : UserStorageUsage)
    → logical (record db { usages = put db.usages user u }) v
      ≡ (if user == v then u.logical_bytes else logical db v)
unfolding usage_row
logical-put db user v u = ground (arith, get_or-put db.usages user v u (new_usage v 0))

-- The loop leaves the rows it reads, and sets exactly the selected users' counters.
pub recount_users-rows :
    (users : List Uuid) (now : Instant) (db : Tables)
    → ((recount_users users now db).torrents ≡ db.torrents)
      × ((recount_users users now db).requests ≡ db.requests)
unfolding recount_users
recount_users-rows [] now db = (refl, refl)
recount_users-rows (user ∷ users) now db = recount_users-rows users now _

pub recount_users-logical :
    (users : List Uuid) (now : Instant) (db : Tables) (v : Uuid)
    → logical (recount_users users now db) v
      ≡ (if contains users v then recounted db v else logical db v)
unfolding recount_users
recount_users-logical [] now db v = refl
recount_users-logical (user ∷ users) now db v =
    let u = record (usage_row db user now) {
      logical_bytes = recounted db user;
      updated_at = now;
    } in
    let next = record db { usages = put db.usages user u } in
    elim (Bool-cases (user == v)) [
      | inl same ↦
          let mine = ap (recounted db) ((==_iff user v).0 same) in
          ground
            (arith, recount_users-logical users now next v, logical-put db user v u, same, mine)
      | inr other ↦
          ground (arith, recount_users-logical users now next v, logical-put db user v u, other)
    ]

take-take {ℓ} : {A : Type ℓ} (n m : ℕ) (xs : List A) → n ≤ m → take n (take m xs) ≡ take n xs
take-take zero m xs h = refl
take-take (suc n) zero xs h = absurd (omega arith)
take-take (suc n) (suc m) [] h = refl
take-take (suc n) (suc m) (x ∷ xs) h = cc (take-take n m xs (omega arith))

-- After a reconciliation the selected users' counters are the sums over their active requests, the
-- other users' counters are as before, and the managed counter is the sum over the torrents that
-- are not purged.
pub reconcile-exact :
    (policy : StorageAdmissionPolicy) (disk : StorageDiskSnapshot) (batch_size : ℕ)
    (after : Option Uuid) (now : Instant) (db : Tables) (user : Uuid)
    → OnOk
        (λ r.
          (logical r.0 user ≡ (
            if contains (take batch_size (users_after db.users after)) user
            then recounted db user
            else logical db user))
          × ((lock_storage_ledger r.0 now).managed_bytes ≡ managed_bytes_of db.torrents)
          × ((lock_storage_ledger r.0 now).pressure ≡ classify_storage_pressure disk policy)
          × (r.0.torrents ≡ db.torrents)
          × (r.0.requests ≡ db.requests))
        (reconcile_storage_counters policy disk batch_size after now db)
unfolding reconcile_storage_counters recount_ledger lock_storage_ledger
reconcile-exact policy disk batch_size after now db user =
    let page = users_after db.users after in
    let selected = take batch_size (take (batch_size + 1) page) in
    let next = recount_users selected now db in
    let rows = recount_users-rows selected now db in
    OnOk-check _ (guard (between 1 500 batch_size) bad_batch_size) _ (λ e. (
      recount_users-logical selected now db user
          ∙ ap (λ us. if contains us user then recounted db user else logical db user)
              (take-take batch_size (batch_size + 1) page (omega arith)),
      ap managed_bytes_of rows.0,
      refl,
      rows.0,
      rows.1,
    ))
