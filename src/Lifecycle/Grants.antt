-- ===== src/Lifecycle/Grants.antt =====
-- backend/app/torrents/deduplication.py: what is lacking in the counters of
-- backend/app/storage/accounting.py from the request's row on.
use world_of_seeds.Prelude.{
  if_ind, ℕ, ◌≡◌, refl, sym, ap, subst, ◌∙◌, inl, inr, Bool, true, false, not, some, List, [], ◌∷◌,
  arith, ◌==◌, if◌then◌else◌, Bool-cases, Option-cases, all, mem_of_mem-where_rows, Result, ok, err,
  OnOk, OnOk-bind, OnOk-always,
}
use mathlib.Core.List.{Memᴰ}
use world_of_seeds.Models.{Uuid, Instant, ManagedTorrent, TorrentRequest}
use world_of_seeds.Storage.{Tables, StorageError}
use world_of_seeds.Storage.Accounting.{
  StorageAccountingContext, prepare_storage_accounting, apply_storage_accounting, usage_row,
  lock_storage_ledger,
}
use world_of_seeds.Storage.Reconcile.{logical_bytes_of, joined_size}
use world_of_seeds.Lifecycle.Rights.{end_request, is_due_request}
use world_of_seeds.Lifecycle.Sums.{distinct_torrents}
use world_of_seeds.Lifecycle.Balance.{joined_size_at, IsRight}
use world_of_seeds.Lifecycle.Cancellation.{head-mem}
use world_of_seeds.Lifecycle.Requests.{
  request_race, RequestInput, is_right_of, active_request, request_conflicts,
  insert_torrent_request, revived, expire_due, refuse, found_or, grant,
}
use world_of_seeds.Lifecycle.Debts.{
  Lacks, charge, end-Lacks, prepare-Lacks, apply-Lacks, first_state-active,
}

no_id :
    (i : RequestInput) (torrent_id : Uuid) (rs : List TorrentRequest)
    → request_conflicts i torrent_id rs ≡ false
    → all (λ (r : TorrentRequest). not (r.id == i.request_id)) rs ≡ true
unfolding request_conflicts
no_id i torrent_id [] h = refl
no_id i torrent_id (r ∷ rs) h = ground (arith, no_id i torrent_id rs)

-- A new right is lacking in the user's counter.
inserted-Lacks :
    (i : RequestInput) (t : ManagedTorrent) (b : ℕ) (db : Tables)
    → Memᴰ t db.torrents
    → t.total_size ≡ i.total_size
    → Lacks i.user_id 0 b db
    → Lacks i.user_id
        (if (insert_torrent_request i t db).1 then i.total_size else 0)
        b
        (insert_torrent_request i t db).0
unfolding insert_torrent_request usage_row lock_storage_ledger logical_bytes_of
inserted-Lacks i t b db m size h = elim (Bool-cases (request_conflicts i t.id db.requests)) [
  | inl taken ↦ rw taken h
  | inr free ↦
      let (active, id, owner, whose) = first_state-active i t in
      let sized = joined_size_at db.torrents h.torrents m in
      rw free (record {
        users = λ v. ground (arith, h.users v, active, owner, whose, sized, size);
        content = h.content;
        distinct = ground (arith, no_id i t.id db.requests free, h.distinct, id);
        torrents = h.torrents;
      })
]

active_request-IsRight :
    (db : Tables) (user : Uuid) (t : ManagedTorrent) {r : TorrentRequest}
    → distinct_torrents db.torrents ≡ true
    → Memᴰ t db.torrents
    → active_request db.requests user t.id ≡ some r
    → IsRight db t.total_size r
unfolding active_request
active_request-IsRight db user t {r} h m found =
    let (known, test) =
      mem_of_mem-where_rows (is_right_of user t.id) db.requests (head-mem _ found) in
    let same : t.id ≡ r.managed_torrent_id = ground (arith, test) in
    record {
      known = known;
      active = ground (arith, test);
      sized = ap (joined_size db.torrents) (sym same) ∙ joined_size_at db.torrents h m;
    }

pub expire_due-Lacks :
    (i : RequestInput) (t : ManagedTorrent) (b : ℕ) (db : Tables)
    → Memᴰ t db.torrents
    → Lacks i.user_id 0 b db
    → Lacks i.user_id 0 b (expire_due i t db)
unfolding expire_due
expire_due-Lacks i t b db m h = elim (Option-cases (active_request db.requests i.user_id t.id)) [
  | inl gone ↦ rw (expire_due, gone) h
  | inr (r, found) ↦
      rw (expire_due, found)
        (if_ind (Lacks i.user_id 0 b) (is_due_request i.now r)
          (λ e.
            end-Lacks i.user_id b t.total_size i.now db r
              (active_request-IsRight db i.user_id t h.torrents m found) h)
          (λ e. h))
]

pub expire_due-torrents :
    (i : RequestInput) (t : ManagedTorrent) (db : Tables)
    → (expire_due i t db).torrents ≡ db.torrents
unfolding expire_due end_request
expire_due-torrents i t db = elim (Option-cases (active_request db.requests i.user_id t.id)) [
  | inl gone ↦ rw (expire_due, gone) refl
  | inr (r, found) ↦
      rw (expire_due, found)
        (if_ind (λ (x : Tables). x.torrents ≡ db.torrents) (is_due_request i.now r) (λ e. refl)
          (λ e. refl))
]

OnOk-refuse {ℓ κ} :
    {A : Type ℓ} (P : A → Type κ) (r : Result StorageError A) → OnOk P r → OnOk P (refuse r)
OnOk-refuse P (ok a) h = h
OnOk-refuse P (err e) h = tt

abbrev IsPrepared : RequestInput → ℕ → Tables → Tables × StorageAccountingContext → Type 0
IsPrepared i owing db (prepared, context) =
    Lacks i.user_id 0 owing prepared
    × (context.user_id ≡ i.user_id)
    × (prepared.torrents ≡ db.torrents)
    × (prepared.requests ≡ db.requests)

paid :
    (i : RequestInput) (context : StorageAccountingContext) (new missing : Bool) (db : Tables)
    → context.user_id ≡ i.user_id
    → Lacks i.user_id (if new then i.total_size else 0) (if missing then i.total_size else 0) db
    → Lacks i.user_id 0 0 (apply_storage_accounting context new missing i.total_size i.now db)
paid i context new missing db owner owed =
    subst (λ u. Lacks u 0 0 (apply_storage_accounting context new missing i.total_size i.now db))
      owner
      (apply-Lacks context new missing i.total_size i.now db (
        subst
          (λ u. Lacks u (if new then i.total_size else 0) (if missing then i.total_size else 0) db)
          (sym owner) owed))

-- What is lacking is reserved, once the torrent's row is there.
pub grant-Lacks :
    (i : RequestInput) (t : ManagedTorrent) (missing : Bool) (db : Tables)
    → Memᴰ t db.torrents
    → t.total_size ≡ i.total_size
    → Lacks i.user_id 0 (if missing then i.total_size else 0) db
    → OnOk (λ r. Lacks i.user_id 0 0 r.0) (grant i t missing db)
unfolding grant
grant-Lacks i t missing db m size h =
    let owing = if missing then i.total_size else 0 in
    let preparation =
      prepare_storage_accounting db i.user_id i.info_hash i.total_size i.storage_policy
        i.disk_snapshot i.now (some missing) in
    OnOk-bind (IsPrepared i owing db) (λ r. Lacks i.user_id 0 0 r.0) (refuse preparation) _
      (OnOk-refuse (IsPrepared i owing db) preparation (
        prepare-Lacks i.user_id i.info_hash i.total_size owing i.storage_policy i.disk_snapshot
          i.now (some missing) db h))
      (λ (prepared, context) (lacks, owner, torrents, requests).
        let inserted = insert_torrent_request i t prepared in
        let known : Memᴰ t prepared.torrents = subst (Memᴰ t) (sym torrents) m in
        let owed = inserted-Lacks i t owing prepared known size lacks in
        OnOk-bind (λ (_ : TorrentRequest). Unit {0}) (λ r. Lacks i.user_id 0 0 r.0)
          (found_or request_race (active_request inserted.0.requests i.user_id t.id)) _
          (OnOk-always _) (λ r _. paid i context inserted.1 missing inserted.0 owner owed))

-- A torrent that a new right finds keeps its identifier and its size, and is not purged afterwards.
pub revived-charge :
    (now : Instant) (t : ManagedTorrent)
    → OnOk
        (λ r. (r.0.id ≡ t.id) × (r.0.total_size ≡ t.total_size) × (charge r.0 ≡ t.total_size))
        (revived now t)
unfolding revived
revived-charge now t = ground arith
