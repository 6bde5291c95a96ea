-- ===== src/Storage/Balance.antt =====
-- The counters that `prepare_storage_accounting` and `apply_storage_accounting`
-- (backend/app/storage/accounting.py) keep agree with the sums that `reconcile_storage_counters` takes.
use world_of_seeds.Prelude.{
  ℕ, ◌+◌, String, ◌≡◌, refl, sym, ap, ◌∙◌, inl, inr, Bool, true, false, not, ◌&&◌, Option, none,
  some, List, [], ◌∷◌, arith, ◌==◌, if◌then◌else◌, ==_iff, Bool-cases, all, OnOk, OnOk-bind,
  OnOk-check, OnOk-imp,
}
use world_of_seeds.Prelude.Dict.{put}
use world_of_seeds.Models.{
  Uuid, Instant, StorageLedger, ManagedTorrent, TorrentRequest, is_active_state,
}
use world_of_seeds.Storage.{StorageDiskSnapshot, StorageAdmissionPolicy, Tables}
use world_of_seeds.Storage.Accounting.{
  StorageAccountingContext, usage_row, lock_storage_ledger, find_torrent, has_request,
  content_missing, prepare_storage_accounting, apply_storage_accounting, observe_disk,
  admit_storage, is_purged, ledger_or,
}
use world_of_seeds.Storage.Reconcile.{logical_bytes_of, managed_bytes_of, joined_size}
use world_of_seeds.Storage.Recount.{logical, usage_row-bytes, recounted, logical-put}

abbrev pub managed : Tables → ℕ
managed db = (lock_storage_ledger db 0).managed_bytes

-- A reconciliation would change no counter.
pub record IsBalanced (db : Tables) : Type 0 where
  pub users : (user : Uuid) → logical db user ≡ recounted db user
  pub content : managed db ≡ managed_bytes_of db.torrents

-- A new torrent and its first request.
abbrev pub insert_torrent : ManagedTorrent → Tables → Tables
insert_torrent t db = record db { torrents = t ∷ db.torrents }

abbrev pub insert_request : TorrentRequest → Tables → Tables
insert_request r db = record db { requests = r ∷ db.requests }

-- No row knows the torrent yet.
abbrev pub is_new_torrent : ManagedTorrent → Tables → Bool
is_new_torrent t db =
    all (λ (x : ManagedTorrent). not (x.id == t.id)) db.torrents
    && all (λ (r : TorrentRequest). not (r.managed_torrent_id == t.id)) db.requests

pub joined_size-new :
    (t : ManagedTorrent) (ts : List ManagedTorrent)
    → all (λ (x : ManagedTorrent). not (x.id == t.id)) ts ≡ true
    → joined_size ts t.id ≡ 0
joined_size-new t [] h = refl
joined_size-new t (x ∷ ts) h = ground (arith, joined_size-new t ts)

pub logical_bytes_of-torrent :
    (t : ManagedTorrent) (ts : List ManagedTorrent) (rs : List TorrentRequest) (user : Uuid)
    → all (λ (r : TorrentRequest). not (r.managed_torrent_id == t.id)) rs ≡ true
    → logical_bytes_of (t ∷ ts) rs user ≡ logical_bytes_of ts rs user
unfolding logical_bytes_of
logical_bytes_of-torrent t ts [] user h = refl
logical_bytes_of-torrent t ts (r ∷ rs) user h =
    ground (arith, logical_bytes_of-torrent t ts rs user)

recounted-insert :
    (t : ManagedTorrent) (r : TorrentRequest) (db : Tables) (user : Uuid)
    → is_new_torrent t db ≡ true
    → r.managed_torrent_id ≡ t.id
    → is_active_state r.state ≡ true
    → logical_bytes_of (t ∷ db.torrents) (r ∷ db.requests) user
      ≡ (if r.user_id == user then t.total_size else 0) + recounted db user
unfolding logical_bytes_of
recounted-insert t r db user fresh same active =
    ground (
      arith,
      joined_size-new t db.torrents,
      logical_bytes_of-torrent t db.torrents db.requests user,
    )

observe_disk-bytes :
    (disk : Option StorageDiskSnapshot) (policy : Option StorageAdmissionPolicy) (added : ℕ)
    (now : Instant) (l : StorageLedger)
    → OnOk (λ k. k.managed_bytes ≡ l.managed_bytes) (observe_disk disk policy added now l)
unfolding observe_disk
observe_disk-bytes none policy added now l = refl
observe_disk-bytes (some disk) none added now l = tt
observe_disk-bytes (some disk) (some policy) added now l = refl

pub ledger_or-bytes :
    (o : Option StorageLedger) (a b : Instant)
    → (ledger_or o a).managed_bytes ≡ (ledger_or o b).managed_bytes
ledger_or-bytes none a b = refl
ledger_or-bytes (some l) a b = refl

put-logical :
    (db : Tables) (user v : Uuid) (now : Instant)
    → logical (record db { usages = put db.usages user (usage_row db user now) }) v ≡ logical db v
put-logical db user v now = elim (Bool-cases (user == v)) [
  | inl same ↦
      let mine = ap (logical db) ((==_iff user v).0 same) in
      ground (
        arith,
        logical-put db user v (usage_row db user now),
        usage_row-bytes db user now,
        same,
        mine,
      )
  | inr other ↦ ground (arith, logical-put db user v (usage_row db user now), other)
]

-- The counters after the preparation are those before.
pub prepared_counters :
    (db : Tables) (user : Uuid) (info_hash : String) (total : ℕ)
    (policy : Option StorageAdmissionPolicy) (disk : Option StorageDiskSnapshot) (now : Instant)
    (missing : Option Bool)
    → OnOk
        (λ r.
          ((v : Uuid) → logical r.0 v ≡ logical db v)
          × (managed r.0 ≡ managed db)
          × (r.0.torrents ≡ db.torrents)
          × (r.0.requests ≡ db.requests)
          × (r.1.user_id ≡ user))
        (prepare_storage_accounting db user info_hash total policy disk now missing)
unfolding prepare_storage_accounting lock_storage_ledger usage_row
prepared_counters db user info_hash total policy disk now missing =
    let existing = find_torrent db.torrents info_hash in
    let l = lock_storage_ledger db now in
    let is_missing = content_missing existing missing in
    OnOk-bind (λ (k : StorageLedger). k.managed_bytes ≡ l.managed_bytes) _
      (observe_disk disk policy (if is_missing then total else 0) now l) _
      (observe_disk-bytes disk policy (if is_missing then total else 0) now l)
      (λ k e.
        OnOk-check _
          (admit_storage policy disk (has_request db user existing) is_missing total
            (usage_row db user now) k)
          _
          (λ passed. (
            (λ v. put-logical db user v now),
            e ∙ ledger_or-bytes db.ledger now 0,
            refl,
            refl,
            refl,
          )))

-- What the reservation adds to the counters.
applied-logical :
    (context : StorageAccountingContext) (total : ℕ) (now : Instant) (db : Tables) (v : Uuid)
    → logical (apply_storage_accounting context true true total now db) v
      ≡ (if context.user_id == v then total else 0) + logical db v
unfolding apply_storage_accounting usage_row
applied-logical context total now db v =
    let u = usage_row db context.user_id now in
    let next = record u { logical_bytes = u.logical_bytes + total; updated_at = now } in
    let there = logical-put db context.user_id v next in
    let was = usage_row-bytes db context.user_id now in
    elim (Bool-cases (context.user_id == v)) [
      | inl same ↦
          let mine = ap (logical db) ((==_iff context.user_id v).0 same) in
          ground (arith, there, was, same, mine)
      | inr other ↦ ground (arith, there, other)
    ]

applied-managed :
    (context : StorageAccountingContext) (total : ℕ) (now : Instant) (db : Tables)
    → managed (apply_storage_accounting context true true total now db) ≡ total + managed db
unfolding apply_storage_accounting lock_storage_ledger
applied-managed context total now db = omega (arith, ledger_or-bytes db.ledger now 0)

apply-rows :
    (context : StorageAccountingContext) (total : ℕ) (now : Instant) (db : Tables)
    → ((apply_storage_accounting context true true total now db).torrents ≡ db.torrents)
      × ((apply_storage_accounting context true true total now db).requests ≡ db.requests)
unfolding apply_storage_accounting
apply-rows context total now db = (refl, refl)

logical-insert :
    (t : ManagedTorrent) (r : TorrentRequest) (db : Tables) (v : Uuid)
    → (logical (insert_request r db) v ≡ logical db v)
      × (logical (insert_torrent t db) v ≡ logical db v)
unfolding usage_row
logical-insert t r db v = (refl, refl)

managed-insert :
    (t : ManagedTorrent) (r : TorrentRequest) (db : Tables)
    → (managed (insert_request r db) ≡ managed db) × (managed (insert_torrent t db) ≡ managed db)
unfolding lock_storage_ledger
managed-insert t r db = (refl, refl)

managed_bytes_of-new :
    (t : ManagedTorrent) (ts : List ManagedTorrent)
    → is_purged t.state ≡ false
    → managed_bytes_of (t ∷ ts) ≡ t.total_size + managed_bytes_of ts
unfolding managed_bytes_of
managed_bytes_of-new t ts h = ground arith

module _ (db : Tables) (t : ManagedTorrent) (r : TorrentRequest) where
  reserved-IsBalanced :
      (context : StorageAccountingContext) (now : Instant) (db' : Tables)
      → IsBalanced db
      → is_new_torrent t db ≡ true
      → r.managed_torrent_id ≡ t.id
      → is_active_state r.state ≡ true
      → is_purged t.state ≡ false
      → ((v : Uuid) → logical db' v ≡ logical db v)
      → managed db' ≡ managed db
      → db'.torrents ≡ t ∷ db.torrents
      → db'.requests ≡ db.requests
      → context.user_id ≡ r.user_id
      → IsBalanced
          (apply_storage_accounting context true true t.total_size now (insert_request r db'))
  reserved-IsBalanced context now db' h fresh same active kept users content torrents requests
        owner =
      let next = insert_request r db' in
      let rows = apply-rows context t.total_size now next in
      let applied = apply_storage_accounting context true true t.total_size now next in
      record {
        users = λ v.
            let sums : recounted applied v
                ≡ logical_bytes_of (t ∷ db.torrents) (r ∷ db.requests) v =
              ap (λ ts. logical_bytes_of ts applied.requests v) (rows.0 ∙ torrents)
              ∙ ap (λ rs. logical_bytes_of (t ∷ db.torrents) rs v)
                  (rows.1 ∙ ap (λ rs. r ∷ rs) requests) in
            let before = (logical-insert t r db' v).0 ∙ users v ∙ h.users v in
            let whose = ap (λ (u : Uuid). if u == v then t.total_size else 0) owner in
            applied-logical context t.total_size now next v
            ∙ ap (λ (x : ℕ). x + logical next v) whose
            ∙ ap (λ (x : ℕ). (if r.user_id == v then t.total_size else 0) + x) before
            ∙ sym (recounted-insert t r db v fresh same active)
            ∙ sym sums;
        content =
            let sums =
              ap managed_bytes_of (rows.0 ∙ torrents) ∙ managed_bytes_of-new t db.torrents kept in
            let before = (managed-insert t r db').0 ∙ content ∙ h.content in
            applied-managed context t.total_size now next
            ∙ ap (λ (x : ℕ). t.total_size + x) before
            ∙ sym sums;
      }

  -- Where a reconciliation would change no counter, it changes none after a new torrent is inserted,
  -- prepared, requested by its first user and reserved either.
  pub admission-IsBalanced :
      (info_hash : String) (policy : Option StorageAdmissionPolicy)
      (disk : Option StorageDiskSnapshot) (now : Instant) (missing : Option Bool)
      → IsBalanced db
      → is_new_torrent t db ≡ true
      → r.managed_torrent_id ≡ t.id
      → is_active_state r.state ≡ true
      → is_purged t.state ≡ false
      → OnOk
          (λ x.
            IsBalanced
              (apply_storage_accounting x.1 true true t.total_size now (insert_request r x.0)))
          (prepare_storage_accounting
            (insert_torrent t db)
            r.user_id
            info_hash
            t.total_size
            policy
            disk
            now
            missing)
  admission-IsBalanced info_hash policy disk now missing h fresh same active kept =
      let db₁ = insert_torrent t db in
      OnOk-imp _ _
        (prepare_storage_accounting db₁ r.user_id info_hash t.total_size policy disk now missing)
        (λ x (users, content, torrents, requests, owner).
          reserved-IsBalanced x.1 now x.0 h fresh same active kept
            (λ v. users v ∙ (logical-insert t r db v).1) (content ∙ (managed-insert t r db).1)
            torrents requests owner)
        (prepared_counters db₁ r.user_id info_hash t.total_size policy disk now missing)
