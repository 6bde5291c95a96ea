-- ===== src/Lifecycle/Debts.antt =====
-- backend/app/torrents/deduplication.py: what the steps of a request do to the sums and the counters of
-- backend/app/storage/accounting.py.
use world_of_seeds.Prelude.{
  ℕ, ◌+◌, String, ◌≡◌, refl, sym, ap, subst, ◌∙◌, inl, inr, Bool, true, false, not, Option, List,
  [], ◌∷◌, arith, ◌==◌, if◌then◌else◌, ==_iff, ==_refl, Bool-cases, all, sum_of, OnOk, OnOk-imp,
}
use mathlib.Core.List.{Memᴰ}
use world_of_seeds.Models.{Uuid, Instant, ManagedTorrent, TorrentRequest, is_active_state}
use world_of_seeds.Storage.{Tables, StorageDiskSnapshot, StorageAdmissionPolicy}
use world_of_seeds.Storage.Accounting.{
  StorageAccountingContext, usage_row, lock_storage_ledger, prepare_storage_accounting,
  apply_storage_accounting, is_purged,
}
use world_of_seeds.Storage.Reconcile.{logical_bytes_of, managed_bytes_of}
use world_of_seeds.Storage.Recount.{logical, usage_row-bytes, recounted, logical-put}
use world_of_seeds.Storage.Balance.{
  managed, ledger_or-bytes, prepared_counters, logical_bytes_of-torrent,
}
use world_of_seeds.Lifecycle.Rows.{update_torrent, update_request, release_usage}
use world_of_seeds.Lifecycle.Rights.{end_request, expired_row}
use world_of_seeds.Lifecycle.Sums.{
  distinct_requests, distinct_torrents, share, other_key, logical_bytes_of-end,
}
use world_of_seeds.Lifecycle.Balance.{
  release-logical, rest_after, expired-Ends, end_request-distinct, IsRight, logical_bytes_of-sizes,
}
use world_of_seeds.Lifecycle.Requests.{RequestInput, new_request, first_state}

-- The user's counter lacks `a` bytes, and the managed counter `b` bytes.
pub record Lacks (user : Uuid) (a b : ℕ) (db : Tables) : Type 0 where
  pub users : (v : Uuid) → logical db v + (if user == v then a else 0) ≡ recounted db v
  pub content : managed db + b ≡ managed_bytes_of db.torrents
  pub distinct : distinct_requests db.requests ≡ true
  pub torrents : distinct_torrents db.torrents ≡ true

pub if_same : (b : Bool) (n : ℕ) → (if b then n else n) ≡ n
if_same true n = refl
if_same false n = refl

update_torrent_same :
    (i : Uuid) (f : ManagedTorrent → ManagedTorrent) (ts : List ManagedTorrent)
    → all (λ (t : ManagedTorrent). not (t.id == i)) ts ≡ true
    → update_torrent i f ts ≡ ts
unfolding update_torrent
update_torrent_same i f [] h = refl
update_torrent_same i f (t ∷ ts) h = ground (arith, update_torrent_same i f ts, h)

-- A row that is replaced changes a sum by the difference.
sum_of-update :
    (g : ManagedTorrent → ℕ) (u : ManagedTorrent) (ts : List ManagedTorrent) {t : ManagedTorrent}
    → distinct_torrents ts ≡ true
    → Memᴰ t ts
    → sum_of g (update_torrent t.id (λ _. u) ts) + g t ≡ sum_of g ts + g u
unfolding update_torrent
sum_of-update g u [] h m = elim m [ ]
sum_of-update g u (x ∷ ts) {t} h (Memᴰ.head e) =
    subst
      (λ (z : ManagedTorrent).
        sum_of g (update_torrent z.id (λ _. u) (x ∷ ts)) + g z ≡ sum_of g (x ∷ ts) + g u)
      (sym e)
      (rw (==_refl x.id, update_torrent_same x.id (λ _. u) ts (ground (arith, h))) (omega arith))
sum_of-update g u (x ∷ ts) {t} h (Memᴰ.tail m) =
    let other = other_key (λ (y : ManagedTorrent). y.id) x.id ts (ground (arith, h)) m in
    let flipped : (x.id == t.id) ≡ false = ground (arith, other) in
    rw flipped (omega (arith, sum_of-update g u ts {t = t} (ground (arith, h)) m))

all_ids-update :
    (i j : Uuid) (u : ManagedTorrent) (ts : List ManagedTorrent)
    → u.id ≡ i
    → all (λ (t : ManagedTorrent). not (t.id == j)) (update_torrent i (λ _. u) ts)
      ≡ all (λ (t : ManagedTorrent). not (t.id == j)) ts
unfolding update_torrent
all_ids-update i j u [] h = refl
all_ids-update i j u (t ∷ ts) h = ground (arith, all_ids-update i j u ts h, h)

distinct-update :
    (i : Uuid) (u : ManagedTorrent) (ts : List ManagedTorrent)
    → u.id ≡ i
    → distinct_torrents (update_torrent i (λ _. u) ts) ≡ distinct_torrents ts
unfolding update_torrent
distinct-update i u [] h = refl
distinct-update i u (t ∷ ts) h =
    ground (arith, distinct-update i u ts h, all_ids-update i t.id u ts h)

-- What a torrent counts for the content.
abbrev pub charge : ManagedTorrent → ℕ
charge t = if is_purged t.state then 0 else t.total_size

pub update-Lacks :
    (user : Uuid) (b c : ℕ) (db : Tables) (t u : ManagedTorrent)
    → Memᴰ t db.torrents
    → u.id ≡ t.id
    → u.total_size ≡ t.total_size
    → c + charge t ≡ b + charge u
    → Lacks user 0 b db
    → Lacks user 0 c (record db { torrents = update_torrent t.id (λ _. u) db.torrents })
unfolding usage_row lock_storage_ledger managed_bytes_of
update-Lacks user b c db t u m same size owed h = record {
  users = λ v.
      h.users v
      ∙ logical_bytes_of-sizes db.torrents _ db.requests v (λ j.
        let sums =
          sum_of-update (λ x. if x.id == j then x.total_size else 0) u db.torrents {t = t}
            h.torrents m in
        ground (arith, sums, same, size));
  content =
      let sums = sum_of-update charge u db.torrents {t = t} h.torrents m in
      omega (arith, sums, owed, h.content);
  distinct = h.distinct;
  torrents = distinct-update t.id u db.torrents same ∙ h.torrents;
}

pub insert-Lacks :
    (user : Uuid) (db : Tables) (t : ManagedTorrent)
    → all (λ (x : ManagedTorrent). not (x.id == t.id)) db.torrents ≡ true
    → all (λ (r : TorrentRequest). not (r.managed_torrent_id == t.id)) db.requests ≡ true
    → Lacks user 0 0 db
    → Lacks user 0 (charge t) (record db { torrents = t ∷ db.torrents })
unfolding usage_row lock_storage_ledger managed_bytes_of
insert-Lacks user db t fresh unknown h = record {
  users = λ v. h.users v ∙ sym (logical_bytes_of-torrent t db.torrents db.requests v unknown);
  content = omega (arith, h.content);
  distinct = h.distinct;
  torrents = ground (arith, fresh, h.torrents);
}

pub end-Lacks :
    (user : Uuid) (b size : ℕ) (now : Instant) (db : Tables) (r : TorrentRequest)
    → IsRight db size r
    → Lacks user 0 b db
    → Lacks user 0 b (end_request (expired_row now) size now r db)
unfolding end_request lock_storage_ledger usage_row
end-Lacks user b size now db r right h = record {
  users = λ v.
      let cut =
        logical_bytes_of-end db.torrents (expired_row now) v db.requests (expired-Ends now).inactive
          h.distinct right.known in
      let next = record db { requests = update_request r.id (expired_row now) db.requests } in
      let released = release-logical r.user_id size now next v in
      let mine : share db.torrents v r ≡ (if r.user_id == v then size else 0) =
        ground (arith, right.active, right.sized) in
      let was : logical db v ≡ logical_bytes_of db.torrents db.requests v =
        omega (arith, if_same (user == v) 0, h.users v) in
      let after : logical (release_usage r.user_id size now next) v
          ≡ logical_bytes_of db.torrents (update_request r.id (expired_row now) db.requests) v =
        rest_after (r.user_id == v) size refl released cut mine was in
      omega (arith, if_same (user == v) 0, after);
  content = h.content;
  distinct = end_request-distinct (expired_row now) (expired-Ends now) size now r db h.distinct;
  torrents = h.torrents;
}

-- The preparation keeps what is lacking.
pub prepare-Lacks :
    (user : Uuid) (info_hash : String) (total b : ℕ) (policy : Option StorageAdmissionPolicy)
    (disk : Option StorageDiskSnapshot) (now : Instant) (missing : Option Bool) (db : Tables)
    → Lacks user 0 b db
    → OnOk
        (λ r.
          Lacks user 0 b r.0
          × (r.1.user_id ≡ user)
          × (r.0.torrents ≡ db.torrents)
          × (r.0.requests ≡ db.requests))
        (prepare_storage_accounting db user info_hash total policy disk now missing)
prepare-Lacks user info_hash total b policy disk now missing db h =
    OnOk-imp _ _ (prepare_storage_accounting db user info_hash total policy disk now missing)
      (λ r (users, content, torrents, requests, owner). (
        record {
          users = λ v.
              ap (λ n. n + (if user == v then 0 else 0)) (users v)
              ∙ h.users v
              ∙ ap (λ ts. logical_bytes_of ts db.requests v) (sym torrents)
              ∙ ap (λ rs. logical_bytes_of r.0.torrents rs v) (sym requests);
          content = ap (λ n. n + b) content ∙ h.content ∙ ap managed_bytes_of (sym torrents);
          distinct = ap distinct_requests requests ∙ h.distinct;
          torrents = ap distinct_torrents torrents ∙ h.torrents;
        },
        owner,
        torrents,
        requests,
      ))
      (prepared_counters db user info_hash total policy disk now missing)

applied-logical :
    (context : StorageAccountingContext) (new missing : Bool) (total : ℕ) (now : Instant)
    (db : Tables) (v : Uuid)
    → logical (apply_storage_accounting context new missing total now db) v
      ≡ logical db v + (if context.user_id == v then if new then total else 0 else 0)
unfolding apply_storage_accounting usage_row
applied-logical context false missing total now db v =
    omega (arith, if_same (context.user_id == v) 0)
applied-logical context true missing total now db v =
    let u = usage_row db context.user_id now in
    let there =
      logical-put db context.user_id v
        (record u { logical_bytes = u.logical_bytes + total; updated_at = now }) in
    let was = usage_row-bytes db context.user_id now in
    elim (Bool-cases (context.user_id == v)) [
      | inl same ↦
          let mine = ap (logical db) ((==_iff context.user_id v).0 same) in
          ground (arith, there, was, same, mine)
      | inr other ↦ ground (arith, there, other)
    ]

applied-managed :
    (context : StorageAccountingContext) (new missing : Bool) (total : ℕ) (now : Instant)
    (db : Tables)
    → managed (apply_storage_accounting context new missing total now db)
      ≡ managed db + (if missing then total else 0)
unfolding apply_storage_accounting lock_storage_ledger
applied-managed context new false total now db = omega arith
applied-managed context new true total now db = omega (arith, ledger_or-bytes db.ledger now 0)

-- The reservation pays what is lacking.
pub apply-Lacks :
    (context : StorageAccountingContext) (new missing : Bool) (total : ℕ) (now : Instant)
    (db : Tables)
    → Lacks context.user_id (if new then total else 0) (if missing then total else 0) db
    → Lacks context.user_id 0 0 (apply_storage_accounting context new missing total now db)
unfolding apply_storage_accounting
apply-Lacks context new missing total now db h = record {
  users = λ v. omega (
    arith,
    if_same (context.user_id == v) 0,
    applied-logical context new missing total now db v,
    h.users v,
  );
  content = omega (arith, applied-managed context new missing total now db, h.content);
  distinct = h.distinct;
  torrents = h.torrents;
}

pub first_state-active :
    (i : RequestInput) (t : ManagedTorrent)
    → (is_active_state (first_state i t (new_request i t.id)).state ≡ true)
      × ((first_state i t (new_request i t.id)).id ≡ i.request_id)
      × ((first_state i t (new_request i t.id)).user_id ≡ i.user_id)
      × ((first_state i t (new_request i t.id)).managed_torrent_id ≡ t.id)
unfolding first_state
first_state-active i t = ground arith
