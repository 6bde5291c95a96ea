-- ===== src/Lifecycle/Balance.antt =====
-- backend/app/torrents/lifecycle.py: the end of a right keeps the counters in agreement with the sums that
-- `reconcile_storage_counters` (backend/app/storage/accounting.py) takes.
use world_of_seeds.Prelude.{
  if_ind, ℕ, ◌+◌, ◌-◌, ◌≡◌, refl, sym, ap, subst, ◌∙◌, inl, inr, Bool, true, false, not, Option,
  none, some, List, [], ◌∷◌, arith, ◌==◌, if◌then◌else◌, ==_iff, ==_refl, Option-cases, all, All,
  All_of_mem, All_at,
}
use mathlib.Core.List.{Memᴰ}
use world_of_seeds.Prelude.Dict.{Dict, get, get_or}
use world_of_seeds.Models.{
  Uuid, Instant, ManagedTorrent, TorrentRequest, UserStorageUsage, is_active_state,
}
use world_of_seeds.Storage.{Tables}
use world_of_seeds.Storage.Accounting.{usage_row, new_usage, lock_storage_ledger}
use world_of_seeds.Storage.Reconcile.{logical_bytes_of, managed_bytes_of, joined_size}
use world_of_seeds.Storage.Recount.{logical, logical-put}
use world_of_seeds.Storage.Balance.{IsBalanced, joined_size-new}
use world_of_seeds.Lifecycle.Rows.{
  update_torrent, update_request, release_usage, deferred, schedule_deferred_purge, Store,
}
use world_of_seeds.Lifecycle.Rights.{end_request, expired_row, cancelled_row, expire_requests}
use world_of_seeds.Lifecycle.Sums.{
  distinct_requests, distinct_torrents, share, other_key, mem-update_request,
  distinct-update_request, logical_bytes_of-end,
}

pub joined_size_at :
    (ts : List ManagedTorrent) {t : ManagedTorrent}
    → distinct_torrents ts ≡ true
    → Memᴰ t ts
    → joined_size ts t.id ≡ t.total_size
joined_size_at [] h m = elim m [ ]
joined_size_at (x ∷ ts) h (Memᴰ.head e) =
    subst (λ (z : ManagedTorrent). joined_size (x ∷ ts) z.id ≡ z.total_size) (sym e)
      (rw (==_refl x.id, joined_size-new x ts (ground (arith, h))) (omega arith))
joined_size_at (x ∷ ts) {t} h (Memᴰ.tail m) =
    let other = other_key (λ (y : ManagedTorrent). y.id) x.id ts (ground (arith, h)) m in
    ground (arith, other, joined_size_at ts {t = t} (ground (arith, h)) m)

get_or-get :
    (d : Dict UserStorageUsage) (user : Uuid) (fallback : UserStorageUsage)
    → get_or d user fallback ≡ elim (get d user) [ none ↦ fallback | some u ↦ u ]
unfolding get get_or
get_or-get [] user fallback = refl
get_or-get ((k, u) ∷ d) user fallback = ground (arith, get_or-get d user fallback)

logical-get :
    (db : Tables) (user : Uuid)
    → logical db user ≡ elim (get db.usages user) [ none ↦ 0 | some u ↦ u.logical_bytes ]
unfolding usage_row
logical-get db user = elim (Option-cases (get db.usages user)) [
  | inl gone ↦ ground (arith, get_or-get db.usages user (new_usage user 0), gone)
  | inr (u, here) ↦ ground (arith, get_or-get db.usages user (new_usage user 0), here)
]

pub release-logical :
    (user : Uuid) (size : ℕ) (now : Instant) (db : Tables) (v : Uuid)
    → logical (release_usage user size now db) v
      ≡ (if user == v then logical db v - size else logical db v)
unfolding release_usage
release-logical user size now db v = elim (Option-cases (get db.usages user)) [
  | inl gone ↦
      let was = logical-get db user in
      if_ind (λ n. logical (release_usage user size now db) v ≡ n) (user == v)
        (λ e.
          let mine = ap (logical db) ((==_iff user v).0 e) in
          rw gone (ground (arith, was, gone, mine)))
        (λ e. rw gone refl)
  | inr (u, here) ↦
      let was = logical-get db user in
      let next = record u { logical_bytes = u.logical_bytes - size; updated_at = now } in
      if_ind (λ n. logical (release_usage user size now db) v ≡ n) (user == v)
        (λ e.
          let mine = ap (logical db) ((==_iff user v).0 e) in
          rw here (ground (arith, logical-put db user v next, was, here, e, mine)))
        (λ e. rw here (ground (arith, logical-put db user v next, e)))
]

-- A change of a row to one that is not active.
pub record Ends (f : TorrentRequest → TorrentRequest) : Type 0 where
  pub inactive : (r : TorrentRequest) → is_active_state (f r).state ≡ false
  pub keeps : (r : TorrentRequest) → (f r).id ≡ r.id

-- A right that is there, on a torrent of this size.
pub record IsRight (db : Tables) (size : ℕ) (r : TorrentRequest) : Type 0 where
  pub known : Memᴰ r db.requests
  pub active : is_active_state r.state ≡ true
  pub sized : joined_size db.torrents r.managed_torrent_id ≡ size

pub rest_after :
    (b : Bool) (size : ℕ) {was next total rest part left : ℕ}
    → was ≡ next
    → left ≡ (if b then next - size else next)
    → total ≡ part + rest
    → part ≡ (if b then size else 0)
    → was ≡ total
    → left ≡ rest
rest_after true size h i j k l = omega (arith, h, i, j, k, l)
rest_after false size h i j k l = omega (arith, h, i, j, k, l)

module _ (f : TorrentRequest → TorrentRequest) (ends : Ends f) (size : ℕ) (now : Instant) where
  pub end_request-IsBalanced :
      (r : TorrentRequest) (db : Tables)
      → distinct_requests db.requests ≡ true
      → IsRight db size r
      → IsBalanced db
      → IsBalanced (end_request f size now r db)
  unfolding end_request lock_storage_ledger usage_row
  end_request-IsBalanced r db h right balanced = record {
    users = λ v.
        let cut = logical_bytes_of-end db.torrents f v db.requests ends.inactive h right.known in
        let next = record db { requests = update_request r.id f db.requests } in
        let released = release-logical r.user_id size now next v in
        let mine : share db.torrents v r ≡ (if r.user_id == v then size else 0) =
          ground (arith, right.active, right.sized) in
        let same : logical next v ≡ logical db v = refl in
        let before : logical db v ≡ logical_bytes_of db.torrents db.requests v = balanced.users v in
        let after : logical (release_usage r.user_id size now next) v
            ≡ logical_bytes_of db.torrents (update_request r.id f db.requests) v =
          rest_after (r.user_id == v) size (sym same) released cut mine before in
        after;
    content = balanced.content;
  }

  -- The other rights stay.
  pub end_request-IsRight :
      (r : TorrentRequest) (db : Tables) (n : ℕ) (x : TorrentRequest)
      → (x.id == r.id) ≡ false
      → IsRight db n x
      → IsRight (end_request f size now r db) n x
  unfolding end_request
  end_request-IsRight r db n x other right = record {
    known = mem-update_request r.id f db.requests other right.known;
    active = right.active;
    sized = right.sized;
  }

  pub end_request-distinct :
      (r : TorrentRequest) (db : Tables)
      → distinct_requests db.requests ≡ true
      → distinct_requests (end_request f size now r db).requests ≡ true
  unfolding end_request
  end_request-distinct r db h = distinct-update_request r.id f db.requests ends.keeps ∙ h

pub expired-Ends : (now : Instant) → Ends (expired_row now)
unfolding expired_row
expired-Ends now = record { inactive = λ r. refl; keeps = λ r. refl }

pub cancelled-Ends : (now : Instant) → Ends (cancelled_row now)
unfolding cancelled_row
cancelled-Ends now = record { inactive = λ r. refl; keeps = λ r. refl }

-- The tables where the counters agree with the sums and no two requests have one identifier.
pub record IsSound (db : Tables) : Type 0 where
  pub balanced : IsBalanced db
  pub distinct : distinct_requests db.requests ≡ true

module _ (size : ℕ) (now : Instant) where
  end_request-IsSound :
      (r : TorrentRequest) (db : Tables)
      → IsRight db size r
      → IsSound db
      → IsSound (end_request (expired_row now) size now r db)
  end_request-IsSound r db right sound = record {
    balanced =
        end_request-IsBalanced (expired_row now) (expired-Ends now) size now r db sound.distinct
          right sound.balanced;
    distinct =
        end_request-distinct (expired_row now) (expired-Ends now) size now r db sound.distinct;
  }

  pub expire_requests-IsSound :
      (rs : List TorrentRequest) (db : Tables)
      → distinct_requests rs ≡ true
      → All (IsRight db size) rs
      → IsSound db
      → IsSound (expire_requests size now rs db)
  unfolding expire_requests
  expire_requests-IsSound [] db h rights sound = sound
  expire_requests-IsSound (r ∷ rs) db h (right, rights) sound =
      expire_requests-IsSound rs (end_request (expired_row now) size now r db) (ground (arith, h))
        (All_of_mem _ rs (λ x m.
          end_request-IsRight (expired_row now) (expired-Ends now) size now r db size x
            (other_key (λ (y : TorrentRequest). y.id) r.id rs (ground (arith, h)) m)
            (All_at _ rs rights m)))
        (end_request-IsSound r db right sound)

  pub expire_requests-IsRight :
      (rs : List TorrentRequest) (db : Tables) (n : ℕ) (x : TorrentRequest)
      → all (λ (r : TorrentRequest). not (x.id == r.id)) rs ≡ true
      → IsRight db n x
      → IsRight (expire_requests size now rs db) n x
  unfolding expire_requests
  expire_requests-IsRight [] db n x h right = right
  expire_requests-IsRight (r ∷ rs) db n x h right =
      expire_requests-IsRight rs (end_request (expired_row now) size now r db) n x
        (ground (arith, h))
        (end_request-IsRight (expired_row now) (expired-Ends now) size now r db n x
          (ground (arith, h)) right)

-- The deferred purge counts the same bytes.
joined_size-deferred :
    (i : Uuid) (a b : Instant) (ts : List ManagedTorrent) (j : Uuid)
    → joined_size (update_torrent i (deferred a b) ts) j ≡ joined_size ts j
unfolding update_torrent deferred
joined_size-deferred i a b [] j = refl
joined_size-deferred i a b (t ∷ ts) j = ground (arith, joined_size-deferred i a b ts j)

managed_bytes_of-deferred :
    (i : Uuid) (a b : Instant) (ts : List ManagedTorrent)
    → managed_bytes_of (update_torrent i (deferred a b) ts) ≡ managed_bytes_of ts
unfolding update_torrent deferred managed_bytes_of
managed_bytes_of-deferred i a b [] = refl
managed_bytes_of-deferred i a b (t ∷ ts) = ground (arith, managed_bytes_of-deferred i a b ts)

pub logical_bytes_of-sizes :
    (ts us : List ManagedTorrent) (rs : List TorrentRequest) (v : Uuid)
    → ((j : Uuid) → joined_size ts j ≡ joined_size us j)
    → logical_bytes_of ts rs v ≡ logical_bytes_of us rs v
unfolding logical_bytes_of
logical_bytes_of-sizes ts us [] v h = refl
logical_bytes_of-sizes ts us (r ∷ rs) v h =
    ground (arith, logical_bytes_of-sizes ts us rs v h, h r.managed_torrent_id)

module _ (job_id : Uuid) (created : Instant) (t : ManagedTorrent) (origin : Option Uuid)
    (purge_after now : Instant) (s : Store) where
  pub schedule-IsSound :
      IsSound s.tables
      → IsSound (schedule_deferred_purge job_id created t origin purge_after now s).tables
  unfolding schedule_deferred_purge usage_row lock_storage_ledger
  schedule-IsSound sound = record {
    balanced = record {
      users = λ v.
          sound.balanced.users v
          ∙ logical_bytes_of-sizes s.tables.torrents _ s.tables.requests v
              (λ j. sym (joined_size-deferred t.id purge_after now s.tables.torrents j));
      content =
          sound.balanced.content
          ∙ sym (managed_bytes_of-deferred t.id purge_after now s.tables.torrents);
    };
    distinct = sound.distinct;
  }

  pub schedule-IsRight :
      (n : ℕ) (x : TorrentRequest)
      → IsRight s.tables n x
      → IsRight (schedule_deferred_purge job_id created t origin purge_after now s).tables n x
  unfolding schedule_deferred_purge
  schedule-IsRight n x right = record {
    known = right.known;
    active = right.active;
    sized =
        joined_size-deferred t.id purge_after now s.tables.torrents x.managed_torrent_id
        ∙ right.sized;
  }
