-- ===== src/Lifecycle/Expiration.antt =====
-- backend/app/torrents/lifecycle.py: the batch that expires the due rights keeps the counters in agreement
-- with the sums.
use world_of_seeds.Prelude.{
  if_ind, ℕ, ◌+◌, ◌≡◌, refl, sym, ap, ◌∙◌, Bool, true, false, not, ◌&&◌, List, [], ◌∷◌, arith, ltb,
  ◌==◌, between, ==_iff, length, where_rows, any, all, All, All_of_mem, All_at,
  mem_of_mem-where_rows, guard, OnOk, OnOk-check,
}
use mathlib.Core.List.{Memᴰ}
use world_of_seeds.Prelude.Sorting.{All-sort_by}
use world_of_seeds.Models.{Uuid, Instant, hours, ManagedTorrent, TorrentRequest, is_active_state}
use world_of_seeds.Storage.{Tables}
use world_of_seeds.Storage.Reconcile.{joined_size}
use world_of_seeds.Lifecycle.Rows.{remaining, Store}
use world_of_seeds.Lifecycle.Rights.{
  validate_lifecycle_hours, bad_batch_limit, expire_requests, expire_torrent, expire_torrents,
  is_due_request, due_torrents, due_requests, due_of, deadline_of, first_deadline, origin,
  expire_ready_torrents_batch,
}
use world_of_seeds.Lifecycle.Sums.{distinct_requests, distinct_torrents, other_key}
use world_of_seeds.Lifecycle.Distinct.{
  distinct-where_rows, distinct-sort_by, page-distinct, All-page,
}
use world_of_seeds.Lifecycle.Balance.{
  joined_size_at, IsRight, IsSound, expire_requests-IsSound, expire_requests-IsRight,
  schedule-IsSound, schedule-IsRight,
}

-- The due rights of a torrent.
abbrev requests_of : ManagedTorrent → List TorrentRequest → List TorrentRequest
requests_of t due = where_rows (λ r. r.managed_torrent_id == t.id) due

abbrev AreRights : Store → List TorrentRequest → ManagedTorrent → Type 0
AreRights s due t = All (IsRight s.tables t.total_size) (requests_of t due)

apart_others :
    (q : TorrentRequest → Bool) (i : Uuid) (rs : List TorrentRequest)
    → all (λ (r : TorrentRequest). not (r.id == i)) rs ≡ true
    → all (λ (r : TorrentRequest). not (i == r.id)) (where_rows q rs) ≡ true
apart_others q i [] h = refl
apart_others q i (r ∷ rs) h = ground (arith, apart_others q i rs)

apart :
    (due : List TorrentRequest) (i : Uuid) (x : TorrentRequest)
    → distinct_requests due ≡ true
    → Memᴰ x due
    → (x.managed_torrent_id == i) ≡ false
    → all
        (λ (r : TorrentRequest). not (x.id == r.id))
        (where_rows (λ r. r.managed_torrent_id == i) due)
      ≡ true
apart [] i x h m k = refl
apart (y ∷ ys) i x h (Memᴰ.head e) k =
    let same : x.id ≡ y.id = ap (λ (z : TorrentRequest). z.id) e in
    let other : (y.managed_torrent_id == i) ≡ false =
      ap (λ (z : TorrentRequest). z.managed_torrent_id == i) (sym e) ∙ k in
    rw (other, same) (apart_others (λ r. r.managed_torrent_id == i) y.id ys (ground (arith, h)))
apart (y ∷ ys) i x h (Memᴰ.tail m) k =
    let other = other_key (λ (r : TorrentRequest). r.id) y.id ys (ground (arith, h)) m in
    ground (arith, other, apart ys i x (ground (arith, h)) m k)

torrents-distinct :
    (now : Instant) (limit : ℕ) (locked : Uuid → Bool) (db : Tables)
    → distinct_torrents db.torrents ≡ true
    → distinct_torrents (due_torrents now limit locked db) ≡ true
unfolding due_torrents
torrents-distinct now limit locked db h =
    page-distinct (λ t. first_deadline (due_of now db t.id) ∷ t.id ∷ [])
      (λ t. ltb 0 (length (due_of now db t.id)) && not (locked t.id)) limit db.torrents
      (λ (t : ManagedTorrent). t.id) h

torrents-known :
    (now : Instant) (limit : ℕ) (locked : Uuid → Bool) (db : Tables) {t : ManagedTorrent}
    → Memᴰ t (due_torrents now limit locked db)
    → Memᴰ t db.torrents
unfolding due_torrents
torrents-known now limit locked db m =
    All_at (λ t. Memᴰ t db.torrents) _
      (All-page (λ t. first_deadline (due_of now db t.id) ∷ t.id ∷ [])
        (λ t. ltb 0 (length (due_of now db t.id)) && not (locked t.id)) limit db.torrents
        (λ t. Memᴰ t db.torrents) (λ t known test. known))
      m

due-distinct :
    (now : Instant) (limit : ℕ) (locked : Uuid → Bool) (torrents : List ManagedTorrent)
    (db : Tables)
    → distinct_requests db.requests ≡ true
    → distinct_requests (due_requests now limit locked torrents db) ≡ true
unfolding due_requests
due-distinct now limit locked torrents db h =
    page-distinct (λ r. deadline_of r ∷ r.id ∷ [])
      (λ r.
        is_due_request now r
        && any (λ (t : ManagedTorrent). t.id == r.managed_torrent_id) torrents
        && not (locked r.id))
      limit db.requests (λ (r : TorrentRequest). r.id) h

abbrev IsDue : Tables → TorrentRequest → Type 0
IsDue db r = Memᴰ r db.requests × (is_active_state r.state ≡ true)

due_active :
    (now : Instant) (r : TorrentRequest)
    → is_due_request now r ≡ true
    → is_active_state r.state ≡ true
unfolding is_due_request
due_active now r h = ground (arith, h)

due_requests-IsDue :
    (now : Instant) (limit : ℕ) (locked : Uuid → Bool) (torrents : List ManagedTorrent)
    (db : Tables)
    → All (IsDue db) (due_requests now limit locked torrents db)
unfolding due_requests
due_requests-IsDue now limit locked torrents db =
    All-page (λ r. deadline_of r ∷ r.id ∷ [])
      (λ r.
        is_due_request now r
        && any (λ (t : ManagedTorrent). t.id == r.managed_torrent_id) torrents
        && not (locked r.id))
      limit db.requests (IsDue db)
      (λ r known test. (known, due_active now r (ground (arith, test))))

due-AreRights :
    (now : Instant) (limit : ℕ) (locked : Uuid → Bool) (torrents : List ManagedTorrent) (s : Store)
    → distinct_torrents s.tables.torrents ≡ true
    → (t : ManagedTorrent) → Memᴰ t s.tables.torrents
    → AreRights s (due_requests now limit locked torrents s.tables) t
due-AreRights now limit locked torrents s h t m =
    let due = due_requests now limit locked torrents s.tables in
    All_of_mem _ (requests_of t due) (λ r there.
      let (found, owner) = mem_of_mem-where_rows (λ r. r.managed_torrent_id == t.id) due there in
      let (known, active) =
        All_at _ due (due_requests-IsDue now limit locked torrents s.tables) found in
      record {
        known = known;
        active = active;
        sized =
            ap (joined_size s.tables.torrents) ((==_iff r.managed_torrent_id t.id).0 owner)
            ∙ joined_size_at s.tables.torrents h m;
      })

module _ (created now : Instant) (retention_hours : ℕ) (due : List TorrentRequest) where
  round-IsSound :
      (job_id : Uuid) (t : ManagedTorrent) (s : Store)
      → distinct_requests due ≡ true
      → AreRights s due t
      → IsSound s.tables
      → IsSound (expire_torrent job_id created now retention_hours t (requests_of t due) s).0.tables
  unfolding expire_torrent
  round-IsSound job_id t s h rights sound =
      let rs = requests_of t due in
      let db = expire_requests t.total_size now rs s.tables in
      let expired =
        expire_requests-IsSound t.total_size now rs s.tables
          (distinct-where_rows (λ (r : TorrentRequest). r.id) (λ r. r.managed_torrent_id == t.id)
            due h)
          rights sound in
      if_ind (λ (x : Store). IsSound x.tables) (remaining db t.id == 0)
        (λ e.
          schedule-IsSound job_id created t (origin rs) (now + hours retention_hours) now
            (record s { tables = db }) expired)
        (λ e. expired)

  round-IsRight :
      (job_id : Uuid) (t : ManagedTorrent) (s : Store) (n : ℕ) (x : TorrentRequest)
      → distinct_requests due ≡ true
      → Memᴰ x due
      → (x.managed_torrent_id == t.id) ≡ false
      → IsRight s.tables n x
      → IsRight
          (expire_torrent job_id created now retention_hours t (requests_of t due) s).0.tables
          n
          x
  unfolding expire_torrent
  round-IsRight job_id t s n x h m other right =
      let rs = requests_of t due in
      let db = expire_requests t.total_size now rs s.tables in
      let kept =
        expire_requests-IsRight t.total_size now rs s.tables n x (apart due t.id x h m other)
          right in
      if_ind (λ (y : Store). IsRight y.tables n x) (remaining db t.id == 0)
        (λ e.
          schedule-IsRight job_id created t (origin rs) (now + hours retention_hours) now
            (record s { tables = db }) n x kept)
        (λ e. kept)

  rounds-IsSound :
      (job_id : Uuid → Uuid) (ts : List ManagedTorrent) (s : Store)
      → distinct_requests due ≡ true
      → distinct_torrents ts ≡ true
      → All (AreRights s due) ts
      → IsSound s.tables
      → IsSound (expire_torrents job_id created now retention_hours due ts s).0.tables
  unfolding expire_torrents
  rounds-IsSound job_id [] s h k rights sound = sound
  rounds-IsSound job_id (t ∷ ts) s h k (right, rights) sound =
      rounds-IsSound job_id ts _ h (ground (arith, k))
        (All_of_mem _ ts (λ u m. All_of_mem _ (requests_of u due) (λ x there.
          let (known, owner) =
            mem_of_mem-where_rows (λ r. r.managed_torrent_id == u.id) due there in
          let other = other_key (λ (y : ManagedTorrent). y.id) t.id ts (ground (arith, k)) m in
          round-IsRight (job_id t.id) t s u.total_size x h known (ground (arith, owner, other))
            (All_at _ (requests_of u due) (All_at _ ts rights m) there))))
        (round-IsSound (job_id t.id) t s h right sound)

-- Where the counters agree with the sums over the rights, and no two requests and no two torrents have
-- one identifier, they still agree after a batch has expired the due rights and scheduled the purges.
pub expire-IsSound :
    (job_id : Uuid → Uuid) (created : Instant) (locked : Uuid → Bool) (now : Instant)
    (retention_hours limit : ℕ) (s : Store)
    → IsSound s.tables
    → distinct_torrents s.tables.torrents ≡ true
    → OnOk
        (λ r. IsSound r.0.tables)
        (expire_ready_torrents_batch job_id created locked now retention_hours limit s)
unfolding expire_ready_torrents_batch validate_lifecycle_hours
expire-IsSound job_id created locked now retention_hours limit s sound h =
    let torrents = due_torrents now limit locked s.tables in
    let due = due_requests now limit locked torrents s.tables in
    let has_due = λ (t : ManagedTorrent). any (λ r. r.managed_torrent_id == t.id) due in
    OnOk-check _ (validate_lifecycle_hours retention_hours) _ (λ e.
      OnOk-check _ (guard (between 1 500 limit) bad_batch_limit) _ (λ f.
        rounds-IsSound created now retention_hours due job_id _ s
          (due-distinct now limit locked torrents s.tables sound.distinct)
          (distinct-sort_by (λ (t : ManagedTorrent). t.id) (λ t. t.id ∷ [])
            (where_rows has_due torrents)
            (distinct-where_rows (λ (t : ManagedTorrent). t.id) has_due torrents
              (torrents-distinct now limit locked s.tables h)))
          (All-sort_by (λ t. t.id ∷ []) (AreRights s due) (where_rows has_due torrents)
            (All_of_mem (AreRights s due) (where_rows has_due torrents) (λ t m.
              due-AreRights now limit locked torrents s h t (
                torrents-known now limit locked s.tables
                  (mem_of_mem-where_rows has_due torrents m).0))))
          sound))
