-- ===== src/Jobs/Tables.antt =====
-- Lemmas on the table operations of backend/app/jobs/torrent_jobs.py: what the searches find, what a
-- successful call returned, and how a property of every row survives a write.
use world_of_seeds.Prelude.{
  ℕ, String, ◌≡◌, refl, sym, ap, ◌∙◌, Bool, true, false, Option, none, some, List, [], ◌∷◌, map,
  head?, arith, ◌==◌, if◌then◌else◌, ==_iff, ℤ, where_rows, All, All-take, All_of_mem, All_at,
  mem_of_mem-where_rows, ok,
}
use mathlib.Core.List.{Memᴰ}
use world_of_seeds.Prelude.Sorting.{All-sort_by}
use world_of_seeds.Models.{Uuid, Instant, TorrentJob}
use world_of_seeds.Jobs.Queue.{
  Jobs, save_row, save_rows, is_claimable, is_abandoned, recover_row, next_claimable, claim_found,
  claim_next_torrent_job, recover_expired_torrent_jobs, find_job, abandoned_jobs, claim_key,
  recovery_key,
}

abbrev pub OnSome : (TorrentJob → Type 0) → Option TorrentJob → Type 0
OnSome P none = Unit
OnSome P (some x) = P x

head-OnSome_of : (Q : TorrentJob → Type 0) (xs : Jobs) → All Q xs → OnSome Q (head? xs)
head-OnSome_of Q [] h = tt
head-OnSome_of Q (x ∷ xs) h = h.0

module _ (P : TorrentJob → Type 0) where
  if-pick : (b : Bool) {x y : TorrentJob} → P x → P y → P (if b then x else y)
  if-pick true hx hy = hx
  if-pick false hx hy = hy

  pub save_row-All :
      (job : TorrentJob) (jobs : Jobs) → P job → All P jobs → All P (save_row job jobs)
  unfolding save_row
  save_row-All job [] v h = tt
  save_row-All job (x ∷ xs) v (hx, hs) = (if-pick (x.id == job.id) v hx, save_row-All job xs v hs)

  pub save_rows-All : (rows jobs : Jobs) → All P rows → All P jobs → All P (save_rows rows jobs)
  unfolding save_rows
  save_rows-All [] jobs vs h = h
  save_rows-All (x ∷ xs) jobs (v, vs) h =
      save_rows-All xs (save_row x jobs) vs (save_row-All x jobs v h)

  -- A row that a search returns has the property, and passes the test of the search.
  abbrev pub Found : (TorrentJob → Bool) → TorrentJob → Type 0
  Found p job = P job × (p job ≡ true)

  Found-where_rows :
      (p : TorrentJob → Bool) (jobs : Jobs) → All P jobs → All (Found p) (where_rows p jobs)
  Found-where_rows p jobs h = All_of_mem _ (where_rows p jobs) λ x m.
      let (inside, passes) = mem_of_mem-where_rows p jobs m in (All_at _ jobs h inside, passes)

  pub next_claimable-Found :
      (jobs : Jobs) (locked : Uuid → Bool) (types : Option (List String)) (now : Instant)
      → All P jobs
      → OnSome (Found (is_claimable locked types now)) (next_claimable jobs locked types now)
  unfolding next_claimable
  next_claimable-Found jobs locked types now h =
      head-OnSome_of _ _ (All-sort_by claim_key _ _ (Found-where_rows _ jobs h))

  pub abandoned-Found :
      (jobs : Jobs) (locked : Uuid → Bool) (now : Instant) (limit : ℕ)
      → All P jobs
      → All (Found (is_abandoned locked now)) (abandoned_jobs jobs locked now limit)
  unfolding abandoned_jobs
  abandoned-Found jobs locked now limit h =
      All-take _ limit _ (All-sort_by recovery_key _ _ (Found-where_rows _ jobs h))

pub claim_next-ok :
    (jobs : Jobs) (locked : Uuid → Bool) (w : String) (now : Instant) (ttl timeout : ℤ)
    (types : Option (List String)) {r : Option TorrentJob × Jobs}
    → claim_next_torrent_job jobs locked w now ttl timeout types ≡ ok r
    → claim_found (next_claimable jobs locked types now) jobs w now ttl timeout ≡ r
unfolding claim_next_torrent_job
claim_next-ok jobs locked w now ttl timeout types e = ground arith

pub recover-ok :
    (jobs : Jobs) (locked : Uuid → Bool) (now : Instant) (delay : ℤ) (limit : ℕ) {r : Jobs × Jobs}
    → recover_expired_torrent_jobs jobs locked now delay limit ≡ ok r
    → (r.0 ≡ map (recover_row now delay) (abandoned_jobs jobs locked now limit))
      × (r.1 ≡ save_rows r.0 jobs)
unfolding recover_expired_torrent_jobs
recover-ok jobs locked now delay limit e = ground arith

pub find_job-mem :
    (jobs : Jobs) (i : Uuid) (job : TorrentJob)
    → find_job jobs i ≡ some job
    → Memᴰ job jobs × (job.id ≡ i)
unfolding find_job
find_job-mem [] i job e = cc
find_job-mem (x ∷ xs) i job e = step (x.id == i) refl (find_job-mem xs i job) e
  where
    step :
        (b : Bool)
        → (x.id == i) ≡ b
        → (find_job xs i ≡ some job → Memᴰ job xs × (job.id ≡ i))
        → (if b then some x else find_job xs i) ≡ some job
        → Memᴰ job (x ∷ xs) × (job.id ≡ i)
    step true t rec e' =
        let s : x ≡ job = cc in
        (Memᴰ.head (sym s), ap (λ (j : TorrentJob). j.id) (sym s) ∙ (==_iff x.id i).0 t)
    step false t rec e' = (Memᴰ.tail (rec e').0, (rec e').1)
