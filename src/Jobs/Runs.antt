-- ===== src/Jobs/Runs.antt =====
-- Runs of the job queue: any interleaving of the operations of
-- backend/app/jobs/torrent_jobs.py by any workers, at any times, and a rule for what they keep.
use world_of_seeds.Prelude.{
  ℕ, String, ◌≡◌, refl, sym, subst, Bool, true, Option, none, some, List, [], ◌∷◌, map, ℤ, All,
  All_at, ok,
}
use mathlib.Core.List.{Memᴰ}
use world_of_seeds.Models.{Uuid, Instant, TorrentJob}
use world_of_seeds.Jobs.{
  complete_torrent_job, renew_torrent_job_claim, retry_torrent_job, fail_torrent_job,
  request_cancellation, cancel_claimed_torrent_job,
}
use world_of_seeds.Jobs.Queue.{
  Jobs, save_row, claimed, is_claimable, is_abandoned, recover_row, next_claimable, claim_found,
  claim_next_torrent_job, request_torrent_job_cancellation, recover_expired_torrent_jobs, find_job,
  cancel_found,
}
use world_of_seeds.Jobs.Tables.{
  OnSome, Found, save_row-All, save_rows-All, next_claimable-Found, abandoned-Found, claim_next-ok,
  recover-ok, find_job-mem,
}

-- What worker `w` does at `now` to a row that it holds, when the code raises nothing.
pub data Owned (job : TorrentJob) (w : String) (now : Instant) (job' : TorrentJob) : Type 0 where
  complete : complete_torrent_job job w now ≡ ok job' → Owned job w now job'
  renew : (ttl : ℤ) → renew_torrent_job_claim job w now ttl ≡ ok job' → Owned job w now job'
  retry :
      (at : Instant) (code : String)
      → retry_torrent_job job w now at code ≡ ok job'
      → Owned job w now job'
  fail : (code : String) → fail_torrent_job job w now code ≡ ok job' → Owned job w now job'
  cancel : cancel_claimed_torrent_job job w now ≡ ok job' → Owned job w now job'

-- One committed operation.
pub data Step (jobs jobs' : Jobs) : Type 0 where
  claim :
      (locked : Uuid → Bool) (w : String) (now : Instant) (ttl timeout : ℤ)
      (types : Option (List String)) (found : Option TorrentJob)
      → claim_next_torrent_job jobs locked w now ttl timeout types ≡ ok (found, jobs')
      → Step jobs jobs'
  owned :
      (job : TorrentJob) (w : String) (now : Instant) (job' : TorrentJob)
      → Memᴰ job jobs
      → Owned job w now job'
      → jobs' ≡ save_row job' jobs
      → Step jobs jobs'
  request :
      (i : Uuid) (now : Instant)
      → jobs' ≡ (request_torrent_job_cancellation jobs i now).1
      → Step jobs jobs'
  recover :
      (locked : Uuid → Bool) (now : Instant) (delay : ℤ) (limit : ℕ) (recovered : Jobs)
      → recover_expired_torrent_jobs jobs locked now delay limit ≡ ok (recovered, jobs')
      → Step jobs jobs'

pub data Reach (jobs : Jobs) : Jobs → Type 0 where
  here : Reach jobs jobs
  next : {mid jobs' : Jobs} → Reach jobs mid → Step mid jobs' → Reach jobs jobs'

-- What to show of a property of one row for every run to keep it of every row.
pub record Keeps (P : TorrentJob → Type 0) : Type 0 where
  pub on_owned :
      (job : TorrentJob) (w : String) (now : Instant) (job' : TorrentJob)
      → P job
      → Owned job w now job'
      → P job'
  pub on_request : (job : TorrentJob) (now : Instant) → P job → P (request_cancellation job now)
  pub on_claim :
      (job : TorrentJob) (locked : Uuid → Bool) (w : String) (now : Instant) (ttl timeout : ℤ)
      (types : Option (List String))
      → P job
      → is_claimable locked types now job ≡ true
      → P (claimed job w now ttl timeout)
  pub on_recover :
      (job : TorrentJob) (locked : Uuid → Bool) (now : Instant) (delay : ℤ)
      → P job
      → is_abandoned locked now job ≡ true
      → P (recover_row now delay job)

-- What one operation keeps of every row, from what it keeps of the rows that it changes.
module _ (P : TorrentJob → Type 0) where
  pub claim-All :
      (jobs : Jobs) (locked : Uuid → Bool) (w : String) (now : Instant) (ttl timeout : ℤ)
      (types : Option (List String))
      → ((job : TorrentJob)
          → P job
          → is_claimable locked types now job ≡ true
          → P (claimed job w now ttl timeout))
      → All P jobs
      → All P (claim_found (next_claimable jobs locked types now) jobs w now ttl timeout).1
  unfolding claim_found
  claim-All jobs locked w now ttl timeout types keep h =
      step (next_claimable jobs locked types now) (next_claimable-Found P jobs locked types now h)
    where
      step :
          (o : Option TorrentJob)
          → OnSome (Found P (is_claimable locked types now)) o
          → All P (claim_found o jobs w now ttl timeout).1
      step none f = h
      step (some job) (v, c) = save_row-All P _ jobs (keep job v c) h

  pub request-All :
      (jobs : Jobs) (i : Uuid) (now : Instant)
      → ((job : TorrentJob) → P job → P (request_cancellation job now))
      → All P jobs
      → All P (request_torrent_job_cancellation jobs i now).1
  unfolding request_torrent_job_cancellation
  request-All jobs i now keep h = step (find_job jobs i) refl
    where
      step : (o : Option TorrentJob) → find_job jobs i ≡ o → All P (cancel_found o jobs now).1
      step none e = h
      step (some job) e =
          save_row-All P _ jobs (keep job (All_at P jobs h (find_job-mem jobs i job e).0)) h

  recover_rows-All :
      (locked : Uuid → Bool) (now : Instant) (delay : ℤ)
      → ((job : TorrentJob)
          → P job
          → is_abandoned locked now job ≡ true
          → P (recover_row now delay job))
      → (xs : Jobs) → All (Found P (is_abandoned locked now)) xs
      → All P (map (recover_row now delay) xs)
  recover_rows-All locked now delay keep [] h = tt
  recover_rows-All locked now delay keep (x ∷ xs) ((v, a), h) =
      (keep x v a, recover_rows-All locked now delay keep xs h)

  pub recover-All :
      (jobs : Jobs) (locked : Uuid → Bool) (now : Instant) (delay : ℤ) (limit : ℕ)
      {recovered jobs' : Jobs}
      → ((job : TorrentJob)
          → P job
          → is_abandoned locked now job ≡ true
          → P (recover_row now delay job))
      → recover_expired_torrent_jobs jobs locked now delay limit ≡ ok (recovered, jobs')
      → All P jobs
      → All P jobs'
  recover-All jobs locked now delay limit keep e h =
      let (rows, saved) = recover-ok jobs locked now delay limit e in
      let found =
        recover_rows-All locked now delay keep _ (abandoned-Found P jobs locked now limit h) in
      subst (All P) (sym saved) (save_rows-All P _ jobs (subst (All P) (sym rows) found) h)

module _ (P : TorrentJob → Type 0) (rule : Keeps P) where
  open rule use {on_owned, on_request, on_claim, on_recover}

  Step-All : {jobs jobs' : Jobs} → All P jobs → Step jobs jobs' → All P jobs'
  Step-All {jobs} h (claim locked w now ttl timeout types found e) =
      subst (λ (p : Option TorrentJob × Jobs). All P p.1)
        (claim_next-ok jobs locked w now ttl timeout types e)
        (claim-All P jobs locked w now ttl timeout types
          (λ job v c. on_claim job locked w now ttl timeout types v c) h)
  Step-All {jobs} h (owned job w now job' m o e) =
      subst (All P) (sym e)
        (save_row-All P job' jobs (on_owned job w now job' (All_at P jobs h m) o) h)
  Step-All {jobs} h (request i now e) =
      subst (All P) (sym e) (request-All P jobs i now (λ job v. on_request job now v) h)
  Step-All {jobs} h (recover locked now delay limit recovered e) =
      recover-All P jobs locked now delay limit (λ job v a. on_recover job locked now delay v a) e h

  -- What one row keeps under each operation, every row of the table keeps along every run.
  pub Reach-All : {jobs jobs' : Jobs} → All P jobs → Reach jobs jobs' → All P jobs'
  Reach-All h here = h
  Reach-All h (next r s) = Step-All (Reach-All h r) s
