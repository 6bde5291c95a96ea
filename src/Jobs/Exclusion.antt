-- ===== src/Jobs/Exclusion.antt =====
-- A claimed job of backend/app/jobs/torrent_jobs.py belongs to its worker until its deadlines.
use world_of_seeds.Prelude.{
  ◌<◌, String, ◌≡◌, sym, ap, subst, ◌∙◌, ◌≢◌, Bool, true, Option, some, List, [], ◌∷◌, arith, ℤ,
  All, All_at, All_of_mem, ok,
}
use mathlib.Core.Option.{some-injective}
use mathlib.Core.List.{Memᴰ}
use world_of_seeds.Models.{Uuid, Instant, running, TorrentJob, is_queued}
use world_of_seeds.Jobs.{request_cancellation}
use world_of_seeds.Jobs.Queue.{
  Jobs, save_row, claimed, is_abandoned, recover_row, claim_next_torrent_job,
}
use world_of_seeds.Jobs.Tables.{save_row-All, claim_next-ok}
use world_of_seeds.Jobs.Claims.{Owned-Holds, claim_takes}
use world_of_seeds.Jobs.States.{claimable-queued, request-id, recover_row-id, Owned-counts}
use world_of_seeds.Jobs.Runs.{
  Owned, Step, claim, owned, request, recover, claim-All, request-All, recover-All,
}

-- An operation that leaves the job `i` to its worker: the worker itself does nothing to that job, and a
-- recovery runs before both deadlines. All else may happen at any time.
abbrev pub Leaves :
    Uuid → String → Instant → Instant → {jobs jobs' : Jobs} → Step jobs jobs' → Type 0
Leaves i w expiry timeout (claim _ _ _ _ _ _ _ _) = Unit {0}
Leaves i w expiry timeout (owned job v _ _ _ _ _) = job.id ≡ i → v ≢ w
Leaves i w expiry timeout (request _ _ _) = Unit {0}
Leaves i w expiry timeout (recover _ now _ _ _ _) = (now < expiry) × (now < timeout)

pub data Meanwhile (i : Uuid) (w : String) (expiry timeout : Instant) (jobs : Jobs)
    : Jobs → Type 0 where
  here : Meanwhile i w expiry timeout jobs jobs
  next :
      {mid jobs' : Jobs}
      → Meanwhile i w expiry timeout jobs mid
      → (s : Step mid jobs') → Leaves i w expiry timeout s
      → Meanwhile i w expiry timeout jobs jobs'

-- The job `i`, wherever it stands in the table, runs for `w` with these deadlines.
abbrev pub Held : Uuid → String → Instant → Instant → TorrentJob → Type 0
Held i w expiry timeout job =
    job.id ≡ i
    → (job.state ≡ running)
      × (job.claimed_by ≡ some w)
      × (job.claim_expires_at ≡ some expiry)
      × (job.timeout_at ≡ some timeout)

module _ (i : Uuid) (w : String) (expiry timeout : Instant) where
  request-Held :
      (job : TorrentJob) (now : Instant)
      → Held i w expiry timeout job
      → Held i w expiry timeout (request_cancellation job now)
  unfolding request_cancellation
  request-Held job now h e =
      let (runs, by, expires, times_out) = h (sym (request-id job now) ∙ e) in ground arith

  claimed-Held :
      (job : TorrentJob) (v : String) (now : Instant) (ttl limit : ℤ)
      → is_queued job.state ≡ true
      → Held i w expiry timeout job
      → Held i w expiry timeout (claimed job v now ttl limit)
  unfolding claimed
  claimed-Held job v now ttl limit q h e =
      let (runs, by, expires, times_out) = h e in ground (arith, ap is_queued runs)

  recover_row-Held :
      (job : TorrentJob) (locked : Uuid → Bool) (now : Instant) (delay : ℤ)
      → now < expiry
      → now < timeout
      → is_abandoned locked now job ≡ true
      → Held i w expiry timeout job
      → Held i w expiry timeout (recover_row now delay job)
  unfolding is_abandoned
  recover_row-Held job locked now delay early soon a h e =
      let (runs, by, expires, times_out) = h (sym (recover_row-id job now delay) ∙ e) in
      absurd (ground arith)

  owned-Held :
      (job : TorrentJob) (v : String) (now : Instant) (job' : TorrentJob)
      → (job.id ≡ i → v ≢ w)
      → Owned job v now job'
      → Held i w expiry timeout job
      → Held i w expiry timeout job'
  owned-Held job v now job' other o h e =
      let (attempts, most, same) = Owned-counts job v now job' o in
      let (runs, by, expires, times_out) = h (sym same ∙ e) in
      absurd (other (sym same ∙ e) (some-injective v w (sym (Owned-Holds o).is_owner ∙ by)))

  Step-Held :
      {jobs jobs' : Jobs}
      → (s : Step jobs jobs') → Leaves i w expiry timeout s
      → All (Held i w expiry timeout) jobs
      → All (Held i w expiry timeout) jobs'
  Step-Held {jobs} (claim locked v now ttl limit types found e) l h =
      subst (λ (p : Option TorrentJob × Jobs). All (Held i w expiry timeout) p.1)
        (claim_next-ok jobs locked v now ttl limit types e)
        (claim-All _ jobs locked v now ttl limit types
          (λ job k c.
            claimed-Held job v now ttl limit (claimable-queued locked types now job c).0 k)
          h)
  Step-Held {jobs} (owned job v now job' m o e) l h =
      subst (All (Held i w expiry timeout)) (sym e) (
        save_row-All _ job' jobs
          (owned-Held job v now job' l o (All_at (Held i w expiry timeout) jobs h m)) h)
  Step-Held {jobs} (request j now e) l h =
      subst (All (Held i w expiry timeout)) (sym e)
        (request-All _ jobs j now (λ job k. request-Held job now k) h)
  Step-Held {jobs} (recover locked now delay limit recovered e) (early, soon) h =
      recover-All (Held i w expiry timeout) jobs locked now delay limit
        (λ job k a. recover_row-Held job locked now delay early soon a k) e h

  Meanwhile-Held :
      {jobs jobs' : Jobs}
      → Meanwhile i w expiry timeout jobs jobs'
      → All (Held i w expiry timeout) jobs
      → All (Held i w expiry timeout) jobs'
  Meanwhile-Held here h = h
  Meanwhile-Held (next r s l) h = Step-Held s l (Meanwhile-Held r h)

-- A write leaves one row of its identifier only, in as many places as there are.
save_row-only :
    (job : TorrentJob) (jobs : Jobs) → All (λ x. x.id ≡ job.id → x ≡ job) (save_row job jobs)
unfolding save_row
save_row-only job [] = tt
save_row-only job (x ∷ xs) = (λ e. ground arith, save_row-only job xs)

module _ (jobs : Jobs) (locked : Uuid → Bool) (w : String) (now : Instant) (ttl limit : ℤ)
    (types : Option (List String)) {claimed_jobs : Jobs} where
  taken-Held :
      (taken : TorrentJob) (expiry timeout : Instant)
      → claim_next_torrent_job jobs locked w now ttl limit types ≡ ok (some taken, claimed_jobs)
      → taken.claim_expires_at ≡ some expiry
      → taken.timeout_at ≡ some timeout
      → All (Held taken.id w expiry timeout) claimed_jobs
  unfolding claimed
  taken-Held taken expiry timeout e expires times_out =
      let (job, same, took) = claim_takes jobs locked w now ttl limit types taken e in
      subst (All (Held taken.id w expiry timeout)) (sym took.saved) (
        All_of_mem _ (save_row taken jobs) (λ x m named.
          let here = All_at _ (save_row taken jobs) (save_row-only taken jobs) m named in
          ground (arith, same, here)))

  -- From a claim by `w` on, while `w` does nothing more to the job and no recovery runs at or after the
  -- claim's expiry or the execution timeout, whatever claims, cancellation requests, earlier recoveries
  -- and operations of other workers are made, in any order: an operation of a worker that succeeds on the
  -- job afterwards is of `w`, stands before both deadlines, and finds them as the claim set them.
  pub claim-excludes :
      (taken : TorrentJob) (expiry timeout : Instant)
      → claim_next_torrent_job jobs locked w now ttl limit types ≡ ok (some taken, claimed_jobs)
      → taken.claim_expires_at ≡ some expiry
      → taken.timeout_at ≡ some timeout
      → {jobs' : Jobs} → Meanwhile taken.id w expiry timeout claimed_jobs jobs'
      → {job : TorrentJob} {v : String} {later : Instant} {job' : TorrentJob} → Memᴰ job jobs'
      → job.id ≡ taken.id
      → Owned job v later job'
      → (v ≡ w)
        × (later < expiry)
        × (later < timeout)
        × (job.claim_expires_at ≡ some expiry)
        × (job.timeout_at ≡ some timeout)
  claim-excludes taken expiry timeout e expires times_out {jobs'} run {job} {v} m same o =
      let kept =
        Meanwhile-Held taken.id w expiry timeout run
          (taken-Held taken expiry timeout e expires times_out) in
      let (runs, by, until, limited) = All_at _ jobs' kept m same in
      let held = Owned-Holds o in
      (
        some-injective v w (sym held.is_owner ∙ by),
        before until held.before_expiry,
        before limited held.before_timeout,
        until,
        limited,
      )
    where
      before :
          {o : Option Instant} {e t : Instant}
          → o ≡ some e
          → (x : Instant) × (o ≡ some x) × (t < x)
          → t < e
      before same (x, found, early) = ground arith
