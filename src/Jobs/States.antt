-- ===== src/Jobs/States.antt =====
-- The state machine of a job: what every run of the operations of
-- backend/app/jobs/torrent_jobs.py keeps of every row.
use world_of_seeds.Prelude.{
  ◌≤◌, ◌<◌, String, ◌≡◌, sym, ap, ◌∙◌, ◌≢◌, Bool, true, Option, List, arith, ℤ, All,
}
use world_of_seeds.Models.{
  Uuid, Instant, TorrentJobState, running, TorrentJob, is_queued, is_running,
}
use world_of_seeds.Jobs.{
  complete_torrent_job, renew_torrent_job_claim, retry_torrent_job, fail_torrent_job,
  request_cancellation, cancel_claimed_torrent_job,
}
use world_of_seeds.Jobs.Queue.{Jobs, claimed, is_claimable, is_abandoned, recover_row}
use world_of_seeds.Jobs.Valid.{
  IsValid, is_terminal, complete-IsValid, renew-IsValid, retry-IsValid, fail-IsValid,
  cancel_claimed-IsValid, request-IsValid, claimed-IsValid, recover_row-IsValid,
}
use world_of_seeds.Jobs.Claims.{Owned-Holds}
use world_of_seeds.Jobs.Runs.{Owned, complete, renew, retry, fail, cancel, Reach, Keeps, Reach-All}

pub claimable-queued :
    (locked : Uuid → Bool) (types : Option (List String)) (now : Instant) (job : TorrentJob)
    → is_claimable locked types now job ≡ true
    → (is_queued job.state ≡ true) × (job.attempt_count < job.max_attempts)
unfolding is_claimable
claimable-queued locked types now job h = (ground arith, ground arith)

abandoned-running :
    (locked : Uuid → Bool) (now : Instant) (job : TorrentJob)
    → is_abandoned locked now job ≡ true
    → is_running job.state ≡ true
unfolding is_abandoned
abandoned-running locked now job h = ground arith

Owned-IsValid :
    (job : TorrentJob) (w : String) (now : Instant) (job' : TorrentJob)
    → IsValid job
    → Owned job w now job'
    → IsValid job'
Owned-IsValid job w now job' v (complete e) = complete-IsValid job v w now e
Owned-IsValid job w now job' v (renew ttl e) = renew-IsValid job v w now ttl e
Owned-IsValid job w now job' v (retry at code e) = retry-IsValid job v w now at code e
Owned-IsValid job w now job' v (fail code e) = fail-IsValid job v w now code e
Owned-IsValid job w now job' v (cancel e) = cancel_claimed-IsValid job v w now e

IsValid-Keeps : Keeps IsValid
IsValid-Keeps = record {
  on_owned = Owned-IsValid;
  on_request = λ job now v. request-IsValid now job v;
  on_claim = λ job locked w now ttl timeout types v c.
      claimed-IsValid w now ttl timeout job v (claimable-queued locked types now job c).0;
  on_recover = λ job locked now delay v a.
      recover_row-IsValid now delay job v (abandoned-running locked now job a);
}

-- From rows that pass the CHECK constraints of `torrent_jobs` on attempts, claims and finishing
-- times, whatever operations of whatever workers follow one another, every row passes them.
pub Reach-IsValid : {jobs jobs' : Jobs} → All IsValid jobs → Reach jobs jobs' → All IsValid jobs'
Reach-IsValid = Reach-All IsValid IsValid-Keeps

abbrev pub InBudget : TorrentJob → Type 0
InBudget job = job.attempt_count ≤ job.max_attempts

module _ (job : TorrentJob) (w : String) (now : Instant) (job' : TorrentJob) where
  pub Owned-counts :
      Owned job w now job'
      → (job'.attempt_count ≡ job.attempt_count)
        × (job'.max_attempts ≡ job.max_attempts)
        × (job'.id ≡ job.id)
  unfolding complete_torrent_job renew_torrent_job_claim retry_torrent_job fail_torrent_job
      cancel_claimed_torrent_job
  Owned-counts (complete e) = ground arith
  Owned-counts (renew ttl e) = ground arith
  Owned-counts (retry at code e) = ground arith
  Owned-counts (fail code e) = ground arith
  Owned-counts (cancel e) = ground arith

InBudget-Keeps : Keeps InBudget
unfolding request_cancellation claimed recover_row
InBudget-Keeps = record {
  on_owned = λ job w now job' b o. let (a, m, i) = Owned-counts job w now job' o in omega arith;
  on_request = λ job now b. ground arith;
  on_claim = λ job locked w now ttl timeout types b c.
      let (q, room) = claimable-queued locked types now job c in omega arith;
  on_recover = λ job locked now delay b a. ground arith;
}

-- No job is ever attempted more often than its `max_attempts`, along any run.
pub Reach-InBudget : {jobs jobs' : Jobs} → All InBudget jobs → Reach jobs jobs' → All InBudget jobs'
Reach-InBudget = Reach-All InBudget InBudget-Keeps

pub request-id : (job : TorrentJob) (now : Instant) → (request_cancellation job now).id ≡ job.id
unfolding request_cancellation
request-id job now = ground arith

pub recover_row-id :
    (job : TorrentJob) (now : Instant) (delay : ℤ) → (recover_row now delay job).id ≡ job.id
unfolding recover_row
recover_row-id job now delay = ground arith

-- The job `i`, wherever it stands in the table, is in state `s`, finished at `at`.
abbrev pub Ended : Uuid → TorrentJobState → Option Instant → TorrentJob → Type 0
Ended i s at job = job.id ≡ i → (job.state ≡ s) × (job.finished_at ≡ at)

module _ (i : Uuid) (s : TorrentJobState) (at : Option Instant) (done : is_terminal s ≡ true) where
  not-Ended_running : (job : TorrentJob) → Ended i s at job → job.state ≡ running → job.id ≢ i
  not-Ended_running job h r e = cc (ap is_terminal r, ap is_terminal (h e).0)

  request-Ended :
      (job : TorrentJob) (now : Instant)
      → Ended i s at job
      → Ended i s at (request_cancellation job now)
  unfolding request_cancellation
  request-Ended job now h e =
      let same = sym (request-id job now) ∙ e in
      let (in_state, finished) = h same in ground (arith, ap is_terminal in_state)

  claimed-Ended :
      (job : TorrentJob) (w : String) (now : Instant) (ttl timeout : ℤ)
      → is_queued job.state ≡ true
      → Ended i s at job
      → Ended i s at (claimed job w now ttl timeout)
  unfolding claimed
  claimed-Ended job w now ttl timeout q h e =
      let (in_state, finished) = h e in ground (arith, ap is_terminal in_state)

  recover_row-Ended :
      (job : TorrentJob) (now : Instant) (delay : ℤ)
      → is_running job.state ≡ true
      → Ended i s at job
      → Ended i s at (recover_row now delay job)
  recover_row-Ended job now delay r h e =
      let (in_state, finished) = h (sym (recover_row-id job now delay) ∙ e) in
      ground (arith, ap is_terminal in_state)

  Ended-Keeps : Keeps (Ended i s at)
  Ended-Keeps = record {
    on_owned = λ job w now job' h o e.
        let (a, m, same) = Owned-counts job w now job' o in
        absurd (not-Ended_running job h (Owned-Holds o).is_running_now (sym same ∙ e));
    on_request = λ job now h e. request-Ended job now h e;
    on_claim = λ job locked w now ttl timeout types h c e.
        claimed-Ended job w now ttl timeout (claimable-queued locked types now job c).0 h e;
    on_recover = λ job locked now delay h a e.
        recover_row-Ended job now delay (abandoned-running locked now job a) h e;
  }

-- COMPLETED, FAILED and CANCELLED are final: along any run a job that has ended keeps its state and
-- its finishing time.
pub Reach-Ended :
    (i : Uuid) (s : TorrentJobState) (at : Option Instant) {jobs jobs' : Jobs}
    → is_terminal s ≡ true
    → All (Ended i s at) jobs
    → Reach jobs jobs'
    → All (Ended i s at) jobs'
Reach-Ended i s at done = Reach-All (Ended i s at) (Ended-Keeps i s at done)
