-- ===== src/Jobs/Valid.antt =====
-- The CHECK constraints of `torrent_jobs` (backend/app/models/torrent_v2.py), which every operation
-- of backend/app/jobs/torrent_jobs.py keeps.
use world_of_seeds.Prelude.{◌≤◌, ◌<◌, String, ◌≡◌, Bool, true, false, arith, is_some, ℤ, ok}
use world_of_seeds.Models.{
  Instant, TorrentJobState, queued, running, TorrentJob, is_queued, is_running,
}
use world_of_seeds.Jobs.{
  require_claim_owner, complete_torrent_job, renew_torrent_job_claim, retry_torrent_job,
  fail_torrent_job, request_cancellation, cancel_claimed_torrent_job,
}
use world_of_seeds.Jobs.Queue.{claimed, recover_row}

abbrev pub is_terminal : TorrentJobState → Bool
is_terminal queued = false
is_terminal running = false
is_terminal _ = true

-- The row passes the table's constraints.
pub record IsValid (job : TorrentJob) : Type 0 where
  -- ck_torrent_jobs_max_attempts and ck_torrent_jobs_queued_attempts
  pub has_attempts : 1 ≤ job.max_attempts
  pub queued_attempts : is_queued job.state ≡ true → job.attempt_count < job.max_attempts
  -- ck_torrent_jobs_claim
  pub claim_owner : is_some job.claimed_by ≡ is_running job.state
  pub claim_deadline : is_some job.claim_expires_at ≡ is_running job.state
  pub claim_timeout : is_some job.timeout_at ≡ is_running job.state
  -- ck_torrent_jobs_finished
  pub finished : is_some job.finished_at ≡ is_terminal job.state

module _ (job : TorrentJob) (v : IsValid job) (w : String) (now : Instant) {job' : TorrentJob} where
  pub complete-IsValid : complete_torrent_job job w now ≡ ok job' → IsValid job'
  unfolding complete_torrent_job
  complete-IsValid h = ground arith

  pub renew-IsValid : (ttl : ℤ) → renew_torrent_job_claim job w now ttl ≡ ok job' → IsValid job'
  unfolding renew_torrent_job_claim require_claim_owner
  renew-IsValid ttl h = ground arith

  pub retry-IsValid :
      (at : Instant) (code : String) → retry_torrent_job job w now at code ≡ ok job' → IsValid job'
  unfolding retry_torrent_job require_claim_owner
  retry-IsValid at code h = ground arith

  pub fail-IsValid : (code : String) → fail_torrent_job job w now code ≡ ok job' → IsValid job'
  unfolding fail_torrent_job
  fail-IsValid code h = ground arith

  pub cancel_claimed-IsValid : cancel_claimed_torrent_job job w now ≡ ok job' → IsValid job'
  unfolding cancel_claimed_torrent_job
  cancel_claimed-IsValid h = ground arith

pub request-IsValid :
    (now : Instant) (job : TorrentJob) → IsValid job → IsValid (request_cancellation job now)
unfolding request_cancellation
request-IsValid now job v = ground arith

pub recover_row-IsValid :
    (now : Instant) (delay : ℤ) (job : TorrentJob)
    → IsValid job
    → is_running job.state ≡ true
    → IsValid (recover_row now delay job)
unfolding recover_row
recover_row-IsValid now delay job v r = ground arith

pub claimed-IsValid :
    (w : String) (now : Instant) (ttl timeout : ℤ) (job : TorrentJob)
    → IsValid job
    → is_queued job.state ≡ true
    → IsValid (claimed job w now ttl timeout)
unfolding claimed
claimed-IsValid w now ttl timeout job v q = ground arith
