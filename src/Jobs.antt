-- ===== src/Jobs.antt =====
-- backend/app/jobs/torrent_jobs.py: the durable job queue.
--
-- An operation on one locked row takes the row and returns its new value or the exception that the
-- code raises; every check stands before the first write, so an exception leaves the row alone.
-- `claim_next_torrent_job` and `recover_expired_torrent_jobs` take the table, and `locked`, the rows
-- that other transactions hold and SKIP LOCKED passes over. Durations are signed.
pub mod Validation
pub mod Queue
pub mod Valid
pub mod Tables
pub mod Claims
pub mod Runs
pub mod States
pub mod Exclusion
mod Examples
pub use Validation.{
  JobError, bad_worker_id, bad_error_code, bad_job_type, not_owner, claim_expired, timeout_expired,
  bad_timeouts, bad_claim_ttl, available_in_past, not_requested, bad_delay, bad_limit,
}
use world_of_seeds.Prelude.{
  ℕ, zero, suc, ◌+◌, ◌-◌, ◌*◌, ◌/◌, ◌%◌, ◌^◌, ◌≤◌, ◌<◌, min, max, String, ◌≡◌, refl, sym, ap, subst,
  ◌∙◌, ◌≢◌, ◌↔◌, ◌⊎◌, inl, inr, Bool, true, false, not, ◌&&◌, ◌||◌, Option, none, some, List, [],
  ◌∷◌, ◌++◌, map, head?, arith, str_eq, eq_iff, ltb, leb, ◌==◌, if◌then◌else◌, between, is_some,
  is_number, leb→le, le→leb, ==_iff, ==_refl, Bool-cases, Option-cases, ℤ, pos, negsuc, is_positive,
  is_natural, shift, length, take, drop, where_rows, count_rows, any, all, sum_of, All,
  length-append, length-take-le, length-where_rows-le, All-append, All-if, All-where_rows, All-take,
  All_imp, All_of_mem, All_at, mem_of_mem-where_rows, contains, Result, ok, err, ◌>>=◌, ◌>>◌, guard,
  OnOk, >>=-eq-ok,
}
use mathlib.Core.List.{Memᴰ}
use world_of_seeds.Prelude.Sorting.{
  lex_le, lex_le_refl, lex_le_total, lex_le_trans, insert_by, sort_by, IsLeast, IsSorted,
  All-insert_by, All-sort_by, length-insert_by, length-sort_by, sort_by-IsSorted, mem-sort_by,
}
use world_of_seeds.Prelude.Dict.{Dict, get, get_or, put, keys, get-put, get_or-put}
use world_of_seeds.Models.{
  Instant, TorrentJobState, queued, running, completed, failed, TorrentJob, is_queued, is_running,
}
use Validation.{validate_worker_id, validate_error_code, validate_job_type}

abbrev pub cancelled : TorrentJobState
cancelled = TorrentJobState.cancelled

-- `at is None or now >= at`
abbrev pub has_passed : Option Instant → Instant → Bool
has_passed none now = true
has_passed (some t) now = leb t now

-- `at <= now` in SQL, where NULL compares to nothing, and `at is not None and at <= now`.
abbrev pub is_due : Option Instant → Instant → Bool
is_due none now = false
is_due (some t) now = leb t now

abbrev pub is_claimed_by : Option String → String → Bool
is_claimed_by none worker = false
is_claimed_by (some w) worker = str_eq w worker

unfoldable pub require_claim_owner : TorrentJob → String → Instant → Result JobError (Unit {0})
require_claim_owner job worker now = do
  validate_worker_id worker
  guard (is_running job.state && is_claimed_by job.claimed_by worker) not_owner
  guard (not (has_passed job.claim_expires_at now)) claim_expired
  guard (not (has_passed job.timeout_at now)) timeout_expired

unfoldable pub release_claim : TorrentJob → TorrentJob
release_claim job = record job { claimed_by = none; claim_expires_at = none; timeout_at = none }

unfoldable pub finish : TorrentJob → TorrentJobState → Instant → TorrentJob
unfolding release_claim
finish job state now = release_claim (record job { state = state; finished_at = some now })

unfoldable pub complete_torrent_job : TorrentJob → String → Instant → Result JobError TorrentJob
unfolding finish
complete_torrent_job job worker now = do
  require_claim_owner job worker now
  let final_state = if is_some job.cancel_requested_at then cancelled else completed
  ok (record (finish job final_state now) { updated_at = now })

-- The deadline of a renewed claim: `assert job.timeout_at is not None` holds behind the owner check.
abbrev renewed_claim : Instant → Option Instant → Option Instant
renewed_claim until none = none
renewed_claim until (some t) = if leb until t then some until else some t

unfoldable pub renew_torrent_job_claim :
    TorrentJob → String → Instant → ℤ → Result JobError TorrentJob
renew_torrent_job_claim job worker now claim_ttl = do
  require_claim_owner job worker now
  guard (is_positive claim_ttl) bad_claim_ttl
  ok (record job {
    claim_expires_at = renewed_claim (shift now claim_ttl) job.timeout_at;
    updated_at = now;
  })

unfoldable pub retry_torrent_job :
    TorrentJob → String → Instant → Instant → String → Result JobError TorrentJob
unfolding finish release_claim
retry_torrent_job job worker now available_at error_code = do
  require_claim_owner job worker now
  validate_error_code error_code
  guard (leb now available_at) available_in_past
  let noted = record job { last_error_code = some error_code; updated_at = now }
  ok (
      if leb noted.max_attempts noted.attempt_count
      then finish noted failed now
      else release_claim (record noted { state = queued; available_at = available_at }))

unfoldable pub fail_torrent_job :
    TorrentJob → String → Instant → String → Result JobError TorrentJob
unfolding finish
fail_torrent_job job worker now error_code = do
  require_claim_owner job worker now
  validate_error_code error_code
  ok (finish (record job { last_error_code = some error_code; updated_at = now }) failed now)

-- The row that `request_torrent_job_cancellation` found and locked.
unfoldable pub request_cancellation : TorrentJob → Instant → TorrentJob
unfolding finish
request_cancellation job now =
    record (if is_queued job.state
      then finish (record job { cancel_requested_at = some now }) cancelled now
      else if is_running job.state && not (is_some job.cancel_requested_at)
      then record job { cancel_requested_at = some now }
      else job) { updated_at = now }

unfoldable pub cancel_claimed_torrent_job :
    TorrentJob → String → Instant → Result JobError TorrentJob
unfolding finish
cancel_claimed_torrent_job job worker now = do
  require_claim_owner job worker now
  guard (is_some job.cancel_requested_at) not_requested
  ok (record (finish job cancelled now) { updated_at = now })
