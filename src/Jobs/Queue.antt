-- ===== src/Jobs/Queue.antt =====
-- backend/app/jobs/torrent_jobs.py: the operations that search the table of jobs. An object that the
-- session holds is written back to the row of its identifier.
use world_of_seeds.Prelude.{
  ℕ, ◌+◌, String, Bool, true, not, ◌&&◌, ◌||◌, Option, none, some, List, [], ◌∷◌, map, head?,
  str_eq, ltb, leb, ◌==◌, if◌then◌else◌, between, is_some, ℤ, is_positive, is_natural, shift, take,
  where_rows, any, Result, ok, ◌>>◌, guard,
}
use world_of_seeds.Prelude.Sorting.{sort_by}
use world_of_seeds.Models.{
  Uuid, Instant, queued, running, failed, TorrentJob, is_queued, is_running,
}
use world_of_seeds.Jobs.{
  JobError, bad_timeouts, bad_delay, bad_limit, cancelled, is_due, release_claim, finish,
  request_cancellation,
}
use world_of_seeds.Jobs.Validation.{validate_worker_id, validate_job_type}

abbrev pub Jobs : Type 0
Jobs = List TorrentJob

-- `session.flush()` of one changed object.
unfoldable pub save_row : TorrentJob → Jobs → Jobs
save_row job [] = []
save_row job (x ∷ xs) = (if x.id == job.id then job else x) ∷ save_row job xs

unfoldable pub save_rows : Jobs → Jobs → Jobs
unfolding save_row
save_rows [] jobs = jobs
save_rows (x ∷ xs) jobs = save_rows xs (save_row x jobs)

-- The `case` expression of the claim's order.
unfoldable pub priority : String → ℕ
priority job_type =
    if str_eq job_type "PURGE_TORRENT"
      || str_eq job_type "RECOVER_CANCEL_REQUESTS"
      || str_eq job_type "RECOVER_PURGE_METADATA"
    then 0
    else if str_eq job_type "ADD_TORRENT"
    then 1
    else if str_eq job_type "SYNC_TORRENT"
    then 3
    else 2

unfoldable pub claim_key : TorrentJob → List ℕ
unfolding priority
claim_key job = priority job.job_type ∷ job.available_at ∷ job.created_at ∷ job.id ∷ []

abbrev pub accepts : Option (List String) → String → Bool
accepts none job_type = true
accepts (some types) job_type = any (λ t. str_eq t job_type) types

unfoldable pub is_claimable : (Uuid → Bool) → Option (List String) → Instant → TorrentJob → Bool
is_claimable locked job_types now job =
    is_queued job.state
    && leb job.available_at now
    && ltb job.attempt_count job.max_attempts
    && accepts job_types job.job_type
    && not (locked job.id)

validate_job_types : List String → Result JobError (Unit {0})
validate_job_types [] = ok tt
validate_job_types (t ∷ ts) = do validate_job_type t; validate_job_types ts

abbrev check_job_types : Option (List String) → Result JobError (Unit {0})
check_job_types none = ok tt
check_job_types (some types) = validate_job_types types

unfoldable pub claimed : TorrentJob → String → Instant → ℤ → ℤ → TorrentJob
claimed job worker now claim_ttl execution_timeout = record job {
  state = running;
  attempt_count = job.attempt_count + 1;
  claimed_by = some worker;
  claim_expires_at = some (shift now claim_ttl);
  timeout_at = some (shift now execution_timeout);
  updated_at = now;
}

-- `ORDER BY ... LIMIT 1`
unfoldable pub next_claimable :
    Jobs → (Uuid → Bool) → Option (List String) → Instant → Option TorrentJob
unfolding sort_by claim_key is_claimable
next_claimable jobs locked job_types now =
    head? (sort_by claim_key (where_rows (is_claimable locked job_types now) jobs))

unfoldable pub claim_found :
    Option TorrentJob → Jobs → String → Instant → ℤ → ℤ → Option TorrentJob × Jobs
unfolding save_row claimed
claim_found none jobs worker now claim_ttl execution_timeout = (none, jobs)
claim_found (some job) jobs worker now claim_ttl execution_timeout =
    let taken = claimed job worker now claim_ttl execution_timeout in
    (some taken, save_row taken jobs)

-- An empty collection of types accepts no row, as the early `return None` does.
unfoldable pub claim_next_torrent_job :
    Jobs
    → (Uuid → Bool)
    → String
    → Instant
    → ℤ
    → ℤ
    → Option (List String)
    → Result JobError (Option TorrentJob × Jobs)
unfolding validate_job_types next_claimable claim_found
claim_next_torrent_job jobs locked worker now claim_ttl execution_timeout job_types = do
  validate_worker_id worker
  guard (is_positive claim_ttl && is_positive execution_timeout) bad_timeouts
  check_job_types job_types
  ok (
      claim_found (next_claimable jobs locked job_types now) jobs worker now claim_ttl
        execution_timeout)

unfoldable pub find_job : Jobs → Uuid → Option TorrentJob
find_job [] i = none
find_job (x ∷ xs) i = if x.id == i then some x else find_job xs i

abbrev pub cancel_found : Option TorrentJob → Jobs → Instant → Option TorrentJob × Jobs
cancel_found none jobs now = (none, jobs)
cancel_found (some job) jobs now =
    let changed = request_cancellation job now in (some changed, save_row changed jobs)

unfoldable pub request_torrent_job_cancellation : Jobs → Uuid → Instant → Option TorrentJob × Jobs
unfolding find_job save_row
request_torrent_job_cancellation jobs job_id now = cancel_found (find_job jobs job_id) jobs now

unfoldable pub is_abandoned : (Uuid → Bool) → Instant → TorrentJob → Bool
is_abandoned locked now job =
    is_running job.state
    && (is_due job.claim_expires_at now || is_due job.timeout_at now)
    && not (locked job.id)

abbrev or_zero : Option Instant → ℕ
or_zero none = 0
or_zero (some t) = t

-- A running row has a deadline, so no NULL takes part in the order.
unfoldable pub recovery_key : TorrentJob → List ℕ
recovery_key job = or_zero job.claim_expires_at ∷ job.id ∷ []

-- The body of the recovery loop.
unfoldable pub recover_row : Instant → ℤ → TorrentJob → TorrentJob
unfolding finish release_claim
recover_row now retry_delay job =
    let noted = record job {
      last_error_code =
          some (if is_due job.timeout_at now then "execution_timeout" else "claim_expired");
      updated_at = now;
    } in
    if is_some job.cancel_requested_at
    then finish noted cancelled now
    else if leb job.max_attempts job.attempt_count
    then finish noted failed now
    else release_claim (record noted { state = queued; available_at = shift now retry_delay })

unfoldable pub abandoned_jobs : Jobs → (Uuid → Bool) → Instant → ℕ → Jobs
unfolding sort_by is_abandoned recovery_key
abandoned_jobs jobs locked now limit =
    take limit (sort_by recovery_key (where_rows (is_abandoned locked now) jobs))

unfoldable pub recover_expired_torrent_jobs :
    Jobs → (Uuid → Bool) → Instant → ℤ → ℕ → Result JobError (Jobs × Jobs)
unfolding abandoned_jobs recover_row save_rows
recover_expired_torrent_jobs jobs locked now retry_delay limit = do
  guard (is_natural retry_delay) bad_delay
  guard (between 1 1000 limit) bad_limit
  let recovered = map (recover_row now retry_delay) (abandoned_jobs jobs locked now limit)
  ok (recovered, save_rows recovered jobs)
