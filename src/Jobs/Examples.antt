-- ===== src/Jobs/Examples.antt =====
-- One ADD_TORRENT job (backend/app/jobs/torrent_jobs.py) that a worker claims, renews and completes.
use Prim.Native.Nat.{ℕ}
use world_of_seeds.Prelude.{
  String, ◌≡◌, refl, ◌↔◌, Bool, false, Option, none, some, [], ◌∷◌, arith, pos, All, head?, ok, ◌≤◌,
  ◌<◌,
}
use mathlib.Core.List.{Memᴰ}
use world_of_seeds.Prelude.Sorting.{lex_le}
use world_of_seeds.Models.{TorrentJob, queued, running, completed, cancelled, IdempotencyKey, Uuid}
use world_of_seeds.Jobs.{
  request_cancellation, require_claim_owner, complete_torrent_job, renew_torrent_job_claim,
  cancel_claimed_torrent_job,
}
use world_of_seeds.Jobs.Queue.{
  Jobs, claim_next_torrent_job, request_torrent_job_cancellation, claimed, save_row, is_abandoned,
  is_claimable,
}
use world_of_seeds.Jobs.Validation.{validate_worker_id}
use world_of_seeds.Jobs.Valid.{IsValid}
use world_of_seeds.Jobs.Runs.{Reach, Owned, complete, cancel, claim, owned, request, here, next}
use world_of_seeds.Jobs.Claims.{
  Holds, Took, Owned-Holds, recovery_exact, renew_bounded, claim_takes, claim_idle,
}
use world_of_seeds.Jobs.Exclusion.{Meanwhile, claim-excludes}
use world_of_seeds.Jobs.States.{Reach-IsValid, Reach-InBudget, Reach-Ended, InBudget, Ended}

abbrev waiting_job : TorrentJob
waiting_job = record {
  id = 1;
  managed_torrent_id = 7;
  torrent_request_id = some 9;
  job_type = "ADD_TORRENT";
  idempotency_key = IdempotencyKey.other "add-7";
  state = queued;
  attempt_count = 0;
  max_attempts = 3;
  available_at = 0;
  timeout_at = none;
  claimed_by = none;
  claim_expires_at = none;
  cancel_requested_at = none;
  last_error_code = none;
  finished_at = none;
  created_at = 0;
  updated_at = 0;
}

abbrev other_job : TorrentJob
other_job = record waiting_job { id = 2; job_type = "SYNC_TORRENT" }

abbrev ended_job : TorrentJob
ended_job = record waiting_job { id = 3; state = completed; finished_at = some 4 }

abbrev queue : Jobs
queue = other_job ∷ waiting_job ∷ ended_job ∷ []

abbrev unlocked : Uuid → Bool
unlocked i = false

abbrev taken_job : TorrentJob
taken_job = record waiting_job {
  state = running;
  attempt_count = 1;
  claimed_by = some "worker-1";
  claim_expires_at = some 60000005;
  timeout_at = some 600000005;
  updated_at = 5;
}

abbrev claimed_queue : Jobs
claimed_queue = other_job ∷ taken_job ∷ ended_job ∷ []

abbrev done_job : TorrentJob
done_job = record taken_job {
  state = completed;
  claimed_by = none;
  claim_expires_at = none;
  timeout_at = none;
  finished_at = some 9;
  updated_at = 9;
}

abbrev done_queue : Jobs
done_queue = other_job ∷ done_job ∷ ended_job ∷ []

claims :
    claim_next_torrent_job queue unlocked "worker-1" 5 (pos 60000000) (pos 600000000) none
    ≡ ok (some taken_job, claimed_queue)
unfolding claim_next_torrent_job validate_worker_id lex_le
claims = refl

completes : complete_torrent_job taken_job "worker-1" 9 ≡ ok done_job
unfolding complete_torrent_job require_claim_owner validate_worker_id
completes = refl

renewed_job :
    renew_torrent_job_claim taken_job "worker-1" 9 (pos 900000000)
    ≡ ok (record taken_job { claim_expires_at = some 600000005; updated_at = 9 })
unfolding renew_torrent_job_claim require_claim_owner validate_worker_id
renewed_job = refl

run : Reach queue done_queue
unfolding save_row
run =
    next
      (next here
        (claim unlocked "worker-1" 5 (pos 60000000) (pos 600000000) none (some taken_job) claims))
      (owned taken_job "worker-1" 9 done_job (Memᴰ.tail (Memᴰ.head refl)) (complete completes) refl)

waiting-IsValid : IsValid waiting_job
waiting-IsValid = ground arith

queue-IsValid : All IsValid queue
queue-IsValid = (ground arith, (ground arith, (ground arith, tt)))

taken-IsValid : IsValid taken_job
taken-IsValid = ground arith

Reach-IsValid_example : All IsValid done_queue
Reach-IsValid_example = Reach-IsValid queue-IsValid run

Reach-InBudget_example : All InBudget done_queue
Reach-InBudget_example = Reach-InBudget (omega arith, (omega arith, (omega arith, tt))) run

Reach-Ended_example : All (Ended 3 completed (some 4)) done_queue
Reach-Ended_example =
    Reach-Ended 3 completed (some 4) refl
      (λ e. absurd (omega arith), (λ e. absurd (omega arith), (λ e. (refl, refl), tt))) run

Owned-Holds_example : Holds taken_job "worker-1" 9
Owned-Holds_example = Owned-Holds (complete completes)

-- Another worker claims another job, and the running job's cancellation is requested.
abbrev busy_queue : Jobs
busy_queue =
    record other_job {
      state = running;
      attempt_count = 1;
      claimed_by = some "worker-2";
      claim_expires_at = some 60000006;
      timeout_at = some 600000006;
      updated_at = 6;
    }
    ∷ taken_job
    ∷ ended_job
    ∷ []

abbrev asked_job : TorrentJob
asked_job = record taken_job { cancel_requested_at = some 7; updated_at = 7 }

other_claims :
    claim_next_torrent_job claimed_queue unlocked "worker-2" 6 (pos 60000000) (pos 600000000) none
    ≡ ok (head? busy_queue, busy_queue)
unfolding claim_next_torrent_job validate_worker_id lex_le
other_claims = refl

abbrev cancelled_job : TorrentJob
cancelled_job = record asked_job {
  state = cancelled;
  claimed_by = none;
  claim_expires_at = none;
  timeout_at = none;
  finished_at = some 9;
  updated_at = 9;
}

cancels : Owned asked_job "worker-1" 9 cancelled_job
unfolding cancel_claimed_torrent_job require_claim_owner validate_worker_id
cancels = cancel refl

meanwhile :
    Meanwhile 1 "worker-1" 60000005 600000005 claimed_queue
      (request_torrent_job_cancellation busy_queue 1 7).1
meanwhile =
    Meanwhile.next
      (Meanwhile.next Meanwhile.here
        (claim unlocked "worker-2" 6 (pos 60000000) (pos 600000000) none (head? busy_queue)
          other_claims)
        tt)
      (request 1 7 refl) tt

claim-excludes_example :
    (Path String "worker-1" "worker-1")
    × (9 < 60000005)
    × (9 < 600000005)
    × (Path (Option ℕ) (some 60000005) (some 60000005))
    × (Path (Option ℕ) (some 600000005) (some 600000005))
unfolding request_torrent_job_cancellation request_cancellation
claim-excludes_example =
    claim-excludes queue unlocked "worker-1" 5 (pos 60000000) (pos 600000000) none taken_job
      60000005 600000005 claims refl refl meanwhile {job = asked_job} (Memᴰ.tail (Memᴰ.head refl))
      refl cancels

named : validate_worker_id "worker-1" ≡ ok tt
unfolding validate_worker_id
named = refl

recovery_exact_example :
    (require_claim_owner taken_job "worker-1" 9 ≡ ok tt)
    ↔ (is_abandoned (λ i. false) 9 taken_job ≡ false)
recovery_exact_example = recovery_exact taken_job "worker-1" 9 taken-IsValid refl refl named

renew_bounded_example :
    (Path (Option ℕ) (some 600000005) (some 600000005))
    × ((e t : ℕ)
        → Path (Option ℕ) (some 600000005) (some e)
        → Path (Option ℕ) (some 600000005) (some t)
        → (e ≤ t) × (9 < e))
renew_bounded_example = renew_bounded taken_job "worker-1" 9 (pos 900000000) renewed_job

claim_takes_example :
    (job : TorrentJob) × (taken_job ≡ claimed job "worker-1" 5 (pos 60000000) (pos 600000000))
    × Took queue (is_claimable unlocked none 5) taken_job job claimed_queue
claim_takes_example =
    claim_takes queue unlocked "worker-1" 5 (pos 60000000) (pos 600000000) none taken_job claims

no_claim :
    claim_next_torrent_job
      (ended_job ∷ [])
      unlocked
      "worker-1"
      5
      (pos 60000000)
      (pos 600000000)
      none
    ≡ ok (none, ended_job ∷ [])
unfolding claim_next_torrent_job validate_worker_id
no_claim = refl

claim_idle_example :
    (Path Jobs (ended_job ∷ []) (ended_job ∷ []))
    × All (λ job. is_claimable unlocked none 5 job ≡ false) (ended_job ∷ [])
claim_idle_example =
    claim_idle (ended_job ∷ []) unlocked "worker-1" 5 (pos 60000000) (pos 600000000) none no_claim
