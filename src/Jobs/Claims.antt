-- ===== src/Jobs/Claims.antt =====
-- Who may act on a job of backend/app/jobs/torrent_jobs.py, and what a claim takes.
use world_of_seeds.Prelude.{
  ◌≤◌, ◌<◌, String, ◌≡◌, refl, sym, ap, subst, ◌∙◌, ◌≢◌, ◌↔◌, inl, inr, Bool, true, false, Option,
  none, some, List, [], ◌∷◌, head?, arith, eq_iff, Bool-cases, ℤ, where_rows, All, All_of_mem,
  All_at, mem-where_rows, Result, ok, err, ◌>>◌,
}
use mathlib.Core.Option.{some-injective}
use mathlib.Core.List.{Memᴰ}
use world_of_seeds.Prelude.Sorting.{
  lex_le, lex_le_refl, sort_by, IsSorted, sort_by-IsSorted, mem-sort_by,
}
use world_of_seeds.Models.{Uuid, Instant, running, TorrentJob}
use world_of_seeds.Jobs.{
  is_claimed_by, require_claim_owner, complete_torrent_job, renew_torrent_job_claim,
  retry_torrent_job, fail_torrent_job, cancel_claimed_torrent_job,
}
use world_of_seeds.Jobs.Queue.{
  Jobs, save_row, claimed, is_claimable, is_abandoned, next_claimable, claim_found,
  claim_next_torrent_job, find_job, claim_key,
}
use world_of_seeds.Jobs.Validation.{validate_worker_id}
use world_of_seeds.Jobs.Tables.{OnSome, Found, next_claimable-Found, claim_next-ok}
use world_of_seeds.Jobs.Valid.{IsValid}
use world_of_seeds.Jobs.Runs.{Owned, complete, renew, retry, fail, cancel}

-- `w` holds the running job at `now`, before both deadlines.
pub record Holds (job : TorrentJob) (w : String) (now : Instant) : Type 0 where
  pub is_running_now : job.state ≡ running
  pub is_owner : job.claimed_by ≡ some w
  pub before_expiry : (t : Instant) × (job.claim_expires_at ≡ some t) × (now < t)
  pub before_timeout : (t : Instant) × (job.timeout_at ≡ some t) × (now < t)

claimed_by-eq : (o : Option String) (w : String) → is_claimed_by o w ≡ true → o ≡ some w
claimed_by-eq none w h = cc
claimed_by-eq (some v) w h = ap some ((eq_iff v w).0 h)

require-Holds :
    (job : TorrentJob) (w : String) (now : Instant)
    → require_claim_owner job w now ≡ ok tt
    → Holds job w now
unfolding require_claim_owner
require-Holds job w now h = record {
  is_running_now = ground arith;
  is_owner = claimed_by-eq job.claimed_by w (ground arith);
  before_expiry = ground arith;
  before_timeout = ground arith;
}

bind-ok {ℓ} :
    {E : Type 0} {B : Type ℓ} (m : Result E (Unit {0})) (k : Result E B) {b : B}
    → (m >> k) ≡ ok b
    → m ≡ ok tt
bind-ok (ok tt) k h = refl
bind-ok (err e) k h = cc

Owned-require :
    {job : TorrentJob} {w : String} {now : Instant} {job' : TorrentJob}
    → Owned job w now job'
    → require_claim_owner job w now ≡ ok tt
unfolding complete_torrent_job renew_torrent_job_claim retry_torrent_job fail_torrent_job
    cancel_claimed_torrent_job
Owned-require (complete e) = bind-ok _ _ e
Owned-require (renew ttl e) = bind-ok _ _ e
Owned-require (retry at code e) = bind-ok _ _ e
Owned-require (fail code e) = bind-ok _ _ e
Owned-require (cancel e) = bind-ok _ _ e

-- An operation of the owner succeeds only on a running job that this worker claimed, before its claim
-- expires and before its execution times out.
pub Owned-Holds :
    {job : TorrentJob} {w : String} {now : Instant} {job' : TorrentJob}
    → Owned job w now job'
    → Holds job w now
Owned-Holds {job} {w} {now} o = require-Holds job w now (Owned-require o)

-- On a valid running row that a well-named worker has claimed and that no transaction has locked,
-- the worker passes the owner check exactly when the recovery does not take the row.
pub recovery_exact :
    (job : TorrentJob) (w : String) (now : Instant)
    → IsValid job
    → job.state ≡ running
    → job.claimed_by ≡ some w
    → validate_worker_id w ≡ ok tt
    → (require_claim_owner job w now ≡ ok tt) ↔ (is_abandoned (λ _. false) now job ≡ false)
unfolding require_claim_owner is_abandoned
recovery_exact job w now v r c s = (λ h. ground arith, λ h. ground (arith, eq_iff w w))

-- A renewal leaves the execution timeout as it is, and the new deadline of the claim is after the
-- renewal and no later than the timeout.
pub renew_bounded :
    (job : TorrentJob) (w : String) (now : Instant) (ttl : ℤ) {job' : TorrentJob}
    → renew_torrent_job_claim job w now ttl ≡ ok job'
    → (job'.timeout_at ≡ job.timeout_at)
      × ((e t : Instant)
          → job'.claim_expires_at ≡ some e
          → job.timeout_at ≡ some t
          → (e ≤ t) × (now < e))
unfolding renew_torrent_job_claim require_claim_owner
renew_bounded job w now ttl h = (ground arith, λ e t he ht. ground arith)

find-save_row :
    (job : TorrentJob) (jobs : Jobs) (i : Uuid)
    → i ≢ job.id
    → find_job (save_row job jobs) i ≡ find_job jobs i
unfolding find_job save_row
find-save_row job [] i h = refl
find-save_row job (x ∷ xs) i h = ground (arith, find-save_row job xs i h)

-- `x` is no better candidate for the claim than `job`.
abbrev pub NotBefore : (TorrentJob → Bool) → TorrentJob → TorrentJob → Type 0
NotBefore test job x = test x ≡ true → lex_le (claim_key job) (claim_key x) ≡ true

head-least :
    (test : TorrentJob → Bool) (jobs rows : Jobs) (job : TorrentJob)
    → IsSorted claim_key rows
    → ((x : TorrentJob) → Memᴰ x (where_rows test jobs) → Memᴰ x rows)
    → head? rows ≡ some job
    → All (NotBefore test job) jobs
head-least test jobs [] job s m e = cc
head-least test jobs (y ∷ rows) job (least, s) m e =
    let here : y ≡ job = cc in
    All_of_mem _ jobs λ x inside passes.
      subst (λ z. lex_le (claim_key z) (claim_key x) ≡ true) here
        (All_at (λ x. lex_le (claim_key y) (claim_key x) ≡ true) (y ∷ rows)
          (lex_le_refl (claim_key y), least) (m x (mem-where_rows test jobs inside passes)))

next_claimable-least :
    (jobs : Jobs) (locked : Uuid → Bool) (types : Option (List String)) (now : Instant)
    (job : TorrentJob)
    → next_claimable jobs locked types now ≡ some job
    → All (NotBefore (is_claimable locked types now) job) jobs
unfolding next_claimable
next_claimable-least jobs locked types now job e =
    let rows = where_rows (is_claimable locked types now) jobs in
    head-least _ jobs (sort_by claim_key rows) job (sort_by-IsSorted claim_key rows)
      (λ x m. mem-sort_by claim_key rows m) e

head-none :
    (test : TorrentJob → Bool) (jobs rows : Jobs)
    → ((x : TorrentJob) → Memᴰ x (where_rows test jobs) → Memᴰ x rows)
    → head? rows ≡ none
    → All (λ x. test x ≡ false) jobs
head-none test jobs [] m e = All_of_mem _ jobs λ x inside. elim (Bool-cases (test x)) [
  | inl passes ↦ elim (m x (mem-where_rows test jobs inside passes)) [ ]
  | inr fails ↦ fails
]
head-none test jobs (y ∷ rows) m e = cc

next_claimable-none :
    (jobs : Jobs) (locked : Uuid → Bool) (types : Option (List String)) (now : Instant)
    → next_claimable jobs locked types now ≡ none
    → All (λ job. is_claimable locked types now job ≡ false) jobs
unfolding next_claimable
next_claimable-none jobs locked types now e =
    let rows = where_rows (is_claimable locked types now) jobs in
    head-none _ jobs (sort_by claim_key rows) (λ x m. mem-sort_by claim_key rows m) e

module _ (jobs : Jobs) (w : String) (now : Instant) (ttl timeout : ℤ) {jobs' : Jobs} where
  claim_found-none :
      {taken : TorrentJob} → claim_found none jobs w now ttl timeout ≡ (some taken, jobs') → ⊥
  unfolding claim_found
  claim_found-none r = cc (ap (λ (p : Option TorrentJob × Jobs). p.0) r)

  claim_found-idle : claim_found none jobs w now ttl timeout ≡ (none, jobs') → jobs' ≡ jobs
  unfolding claim_found
  claim_found-idle r = sym (ap (λ (p : Option TorrentJob × Jobs). p.1) r)

module _ (job : TorrentJob) (jobs : Jobs) (w : String) (now : Instant) (ttl timeout : ℤ)
    {jobs' : Jobs} where
  claim_found-busy : claim_found (some job) jobs w now ttl timeout ≡ (none, jobs') → ⊥
  unfolding claim_found
  claim_found-busy r = cc (ap (λ (p : Option TorrentJob × Jobs). p.0) r)

  claim_found-some :
      {taken : TorrentJob}
      → claim_found (some job) jobs w now ttl timeout ≡ (some taken, jobs')
      → (taken ≡ claimed job w now ttl timeout) × (jobs' ≡ save_row taken jobs)
  unfolding claim_found
  claim_found-some {taken} r =
      let same =
        some-injective (claimed job w now ttl timeout) taken
          (ap (λ (p : Option TorrentJob × Jobs). p.0) r) in
      (
        sym same,
        sym (ap (λ (p : Option TorrentJob × Jobs). p.1) r) ∙ ap (λ t. save_row t jobs) same,
      )

-- What a claim that returns `taken` did to the table.
pub record Took (jobs : Jobs) (test : TorrentJob → Bool) (taken job : TorrentJob) (jobs' : Jobs)
    : Type 0 where
  pub from_table : Memᴰ job jobs
  pub passes : test job ≡ true
  pub first : All (NotBefore test job) jobs
  pub saved : jobs' ≡ save_row taken jobs
  pub others : (i : Uuid) → i ≢ taken.id → find_job jobs' i ≡ find_job jobs i

module _ (jobs : Jobs) (locked : Uuid → Bool) (w : String) (now : Instant) (ttl timeout : ℤ)
    (types : Option (List String)) {jobs' : Jobs} where
  -- A claim takes a row that is queued, due, unlocked, of an accepted type and with attempts left,
  -- and among those rows one that comes first by priority, availability, creation and identifier.
  -- It comes back running, with one attempt more, the worker as owner, and both deadlines; no row of
  -- another identifier changes.
  pub claim_takes :
      (taken : TorrentJob)
      → claim_next_torrent_job jobs locked w now ttl timeout types ≡ ok (some taken, jobs')
      → (job : TorrentJob) × (taken ≡ claimed job w now ttl timeout)
        × Took jobs (is_claimable locked types now) taken job jobs'
  claim_takes taken e =
      go (next_claimable jobs locked types now) refl
        (claim_next-ok jobs locked w now ttl timeout types e)
    where
      go :
          (o : Option TorrentJob)
          → next_claimable jobs locked types now ≡ o
          → claim_found o jobs w now ttl timeout ≡ (some taken, jobs')
          → (job : TorrentJob) × (taken ≡ claimed job w now ttl timeout)
            × Took jobs (is_claimable locked types now) taken job jobs'
      go none f r = absurd (claim_found-none jobs w now ttl timeout r)
      go (some job) f r =
          let (t, saved) = claim_found-some job jobs w now ttl timeout r in
          let found = subst (OnSome (Found (λ x. Memᴰ x jobs) (is_claimable locked types now))) f (
            next_claimable-Found (λ x. Memᴰ x jobs) jobs locked types now
              (All_of_mem _ jobs (λ x m. m))) in
          (
            job,
            t,
            record {
              from_table = found.0;
              passes = found.1;
              first = next_claimable-least jobs locked types now job f;
              saved = saved;
              others = λ i h. rw saved (find-save_row taken jobs i h);
            },
          )

  -- A claim that returns nothing leaves the table alone, and every row fails the claim's test.
  pub claim_idle :
      claim_next_torrent_job jobs locked w now ttl timeout types ≡ ok (none, jobs')
      → (jobs' ≡ jobs) × All (λ job. is_claimable locked types now job ≡ false) jobs
  claim_idle e =
      go (next_claimable jobs locked types now) refl
        (claim_next-ok jobs locked w now ttl timeout types e)
    where
      go :
          (o : Option TorrentJob)
          → next_claimable jobs locked types now ≡ o
          → claim_found o jobs w now ttl timeout ≡ (none, jobs')
          → (jobs' ≡ jobs) × All (λ job. is_claimable locked types now job ≡ false) jobs
      go none f r =
          (claim_found-idle jobs w now ttl timeout r, next_claimable-none jobs locked types now f)
      go (some job) f r = absurd (claim_found-busy job jobs w now ttl timeout r)
