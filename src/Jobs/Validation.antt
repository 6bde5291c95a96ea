-- ===== src/Jobs/Validation.antt =====
-- backend/app/jobs/torrent_jobs.py: the exceptions of the job operations, and the checks of opaque
-- identifiers. A class of a regular expression is a test of one code point.
use Prim.Native.Char.{code}
use Prim.Native.String.{String}
use world_of_seeds.Prelude.{
  ℕ, Bool, ◌&&◌, ◌||◌, List, [], ◌∷◌, ◌==◌, between, length, all, Result, guard,
}

pub data JobError : Type 0 where
  bad_worker_id bad_error_code bad_job_type not_owner claim_expired timeout_expired bad_timeouts
        bad_claim_ttl available_in_past not_requested bad_delay bad_limit :
      JobError

-- The code points of a text.
abbrev pub codes : String → List ℕ
codes String.[] = []
codes (String.◌∷◌ c s) = code c ∷ codes s

abbrev is_upper : ℕ → Bool
is_upper c = between b'A' b'Z' c

abbrev is_lower : ℕ → Bool
is_lower c = between b'a' b'z' c

abbrev is_digit : ℕ → Bool
is_digit c = between b'0' b'9' c

-- `1 <= len(text) <= limit` and a match of `^[class]+$`.
unfoldable pub is_safe : ℕ → (ℕ → Bool) → String → Bool
is_safe limit class text = between 1 limit (length (codes text)) && all class (codes text)

-- `[A-Za-z0-9_.:-]`
abbrev pub in_identifier : ℕ → Bool
in_identifier c =
    is_upper c || is_lower c || is_digit c || c == b'_' || c == b'.' || c == b':' || c == b'-'

-- `[a-z0-9_.-]`
abbrev pub in_error_code : ℕ → Bool
in_error_code c = is_lower c || is_digit c || c == b'_' || c == b'.' || c == b'-'

-- `[A-Z0-9_]`
abbrev pub in_job_type : ℕ → Bool
in_job_type c = is_upper c || is_digit c || c == b'_'

unfoldable pub validate_worker_id : String → Result JobError (Unit {0})
unfolding is_safe
validate_worker_id worker = guard (is_safe 128 in_identifier worker) bad_worker_id

unfoldable pub validate_error_code : String → Result JobError (Unit {0})
unfolding is_safe
validate_error_code error_code = guard (is_safe 64 in_error_code error_code) bad_error_code

unfoldable pub validate_job_type : String → Result JobError (Unit {0})
unfolding is_safe
validate_job_type job_type = guard (is_safe 64 in_job_type job_type) bad_job_type
