-- ===== src/Concurrency.antt =====
-- backend/app/scheduler/dynamic_concurrency.py: the durable measurement window and the concurrency
-- limit that it moves. `round(downloaded / elapsed)` is the exact ratio rounded half to even; the
-- rounding of floating-point division is not modelled.
pub mod Apply
pub mod Limit
pub mod Freeze
pub mod Ends
mod Examples
use world_of_seeds.Prelude.{
  if_ind, ℕ, zero, suc, ◌+◌, ◌-◌, ◌*◌, ◌/◌, ◌%◌, ◌^◌, ◌≤◌, ◌<◌, min, max, String, ◌≡◌, refl, sym,
  ap, subst, ◌∙◌, ◌≢◌, ◌↔◌, ◌⊎◌, inl, inr, Bool, true, false, not, ◌&&◌, ◌||◌, Option, none, some,
  List, [], ◌∷◌, ◌++◌, map, head?, arith, str_eq, eq_iff, ltb, leb, ◌==◌, if◌then◌else◌, between,
  is_some, is_number, leb→le, le→leb, ==_iff, ==_refl, Bool-cases, Option-cases, ℤ, pos, negsuc,
  is_positive, is_natural, shift, length, take, drop, where_rows, count_rows, any, all, sum_of, All,
  length-append, length-take-le, length-where_rows-le, All-append, All-if, All-if_of,
  All-where_rows_test, All_both, All-where_rows, All-take, All_imp, All_of_mem, All_at,
  mem_of_mem-where_rows, mem-where_rows, contains, Result, ok, err, ◌>>=◌, ◌>>◌, guard, OnOk,
  Returns, Returns-bind, Returns→OnOk, Returns-if, OnOk-if, OnOk-bind, OnOk-check, OnOk-imp,
  OnOk_at, >>=-eq-ok,
}
use mathlib.Core.List.{Memᴰ}
use world_of_seeds.Prelude.Sorting.{
  lex_le, lex_le_refl, lex_le_total, lex_le_trans, insert_by, sort_by, IsLeast, IsSorted,
  All-insert_by, All-sort_by, length-insert_by, length-sort_by, sort_by-IsSorted, mem-sort_by,
}
use world_of_seeds.Prelude.Dict.{Dict, get, get_or, put, keys, get-put, get_or-put}
use world_of_seeds.Models.{Uuid, Instant, seconds, ManagedTorrent, ManagedTorrentState, downloading}
use world_of_seeds.Scheduler.{SchedulerCandidate}

pub data DynamicDecision : Type 0 where
  dynamic_disabled dynamic_below_target_scaled_up dynamic_target_reached dynamic_above_target
        dynamic_no_waiting_candidate dynamic_completion_cooldown dynamic_idle_reset
        dynamic_hard_cap_reached dynamic_observation_started :
      DynamicDecision

-- The `ValueError`s, the `KeyError` of a subscript and the `ZeroDivisionError`.
pub data ConcurrencyError : Type 0 where
  initial_above_cap unordered_thresholds missing_sample division_by_zero : ConcurrencyError

pub record DynamicConcurrencyConfig : Type 0 where
  pub enabled : Bool
  pub initial_active : ℕ
  pub minimum_bytes_per_second : ℕ
  pub target_bytes_per_second : ℕ
  pub evaluation_seconds : ℕ
  pub step : ℕ
  pub maximum_active : ℕ
  pub static_active : ℕ

-- What `from_options` checks of the values that it has looked up.
unfoldable pub check_config : DynamicConcurrencyConfig → Result ConcurrencyError (Unit {0})
check_config c = do
  guard (leb c.initial_active c.maximum_active) initial_above_cap
  guard (ltb c.minimum_bytes_per_second c.target_bytes_per_second) unordered_thresholds

-- The counted bytes by infohash, in the order of insertion.
abbrev pub Baseline : Type 0
Baseline = List (String × ℕ)

-- What the JSON column holds: entries, some of which may not be counts, or no dictionary.
pub data StoredSample : Type 0 where
  entries : List (String × Option ℕ) → StoredSample
  other_value : StoredSample

pub record SchedulerState : Type 0 where
  pub dynamic_current_active : ℕ
  pub dynamic_active_count : ℕ
  pub dynamic_waiting_count : ℕ
  pub dynamic_observed_bytes_per_second : ℕ
  pub dynamic_sample_baseline : StoredSample
  pub dynamic_sampled_at : Option Instant
  pub dynamic_next_evaluation_at : Option Instant
  pub dynamic_last_evaluated_at : Option Instant
  pub dynamic_cooldown_until : Option Instant
  pub dynamic_last_decision : DynamicDecision

pub record DynamicConcurrencyDecision : Type 0 where
  pub active_limit : ℕ
  pub active_torrent_ids : List Uuid
  pub scaled_up : Bool
  pub preserve_active_set : Bool

unfoldable pub sample_of : Baseline → String → Option ℕ
sample_of [] key = none
sample_of ((k, n) ∷ rest) key = if str_eq k key then some n else sample_of rest key

-- `baseline[key] = n`
unfoldable pub set_sample : Baseline → String → ℕ → Baseline
set_sample [] key n = (key, n) ∷ []
set_sample ((k, m) ∷ rest) key n =
    let others = set_sample rest key n in if str_eq k key then (k, n) ∷ rest else (k, m) ∷ others

abbrev pub bytes_or_zero : Option ℕ → ℕ
bytes_or_zero none = 0
bytes_or_zero (some n) = n

-- The comprehension of `_download_baseline`, over the torrents that are left.
unfoldable pub add_samples : List ManagedTorrent → Baseline → Baseline
unfolding set_sample
add_samples [] b = b
add_samples (t ∷ ts) b =
    add_samples ts (set_sample b t.info_hash (bytes_or_zero t.last_downloaded_bytes))

unfoldable pub download_baseline : List ManagedTorrent → Baseline
unfolding add_samples
download_baseline torrents = add_samples torrents []

abbrev pub valid_entries : List (String × Option ℕ) → Baseline
valid_entries [] = []
valid_entries ((key, none) ∷ rest) = valid_entries rest
valid_entries ((key, some n) ∷ rest) = (key, n) ∷ valid_entries rest

-- `_validated_baseline`
unfoldable pub validated_baseline : StoredSample → Baseline
validated_baseline (entries es) = valid_entries es
validated_baseline other_value = []

-- `set(a) == set(b)`
unfoldable pub same_keys : Baseline → Baseline → Bool
unfolding sample_of
same_keys a b = all (λ e. is_some (sample_of b e.0)) a && all (λ e. is_some (sample_of a e.0)) b

abbrev pub stored : Baseline → StoredSample
stored b = entries (map (λ e. (e.0, some e.1)) b)

unfoldable pub start_measurement : SchedulerState → Baseline → Instant → ℕ → SchedulerState
start_measurement state baseline now evaluation_seconds = record state {
  dynamic_sample_baseline = stored baseline;
  dynamic_sampled_at = some now;
  dynamic_next_evaluation_at = some (now + seconds evaluation_seconds);
}

unfoldable pub clear_measurement : SchedulerState → SchedulerState
clear_measurement state = record state {
  dynamic_sample_baseline = entries [];
  dynamic_sampled_at = none;
  dynamic_next_evaluation_at = none;
}

abbrev pub is_downloading : ManagedTorrentState → Bool
is_downloading downloading = true
is_downloading _ = false

-- The torrents that download by selection or by force.
unfoldable pub active_torrents : List ManagedTorrent → List ManagedTorrent
active_torrents torrents =
    where_rows (λ t. is_downloading t.state && (t.desired_active || t.admin_forced_active)) torrents
