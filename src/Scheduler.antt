-- ===== src/Scheduler.antt =====
-- backend/app/scheduler/weighted_fair.py: the policy, the candidates, the ledger and the cost of an
-- admission. A number that the code refuses when it is negative is a natural number here.
pub mod Select
pub mod Costs
pub mod Rule
pub mod Effort
pub mod Ends
pub mod Preparation
pub mod Selection
pub mod Continuity
pub mod Retained
mod Examples
pub mod Admission
pub mod Choices
use world_of_seeds.Prelude.{
  ℕ, zero, suc, ◌+◌, ◌-◌, ◌*◌, ◌/◌, ◌%◌, ◌^◌, ◌≤◌, ◌<◌, min, max, String, ◌≡◌, refl, sym, ap, subst,
  ◌∙◌, ◌≢◌, ◌↔◌, ◌⊎◌, inl, inr, Bool, true, false, not, ◌&&◌, ◌||◌, Option, none, some, List, [],
  ◌∷◌, ◌++◌, map, head?, arith, str_eq, eq_iff, ltb, leb, ◌==◌, if◌then◌else◌, between, is_some,
  is_number, leb→le, le→leb, ==_iff, ==_refl, Bool-cases, Option-cases, ℤ, pos, negsuc, is_positive,
  is_natural, shift, length, take, drop, where_rows, count_rows, any, all, sum_of, All,
  length-append, length-take-le, length-where_rows-le, All-append, All-if, All-where_rows, All-take,
  All_imp, All_of_mem, All_at, mem_of_mem-where_rows, mem-where_rows, contains, Result, ok, err,
  ◌>>=◌, ◌>>◌, guard, OnOk, >>=-eq-ok,
}
use mathlib.Core.List.{Memᴰ}
use world_of_seeds.Prelude.Sorting.{
  lex_le, lex_le_refl, lex_le_total, lex_le_trans, insert_by, sort_by, IsLeast, IsSorted,
  All-insert_by, All-sort_by, length-insert_by, length-sort_by, sort_by-IsSorted, mem-sort_by,
}
use world_of_seeds.Prelude.Dict.{Dict, get, get_or, put, keys, get-put, get_or-put}
use world_of_seeds.Models.{Uuid, Instant}

abbrev pub small_cost : ℕ
small_cost = 1

abbrev pub medium_cost : ℕ
medium_cost = 2

abbrev pub large_cost : ℕ
large_cost = 4

abbrev pub max_user_weight : ℕ
max_user_weight = 100

-- The messages of the `ValueError`s; `missing_key` is the `KeyError` of a subscript, and
-- `out_of_fuel`, the end of the rounds that `run` is given, has no counterpart in the code.
pub data SchedulerError : Type 0 where
  bad_global_limit bad_user_limit bad_thresholds bad_quantum bad_aging_interval bad_aging_bonus
        bad_remaining bad_weight foreign_weight bad_beneficiary_weight no_eligible_user
        duplicate_candidate duplicate_fair_user empty_fair_order weight_conflict
        incomplete_fair_order missing_key out_of_fuel :
      SchedulerError

pub data TorrentSizeClass : Type 0 where
  small medium large : TorrentSizeClass

pub record SchedulerPolicy : Type 0 where
  pub max_active_global : ℕ
  pub max_active_per_user : ℕ
  pub small_torrent_bytes : ℕ
  pub medium_torrent_bytes : ℕ
  pub deficit_quantum : ℕ
  pub aging_interval_seconds : ℕ
  pub aging_max_bonus : ℕ

-- `SchedulerPolicy.__post_init__`
unfoldable pub check_policy : SchedulerPolicy → Result SchedulerError (Unit {0})
check_policy p = do
  guard (between 1 200 p.max_active_global) bad_global_limit
  guard (between 1 50 p.max_active_per_user) bad_user_limit
  guard (ltb 0 p.small_torrent_bytes && ltb p.small_torrent_bytes p.medium_torrent_bytes)
      bad_thresholds
  guard (between 1 16 p.deficit_quantum) bad_quantum
  guard (between 60 86400 p.aging_interval_seconds) bad_aging_interval
  guard (ltb p.aging_max_bonus large_cost) bad_aging_bonus

pub record SchedulerCandidate : Type 0 where
  pub torrent_id : Uuid
  pub user_id : Uuid
  pub remaining_bytes : ℕ
  pub queued_at : Instant
  pub user_weight : ℕ
  pub stalled : Bool
  pub beneficiary_user_ids : List Uuid
  pub beneficiary_weights : Dict ℕ

-- A set as a list without repetitions.
unfoldable pub to_set : List Uuid → List Uuid
to_set [] = []
to_set (x ∷ xs) = let rest = to_set xs in if contains rest x then rest else x ∷ rest

-- `sorted(set, key=str)`
unfoldable pub sorted_ids : List Uuid → List Uuid
unfolding sort_by to_set
sorted_ids xs = sort_by (λ i. i ∷ []) (to_set xs)

unfoldable pub beneficiaries : SchedulerCandidate → List Uuid
unfolding sorted_ids
beneficiaries c = sorted_ids (c.user_id ∷ c.beneficiary_user_ids)

unfoldable pub weight_for : SchedulerCandidate → Uuid → ℕ
unfolding get_or
weight_for c user = get_or c.beneficiary_weights user c.user_weight

-- `SchedulerCandidate.__post_init__`
unfoldable pub check_candidate : SchedulerCandidate → Result SchedulerError (Unit {0})
unfolding beneficiaries
check_candidate c = do
  guard (ltb 0 c.remaining_bytes) bad_remaining
  guard (between 1 max_user_weight c.user_weight) bad_weight
  guard (all (contains (beneficiaries c)) (keys c.beneficiary_weights)) foreign_weight
  guard (all (λ e. between 1 max_user_weight e.1) c.beneficiary_weights) bad_beneficiary_weight

pub record SchedulerLedger : Type 0 where
  pub deficits : Dict ℕ
  pub rounds : ℕ
  pub cursor_user_id : Option Uuid

abbrev pub new_ledger : SchedulerLedger
new_ledger = record { deficits = []; rounds = 0; cursor_user_id = none }

pub record SchedulerDecision : Type 0 where
  pub candidate : SchedulerCandidate
  pub beneficiary_user_id : Uuid
  pub size_class : TorrentSizeClass
  pub base_cost : ℕ
  pub charged_cost : ℕ
  pub wait_seconds : ℕ

pub record SchedulerResult : Type 0 where
  pub selected : List SchedulerDecision
  pub ledger : SchedulerLedger
  pub stalled_torrent_ids : List Uuid
  pub capacity_remaining : ℕ

unfoldable pub size_class : SchedulerPolicy → ℕ → TorrentSizeClass × ℕ
size_class p remaining =
    if leb remaining p.small_torrent_bytes
    then (small, small_cost)
    else if leb remaining p.medium_torrent_bytes
    then (medium, medium_cost)
    else (large, large_cost)

-- `max(0, int((now - queued_at).total_seconds()))`
unfoldable pub wait_seconds : Instant → Instant → ℕ
wait_seconds now queued_at = (now - queued_at) / 1000000

unfoldable pub decision : SchedulerPolicy → SchedulerCandidate → Instant → Uuid → SchedulerDecision
unfolding size_class wait_seconds
decision p c now beneficiary =
    let (class, cost) = size_class p c.remaining_bytes in
    let wait = wait_seconds now c.queued_at in
    let aging_bonus = min p.aging_max_bonus (wait / p.aging_interval_seconds) in
    record {
      candidate = c;
      beneficiary_user_id = beneficiary;
      size_class = class;
      base_cost = cost;
      charged_cost = max 1 (cost - aging_bonus);
      wait_seconds = wait;
    }

unfoldable pub candidate_order : SchedulerCandidate → List ℕ
candidate_order c = c.queued_at ∷ c.torrent_id ∷ []
