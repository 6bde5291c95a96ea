-- ===== src/Scheduler/Examples.antt =====
-- A small run of `select_torrents` and `select_with_continuity`
-- (backend/app/scheduler/weighted_fair.py): two users, three torrents, two slots.
use world_of_seeds.Prelude.{
  ◌≡◌, refl, true, false, some, List, [], ◌∷◌, All, ok, ◌≤◌, ◌+◌, ◌*◌, max, ◌-◌, length, count_rows,
  ◌==◌, sum_of, if◌then◌else◌,
}
use world_of_seeds.Prelude.Dict.{get, get_or}
use world_of_seeds.Prelude.Sorting.{lex_le}
use world_of_seeds.Scheduler.{
  SchedulerPolicy, SchedulerCandidate, SchedulerResult, new_ledger, decision, check_policy,
  check_candidate,
}
use world_of_seeds.Scheduler.Select.{
  select_torrents, Prepared, prepare, nothing_prepared, is_distinct,
}
use world_of_seeds.Scheduler.Admission.{IsGiven, admitted_ids}
use world_of_seeds.Scheduler.Selection.{
  selection, selection-capacity, selection-user_limit, selection-origins, selection-ends,
  selection-share, RefusesInput,
}
use world_of_seeds.Scheduler.Continuity.{select_with_continuity}
use world_of_seeds.Scheduler.Retained.{continuity-none, continuity-capacity, continuity-user_limit}
use world_of_seeds.Scheduler.Costs.{charged_bounds}

abbrev policy : SchedulerPolicy
policy = record {
  max_active_global = 2;
  max_active_per_user = 1;
  small_torrent_bytes = 10;
  medium_torrent_bytes = 100;
  deficit_quantum = 4;
  aging_interval_seconds = 60;
  aging_max_bonus = 1;
}

abbrev first : SchedulerCandidate
first = record {
  torrent_id = 11;
  user_id = 1;
  remaining_bytes = 50;
  queued_at = 0;
  user_weight = 1;
  stalled = false;
  beneficiary_user_ids = [];
  beneficiary_weights = [];
}

abbrev second : SchedulerCandidate
second = record first { torrent_id = 12; queued_at = 5 }

abbrev third : SchedulerCandidate
third = record first { torrent_id = 13; user_id = 2; remaining_bytes = 500; queued_at = 7 }

abbrev candidates : List SchedulerCandidate
candidates = second ∷ third ∷ first ∷ []

abbrev outcome : SchedulerResult
outcome = record {
  selected = decision policy first 1000 1 ∷ decision policy third 1000 2 ∷ [];
  ledger = record { deficits = (1, 2) ∷ []; rounds = 2; cursor_user_id = some 2 };
  stalled_torrent_ids = [];
  capacity_remaining = 0;
}

abbrev collected : Prepared
collected = record {
  weights = (1, 1) ∷ (2, 1) ∷ [];
  queues = (1, second ∷ first ∷ []) ∷ (2, third ∷ []) ∷ [];
  stalled_ids = [];
  active_users = 2 ∷ 1 ∷ [];
}

selects : selection candidates policy 1000 0 [] new_ledger [] false ≡ ok outcome
unfolding select_torrents lex_le
selects = refl

collects : prepare policy [] candidates nothing_prepared ≡ ok collected
unfolding prepare lex_le
collects = refl

valid_policy : check_policy policy ≡ ok tt
unfolding check_policy
valid_policy = refl

valid_candidates : All (λ c. check_candidate c ≡ ok tt) candidates
unfolding check_candidate lex_le
valid_candidates = (refl, (refl, (refl, tt)))

weight_of_first : get collected.weights 1 ≡ some 1
unfolding get
weight_of_first = refl

retains :
    select_with_continuity policy 1000 0 new_ledger [] false candidates (13 ∷ [])
    ≡ ok (record outcome {
      selected = decision policy third 1000 2 ∷ decision policy first 1000 1 ∷ [];
      ledger = record { deficits = (1, 2) ∷ []; rounds = 1; cursor_user_id = some 1 };
    })
unfolding select_with_continuity lex_le
retains = refl

selection-capacity_example : length outcome.selected + 0 ≡ 2 - 0
selection-capacity_example =
    selection-capacity candidates policy 1000 0 [] new_ledger [] false outcome selects

selection-user_limit_example :
    get_or [] 1 0 + count_rows (λ d. d.beneficiary_user_id == 1) outcome.selected
    ≤ max 1 (get_or [] 1 0)
selection-user_limit_example =
    selection-user_limit candidates policy 1000 0 [] new_ledger [] false outcome 1 selects

selection-origins_example :
    All (λ d. IsGiven candidates d.beneficiary_user_id d.candidate) outcome.selected
    × (is_distinct (admitted_ids outcome.selected) ≡ true)
selection-origins_example =
    selection-origins candidates policy 1000 0 [] new_ledger [] false valid_candidates outcome
      selects

selection-ends_example : RefusesInput (selection candidates policy 1000 0 [] new_ledger [] false)
selection-ends_example =
    selection-ends candidates policy 1000 0 [] new_ledger [] false valid_candidates valid_policy

selection-share_example :
    sum_of (λ d. if d.beneficiary_user_id == 1 then d.charged_cost else 0) outcome.selected
      + 0 * (4 * 1)
    ≤ get_or [] 1 0 + 2 * (4 * 1)
selection-share_example =
    selection-share candidates policy 1000 0 [] new_ledger [] false outcome collected 1 1 selects
      collects weight_of_first

charged_bounds_example :
    (1 ≤ (decision policy third 1000 2).charged_cost)
    × ((decision policy third 1000 2).charged_cost ≤ (decision policy third 1000 2).base_cost)
    × ((decision policy third 1000 2).base_cost ≤ 4)
    × ((decision policy third 1000 2).base_cost ≤ (decision policy third 1000 2).charged_cost + 1)
charged_bounds_example = charged_bounds policy third 1000 2

continuity-none_example :
    select_with_continuity policy 1000 0 new_ledger [] false candidates []
    ≡ selection candidates policy 1000 0 [] new_ledger [] false
continuity-none_example = continuity-none policy 1000 0 new_ledger [] false candidates

abbrev retained_outcome : SchedulerResult
retained_outcome = record outcome {
  selected = decision policy third 1000 2 ∷ decision policy first 1000 1 ∷ [];
  ledger = record { deficits = (1, 2) ∷ []; rounds = 1; cursor_user_id = some 1 };
}

continuity-capacity_example : length retained_outcome.selected + 0 ≡ 2 - 0
continuity-capacity_example =
    continuity-capacity policy 1000 0 new_ledger [] false candidates (13 ∷ []) retained_outcome
      retains

continuity-user_limit_example :
    count_rows (λ d. d.beneficiary_user_id == 2) retained_outcome.selected ≤ 1
continuity-user_limit_example =
    continuity-user_limit policy 1000 0 new_ledger [] false candidates (13 ∷ []) retained_outcome 2
      retains
