-- ===== src/Scheduler/Select.antt =====
-- backend/app/scheduler/weighted_fair.py: `select_torrents`, its rounds and its result.
pub mod Setup
pub mod Admit
pub mod Choose
use world_of_seeds.Prelude.{
  if_ind, ℕ, zero, suc, ◌+◌, ◌-◌, ◌*◌, ◌/◌, ◌%◌, ◌^◌, ◌≤◌, ◌<◌, min, max, String, ◌≡◌, refl, sym,
  ap, subst, ◌∙◌, ◌≢◌, ◌↔◌, ◌⊎◌, inl, inr, Bool, true, false, not, ◌&&◌, ◌||◌, Option, none, some,
  List, [], ◌∷◌, ◌++◌, map, head?, arith, str_eq, eq_iff, ltb, leb, ◌==◌, if◌then◌else◌, between,
  is_some, is_number, leb→le, le→leb, ==_iff, ==_refl, Bool-cases, Option-cases, ℤ, pos, negsuc,
  is_positive, is_natural, shift, length, take, drop, where_rows, count_rows, any, all, sum_of, All,
  length-append, length-take-le, length-where_rows-le, All-append, All-if, All-where_rows, All-take,
  All_imp, All_of_mem, All_at, mem_of_mem-where_rows, mem-where_rows, contains, Result, ok, err,
  ◌>>=◌, ◌>>◌, guard, OnOk, >>=-eq-ok,
}
use mathlib.Core.List.{Memᴰ}
use world_of_seeds.Prelude.Sorting.{
  lex_le, lex_le_refl, lex_le_total, lex_le_trans, insert_by, sort_by, IsLeast, IsSorted,
  All-insert_by, All-sort_by, length-insert_by, length-sort_by, sort_by-IsSorted, mem-sort_by,
}
use world_of_seeds.Prelude.Dict.{Dict, get, get_or, put, keys, get-put, get_or-put}
use world_of_seeds.Models.{Uuid, Instant}
use world_of_seeds.Scheduler.{
  SchedulerError, SchedulerPolicy, SchedulerCandidate, SchedulerLedger, SchedulerDecision,
  SchedulerResult, no_eligible_user, duplicate_candidate, duplicate_fair_user, empty_fair_order,
  weight_conflict, incomplete_fair_order, missing_key, out_of_fuel, large_cost, max_user_weight,
  sorted_ids, beneficiaries, weight_for, decision, candidate_order,
}
unfoldable pub use world_of_seeds.Scheduler.Select.Setup.{
  is_distinct, enqueue, join_queue, join_queues, prepare, sort_queues,
}
pub use world_of_seeds.Scheduler.Select.Setup.{Queues, set_default, Prepared}
unfoldable pub use world_of_seeds.Scheduler.Select.Admit.{
  queue_of, remove_torrent, has_room, deficit_of, admit, admit_head, admit_from,
}
pub use world_of_seeds.Scheduler.Select.Admit.{is_empty, Loop}
unfoldable pub use world_of_seeds.Scheduler.Select.Choose.{
  first_after, next_eligible_user, eligible_in, scan_fair, advance, fallback, choose_fair, choose,
}
pub use world_of_seeds.Scheduler.Select.Choose.{get_elem?, first_or_error, some_or_first, Choice}

unfoldable pub deficit_cap : SchedulerPolicy → ℕ
deficit_cap policy = max large_cost (policy.deficit_quantum * max_user_weight) * 8

-- The round's credit for the chosen user.
unfoldable pub credit : SchedulerPolicy → ℕ → Choice → Loop → Loop
unfolding put deficit_of deficit_cap
credit policy weight choice s = record s {
  cursor_user_id = choice.cursor_user_id;
  fair_index = choice.fair_index;
  rounds = s.rounds + 1;
  deficits =
      put s.deficits choice.user
        (min (deficit_cap policy) (deficit_of s choice.user + policy.deficit_quantum * weight));
}

module _ (policy : SchedulerPolicy) (now : Instant) (weights : Dict ℕ) (order : List Uuid)
    (complete : Bool) where
  -- The round of the chosen user, whose weight was looked up.
  unfoldable pub round_for : Option ℕ → Choice → Loop → Result SchedulerError Loop
  unfolding credit admit_from
  round_for none choice s = err missing_key
  round_for (some weight) choice s =
      let credited = credit policy weight choice s in
      ok (admit_from policy now credited.slots choice.user credited)

  -- The body of the outer `while`, for the eligible users.
  unfoldable pub round : List Uuid → Loop → Result SchedulerError Loop
  unfolding choose round_for get
  round eligible s = do
    choice ← choose policy order complete eligible s
    round_for (get weights choice.user) choice s

  unfoldable pub run : ℕ → Loop → Result SchedulerError Loop
  unfolding round eligible_in
  run zero s = err out_of_fuel
  run (suc fuel) s =
      let eligible = eligible_in policy s (keys s.queues) in
      let rest = (do s' ← round eligible s; run fuel s') in
      if not (ltb 0 s.slots && not (is_empty s.queues)) || is_empty eligible then ok s else rest

-- Rounds that suffice: a user needs at most `large_cost` credits between two admissions.
unfoldable pub enough : ℕ → Queues → ℕ
enough slots queues = suc ((slots + 1) * (large_cost * length queues + 1))

-- `{user: value for user in sorted(active_users) if value > 0}`
unfoldable pub keep_positive : (Uuid → ℕ) → List Uuid → Dict ℕ
keep_positive f [] = []
keep_positive f (u ∷ us) =
    let rest = keep_positive f us in if ltb 0 (f u) then (u, f u) ∷ rest else rest

unfoldable pub finished : List Uuid → List Uuid → Loop → SchedulerResult
unfolding keep_positive sorted_ids deficit_of
finished active_users stalled_ids s = record {
  selected = s.selected;
  ledger = record {
    deficits = keep_positive (deficit_of s) (sorted_ids active_users);
    rounds = s.rounds;
    cursor_user_id = (if is_empty active_users then none else s.cursor_user_id);
  };
  stalled_torrent_ids = sort_by (λ i. i ∷ []) stalled_ids;
  capacity_remaining = s.slots;
}

-- `fairness_user_order or ()` and `ledger or SchedulerLedger()` are the caller's to give.
unfoldable pub start : SchedulerPolicy → ℕ → Dict ℕ → SchedulerLedger → Queues → Loop
unfolding sort_queues
start policy active_global active_by_user ledger queues = record {
  slots = policy.max_active_global - active_global;
  queues = sort_queues queues;
  counts = active_by_user;
  deficits = ledger.deficits;
  rounds = ledger.rounds;
  selected = [];
  cursor_user_id = ledger.cursor_user_id;
  fair_index = 0;
}

abbrev pub nothing_prepared : Prepared
nothing_prepared = record { weights = []; queues = []; stalled_ids = []; active_users = [] }

module _ (policy : SchedulerPolicy) (now : Instant) (active_global : ℕ) (active_by_user : Dict ℕ)
    (ledger : SchedulerLedger) (fair_order : List Uuid) (complete : Bool) where
  -- The loop on what the pass over the candidates has collected.
  unfoldable pub run_prepared : Prepared → Result SchedulerError Loop
  unfolding start run enough
  run_prepared p =
      let s = start policy active_global active_by_user ledger p.queues in
      run policy now p.weights fair_order complete (enough s.slots s.queues) s

  unfoldable pub select_prepared : Prepared → Result SchedulerError SchedulerResult
  unfolding run_prepared finished
  select_prepared p = do
    guard (not (complete && not (all (contains fair_order) p.active_users))) incomplete_fair_order
    s ← run_prepared p
    ok (finished p.active_users p.stalled_ids s)

  unfoldable pub select_torrents : List SchedulerCandidate → Result SchedulerError SchedulerResult
  unfolding is_distinct prepare select_prepared decision
  select_torrents candidates = do
    guard (is_distinct (map (λ c. c.torrent_id) candidates)) duplicate_candidate
    guard (is_distinct fair_order) duplicate_fair_user
    guard (not (complete && is_empty fair_order && not (is_empty candidates))) empty_fair_order
    p ← prepare policy active_by_user candidates nothing_prepared
    select_prepared p
