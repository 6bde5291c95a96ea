-- ===== src/Scheduler/Selection.antt =====
-- `select_torrents` (backend/app/scheduler/weighted_fair.py) as a whole: what its result satisfies.
use world_of_seeds.Prelude.{
  if_ind, ℕ, ◌+◌, ◌-◌, ◌*◌, ◌≤◌, max, ◌≡◌, refl, sym, ap, subst, ◌∙◌, Bool, true, false, not, ◌&&◌,
  some, List, [], ◌∷◌, map, arith, ◌==◌, if◌then◌else◌, length, count_rows, all, sum_of, All,
  All_of_mem, contains, Result, ok, ◌>>=◌, ◌>>◌, guard, OnOk, Returns, OnOk_at, >>=-eq-ok, OnErr,
  OnErr-bind, OnErr-guard, Returns→OnErr,
}
use mathlib.Core.List.{Memᴰ}
use world_of_seeds.Prelude.Dict.{Dict, get, get_or, keys}
use world_of_seeds.Models.{Uuid, Instant}
use world_of_seeds.Scheduler.{
  SchedulerError, SchedulerPolicy, SchedulerCandidate, SchedulerLedger, SchedulerResult,
  beneficiaries, weight_for, duplicate_candidate, duplicate_fair_user, empty_fair_order,
  weight_conflict, incomplete_fair_order, check_policy, check_candidate,
}
use world_of_seeds.Scheduler.Select.{
  Loop, Prepared, deficit_of, is_empty, join_queue, join_queues, prepare, start, finished, enough,
  is_distinct, select_torrents, select_prepared, run_prepared, nothing_prepared,
}
use world_of_seeds.Scheduler.Rule.{Keeps, Done, run-keeps}
use world_of_seeds.Scheduler.Admission.{
  InCapacity, InCapacity-Keeps, InLimit, InLimit-Keeps, Selects, Selects-Keeps, Covered,
  Covered-Keeps, admitted_ids, IsGiven,
}
use world_of_seeds.Scheduler.Preparation.{
  prepare-IsPrepared, IsPrepared, sort_queues-AllWait, keys-sort_queues,
}
use world_of_seeds.Scheduler.Effort.{total_lack-le, length-keys}
use world_of_seeds.Scheduler.Ends.{HasWeight, run-Returns}

guard-ok {ℓ} :
    {A : Type ℓ} (b : Bool) (e : SchedulerError) (k : Result SchedulerError A) {a : A}
    → (guard b e >> k) ≡ ok a
    → k ≡ ok a
guard-ok true e k h = h
guard-ok false e k h = cc

-- The refusals of the call's own input.
abbrev pub is_input_error : SchedulerError → Bool
is_input_error duplicate_candidate = true
is_input_error duplicate_fair_user = true
is_input_error empty_fair_order = true
is_input_error weight_conflict = true
is_input_error incomplete_fair_order = true
is_input_error _ = false

abbrev pub RefusesInput {ℓ} : {A : Type ℓ} → Result SchedulerError A → Type 0
RefusesInput m = OnErr (λ e. is_input_error e ≡ true) m

module _ (policy : SchedulerPolicy) (active : Dict ℕ) where
  join_queue-RefusesInput :
      (c : SchedulerCandidate) (user : Uuid) (p : Prepared)
      → RefusesInput (join_queue policy active c user p)
  unfolding join_queue
  join_queue-RefusesInput c user p =
      if_ind RefusesInput (get_or p.weights user (weight_for c user) == weight_for c user) (λ e. tt)
        (λ e. refl)

  join_queues-RefusesInput :
      (c : SchedulerCandidate) (users : List Uuid) (p : Prepared)
      → RefusesInput (join_queues policy active c users p)
  unfolding join_queues
  join_queues-RefusesInput c [] p = tt
  join_queues-RefusesInput c (u ∷ us) p =
      OnErr-bind _ (join_queue policy active c u p) _ (join_queue-RefusesInput c u p)
        (λ q e. join_queues-RefusesInput c us q)

  prepare-RefusesInput :
      (cs : List SchedulerCandidate) (p : Prepared) → RefusesInput (prepare policy active cs p)
  unfolding prepare
  prepare-RefusesInput [] p = tt
  prepare-RefusesInput (c ∷ cs) p =
      OnErr-bind _ (join_queues policy active c (beneficiaries c) _) _
        (join_queues-RefusesInput c (beneficiaries c) _) (λ q e. prepare-RefusesInput cs q)

module _ (candidates : List SchedulerCandidate) (policy : SchedulerPolicy) (now : Instant)
    (active_global : ℕ) (active : Dict ℕ) (ledger : SchedulerLedger) (order : List Uuid)
    (complete : Bool) where
  abbrev prepared_by : Result SchedulerError Prepared
  prepared_by = prepare policy active candidates nothing_prepared

  abbrev pub loop_by : Prepared → Result SchedulerError Loop
  loop_by p = run_prepared policy now active_global active ledger order complete p

  abbrev pub selection : Result SchedulerError SchedulerResult
  selection = select_torrents policy now active_global active ledger order complete candidates

  -- The parts of a successful call.
  pub record Parts (r : SchedulerResult) : Type 0 where
    pub prepared : Prepared
    pub loop : Loop
    pub is_prepared : prepared_by ≡ ok prepared
    pub is_loop : loop_by prepared ≡ ok loop
    pub result : r ≡ finished prepared.active_users prepared.stalled_ids loop

  prepared-Parts :
      {r : SchedulerResult} (p : Prepared)
      → prepared_by ≡ ok p
      → select_prepared policy now active_global active ledger order complete p ≡ ok r
      → Parts r
  unfolding select_prepared
  prepared-Parts {r} p is_p h =
      let h₁ =
        guard-ok (not (complete && not (all (contains order) p.active_users))) incomplete_fair_order
          (loop_by p >>= λ s. ok (finished p.active_users p.stalled_ids s)) h in
      let (s, is_s, done) =
        >>=-eq-ok (loop_by p) (λ s. ok (finished p.active_users p.stalled_ids s)) h₁ in
      record { prepared = p; loop = s; is_prepared = is_p; is_loop = is_s; result = cc }

  pub select-Parts : {r : SchedulerResult} → selection ≡ ok r → Parts r
  unfolding select_torrents
  select-Parts {r} h =
      let rest =
        prepared_by >>= select_prepared policy now active_global active ledger order complete in
      let nonempty = not (complete && is_empty order && not (is_empty candidates)) in
      let h₃ = guard-ok nonempty empty_fair_order rest (
        guard-ok (is_distinct order) duplicate_fair_user (guard nonempty empty_fair_order >> rest) (
          guard-ok (is_distinct (map (λ c. c.torrent_id) candidates)) duplicate_candidate
            (guard (is_distinct order) duplicate_fair_user
              >> (guard nonempty empty_fair_order >> rest))
            h)) in
      let (p, is_p, h₄) =
        >>=-eq-ok prepared_by
          (select_prepared policy now active_global active ledger order complete) h₃ in
      prepared-Parts p is_p h₄

  abbrev first_loop : Prepared → Loop
  first_loop p = start policy active_global active ledger p.queues

  -- What holds at the start and is kept by the loop's steps holds at the end.
  loop-Keeps :
      (P : Loop → Type 0) (p : Prepared) (s : Loop)
      → Keeps policy now p.weights P
      → P (first_loop p)
      → loop_by p ≡ ok s
      → P s
  unfolding run_prepared
  loop-Keeps P p s rule h e =
      (OnOk_at (λ t. P t × Done policy t) (loop_by p)
        (run-keeps rule order complete (enough (first_loop p).slots (first_loop p).queues)
          (first_loop p) h)
        e).0

  -- A successful call admits as many candidates as it takes slots of those that the global limit
  -- leaves free.
  pub selection-capacity :
      (r : SchedulerResult)
      → selection ≡ ok r
      → length r.selected + r.capacity_remaining ≡ policy.max_active_global - active_global
  unfolding finished start deficit_of
  selection-capacity r h =
      let parts = select-Parts h in
      let total = policy.max_active_global - active_global in
      let loop =
        loop-Keeps (InCapacity policy now parts.prepared.weights total) parts.prepared parts.loop
          (InCapacity-Keeps policy now parts.prepared.weights total) (omega arith) parts.is_loop in
      subst (λ (x : SchedulerResult). length x.selected + x.capacity_remaining ≡ total)
        (sym parts.result) loop

  -- After a successful call a user's active torrents, the admitted ones included, pass the user limit
  -- only where they did before the call.
  pub selection-user_limit :
      (r : SchedulerResult) (user : Uuid)
      → selection ≡ ok r
      → get_or active user 0 + count_rows (λ d. d.beneficiary_user_id == user) r.selected
        ≤ max policy.max_active_per_user (get_or active user 0)
  unfolding finished start deficit_of
  selection-user_limit r user h =
      let parts = select-Parts h in
      let (counted, bound) =
        loop-Keeps (InLimit policy now parts.prepared.weights active user) parts.prepared parts.loop
          (InLimit-Keeps policy now parts.prepared.weights active user) (omega arith, omega arith)
          parts.is_loop in
      subst
        (λ (x : SchedulerResult).
          get_or active user 0 + count_rows (λ d. d.beneficiary_user_id == user) x.selected
          ≤ max policy.max_active_per_user (get_or active user 0))
        (sym parts.result) (omega (arith, counted, bound))

  module _ (valid : All (λ c. check_candidate c ≡ ok tt) candidates) where
    collected-IsPrepared : OnOk (IsPrepared candidates) prepared_by
    collected-IsPrepared =
        prepare-IsPrepared policy active candidates candidates nothing_prepared valid
          (All_of_mem (λ c. Memᴰ c candidates) candidates (λ c m. m))
          (record { waiting = tt; weighted = tt })

    -- With valid candidates, a successful call admits only given candidates that are not stalled,
    -- each charged to one of its beneficiaries, and no torrent twice.
    pub selection-origins :
        (r : SchedulerResult)
        → selection ≡ ok r
        → All (λ d. IsGiven candidates d.beneficiary_user_id d.candidate) r.selected
          × (is_distinct (admitted_ids r.selected) ≡ true)
    unfolding finished start is_distinct
    selection-origins r h =
        let parts = select-Parts h in
        let collected =
          OnOk_at (IsPrepared candidates) prepared_by collected-IsPrepared parts.is_prepared in
        let loop =
          loop-Keeps (Selects candidates) parts.prepared parts.loop
            (Selects-Keeps policy now parts.prepared.weights candidates)
            (record {
              waiting = sort_queues-AllWait candidates parts.prepared.queues collected.waiting;
              origins = tt;
              distinct = refl;
            })
            parts.is_loop in
        subst
          (λ (x : SchedulerResult).
            All (λ d. IsGiven candidates d.beneficiary_user_id d.candidate) x.selected
            × (is_distinct (admitted_ids x.selected) ≡ true))
          (sym parts.result) (loop.origins, loop.distinct)

    loop_by-Returns :
        (p : Prepared)
        → check_policy policy ≡ ok tt
        → prepared_by ≡ ok p
        → Returns (λ (s : Loop). Unit {0}) (loop_by p)
    unfolding run_prepared start enough check_policy
    loop_by-Returns p checked e =
        let collected = OnOk_at (IsPrepared candidates) prepared_by collected-IsPrepared e in
        let s = first_loop p in
        run-Returns policy now p.weights order complete (ground arith) (enough s.slots s.queues) s
          (omega (arith, total_lack-le s (keys s.queues), length-keys s.queues))
          (subst (All (HasWeight p.weights)) (sym (keys-sort_queues p.queues)) collected.weighted)

    prepared-ends :
        check_policy policy ≡ ok tt
        → (p : Prepared) → prepared_by ≡ ok p
        → RefusesInput (select_prepared policy now active_global active ledger order complete p)
    unfolding select_prepared
    prepared-ends checked p e =
        let refused = λ (e : SchedulerError). is_input_error e ≡ true in
        let rest = loop_by p >>= λ s. ok (finished p.active_users p.stalled_ids s) in
        OnErr-guard refused (not (complete && not (all (contains order) p.active_users)))
          incomplete_fair_order rest refl
          (OnErr-bind refused (loop_by p) (λ s. ok (finished p.active_users p.stalled_ids s))
            (Returns→OnErr (λ (s : Loop). Unit {0}) refused (loop_by p)
              (loop_by-Returns p checked e))
            (λ s e. tt))

    -- With a valid policy and valid candidates the call always ends, and it refuses nothing but its
    -- input: repeated candidates or fair users, an empty or incomplete complete order, or two
    -- weights for one user. Neither the bound on the rounds nor a missing key is ever met.
    pub selection-ends : check_policy policy ≡ ok tt → RefusesInput selection
    unfolding select_torrents
    selection-ends checked =
        let refused = λ (e : SchedulerError). is_input_error e ≡ true in
        let chosen = prepared_by >>= λ p.
        select_prepared policy now active_global active ledger order complete p in
        let nonempty = not (complete && is_empty order && not (is_empty candidates)) in
        OnErr-guard refused (is_distinct (map (λ c. c.torrent_id) candidates)) duplicate_candidate
          (guard (is_distinct order) duplicate_fair_user
            >> (guard nonempty empty_fair_order >> chosen))
          refl
          (OnErr-guard refused (is_distinct order) duplicate_fair_user
            (guard nonempty empty_fair_order >> chosen) refl
            (OnErr-guard refused nonempty empty_fair_order chosen refl (
              OnErr-bind refused prepared_by _
                (prepare-RefusesInput policy active candidates nothing_prepared)
                (prepared-ends checked))))

  -- What a user is charged in a successful call is covered by the user's credit before it and the
  -- credits of the call's rounds, each of the quantum times the user's weight.
  pub selection-share :
      (r : SchedulerResult) (p : Prepared) (user : Uuid) (weight : ℕ)
      → selection ≡ ok r
      → prepared_by ≡ ok p
      → get p.weights user ≡ some weight
      → sum_of (λ d. if d.beneficiary_user_id == user then d.charged_cost else 0) r.selected
          + ledger.rounds * (policy.deficit_quantum * weight)
        ≤ get_or ledger.deficits user 0 + r.ledger.rounds * (policy.deficit_quantum * weight)
  unfolding finished start deficit_of
  selection-share r p user weight h e known =
      let parts = select-Parts h in
      let same : parts.prepared ≡ p = cc (parts.is_prepared, e) in
      let q = parts.prepared in
      let known' = ap (λ (x : Prepared). get x.weights user) same ∙ known in
      let covered =
        loop-Keeps (Covered policy now q.weights ledger user weight) q parts.loop
          (Covered-Keeps policy now q.weights ledger user weight known') (omega arith)
          parts.is_loop in
      subst
        (λ (x : SchedulerResult).
          sum_of (λ d. if d.beneficiary_user_id == user then d.charged_cost else 0) x.selected
            + ledger.rounds * (policy.deficit_quantum * weight)
          ≤ get_or ledger.deficits user 0 + x.ledger.rounds * (policy.deficit_quantum * weight))
        (sym parts.result) (omega (arith, covered))
