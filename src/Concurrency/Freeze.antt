-- ===== src/Concurrency/Freeze.antt =====
-- The cooldown after a completion (backend/app/scheduler/dynamic_concurrency.py), over any number of the
-- cycles of backend/app/scheduler/runtime.py, each of which moves the limit, selects and then aligns the
-- measurement.
use world_of_seeds.Prelude.{
  ℕ, ◌+◌, ◌≤◌, ◌<◌, max, ◌≡◌, refl, sym, ap, subst, inl, inr, Bool, true, false, not, ◌||◌, some,
  List, arith, if◌then◌else◌, is_some, Bool-cases, length, ok, Returns, Returns_at, Returns-imp,
}
use world_of_seeds.Models.{Uuid, Instant, seconds, ManagedTorrent}
use world_of_seeds.Scheduler.{SchedulerCandidate}
use world_of_seeds.Concurrency.{
  DynamicConcurrencyConfig, Baseline, SchedulerState, DynamicConcurrencyDecision, start_measurement,
  validated_baseline, same_keys, active_torrents,
}
use world_of_seeds.Concurrency.Apply.{
  is_after, cool_down, apply_active, apply_dynamic_concurrency, align_measurement_after_selection,
  record_dynamic_completion,
}
use world_of_seeds.Concurrency.Limit.{apply-cycle, completion-shrinks, raised}

abbrev pub Frozen : ℕ → SchedulerState × DynamicConcurrencyDecision → Type 0
Frozen limit r =
    (r.1.preserve_active_set ≡ true) × (r.1.scaled_up ≡ false) × (r.1.active_limit ≡ limit)

-- A cycle that runs within the evaluation time that began at `since`, with the control enabled, an
-- evaluation time that is no shorter, and torrents that download.
pub record During (evaluation : ℕ) (since : Instant) (torrents : List ManagedTorrent)
    (config : DynamicConcurrencyConfig) (now : Instant) : Type 0 where
  pub enabled : config.enabled ≡ true
  pub as_long : evaluation ≤ config.evaluation_seconds
  pub busy : 0 < length (active_torrents torrents)
  pub begun : since ≤ now
  pub early : now < since + seconds evaluation

-- The states after cycles within the evaluation time, with the largest number of torrents that were active
-- in one of them or, as `at_start` says, before.
pub data Cycles (evaluation : ℕ) (since : Instant) (at_start : ℕ) (state : SchedulerState)
    : ℕ → SchedulerState → Type 0 where
  here : Cycles evaluation since at_start state at_start state
  next :
      {most : ℕ} {before after : SchedulerState} {decided : DynamicConcurrencyDecision}
      → Cycles evaluation since at_start state most before
      → (torrents : List ManagedTorrent) (candidates : List SchedulerCandidate)
        (config : DynamicConcurrencyConfig) (now : Instant) (selected_ids : List Uuid)
      → During evaluation since torrents config now
      → apply_dynamic_concurrency before torrents candidates config now ≡ ok (after, decided)
      → Cycles evaluation since at_start state
          (max most (length (active_torrents torrents)))
          (align_measurement_after_selection after torrents selected_ids config now)

-- The limit is `limit`, and the cooldown does not end before `deadline`.
record IsCooling (deadline : Instant) (limit : ℕ) (s : SchedulerState) : Type 0 where
  is_limit : s.dynamic_current_active ≡ limit
  lasts : (until : Instant) × (s.dynamic_cooldown_until ≡ some until) × (deadline ≤ until)

module _ (config : DynamicConcurrencyConfig) (now : Instant) (ids : List Uuid) (baseline : Baseline)
    (deadline : Instant) (restarts : deadline ≤ now + seconds config.evaluation_seconds) where
  cool_down-IsCooling :
      (limit : ℕ) (s : SchedulerState)
      → IsCooling deadline limit s
      → IsCooling deadline limit (cool_down config now ids baseline s).0
        × Frozen limit (cool_down config now ids baseline s)
  unfolding cool_down start_measurement
  cool_down-IsCooling limit s h =
      elim (Bool-cases (
        not (is_some s.dynamic_sampled_at)
        || not (same_keys (validated_baseline s.dynamic_sample_baseline) baseline))) [
          | inl restart ↦ rw restart (
            record { is_limit = h.is_limit; lasts = (_, refl, restarts) },
            (refl, refl, h.is_limit),
          )
          | inr keep ↦
              rw keep (record { is_limit = h.is_limit; lasts = h.lasts }, (refl, refl, h.is_limit))
        ]

  apply_active-IsCooling :
      (limit : ℕ) (s : SchedulerState)
      → now < deadline
      → IsCooling deadline limit s
      → Returns
          (λ r. IsCooling deadline limit r.0 × Frozen limit r)
          (apply_active config now ids baseline s)
  unfolding apply_active
  apply_active-IsCooling limit s early h =
      let (until, cooling, late) = h.lasts in
      let on : is_after s.dynamic_cooldown_until now ≡ true = rw cooling (ground arith) in
      rw on (cool_down-IsCooling limit s h)

if_or_true : (b : Bool) (x y : SchedulerState) → (if b || true then x else y) ≡ x
if_or_true true x y = refl
if_or_true false x y = refl

align-IsCooling :
    (deadline : Instant) (limit : ℕ) (s : SchedulerState) (torrents : List ManagedTorrent)
    (selected_ids : List Uuid) (config : DynamicConcurrencyConfig) (now : Instant)
    → IsCooling deadline limit s
    → align_measurement_after_selection s torrents selected_ids config now ≡ s
unfolding align_measurement_after_selection
align-IsCooling deadline limit s torrents selected_ids config now h =
    let (until, cooling, late) = h.lasts in rw cooling (if_or_true (not config.enabled) _ _)

apply-IsCooling :
    (evaluation : ℕ) (since : Instant) (most : ℕ) (s : SchedulerState)
    (torrents : List ManagedTorrent) (candidates : List SchedulerCandidate)
    (config : DynamicConcurrencyConfig) (now : Instant)
    → IsCooling (since + seconds evaluation) most s
    → During evaluation since torrents config now
    → Returns
        (λ r.
          IsCooling (since + seconds evaluation) (max most (length (active_torrents torrents))) r.0
          × Frozen (max most (length (active_torrents torrents))) r)
        (apply_dynamic_concurrency s torrents candidates config now)
apply-IsCooling evaluation since most s torrents candidates config now h d =
    let limit = max most (length (active_torrents torrents)) in
    subst
      (Returns (λ (r : SchedulerState × DynamicConcurrencyDecision).
        IsCooling (since + seconds evaluation) limit r.0 × Frozen limit r))
      (sym (apply-cycle s torrents candidates config now d.enabled d.busy))
      (apply_active-IsCooling config now _ _ (since + seconds evaluation)
        (omega (arith, d.as_long, d.begun)) limit (raised s torrents candidates) d.early
        (record {
          is_limit = ap (λ (n : ℕ). max n (length (active_torrents torrents))) h.is_limit;
          lasts = h.lasts;
        }))

Cycles-IsCooling :
    {evaluation : ℕ} {since : Instant} {at_start : ℕ} {state : SchedulerState} {most : ℕ}
    {s : SchedulerState}
    → IsCooling (since + seconds evaluation) at_start state
    → Cycles evaluation since at_start state most s
    → IsCooling (since + seconds evaluation) most s
Cycles-IsCooling h here = h
Cycles-IsCooling {evaluation} {since} h
      (next {most} {before} {after} r torrents candidates config now selected_ids d e) =
    let cooled =
      Returns_at _ _
        (apply-IsCooling evaluation since most before torrents candidates config now
          (Cycles-IsCooling h r) d)
        e in
    subst (IsCooling (since + seconds evaluation) (max most (length (active_torrents torrents))))
      (sym (align-IsCooling _ _ after torrents selected_ids config now cooled.0)) cooled.0

-- After a completion that leaves torrents downloading, recorded with the control enabled and both numbers
-- there, and after any number of cycles with their alignments, all within the evaluation time from the
-- completion on and each with the control enabled, an evaluation time no shorter and active torrents, one
-- more such cycle raises no error, preserves the active set and does not scale up, and its limit is the
-- largest number of torrents that were active at the completion or in one of these cycles, the last
-- included.
pub completion-freezes :
    (state : SchedulerState) (torrents : List ManagedTorrent) (initial evaluation : ℕ)
    (since : Instant)
    → 0 < length (active_torrents torrents)
    → {most : ℕ} {s : SchedulerState}
    → Cycles evaluation since
        (length (active_torrents torrents))
        (record_dynamic_completion state torrents
          (record { enabled = true; initial = some initial; evaluation = some evaluation })
          since)
        most
        s
    → (later_torrents : List ManagedTorrent) (candidates : List SchedulerCandidate)
      (config : DynamicConcurrencyConfig) (now : Instant)
    → During evaluation since later_torrents config now
    → Returns
        (λ r.
          (r.1.preserve_active_set ≡ true)
          × (r.1.scaled_up ≡ false)
          × (r.1.active_limit ≡ max most (length (active_torrents later_torrents))))
        (apply_dynamic_concurrency s later_torrents candidates config now)
completion-freezes state torrents initial evaluation since busy {most} {s} cycles later_torrents
      candidates config now d =
    let (shrunk, until) = completion-shrinks state torrents initial evaluation since busy in
    let begins : IsCooling (since + seconds evaluation) (length (active_torrents torrents)) _ =
      record { is_limit = shrunk; lasts = (_, until, omega arith) } in
    Returns-imp _ _ (apply_dynamic_concurrency s later_torrents candidates config now) (λ r h. h.1)
      (apply-IsCooling evaluation since most s later_torrents candidates config now
        (Cycles-IsCooling begins cycles) d)
