-- ===== src/Scheduler/Ends.antt =====
-- The loop of `select_torrents` (backend/app/scheduler/weighted_fair.py) ends, without an error.
use world_of_seeds.Prelude.{
  if_ind, ℕ, zero, suc, ◌≤◌, ◌<◌, ◌≡◌, refl, sym, subst, ◌∙◌, inl, inr, Bool, true, false, not,
  ◌&&◌, ◌||◌, Option, none, some, List, [], ◌∷◌, arith, ltb, leb, ◌==◌, ==_iff, Bool-cases, All,
  All_both, contains, Returns, Returns-bind,
}
use mathlib.Core.Option.{some-injective}
use world_of_seeds.Prelude.Dict.{Dict, get, keys}
use world_of_seeds.Models.{Uuid, Instant}
use world_of_seeds.Scheduler.{SchedulerPolicy, SchedulerCandidate, decision, large_cost}
use world_of_seeds.Scheduler.Select.{
  Loop, queue_of, has_room, deficit_of, admit, admit_head, admit_from, eligible_in, Choice, choose,
  credit, round, round_for, run, is_empty, enough,
}
use world_of_seeds.Scheduler.Rule.{
  Keeps, IsEligible, eligible_in-IsEligible, eligible_in_key, admit_from-keeps,
}
use world_of_seeds.Scheduler.Choices.{choose-Returns}
use world_of_seeds.Scheduler.Costs.{charged_bounds}
use world_of_seeds.Scheduler.Effort.{
  effort, keys-remove_torrent, credit-lack_self, credit-total_lack_lt, contains_self, credit-keys,
  credit-effort, credit-slots, credit-room, credit-queue, none-ne-some, effort-lt_of_slots,
}

-- The steps take slots and leave the keys of the queues.
abbrev Under : ℕ → List Uuid → Loop → Type 0
Under n ks s = (s.slots ≤ n) × (keys s.queues ≡ ks)

module _ (policy : SchedulerPolicy) (now : Instant) where
  admit-Under :
      (n : ℕ) (ks : List Uuid) (s : Loop) (user : Uuid) (c : SchedulerCandidate)
      → Under n ks s
      → Under n ks (admit policy now user c s)
  unfolding admit
  admit-Under n ks s user c (h, k) = (omega arith, keys-remove_torrent c.torrent_id s.queues ∙ k)

  Under-Keeps : (weights : Dict ℕ) (n : ℕ) (ks : List Uuid) → Keeps policy now weights (Under n ks)
  unfolding credit
  Under-Keeps weights n ks = record {
    on_credit = λ s w choice h found. h;
    on_admit = λ s user c rest h q slot room paid. admit-Under n ks s user c h;
  }

  admit-lower :
      (s : Loop) (user : Uuid) (c : SchedulerCandidate)
      → 0 < s.slots
      → (admit policy now user c s).slots < s.slots
  unfolding admit
  admit-lower s user c slot = omega arith

  -- The inner loop admits something, or leaves a user that cannot pay for the dearest admission.
  data Progress (s : Loop) (user : Uuid) (t : Loop) : Type 0 where
    admitted : t.slots < s.slots → Progress s user t
    too_poor : t ≡ s → deficit_of s user < large_cost → Progress s user t

  admit_head-Progress :
      (n : ℕ) (q : List SchedulerCandidate) (user : Uuid) (s : Loop)
      → is_empty q ≡ false
      → 0 < s.slots
      → Progress s user (admit_head policy now (admit_from policy now n user) q user s)
  unfolding admit_head
  admit_head-Progress n [] user s e slot = cc
  admit_head-Progress n (c ∷ q) user s e slot =
      let s' = admit policy now user c s in
      let lower : s'.slots < s.slots = admit-lower s user c slot in
      if_ind (Progress s user)
        (leb s.slots 0 || ltb (deficit_of s user) (decision policy c now user).charged_cost)
        (λ stop. too_poor refl (
          ground
            (arith, (charged_bounds policy c now user).1, (charged_bounds policy c now user).2)))
        λ go.
          if_ind (Progress s user) (has_room policy s' user)
            (λ room.
              let (fewer, same) =
                admit_from-keeps (Under-Keeps [] s'.slots (keys s'.queues)) n user s' room
                  (omega arith, refl) in
              admitted (omega arith))
            (λ full. admitted lower)

  admit_from-Progress :
      (n : ℕ) (user : Uuid) (s : Loop)
      → is_empty (queue_of s.queues user) ≡ false
      → 0 < n
      → 0 < s.slots
      → Progress s user (admit_from policy now n user s)
  unfolding admit_from
  admit_from-Progress zero user s e bound slot = absurd (omega arith)
  admit_from-Progress (suc n) user s e bound slot =
      admit_head-Progress n (queue_of s.queues user) user s e slot

-- What the loop relies on: the policy grants credit, and every queue's user has a positive weight.
abbrev pub HasWeight : Dict ℕ → Uuid → Type 0
HasWeight weights u = (w : ℕ) × (get weights u ≡ some w) × (1 ≤ w)

All-contains :
    (P : Uuid → Type 0) (us : List Uuid) (u : Uuid) → All P us → contains us u ≡ true → P u
All-contains P [] u h c = cc
All-contains P (x ∷ us) u h c = elim (Bool-cases (x == u)) [
  | inl same ↦ subst P ((==_iff x u).0 same) h.0
  | inr other ↦ All-contains P us u h.1 (ground arith)
]

-- One loop state after another: less effort is left, over the same users.
abbrev Lower : Loop → Loop → Type 0
Lower s t = (effort t < effort s) × (keys t.queues ≡ keys s.queues)

module _ (policy : SchedulerPolicy) (now : Instant) (grants : 1 ≤ policy.deficit_quantum) where
  credit-Lower :
      (s : Loop) (choice : Choice) (w : ℕ)
      → contains (keys s.queues) choice.user ≡ true
      → 1 ≤ w
      → deficit_of (credit policy w choice s) choice.user < large_cost
      → Lower s (credit policy w choice s)
  credit-Lower s choice w key some_weight poor =
      let falls =
        credit-total_lack_lt policy w choice s (keys s.queues) key
          (credit-lack_self policy w choice s grants some_weight poor) in
      (credit-effort policy w choice s falls, credit-keys policy w choice s)

  admit-Lower :
      (s : Loop) (choice : Choice) (w : ℕ)
      → 0 < s.slots
      → IsEligible policy s choice.user
      → contains (keys s.queues) choice.user ≡ true
      → 1 ≤ w
      → let t = credit policy w choice s in
        Progress policy now t choice.user (admit_from policy now t.slots choice.user t)
        → Lower s (
            admit_from policy now
              (credit policy w choice s).slots
              choice.user
              (credit policy w choice s))
  admit-Lower s choice w slot el key some_weight (too_poor e poor) =
      subst (Lower s) (sym e) (credit-Lower s choice w key some_weight poor)
  admit-Lower s choice w slot el key some_weight (admitted fewer) =
      let t = credit policy w choice s in
      let room = credit-room policy w choice s ∙ el.below_limit in
      let (lower, same) =
        admit_from-keeps (Under-Keeps policy now [] t.slots (keys t.queues)) t.slots choice.user t
          room (omega arith, refl) in
      let as_before = same ∙ credit-keys policy w choice s in
      (
        effort-lt_of_slots s (admit_from policy now t.slots choice.user t)
            (omega (arith, credit-slots policy w choice s)) as_before,
        as_before,
      )

module _ (policy : SchedulerPolicy) (now : Instant) (weights : Dict ℕ) (order : List Uuid)
    (complete : Bool) (grants : 1 ≤ policy.deficit_quantum) where
  round_for-Returns :
      (s : Loop) (choice : Choice) (o : Option ℕ)
      → 0 < s.slots
      → IsEligible policy s choice.user
      → contains (keys s.queues) choice.user ≡ true
      → (w : ℕ) × (o ≡ some w) × (1 ≤ w)
      → Returns (Lower s) (round_for policy now weights order complete o choice s)
  unfolding round_for
  round_for-Returns s choice none slot el key (w, e, some_weight) = absurd (none-ne-some e)
  round_for-Returns s choice (some v) slot el key (w, e, some_weight) =
      let t = credit policy v choice s in
      let size = credit-slots policy v choice s in
      let waiting = credit-queue policy v choice s ∙ el.has_queue in
      let positive : 1 ≤ v = subst (λ (x : ℕ). 1 ≤ x) (sym (some-injective v w e)) some_weight in
      admit-Lower policy now grants s choice v slot el key positive (
        admit_from-Progress policy now t.slots choice.user t waiting (omega (arith, size))
          (omega (arith, size)))

  round-Returns :
      (s : Loop)
      → 0 < s.slots
      → is_empty (eligible_in policy s (keys s.queues)) ≡ false
      → All (HasWeight weights) (keys s.queues)
      → Returns
          (Lower s)
          (round policy now weights order complete (eligible_in policy s (keys s.queues)) s)
  unfolding round
  round-Returns s slot some_user weighted =
      let ks = keys s.queues in
      Returns-bind (λ (c : Choice). IsEligible policy s c.user × (contains ks c.user ≡ true))
        (Lower s) (choose policy order complete (eligible_in policy s ks) s) _
        (choose-Returns (λ u. IsEligible policy s u × (contains ks u ≡ true)) policy order complete
          (eligible_in policy s ks) s some_user
          (All_both _ _ _ (eligible_in-IsEligible policy s ks)
            (eligible_in_key policy s ks ks (contains_self ks))))
        (λ c (el, key).
          round_for-Returns s c (get weights c.user) slot el key
            (All-contains (HasWeight weights) ks c.user weighted key))

  -- With fuel above the effort that is left, the loop ends and raises nothing.
  pub run-Returns :
      (fuel : ℕ) (s : Loop)
      → effort s < fuel
      → All (HasWeight weights) (keys s.queues)
      → Returns (λ t. Unit {0}) (run policy now weights order complete fuel s)
  unfolding run
  run-Returns zero s enough weighted = absurd (omega arith)
  run-Returns (suc fuel) s enough weighted =
      let ks = keys s.queues in
      if_ind (Returns (λ (t : Loop). Unit {0}))
        (not (ltb 0 s.slots && not (is_empty s.queues)) || is_empty (eligible_in policy s ks))
        (λ e. tt)
        λ e.
          Returns-bind (Lower s) (λ (t : Loop). Unit {0})
            (round policy now weights order complete (eligible_in policy s ks) s) _
            (round-Returns s (ground arith) (ground arith) weighted)
            (λ t (falls, same).
              run-Returns fuel t (omega arith)
                (subst (All (HasWeight weights)) (sym same) weighted))
