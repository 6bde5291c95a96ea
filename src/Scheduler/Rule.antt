-- ===== src/Scheduler/Rule.antt =====
-- A proof rule for the loop of `select_torrents` (backend/app/scheduler/weighted_fair.py): what the
-- credit of a round and the admission of a candidate keep holds when the loop ends.
use world_of_seeds.Prelude.{
  ℕ, zero, suc, ◌≤◌, ◌<◌, ◌≡◌, refl, inl, inr, Bool, true, false, not, ◌&&◌, ◌||◌, Option, none,
  some, List, [], ◌∷◌, arith, ltb, leb, if◌then◌else◌, Bool-cases, All, contains, OnOk,
  Returns→OnOk, OnOk-if, OnOk-bind,
}
use world_of_seeds.Prelude.Dict.{Dict, get, keys}
use world_of_seeds.Models.{Uuid, Instant}
use world_of_seeds.Scheduler.{SchedulerPolicy, SchedulerCandidate, decision}
use world_of_seeds.Scheduler.Select.{
  Queues, Loop, queue_of, has_room, deficit_of, admit, admit_head, admit_from, eligible_in, Choice,
  choose, credit, round, round_for, run, is_empty,
}
use world_of_seeds.Scheduler.Choices.{choose-Returns}

-- What to show of a property of the loop's variables.
pub record Keeps (policy : SchedulerPolicy) (now : Instant) (weights : Dict ℕ) (P : Loop → Type 0)
    : Type 0 where
  pub on_credit :
      (s : Loop) (weight : ℕ) (choice : Choice)
      → P s
      → get weights choice.user ≡ some weight
      → P (credit policy weight choice s)
  pub on_admit :
      (s : Loop) (user : Uuid) (c : SchedulerCandidate) (rest : List SchedulerCandidate)
      → P s
      → queue_of s.queues user ≡ c ∷ rest
      → 0 < s.slots
      → has_room policy s user ≡ true
      → (decision policy c now user).charged_cost ≤ deficit_of s user
      → P (admit policy now user c s)

module _ {policy : SchedulerPolicy} {now : Instant} {weights : Dict ℕ} {P : Loop → Type 0}
    (rule : Keeps policy now weights P) where
  open rule use {on_credit, on_admit}

  if-stop : (b : Bool) {s t : Loop} → P s → (b ≡ false → P t) → P (if b then s else t)
  if-stop true hs ht = hs
  if-stop false hs ht = ht refl

  if-more : (b : Bool) {s t : Loop} → (b ≡ true → P s) → P t → P (if b then s else t)
  if-more true hs ht = hs refl
  if-more false hs ht = ht

  admit_head-keeps :
      (more : Loop → Loop) (q : List SchedulerCandidate) (user : Uuid) (s : Loop)
      → queue_of s.queues user ≡ q
      → has_room policy s user ≡ true
      → P s
      → ((t : Loop) → has_room policy t user ≡ true → P t → P (more t))
      → P (admit_head policy now more q user s)
  unfolding admit_head
  admit_head-keeps more [] user s e room h keep = h
  admit_head-keeps more (c ∷ rest) user s e room h keep =
      if-stop (leb s.slots 0 || ltb (deficit_of s user) (decision policy c now user).charged_cost) h
        λ go.
          let admitted = on_admit s user c rest h e (ground arith) room (ground arith) in
          if-more (has_room policy (admit policy now user c s) user)
            (λ r. keep (admit policy now user c s) r admitted) admitted

  pub admit_from-keeps :
      (n : ℕ) (user : Uuid) (s : Loop)
      → has_room policy s user ≡ true
      → P s
      → P (admit_from policy now n user s)
  unfolding admit_from
  admit_from-keeps zero user s room h = h
  admit_from-keeps (suc n) user s room h =
      admit_head-keeps (admit_from policy now n user) (queue_of s.queues user) user s refl room h
        (λ t. admit_from-keeps n user t)

  -- The chosen user has room, and the credit does not count as an admission.
  round_for-keeps :
      (order : List Uuid) (complete : Bool) (w : Option ℕ) (choice : Choice) (s : Loop)
      → get weights choice.user ≡ w
      → has_room policy s choice.user ≡ true
      → P s
      → OnOk P (round_for policy now weights order complete w choice s)
  unfolding round_for
  round_for-keeps order complete none choice s e room h = tt
  round_for-keeps order complete (some w) choice s e room h =
      let t = credit policy w choice s in
      admit_from-keeps t.slots choice.user t room (on_credit s w choice h e)

module _ (policy : SchedulerPolicy) (s : Loop) where
  if-cons :
      (Q : Uuid → Type 0) (b : Bool) {u : Uuid} (us : List Uuid)
      → (b ≡ true → Q u)
      → All Q us
      → All Q (if b then u ∷ us else us)
  if-cons Q true us hu hs = (hu refl, hs)
  if-cons Q false us hu hs = hs

  -- An eligible user is a key of the queues that waits for something and is below the limit.
  pub record IsEligible (u : Uuid) : Type 0 where
    pub has_queue : is_empty (queue_of s.queues u) ≡ false
    pub below_limit : has_room policy s u ≡ true

  pub eligible_in-IsEligible : (us : List Uuid) → All IsEligible (eligible_in policy s us)
  unfolding eligible_in
  eligible_in-IsEligible [] = tt
  eligible_in-IsEligible (u ∷ us) =
      if-cons IsEligible (not (is_empty (queue_of s.queues u)) && has_room policy s u) _
        (λ e. record { has_queue = ground arith; below_limit = ground arith })
        (eligible_in-IsEligible us)

  pub eligible_in_key :
      (ks us : List Uuid)
      → All (λ u. contains ks u ≡ true) us
      → All (λ u. contains ks u ≡ true) (eligible_in policy s us)
  unfolding eligible_in
  eligible_in_key ks [] h = tt
  eligible_in_key ks (u ∷ us) h =
      if-cons (λ v. contains ks v ≡ true)
        (not (is_empty (queue_of s.queues u)) && has_room policy s u) _ (λ e. h.0)
        (eligible_in_key ks us h.1)

-- The loop has ended: no slot is left, or no user with a queue has room.
pub data Done (policy : SchedulerPolicy) (s : Loop) : Type 0 where
  no_slots : s.slots ≡ 0 → Done policy s
  no_users : eligible_in policy s (keys s.queues) ≡ [] → Done policy s

nil_of_empty {ℓ} : {A : Type ℓ} (xs : List A) → is_empty xs ≡ true → xs ≡ []
nil_of_empty [] e = refl
nil_of_empty (x ∷ xs) e = cc

no_queues :
    (policy : SchedulerPolicy) (s : Loop) (queues : Queues)
    → is_empty queues ≡ true
    → eligible_in policy s (keys queues) ≡ []
unfolding eligible_in
no_queues policy s [] e = refl
no_queues policy s (q ∷ queues) e = cc

loop_ended :
    (policy : SchedulerPolicy) (s : Loop)
    → (not (ltb 0 s.slots && not (is_empty s.queues))
        || is_empty (eligible_in policy s (keys s.queues)))
      ≡ true
    → Done policy s
loop_ended policy s h = elim (Bool-cases (is_empty (eligible_in policy s (keys s.queues)))) [
  | inl e ↦ no_users (nil_of_empty _ e)
  | inr e ↦ elim (Bool-cases (is_empty s.queues)) [
    | inl q ↦ no_users (no_queues policy s s.queues q)
    | inr q ↦ no_slots (ground arith)
  ]
]

module _ {policy : SchedulerPolicy} {now : Instant} {weights : Dict ℕ} {P : Loop → Type 0}
    (rule : Keeps policy now weights P) (order : List Uuid) (complete : Bool) where
  round-keeps :
      (s : Loop)
      → is_empty (eligible_in policy s (keys s.queues)) ≡ false
      → P s
      → OnOk P (round policy now weights order complete (eligible_in policy s (keys s.queues)) s)
  unfolding round
  round-keeps s some_user h =
      let eligible = eligible_in policy s (keys s.queues) in
      OnOk-bind (λ (c : Choice). IsEligible policy s c.user) P
        (choose policy order complete eligible s) _
        (Returns→OnOk (λ (c : Choice). IsEligible policy s c.user)
          (choose policy order complete eligible s)
          (choose-Returns (IsEligible policy s) policy order complete eligible s some_user
            (eligible_in-IsEligible policy s (keys s.queues))))
        (λ c u. round_for-keeps rule order complete (get weights c.user) c s refl u.below_limit h)

  -- What the steps keep holds when the loop ends, and then the loop had no more to do.
  pub run-keeps :
      (fuel : ℕ) (s : Loop)
      → P s
      → OnOk (λ t. P t × Done policy t) (run policy now weights order complete fuel s)
  unfolding run
  run-keeps zero s h = tt
  run-keeps (suc fuel) s h =
      OnOk-if _
        (not (ltb 0 s.slots && not (is_empty s.queues))
          || is_empty (eligible_in policy s (keys s.queues)))
        _ _ (λ e. (h, loop_ended policy s e))
        (λ e.
          OnOk-bind P _
            (round policy now weights order complete (eligible_in policy s (keys s.queues)) s) _
            (round-keeps s (ground arith) h) (λ t. run-keeps fuel t))
