-- ===== src/Scheduler/Admission.antt =====
-- What `select_torrents` (backend/app/scheduler/weighted_fair.py) admits: the invariants of its loop.
use world_of_seeds.Prelude.{
  ℕ, ◌+◌, ◌-◌, ◌*◌, ◌≤◌, min, max, ◌≡◌, refl, sym, ap, subst, ◌∙◌, inl, inr, Bool, true, false, not,
  ◌||◌, some, List, [], ◌∷◌, ◌++◌, map, arith, ◌==◌, if◌then◌else◌, ==_iff, Bool-cases, length,
  where_rows, count_rows, sum_of, All, length-append, All-append, All-if_of, All-where_rows_test,
  All_both, All-where_rows, All_imp, contains,
}
use mathlib.Core.Option.{some-injective}
use mathlib.Core.List.{Memᴰ}
use world_of_seeds.Prelude.Dict.{Dict, get, get_or, get_or-put}
use world_of_seeds.Models.{Uuid, Instant}
use world_of_seeds.Scheduler.{
  SchedulerPolicy, SchedulerCandidate, SchedulerDecision, decision, SchedulerLedger, beneficiaries,
}
use world_of_seeds.Scheduler.Select.{
  Queues, Loop, queue_of, has_room, deficit_of, admit, Choice, credit, deficit_cap, remove_torrent,
  is_distinct,
}
use world_of_seeds.Scheduler.Rule.{Keeps}

abbrev pub admitted_ids : List SchedulerDecision → List Uuid
admitted_ids ds = map (λ d. d.candidate.torrent_id) ds

contains-append :
    (xs ys : List Uuid) (a : Uuid) → contains (xs ++ ys) a ≡ (contains xs a || contains ys a)
contains-append [] ys a = refl
contains-append (x ∷ xs) ys a = ground (arith, contains-append xs ys a)

is_distinct-snoc :
    (xs : List Uuid) (a : Uuid)
    → is_distinct xs ≡ true
    → contains xs a ≡ false
    → is_distinct (xs ++ a ∷ []) ≡ true
unfolding is_distinct
is_distinct-snoc [] a d n = refl
is_distinct-snoc (x ∷ xs) a d n =
    ground (arith, is_distinct-snoc xs a, contains-append xs (a ∷ []) x)

-- What an admitted candidate is: one of the given candidates, not stalled, for a beneficiary of it.
pub record IsGiven (candidates : List SchedulerCandidate) (user : Uuid) (c : SchedulerCandidate)
    : Type 0 where
  pub not_stalled : c.stalled ≡ false
  pub given : Memᴰ c candidates
  pub benefits : contains (beneficiaries c) user ≡ true

-- It may also wait in the queue of `user`: no admission so far has taken its torrent.
pub record Waits (candidates : List SchedulerCandidate) (taken : List Uuid) (user : Uuid)
    (c : SchedulerCandidate) : Type 0 where
  pub origin : IsGiven candidates user c
  pub fresh : contains taken c.torrent_id ≡ false

abbrev pub AllWait : List SchedulerCandidate → List Uuid → Queues → Type 0
AllWait candidates taken queues = All (λ e. All (Waits candidates taken e.0) e.1) queues

pub record Selects (candidates : List SchedulerCandidate) (s : Loop) : Type 0 where
  pub waiting : AllWait candidates (admitted_ids s.selected) s.queues
  pub origins : All (λ d. IsGiven candidates d.beneficiary_user_id d.candidate) s.selected
  pub distinct : is_distinct (admitted_ids s.selected) ≡ true

queue_of-Waits :
    (candidates : List SchedulerCandidate) (taken : List Uuid) (queues : Queues) (user : Uuid)
    → AllWait candidates taken queues
    → All (Waits candidates taken user) (queue_of queues user)
unfolding queue_of
queue_of-Waits candidates taken [] user h = tt
queue_of-Waits candidates taken ((u, q) ∷ queues) user (hq, hs) =
    All-if_of (Waits candidates taken user) (u == user) q _
      (λ e. subst (λ v. All (Waits candidates taken v) q) ((==_iff u user).0 e) hq)
      (λ e. queue_of-Waits candidates taken queues user hs)

remove_torrent-Waits :
    (candidates : List SchedulerCandidate) (taken : List Uuid) (torrent : Uuid) (queues : Queues)
    → AllWait candidates taken queues
    → AllWait candidates (taken ++ torrent ∷ []) (remove_torrent torrent queues)
unfolding remove_torrent
remove_torrent-Waits candidates taken torrent [] h = tt
remove_torrent-Waits candidates taken torrent ((u, q) ∷ queues) (hq, hs) =
    let test = λ (c : SchedulerCandidate). not (c.torrent_id == torrent) in
    (
      All_imp _ (Waits candidates (taken ++ torrent ∷ []) u) (where_rows test q)
          (λ c (w, other). record {
            origin = w.origin;
            fresh = ground (arith, contains-append taken (torrent ∷ []) c.torrent_id, w.fresh);
          })
          (All_both _ _ (where_rows test q) (All-where_rows _ test q hq)
            (All-where_rows_test test q)),
      remove_torrent-Waits candidates taken torrent queues hs,
    )

map-append_ids :
    (xs ys : List SchedulerDecision) → admitted_ids (xs ++ ys) ≡ admitted_ids xs ++ admitted_ids ys
map-append_ids [] ys = refl
map-append_ids (x ∷ xs) ys = cc (map-append_ids xs ys)

decision-user :
    (policy : SchedulerPolicy) (c : SchedulerCandidate) (now : Instant) (user : Uuid)
    → (decision policy c now user).beneficiary_user_id ≡ user
unfolding decision
decision-user policy c now user = refl

decision-candidate :
    (policy : SchedulerPolicy) (c : SchedulerCandidate) (now : Instant) (user : Uuid)
    → (decision policy c now user).candidate ≡ c
unfolding decision
decision-candidate policy c now user = refl

module _ (policy : SchedulerPolicy) (now : Instant) (weights : Dict ℕ) where
  -- Each admission takes one slot.
  abbrev pub InCapacity : ℕ → Loop → Type 0
  InCapacity total s = length s.selected + s.slots ≡ total

  pub InCapacity-Keeps : (total : ℕ) → Keeps policy now weights (InCapacity total)
  unfolding credit admit
  InCapacity-Keeps total = record {
    on_credit = λ s weight choice h w. h;
    on_admit = λ s user c rest h q slot room paid.
        omega (arith, length-append s.selected (decision policy c now user ∷ []));
  }

  -- `counts` is the caller's count and the admissions of this run, and it passes the limit only where
  -- the caller's count did.
  abbrev pub admissions : Uuid → List SchedulerDecision → ℕ
  admissions user = count_rows (λ d. d.beneficiary_user_id == user)

  count_rows-append :
      (p : SchedulerDecision → Bool) (xs ys : List SchedulerDecision)
      → count_rows p (xs ++ ys) ≡ count_rows p xs + count_rows p ys
  count_rows-append p [] ys = omega arith
  count_rows-append p (x ∷ xs) ys = omega (arith, count_rows-append p xs ys)

  abbrev pub InLimit : Dict ℕ → Uuid → Loop → Type 0
  InLimit active user s =
      (get_or s.counts user 0 ≡ get_or active user 0 + admissions user s.selected)
      × (get_or s.counts user 0 ≤ max policy.max_active_per_user (get_or active user 0))

  pub InLimit-Keeps :
      (active : Dict ℕ) (user : Uuid) → Keeps policy now weights (InLimit active user)
  unfolding credit admit has_room decision
  InLimit-Keeps active user = record {
    on_credit = λ s weight choice h w. h;
    on_admit = λ s chosen c rest h q slot room paid.
        let counted = get_or-put s.counts chosen user (get_or s.counts chosen 0 + 1) 0 in
        let selected =
          count_rows-append (λ d. d.beneficiary_user_id == user) s.selected
            (decision policy c now chosen ∷ []) in
        (ground (arith, counted, selected), ground (arith, counted));
  }

  admit-Selects :
      (candidates : List SchedulerCandidate) (s : Loop) (user : Uuid) (c : SchedulerCandidate)
      → Waits candidates (admitted_ids s.selected) user c
      → Selects candidates s
      → Selects candidates (admit policy now user c s)
  unfolding admit decision
  admit-Selects candidates s user c w h =
      let d = decision policy c now user in
      let ids : admitted_ids (s.selected ++ d ∷ []) ≡ admitted_ids s.selected ++ c.torrent_id ∷ [] =
        map-append_ids s.selected (d ∷ []) in
      record {
        waiting =
            subst (λ taken. AllWait candidates taken (remove_torrent c.torrent_id s.queues))
              (sym ids)
              (remove_torrent-Waits candidates (admitted_ids s.selected) c.torrent_id s.queues
                h.waiting);
        origins = All-append _ s.selected (d ∷ []) h.origins (w.origin, tt);
        distinct =
            subst (λ taken. is_distinct taken ≡ true) (sym ids)
              (is_distinct-snoc (admitted_ids s.selected) c.torrent_id h.distinct w.fresh);
      }

  pub Selects-Keeps :
      (candidates : List SchedulerCandidate) → Keeps policy now weights (Selects candidates)
  unfolding credit
  Selects-Keeps candidates = record {
    on_credit = λ s weight choice h w. record {
      waiting = h.waiting;
      origins = h.origins;
      distinct = h.distinct;
    };
    on_admit = λ s user c rest h q slot room paid.
        admit-Selects candidates s user c
          (subst (All (Waits candidates (admitted_ids s.selected) user)) q
            (queue_of-Waits candidates (admitted_ids s.selected) s.queues user h.waiting)).0
          h;
  }

  -- The credit account of one user: what was charged and what is left is covered by the credit
  -- before the run and the rounds' credits by the user's weight.
  abbrev pub charged_to : Uuid → List SchedulerDecision → ℕ
  charged_to user = sum_of (λ d. if d.beneficiary_user_id == user then d.charged_cost else 0)

  sum_of-append :
      (f : SchedulerDecision → ℕ) (xs ys : List SchedulerDecision)
      → sum_of f (xs ++ ys) ≡ sum_of f xs + sum_of f ys
  sum_of-append f [] ys = omega arith
  sum_of-append f (x ∷ xs) ys = omega (arith, sum_of-append f xs ys)

  abbrev pub Covered : SchedulerLedger → Uuid → ℕ → Loop → Type 0
  Covered before user weight s =
      (charged_to user s.selected
          + deficit_of s user
          + before.rounds * (policy.deficit_quantum * weight)
        ≤ get_or before.deficits user 0 + s.rounds * (policy.deficit_quantum * weight))

  weight_of :
      (user other : Uuid) (weight w : ℕ)
      → get weights user ≡ some weight
      → get weights other ≡ some w
      → (other == user) ≡ true
      → w ≡ weight
  weight_of user other weight w known found same =
      some-injective w weight (sym found ∙ ap (get weights) ((==_iff other user).0 same) ∙ known)

  credit-Covered :
      (before : SchedulerLedger) (user : Uuid) (weight : ℕ) (s : Loop) (w : ℕ) (choice : Choice)
      → get weights user ≡ some weight
      → Covered before user weight s
      → get weights choice.user ≡ some w
      → Covered before user weight (credit policy w choice s)
  unfolding credit
  credit-Covered before user weight s w choice known h found =
      let paid =
        get_or-put s.deficits choice.user user
          (min (deficit_cap policy) (get_or s.deficits choice.user 0 + policy.deficit_quantum * w))
          0 in
      elim (Bool-cases (choice.user == user)) [
        | inl same ↦
            let mine = ap (λ u. get_or s.deficits u 0) ((==_iff choice.user user).0 same) in
            let share =
              ap (λ (x : ℕ). policy.deficit_quantum * x)
                (weight_of user choice.user weight w known found same) in
            ground (arith, paid, same, mine, share)
        | inr other ↦ ground (arith, paid, other)
      ]

  pub Covered-Keeps :
      (before : SchedulerLedger) (user : Uuid) (weight : ℕ)
      → get weights user ≡ some weight
      → Keeps policy now weights (Covered before user weight)
  unfolding admit
  Covered-Keeps before user weight known = record {
    on_credit = λ s w choice h found. credit-Covered before user weight s w choice known h found;
    on_admit = λ s chosen c rest h q slot room paid.
        let left =
          get_or-put s.deficits chosen user
            (get_or s.deficits chosen 0 - (decision policy c now chosen).charged_cost) 0 in
        let charged =
          sum_of-append (λ d. if d.beneficiary_user_id == user then d.charged_cost else 0)
            s.selected (decision policy c now chosen ∷ []) in
        ground (arith, left, charged, decision-user policy c now chosen);
  }
