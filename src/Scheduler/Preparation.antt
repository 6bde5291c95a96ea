-- ===== src/Scheduler/Preparation.antt =====
-- The pass over the candidates in `select_torrents` (backend/app/scheduler/weighted_fair.py): what
-- the queues and the weights hold when the loop starts.
use world_of_seeds.Prelude.{
  if_ind, ℕ, ◌≤◌, ◌≡◌, refl, sym, subst, inl, inr, true, not, ◌&&◌, Option, none, some, List, [],
  ◌∷◌, arith, ltb, ◌==◌, between, ==_iff, ==_refl, Bool-cases, all, All, All-append, All-if_of,
  All_imp, contains, ok, OnOk, OnOk-if, OnOk-bind,
}
use mathlib.Core.List.{Memᴰ}
use world_of_seeds.Prelude.Sorting.{All-sort_by}
use world_of_seeds.Prelude.Dict.{Dict, get, get_or, put, keys, get-put}
use world_of_seeds.Models.{Uuid}
use world_of_seeds.Scheduler.{
  SchedulerPolicy, SchedulerCandidate, candidate_order, beneficiaries, weight_for, max_user_weight,
  check_candidate,
}
use world_of_seeds.Scheduler.Select.{
  Queues, Prepared, enqueue, join_queue, join_queues, prepare, sort_queues, set_default,
}
use world_of_seeds.Scheduler.Admission.{Waits, AllWait}
use world_of_seeds.Scheduler.Effort.{contains_self}
use world_of_seeds.Scheduler.Ends.{HasWeight}

-- Every queue holds candidates that wait in it, and its user has a positive weight.
pub record IsPrepared (candidates : List SchedulerCandidate) (p : Prepared) : Type 0 where
  pub waiting : AllWait candidates [] p.queues
  pub weighted : All (HasWeight p.weights) (keys p.queues)

enqueue-AllWait :
    (candidates : List SchedulerCandidate) (queues : Queues) (user : Uuid) (c : SchedulerCandidate)
    → Waits candidates [] user c
    → AllWait candidates [] queues
    → AllWait candidates [] (enqueue queues user c)
unfolding enqueue
enqueue-AllWait candidates [] user c w h = ((w, tt), tt)
enqueue-AllWait candidates ((u, q) ∷ queues) user c w (hq, hs) =
    All-if_of (λ e. All (Waits candidates [] e.0) e.1) (u == user) _ _
      (λ e. (
        All-append _ q _ hq
            (subst (λ v. Waits candidates [] v c) (sym ((==_iff u user).0 e)) w, tt),
        hs,
      ))
      (λ e. (hq, enqueue-AllWait candidates queues user c w hs))

keys-enqueue :
    (P : Uuid → Type 0) (queues : Queues) (user : Uuid) (c : SchedulerCandidate)
    → P user
    → All P (keys queues)
    → All P (keys (enqueue queues user c))
unfolding enqueue
keys-enqueue P [] user c h hs = (h, tt)
keys-enqueue P ((u, q) ∷ queues) user c h (hu, hs) =
    if_ind (λ (d : Queues). All P (keys d)) (u == user) (λ e. (hu, hs))
      (λ e. (hu, keys-enqueue P queues user c h hs))

pub put-HasWeight :
    (weights : Dict ℕ) (user v : Uuid) (weight : ℕ)
    → 1 ≤ weight
    → HasWeight weights v
    → HasWeight (put weights user weight) v
put-HasWeight weights user v weight positive (w, e, h) = elim (Bool-cases (user == v)) [
  | inl same ↦ (weight, ground (arith, get-put weights user v weight, same), positive)
  | inr other ↦ (w, ground (arith, get-put weights user v weight, other), h)
]

set_default-HasWeight :
    (o : Option ℕ) (weights : Dict ℕ) (user v : Uuid) (weight : ℕ)
    → 1 ≤ weight
    → HasWeight weights v
    → HasWeight (set_default o weights user weight) v
set_default-HasWeight none weights user v weight positive h =
    put-HasWeight weights user v weight positive h
set_default-HasWeight (some x) weights user v weight positive h = h

get_or-get : (d : Dict ℕ) (k v w : ℕ) → get d k ≡ some w → get_or d k v ≡ w
unfolding get get_or
get_or-get [] k v w e = cc
get_or-get ((j, x) ∷ d) k v w e = ground (arith, get_or-get d k v w)

-- The joining user's own weight is on record, and positive where the candidate's weight is.
set_default-HasWeight_self :
    (o : Option ℕ) (weights : Dict ℕ) (user : Uuid) (weight : ℕ)
    → get weights user ≡ o
    → 1 ≤ weight
    → get_or weights user weight ≡ weight
    → HasWeight (set_default o weights user weight) user
set_default-HasWeight_self none weights user weight e positive same =
    (weight, ground (arith, get-put weights user user weight, ==_refl user), positive)
set_default-HasWeight_self (some x) weights user weight e positive same =
    (x, e, omega (arith, get_or-get weights user weight x e))

lookup-pos :
    (user : Uuid) (d : Dict ℕ) (w : ℕ)
    → 1 ≤ w
    → all (λ e. between 1 max_user_weight e.1) d ≡ true
    → 1 ≤ get_or d user w
unfolding get_or
lookup-pos user [] w hw hd = hw
lookup-pos user ((j, x) ∷ d) w hw hd = ground (arith, lookup-pos user d w)

-- The weight of every user of a valid candidate is positive.
pub weight_for-pos :
    (c : SchedulerCandidate) (user : Uuid) → check_candidate c ≡ ok tt → 1 ≤ weight_for c user
unfolding weight_for check_candidate
weight_for-pos c user h =
    lookup-pos user c.beneficiary_weights c.user_weight (ground arith) (ground arith)

module _ (policy : SchedulerPolicy) (active : Dict ℕ) (candidates : List SchedulerCandidate) where
  join_queue-IsPrepared :
      (c : SchedulerCandidate) (user : Uuid) (p : Prepared)
      → check_candidate c ≡ ok tt
      → Memᴰ c candidates
      → contains (beneficiaries c) user ≡ true
      → IsPrepared candidates p
      → OnOk (IsPrepared candidates) (join_queue policy active c user p)
  unfolding join_queue
  join_queue-IsPrepared c user p valid given benefits h =
      let weight = weight_for c user in
      let positive = weight_for-pos c user valid in
      let o = get p.weights user in
      let joins = not c.stalled && ltb (get_or active user 0) policy.max_active_per_user in
      OnOk-if (IsPrepared candidates) (get_or p.weights user weight == weight) _ _
        (λ same.
          let mine =
            set_default-HasWeight_self o p.weights user weight refl positive
              ((==_iff (get_or p.weights user weight) weight).0 same) in
          let others =
            All_imp _ (HasWeight (set_default o p.weights user weight)) (keys p.queues)
              (λ v k. set_default-HasWeight o p.weights user v weight positive k) h.weighted in
          record {
            waiting =
                if_ind (AllWait candidates []) joins
                  (λ e.
                    enqueue-AllWait candidates p.queues user c
                      (record {
                        origin = record {
                          not_stalled = ground arith;
                          given = given;
                          benefits = benefits;
                        };
                        fresh = refl;
                      })
                      h.waiting)
                  (λ e. h.waiting);
            weighted =
                if_ind
                  (λ (q : Queues). All (HasWeight (set_default o p.weights user weight)) (keys q))
                  joins (λ e. keys-enqueue _ p.queues user c mine others) (λ e. others);
          })
        (λ other. tt)

  join_queues-IsPrepared :
      (c : SchedulerCandidate) (users : List Uuid) (p : Prepared)
      → check_candidate c ≡ ok tt
      → Memᴰ c candidates
      → All (λ u. contains (beneficiaries c) u ≡ true) users
      → IsPrepared candidates p
      → OnOk (IsPrepared candidates) (join_queues policy active c users p)
  unfolding join_queues
  join_queues-IsPrepared c [] p valid given benefits h = h
  join_queues-IsPrepared c (u ∷ us) p valid given benefits h =
      OnOk-bind (IsPrepared candidates) (IsPrepared candidates) (join_queue policy active c u p) _
        (join_queue-IsPrepared c u p valid given benefits.0 h)
        (λ q k. join_queues-IsPrepared c us q valid given benefits.1 k)

  pub prepare-IsPrepared :
      (cs : List SchedulerCandidate) (p : Prepared)
      → All (λ c. check_candidate c ≡ ok tt) cs
      → All (λ c. Memᴰ c candidates) cs
      → IsPrepared candidates p
      → OnOk (IsPrepared candidates) (prepare policy active cs p)
  unfolding prepare
  prepare-IsPrepared [] p valid given h = h
  prepare-IsPrepared (c ∷ cs) p valid given h =
      OnOk-bind (IsPrepared candidates) (IsPrepared candidates)
        (join_queues policy active c (beneficiaries c) _) _
        (join_queues-IsPrepared c (beneficiaries c) _ valid.0 given.0
          (contains_self (beneficiaries c)) (record { waiting = h.waiting; weighted = h.weighted }))
        (λ q k. prepare-IsPrepared cs q valid.1 given.1 k)

-- Sorting the queues changes neither.
pub sort_queues-AllWait :
    (candidates : List SchedulerCandidate) (queues : Queues)
    → AllWait candidates [] queues
    → AllWait candidates [] (sort_queues queues)
unfolding sort_queues
sort_queues-AllWait candidates [] h = tt
sort_queues-AllWait candidates ((u, q) ∷ queues) (hq, hs) =
    (All-sort_by candidate_order _ q hq, sort_queues-AllWait candidates queues hs)

pub keys-sort_queues : (queues : Queues) → keys (sort_queues queues) ≡ keys queues
unfolding sort_queues
keys-sort_queues [] = refl
keys-sort_queues ((u, q) ∷ queues) = cc (keys-sort_queues queues)
