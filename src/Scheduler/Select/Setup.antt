-- ===== src/Scheduler/Select/Setup.antt =====
-- backend/app/scheduler/weighted_fair.py: what `select_torrents` collects from the candidates. A
-- `defaultdict` of queues and the dictionaries are association lists in insertion order.
use world_of_seeds.Prelude.{
  ℕ, Bool, true, not, ◌&&◌, Option, none, some, List, [], ◌∷◌, ◌++◌, ltb, ◌==◌, if◌then◌else◌,
  contains, Result, ok, err, ◌>>=◌,
}
use world_of_seeds.Prelude.Sorting.{sort_by}
use world_of_seeds.Prelude.Dict.{Dict, get, get_or, put}
use world_of_seeds.Models.{Uuid}
use world_of_seeds.Scheduler.{
  SchedulerError, SchedulerPolicy, SchedulerCandidate, weight_conflict, beneficiaries, weight_for,
  candidate_order,
}

abbrev pub Queues : Type 0
Queues = Dict (List SchedulerCandidate)

-- What the pass over the candidates collects.
pub record Prepared : Type 0 where
  pub weights : Dict ℕ
  pub queues : Queues
  pub stalled_ids : List Uuid
  pub active_users : List Uuid

-- `len(items) == len(set(items))`
unfoldable pub is_distinct : List Uuid → Bool
is_distinct [] = true
is_distinct (x ∷ xs) = not (contains xs x) && is_distinct xs

-- `weights.setdefault(user_id, weight)`, for what the lookup found.
abbrev pub set_default : Option ℕ → Dict ℕ → Uuid → ℕ → Dict ℕ
set_default none weights user weight = put weights user weight
set_default (some _) weights user weight = weights

-- `queues[user_id].append(candidate)` on the `defaultdict`
unfoldable pub enqueue : Queues → Uuid → SchedulerCandidate → Queues
enqueue [] user c = (user, c ∷ []) ∷ []
enqueue ((u, q) ∷ queues) user c =
    let rest = enqueue queues user c in
    if u == user then (u, q ++ c ∷ []) ∷ queues else (u, q) ∷ rest

module _ (policy : SchedulerPolicy) (active_by_user : Dict ℕ) where
  -- The body of the loop over one candidate's beneficiaries.
  unfoldable pub join_queue : SchedulerCandidate → Uuid → Prepared → Result SchedulerError Prepared
  unfolding enqueue weight_for get_or get put
  join_queue c user p =
      let weight = weight_for c user in
      let previous = get_or p.weights user weight in
      let joined = record p {
        weights = set_default (get p.weights user) p.weights user weight;
        active_users =
            (if contains p.active_users user then p.active_users else user ∷ p.active_users);
        queues =
            (if not c.stalled && ltb (get_or active_by_user user 0) policy.max_active_per_user
              then enqueue p.queues user c
              else p.queues);
      } in
      if previous == weight then ok joined else err weight_conflict

  unfoldable pub join_queues :
      SchedulerCandidate → List Uuid → Prepared → Result SchedulerError Prepared
  unfolding join_queue
  join_queues c [] p = ok p
  join_queues c (user ∷ users) p = do p' ← join_queue c user p; join_queues c users p'

  unfoldable pub prepare : List SchedulerCandidate → Prepared → Result SchedulerError Prepared
  unfolding join_queues beneficiaries
  prepare [] p = ok p
  prepare (c ∷ cs) p = do
    let noted = record p {
      stalled_ids = (if c.stalled then p.stalled_ids ++ c.torrent_id ∷ [] else p.stalled_ids);
    }
    p' ← join_queues c (beneficiaries c) noted
    prepare cs p'

-- `queue.sort(key=_candidate_order)` for every queue
unfoldable pub sort_queues : Queues → Queues
unfolding sort_by candidate_order
sort_queues [] = []
sort_queues ((u, q) ∷ queues) = (u, sort_by candidate_order q) ∷ sort_queues queues
