-- ===== src/Scheduler/Continuity.antt =====
-- backend/app/scheduler/weighted_fair.py: `select_with_continuity`, and what it keeps of
-- `select_torrents`.
use world_of_seeds.Prelude.{
  ℕ, ◌+◌, ◌-◌, Bool, not, ◌||◌, Option, none, some, List, [], ◌∷◌, ◌++◌, map, leb, if◌then◌else◌,
  length, where_rows, contains, Result, ok, ◌>>=◌,
}
use world_of_seeds.Prelude.Dict.{Dict, get, get_or, put}
use world_of_seeds.Models.{Uuid, Instant}
use world_of_seeds.Scheduler.{
  SchedulerError, SchedulerPolicy, SchedulerCandidate, decision, SchedulerLedger, SchedulerResult,
  beneficiaries, sorted_ids,
}
use world_of_seeds.Scheduler.Select.{select_torrents, keep_positive}

-- The retained candidates, with the counts and the free slots of their loop.
pub record Kept : Type 0 where
  pub kept : List SchedulerCandidate
  pub per_user : Dict ℕ
  pub slots : ℕ

-- `{candidate.torrent_id: candidate for candidate in candidates}`
unfoldable pub by_id : List SchedulerCandidate → Dict SchedulerCandidate → Dict SchedulerCandidate
unfolding put
by_id [] d = d
by_id (c ∷ cs) d = by_id cs (put d c.torrent_id c)

-- The body of the loop over the retained torrents, for what the lookup found.
unfoldable pub keep_one : SchedulerPolicy → Option SchedulerCandidate → Kept → Kept
unfolding get_or put
keep_one policy none k = k
keep_one policy (some c) k =
    if c.stalled || leb k.slots 0
    then k
    else if leb policy.max_active_per_user (get_or k.per_user c.user_id 0)
    then k
    else record {
      kept = k.kept ++ c ∷ [];
      per_user = put k.per_user c.user_id (get_or k.per_user c.user_id 0 + 1);
      slots = k.slots - 1;
    }

unfoldable pub keep_retained : SchedulerPolicy → Dict SchedulerCandidate → List Uuid → Kept → Kept
unfolding keep_one get
keep_retained policy found [] k = k
keep_retained policy found (id ∷ ids) k =
    keep_retained policy found ids (keep_one policy (get found id) k)

abbrev pub concat_beneficiaries : List SchedulerCandidate → List Uuid
concat_beneficiaries [] = []
concat_beneficiaries (c ∷ cs) = beneficiaries c ++ concat_beneficiaries cs

module _ (policy : SchedulerPolicy) (now : Instant) (active_global : ℕ) (ledger : SchedulerLedger)
    (fair_order : List Uuid) (complete : Bool) where
  -- The result with the retained candidates in front, or as it is where there are none.
  unfoldable pub with_kept :
      List SchedulerCandidate → List SchedulerCandidate → SchedulerResult → SchedulerResult
  unfolding decision keep_positive sorted_ids get_or
  with_kept candidates [] r = r
  with_kept candidates (c ∷ cs) r = record r {
    selected = map (λ c. decision policy c now c.user_id) (c ∷ cs) ++ r.selected;
    ledger = record r.ledger {
      deficits =
          keep_positive (λ u. get_or r.ledger.deficits u (get_or ledger.deficits u 0))
            (sorted_ids (concat_beneficiaries candidates));
    };
  }

  unfoldable pub select_with_continuity :
      List SchedulerCandidate → List Uuid → Result SchedulerError SchedulerResult
  unfolding keep_retained by_id select_torrents with_kept
  select_with_continuity candidates retained = do
    let k =
        keep_retained policy (by_id candidates []) retained
          (record { kept = []; per_user = []; slots = policy.max_active_global - active_global })
    let kept_ids = map (λ c. c.torrent_id) k.kept
    r ←
        select_torrents policy now (active_global + length k.kept) k.per_user ledger fair_order
          complete (where_rows (λ c. not (contains kept_ids c.torrent_id)) candidates)
    ok (with_kept candidates k.kept r)
