-- ===== src/Scheduler/Select/Admit.antt =====
-- backend/app/scheduler/weighted_fair.py: the local variables of the loop in `select_torrents` and the
-- admission of the candidates of one user.
use world_of_seeds.Prelude.{
  ℕ, zero, suc, ◌+◌, ◌-◌, Bool, true, false, not, ◌||◌, Option, List, [], ◌∷◌, ◌++◌, ltb, leb, ◌==◌,
  if◌then◌else◌, where_rows,
}
use world_of_seeds.Prelude.Dict.{Dict, get_or, put}
use world_of_seeds.Models.{Uuid, Instant}
use world_of_seeds.Scheduler.{SchedulerPolicy, SchedulerCandidate, SchedulerDecision, decision}
use world_of_seeds.Scheduler.Select.Setup.{Queues}

-- The local variables of the selection loop.
pub record Loop : Type 0 where
  pub slots : ℕ
  pub queues : Queues
  pub counts : Dict ℕ
  pub deficits : Dict ℕ
  pub rounds : ℕ
  pub selected : List SchedulerDecision
  pub cursor_user_id : Option Uuid
  pub fair_index : ℕ

abbrev pub is_empty {ℓ} : {A : Type ℓ} → List A → Bool
is_empty [] = true
is_empty (_ ∷ _) = false

-- `queues[user]`; a queue that is not there is empty, where the code would raise. The loop only asks for
-- users whose queue is not empty.
unfoldable pub queue_of : Queues → Uuid → List SchedulerCandidate
unfolding get_or
queue_of queues user = get_or queues user []

-- `queue[:] = [candidate for candidate in queue if candidate.torrent_id != selected_torrent_id]`
unfoldable pub remove_torrent : Uuid → Queues → Queues
remove_torrent torrent [] = []
remove_torrent torrent ((u, q) ∷ queues) =
    (u, where_rows (λ c. not (c.torrent_id == torrent)) q) ∷ remove_torrent torrent queues

-- `counts.get(user, 0) < policy.max_active_per_user`
unfoldable pub has_room : SchedulerPolicy → Loop → Uuid → Bool
unfolding get_or
has_room policy s user = ltb (get_or s.counts user 0) policy.max_active_per_user

unfoldable pub deficit_of : Loop → Uuid → ℕ
unfolding get_or
deficit_of s user = get_or s.deficits user 0

module _ (policy : SchedulerPolicy) (now : Instant) where
  -- The admission of the first candidate of the user's queue.
  unfoldable pub admit : Uuid → SchedulerCandidate → Loop → Loop
  unfolding remove_torrent get_or put deficit_of
  admit user c s =
      let d = decision policy c now user in
      record s {
        selected = s.selected ++ d ∷ [];
        deficits = put s.deficits user (deficit_of s user - d.charged_cost);
        counts = put s.counts user (get_or s.counts user 0 + 1);
        queues = remove_torrent c.torrent_id s.queues;
        slots = s.slots - 1;
      }

  -- The body of the inner `while`; `more` goes on with it.
  unfoldable pub admit_head : (Loop → Loop) → List SchedulerCandidate → Uuid → Loop → Loop
  unfolding admit has_room
  admit_head more [] user s = s
  admit_head more (c ∷ _) user s =
      let s' = admit user c s in
      let rest = more s' in
      if leb s.slots 0 || ltb (deficit_of s user) (decision policy c now user).charged_cost
      then s
      else if has_room policy s' user
      then rest
      else s'

  -- The inner `while`. It takes a slot in each round, so the slots at its start bound the rounds.
  unfoldable pub admit_from : ℕ → Uuid → Loop → Loop
  unfolding admit_head queue_of
  admit_from zero user s = s
  admit_from (suc n) user s = admit_head (admit_from n user) (queue_of s.queues user) user s
