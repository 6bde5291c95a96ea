-- ===== src/Scheduler/Select/Choose.antt =====
-- backend/app/scheduler/weighted_fair.py: the user of one round in `select_torrents`.
use world_of_seeds.Prelude.{
  ℕ, zero, suc, ◌+◌, Bool, not, ◌&&◌, Option, none, some, List, [], ◌∷◌, ◌++◌, ltb, leb,
  if◌then◌else◌, is_some, length, contains, Result, ok, err, ◌>>=◌,
}
use world_of_seeds.Prelude.Sorting.{sort_by}
use world_of_seeds.Models.{Uuid}
use world_of_seeds.Scheduler.{SchedulerError, SchedulerPolicy, SchedulerCandidate, no_eligible_user}
use world_of_seeds.Scheduler.Select.Setup.{Queues}
use world_of_seeds.Scheduler.Select.Admit.{is_empty, queue_of, has_room, Loop}

abbrev pub get_elem? : List Uuid → ℕ → Option Uuid
get_elem? [] i = none
get_elem? (x ∷ xs) zero = some x
get_elem? (x ∷ xs) (suc i) = get_elem? xs i

-- The first sorted user behind the cursor.
unfoldable pub first_after : Uuid → List Uuid → Option Uuid
first_after cursor [] = none
first_after cursor (u ∷ us) = if ltb cursor u then some u else first_after cursor us

abbrev head_order : List SchedulerCandidate → List ℕ
head_order [] = []
head_order (c ∷ _) = c.queued_at ∷ c.torrent_id ∷ []

abbrev pub first_or_error : List Uuid → Result SchedulerError Uuid
first_or_error [] = err no_eligible_user
first_or_error (u ∷ _) = ok u

abbrev pub some_or_first : Option Uuid → List Uuid → Result SchedulerError Uuid
some_or_first none ordered = first_or_error ordered
some_or_first (some u) ordered = ok u

-- `_next_eligible_user`
unfoldable pub next_eligible_user : List Uuid → Queues → Option Uuid → Result SchedulerError Uuid
unfolding sort_by queue_of first_after
next_eligible_user eligible queues none =
    first_or_error (sort_by (λ u. head_order (queue_of queues u) ++ u ∷ []) eligible)
next_eligible_user eligible queues (some cursor) =
    let ordered = sort_by (λ u. u ∷ []) eligible in
    some_or_first (first_after cursor ordered) ordered

-- `[user for user, queue in queues.items() if queue and counts.get(user, 0) < ...]`, over the keys
-- that are left: the value of a key is what its lookup gives.
unfoldable pub eligible_in : SchedulerPolicy → Loop → List Uuid → List Uuid
unfolding has_room queue_of
eligible_in policy s [] = []
eligible_in policy s (u ∷ us) =
    let rest = eligible_in policy s us in
    if not (is_empty (queue_of s.queues u)) && has_room policy s u then u ∷ rest else rest

-- The cursor and the index behind the users of the fair order that are at their limit: the `while`
-- over `scanned`, by recursion on the users that are left to scan.
unfoldable pub scan_fair :
    SchedulerPolicy → List Uuid → Bool → Loop → ℕ → Option Uuid → ℕ → Option Uuid × ℕ
unfolding has_room
scan_fair policy order complete s zero cursor i = (cursor, i)
scan_fair policy order complete s (suc left) cursor i =
    let wrapped = if leb (length order) i then 0 else i in
    let here : Uuid = elim (get_elem? order wrapped) [ none ↦ 0 | some u ↦ u ] in
    let rest = scan_fair policy order complete s left (some here) (wrapped + 1) in
    if leb (length order) i && not complete
    then (cursor, i)
    else if not (has_room policy s here)
    then rest
    else (cursor, wrapped)

-- The chosen user, the cursor and the fair index of one round.
pub record Choice : Type 0 where
  pub user : Uuid
  pub cursor_user_id : Option Uuid
  pub fair_index : ℕ

unfoldable pub advance : List Uuid → Uuid → ℕ → Choice
advance order user i = record {
  user = user;
  cursor_user_id = some user;
  fair_index = (if is_empty order then i else i + 1);
}

unfoldable pub fallback : List Uuid → Queues → Option Uuid → ℕ → Result SchedulerError Choice
unfolding next_eligible_user
fallback eligible queues cursor i = do
  user ← next_eligible_user eligible queues cursor
  ok (record { user = user; cursor_user_id = cursor; fair_index = i })

unfoldable pub choose_fair :
    Option Uuid → List Uuid → List Uuid → Queues → Option Uuid → ℕ → Result SchedulerError Choice
unfolding advance fallback
choose_fair none order eligible queues cursor i = fallback eligible queues cursor i
choose_fair (some fair_user) order eligible queues cursor i =
    if contains eligible fair_user
    then ok (advance order fair_user i)
    else fallback eligible queues cursor i

unfoldable pub choose :
    SchedulerPolicy → List Uuid → Bool → List Uuid → Loop → Result SchedulerError Choice
unfolding choose_fair scan_fair
choose policy order complete eligible s =
    let (cursor, i) =
      scan_fair policy order complete s (length order) s.cursor_user_id s.fair_index in
    if is_some s.cursor_user_id && not (is_empty order)
    then choose_fair (get_elem? order i) order eligible s.queues cursor i
    else (do
      user ← next_eligible_user eligible s.queues s.cursor_user_id
      ok (advance order user s.fair_index))
