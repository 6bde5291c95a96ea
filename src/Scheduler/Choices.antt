-- ===== src/Scheduler/Choices.antt =====
-- The user that a round of `select_torrents` chooses (backend/app/scheduler/weighted_fair.py).
use world_of_seeds.Prelude.{
  ℕ, suc, ◌≡◌, refl, subst, inl, inr, Bool, true, false, not, ◌&&◌, Option, none, some, List, [],
  ◌∷◌, arith, ltb, ◌==◌, if◌then◌else◌, is_some, ==_iff, Bool-cases, length, All, contains, ok,
  Returns, Returns-bind, Returns-if,
}
use world_of_seeds.Prelude.Sorting.{sort_by, All-sort_by, length-sort_by}
use world_of_seeds.Models.{Uuid}
use world_of_seeds.Scheduler.{SchedulerPolicy}
use world_of_seeds.Scheduler.Select.{
  Queues, Loop, Choice, choose, is_empty, first_or_error, first_after, some_or_first,
  next_eligible_user, fallback, choose_fair, scan_fair, advance, get_elem?,
}

module _ (P : Uuid → Type 0) where
  first_or_error-Returns :
      (xs : List Uuid) → is_empty xs ≡ false → All P xs → Returns P (first_or_error xs)
  first_or_error-Returns [] n h = cc
  first_or_error-Returns (x ∷ xs) n h = h.0

  OnSome : Option Uuid → Type 0
  OnSome none = Unit
  OnSome (some u) = P u

  first_after-OnSome : (cursor : Uuid) (xs : List Uuid) → All P xs → OnSome (first_after cursor xs)
  unfolding first_after OnSome
  first_after-OnSome cursor [] h = tt
  first_after-OnSome cursor (x ∷ xs) h = step (ltb cursor x) (first_after-OnSome cursor xs h.1)
    where
      step :
          (b : Bool)
          → OnSome (first_after cursor xs)
          → OnSome (if b then some x else first_after cursor xs)
      step true r = h.0
      step false r = r

  some_or_first-Returns :
      (o : Option Uuid) (xs : List Uuid)
      → OnSome o
      → is_empty xs ≡ false
      → All P xs
      → Returns P (some_or_first o xs)
  unfolding OnSome
  some_or_first-Returns none xs o n h = first_or_error-Returns xs n h
  some_or_first-Returns (some u) xs o n h = o

  is_empty-sort_by :
      (key : Uuid → List ℕ) (xs : List Uuid)
      → is_empty xs ≡ false
      → is_empty (sort_by key xs) ≡ false
  is_empty-sort_by key [] n = cc
  is_empty-sort_by key (x ∷ xs) n = longer (sort_by key (x ∷ xs)) (length-sort_by key (x ∷ xs))
    where
      longer : (ys : List Uuid) → length ys ≡ suc (length xs) → is_empty ys ≡ false
      longer [] e = absurd (omega arith)
      longer (y ∷ ys) e = refl

  pub next_eligible_user-Returns :
      (eligible : List Uuid) (queues : Queues) (cursor : Option Uuid)
      → is_empty eligible ≡ false
      → All P eligible
      → Returns P (next_eligible_user eligible queues cursor)
  unfolding next_eligible_user
  next_eligible_user-Returns eligible queues none n h =
      first_or_error-Returns _ (is_empty-sort_by _ eligible n) (All-sort_by _ P eligible h)
  next_eligible_user-Returns eligible queues (some cursor) n h =
      let sorted = All-sort_by (λ u. u ∷ []) P eligible h in
      some_or_first-Returns _ _ (first_after-OnSome cursor _ sorted)
        (is_empty-sort_by (λ u. u ∷ []) eligible n) sorted

  contains-All : (xs : List Uuid) (u : Uuid) → contains xs u ≡ true → All P xs → P u
  contains-All [] u c h = cc
  contains-All (x ∷ xs) u c h = elim (Bool-cases (x == u)) [
    | inl same ↦ subst P ((==_iff x u).0 same) h.0
    | inr other ↦ contains-All xs u (ground arith) h.1
  ]

  abbrev pub Chooses : Choice → Type 0
  Chooses c = P c.user

  fallback-Returns :
      (eligible : List Uuid) (queues : Queues) (cursor : Option Uuid) (i : ℕ)
      → is_empty eligible ≡ false
      → All P eligible
      → Returns Chooses (fallback eligible queues cursor i)
  unfolding fallback
  fallback-Returns eligible queues cursor i n h =
      Returns-bind P Chooses (next_eligible_user eligible queues cursor) _
        (next_eligible_user-Returns eligible queues cursor n h) (λ u p. p)

  choose_fair-Returns :
      (o : Option Uuid) (order eligible : List Uuid) (queues : Queues) (cursor : Option Uuid)
      (i : ℕ)
      → is_empty eligible ≡ false
      → All P eligible
      → Returns Chooses (choose_fair o order eligible queues cursor i)
  unfolding choose_fair
  choose_fair-Returns none order eligible queues cursor i n h =
      fallback-Returns eligible queues cursor i n h
  choose_fair-Returns (some u) order eligible queues cursor i n h = step (contains eligible u) refl
    where
      step :
          (b : Bool)
          → contains eligible u ≡ b
          → Returns Chooses
              (if b then ok (advance order u i) else fallback eligible queues cursor i)
      step true e = contains-All eligible u e h
      step false e = fallback-Returns eligible queues cursor i n h

  -- With an eligible user the choice never fails, and it is one of the eligible users.
  pub choose-Returns :
      (policy : SchedulerPolicy) (order : List Uuid) (complete : Bool) (eligible : List Uuid)
      (s : Loop)
      → is_empty eligible ≡ false
      → All P eligible
      → Returns Chooses (choose policy order complete eligible s)
  unfolding choose
  choose-Returns policy order complete eligible s n h =
      let (cursor, i) =
        scan_fair policy order complete s (length order) s.cursor_user_id s.fair_index in
      Returns-if Chooses (is_some s.cursor_user_id && not (is_empty order)) _ _
        (choose_fair-Returns (get_elem? order i) order eligible s.queues cursor i n h)
        (Returns-bind P Chooses (next_eligible_user eligible s.queues s.cursor_user_id) _
          (next_eligible_user-Returns eligible s.queues s.cursor_user_id n h) (λ u p. p))
