-- ===== src/Scheduler/Retained.antt =====
-- What `select_with_continuity` (backend/app/scheduler/weighted_fair.py) keeps of `select_torrents`.
use world_of_seeds.Prelude.{
  if_ind, ℕ, ◌+◌, ◌-◌, ◌≤◌, ◌≡◌, refl, ap, subst, ◌∙◌, Bool, true, not, ◌||◌, Option, none, some,
  List, [], ◌∷◌, ◌++◌, map, arith, leb, ◌==◌, length, where_rows, count_rows, length-append,
  contains, Result, ok, err, ◌>>=◌, >>=-eq-ok,
}
use world_of_seeds.Prelude.Dict.{Dict, get, get_or, get_or-put}
use world_of_seeds.Models.{Uuid, Instant}
use world_of_seeds.Scheduler.{
  SchedulerError, SchedulerPolicy, SchedulerCandidate, decision, SchedulerLedger, SchedulerResult,
}
use world_of_seeds.Scheduler.Select.{select_torrents}
use world_of_seeds.Scheduler.Selection.{selection, selection-capacity, selection-user_limit}
use world_of_seeds.Scheduler.Continuity.{
  Kept, by_id, keep_one, keep_retained, with_kept, select_with_continuity,
}

where_rows-all {ℓ} : {A : Type ℓ} (xs : List A) → where_rows (λ x. true) xs ≡ xs
where_rows-all [] = refl
where_rows-all (x ∷ xs) = cc (where_rows-all xs)

bind-ok {ℓ} : {E : Type 0} {A : Type ℓ} (m : Result E A) → (m >>= λ a. ok a) ≡ m
bind-ok (ok a) = refl
bind-ok (err e) = refl

-- The loop takes a slot for each candidate it keeps, and counts each for its user up to the limit.
record IsKept (policy : SchedulerPolicy) (total : ℕ) (k : Kept) : Type 0 where
  capacity : length k.kept + k.slots ≡ total
  counts : (user : Uuid) → get_or k.per_user user 0 ≡ count_rows (λ c. c.user_id == user) k.kept
  limit : (user : Uuid) → get_or k.per_user user 0 ≤ policy.max_active_per_user

count_rows-append {ℓ} :
    {A : Type ℓ} (p : A → Bool) (xs ys : List A)
    → count_rows p (xs ++ ys) ≡ count_rows p xs + count_rows p ys
count_rows-append p [] ys = omega arith
count_rows-append p (x ∷ xs) ys = omega (arith, count_rows-append p xs ys)

module _ (policy : SchedulerPolicy) (total : ℕ) where
  keep_one-IsKept :
      (o : Option SchedulerCandidate) (k : Kept)
      → IsKept policy total k
      → IsKept policy total (keep_one policy o k)
  unfolding keep_one
  keep_one-IsKept none k h = h
  keep_one-IsKept (some c) k h =
      if_ind (IsKept policy total) (c.stalled || leb k.slots 0) (λ e. h)
        (λ e.
          if_ind (IsKept policy total)
            (leb policy.max_active_per_user (get_or k.per_user c.user_id 0)) (λ f. h)
            (λ f.
              let raised = get_or k.per_user c.user_id 0 + 1 in
              record {
                capacity = ground (arith, h.capacity, length-append k.kept (c ∷ []));
                counts = λ u. ground (
                  arith,
                  get_or-put k.per_user c.user_id u raised 0,
                  h.counts u,
                  h.counts c.user_id,
                  count_rows-append (λ x. x.user_id == u) k.kept (c ∷ []),
                );
                limit = λ u. ground (arith, get_or-put k.per_user c.user_id u raised 0, h.limit u);
              }))

  keep_retained-IsKept :
      (found : Dict SchedulerCandidate) (ids : List Uuid) (k : Kept)
      → IsKept policy total k
      → IsKept policy total (keep_retained policy found ids k)
  unfolding keep_retained
  keep_retained-IsKept found [] k h = h
  keep_retained-IsKept found (id ∷ ids) k h =
      keep_retained-IsKept found ids _ (keep_one-IsKept (get found id) k h)

module _ (policy : SchedulerPolicy) (now : Instant) (active_global : ℕ) (ledger : SchedulerLedger)
    (order : List Uuid) (complete : Bool) (candidates : List SchedulerCandidate) where
  -- With nothing retained the call is `select_torrents` on all candidates, with no active torrents of
  -- any user.
  pub continuity-none :
      select_with_continuity policy now active_global ledger order complete candidates []
      ≡ selection candidates policy now active_global [] ledger order complete
  unfolding select_with_continuity keep_retained with_kept
  continuity-none =
      ap
        (λ cs.
          select_torrents policy now (active_global + 0) [] ledger order complete cs >>= λ r. ok r)
        (where_rows-all candidates)
      ∙ ap (λ n. select_torrents policy now n [] ledger order complete candidates >>= λ r. ok r)
          (omega arith)
      ∙ bind-ok (selection candidates policy now active_global [] ledger order complete)

  abbrev kept_by : List Uuid → Kept
  kept_by retained =
      keep_retained policy (by_id candidates []) retained
        (record { kept = []; per_user = []; slots = policy.max_active_global - active_global })

  kept_by-IsKept :
      (retained : List Uuid)
      → IsKept policy (policy.max_active_global - active_global) (kept_by retained)
  unfolding get_or
  kept_by-IsKept retained =
      keep_retained-IsKept policy (policy.max_active_global - active_global) (by_id candidates [])
        retained _ (record { capacity = omega arith; counts = λ u. refl; limit = λ u. omega arith })

  abbrev rest_of : List Uuid → List SchedulerCandidate
  rest_of retained =
      where_rows
        (λ c. not (contains (map (λ c. c.torrent_id) (kept_by retained).kept) c.torrent_id))
        candidates

  with_kept-selected :
      (cs : List SchedulerCandidate) (r : SchedulerResult)
      → (with_kept policy now active_global ledger order complete candidates cs r).selected
        ≡ map (λ c. decision policy c now c.user_id) cs ++ r.selected
  unfolding with_kept
  with_kept-selected [] r = refl
  with_kept-selected (c ∷ cs) r = refl

  with_kept-capacity :
      (cs : List SchedulerCandidate) (r : SchedulerResult)
      → (with_kept policy now active_global ledger order complete candidates cs
          r).capacity_remaining
        ≡ r.capacity_remaining
  unfolding with_kept
  with_kept-capacity [] r = refl
  with_kept-capacity (c ∷ cs) r = refl

  ok-injective {ℓ} : {E : Type 0} {A : Type ℓ} {a b : A} → (Path (Result E A) (ok a) (ok b)) → a ≡ b
  ok-injective e = cc

  abbrev result_by : List Uuid → Result SchedulerError SchedulerResult
  result_by retained =
      select_with_continuity policy now active_global ledger order complete candidates retained

  abbrev inner_by : List Uuid → Result SchedulerError SchedulerResult
  inner_by retained =
      selection (rest_of retained) policy now (active_global + length (kept_by retained).kept)
        (kept_by retained).per_user ledger order complete

  length-map {ℓ κ} :
      {A : Type ℓ} {B : Type κ} (f : A → B) (xs : List A) → length (map f xs) ≡ length xs
  length-map f [] = refl
  length-map f (x ∷ xs) = omega (arith, length-map f xs)

  -- The kept torrents and the newly selected ones take exactly the slots that the result no longer
  -- has free.
  pub continuity-capacity :
      (retained : List Uuid) (r : SchedulerResult)
      → result_by retained ≡ ok r
      → length r.selected + r.capacity_remaining ≡ policy.max_active_global - active_global
  unfolding select_with_continuity
  continuity-capacity retained r h =
      let k = kept_by retained in
      let (r', is_r, e) = >>=-eq-ok (inner_by retained) _ h in
      let inner =
        selection-capacity (rest_of retained) policy now (active_global + length k.kept) k.per_user
          ledger order complete r' is_r in
      let merged = with_kept policy now active_global ledger order complete candidates k.kept r' in
      let lengths = ap length (with_kept-selected k.kept r') in
      let size = length-append (map (λ c. decision policy c now c.user_id) k.kept) r'.selected in
      let maps = length-map (λ c. decision policy c now c.user_id) k.kept in
      subst
        (λ (x : SchedulerResult).
          length x.selected + x.capacity_remaining ≡ policy.max_active_global - active_global)
        (ok-injective e)
        (omega (
          arith,
          inner,
          lengths,
          size,
          maps,
          (kept_by-IsKept retained).capacity,
          with_kept-capacity k.kept r',
        ))

  mine-map :
      (user : Uuid) (cs : List SchedulerCandidate)
      → count_rows
          (λ d. d.beneficiary_user_id == user)
          (map (λ c. decision policy c now c.user_id) cs)
        ≡ count_rows (λ c. c.user_id == user) cs
  unfolding decision
  mine-map user [] = refl
  mine-map user (c ∷ cs) = omega (arith, mine-map user cs)

  -- A successful call with retained torrents gives no user more torrents than the user limit, the
  -- kept ones included.
  pub continuity-user_limit :
      (retained : List Uuid) (r : SchedulerResult) (user : Uuid)
      → result_by retained ≡ ok r
      → count_rows (λ d. d.beneficiary_user_id == user) r.selected ≤ policy.max_active_per_user
  unfolding select_with_continuity
  continuity-user_limit retained r user h =
      let k = kept_by retained in
      let (r', is_r, e) = >>=-eq-ok (inner_by retained) _ h in
      let inner =
        selection-user_limit (rest_of retained) policy now (active_global + length k.kept)
          k.per_user ledger order complete r' user is_r in
      let chosen =
        ap (count_rows (λ d. d.beneficiary_user_id == user)) (with_kept-selected k.kept r') in
      let size =
        count_rows-append (λ d. d.beneficiary_user_id == user)
          (map (λ c. decision policy c now c.user_id) k.kept) r'.selected in
      let shared = kept_by-IsKept retained in
      subst
        (λ (x : SchedulerResult).
          count_rows (λ d. d.beneficiary_user_id == user) x.selected ≤ policy.max_active_per_user)
        (ok-injective e)
        (omega
          (arith, inner, chosen, size, mine-map user k.kept, shared.counts user, shared.limit user))
