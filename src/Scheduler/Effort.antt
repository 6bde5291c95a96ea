-- ===== src/Scheduler/Effort.antt =====
-- The measure that falls in each round of `select_torrents`
-- (backend/app/scheduler/weighted_fair.py): free slots first, then what the users lack.
use world_of_seeds.Prelude.{
  ℕ, ◌+◌, ◌-◌, ◌*◌, ◌≤◌, ◌<◌, min, ◌≡◌, refl, sym, ap, subst, ◌∙◌, inl, inr, true, none, some, List,
  [], ◌∷◌, arith, ◌==◌, ==_iff, ==_refl, Bool-cases, length, sum_of, All, All_of_mem, contains,
}
use mathlib.Core.List.{Memᴰ}
use world_of_seeds.Prelude.Dict.{get_or, keys, get_or-put}
use world_of_seeds.Models.{Uuid}
use world_of_seeds.Scheduler.{SchedulerPolicy, large_cost}
use world_of_seeds.Scheduler.Select.{
  Queues, Loop, queue_of, has_room, deficit_of, Choice, credit, is_empty, deficit_cap,
  remove_torrent,
}

-- What a user still lacks for the dearest admission.
abbrev pub lack : Loop → Uuid → ℕ
lack s u = large_cost - deficit_of s u

abbrev pub total_lack : Loop → List Uuid → ℕ
total_lack s = sum_of (lack s)

-- What falls in each round.
abbrev pub effort : Loop → ℕ
effort s = s.slots * (large_cost * length s.queues + 1) + total_lack s (keys s.queues)

pub total_lack-le : (s : Loop) (us : List Uuid) → total_lack s us ≤ large_cost * length us
total_lack-le s [] = omega arith
total_lack-le s (u ∷ us) = omega (arith, total_lack-le s us)

pub length-keys : (queues : Queues) → length (keys queues) ≡ length queues
length-keys [] = refl
length-keys (q ∷ queues) = omega (arith, length-keys queues)

pub keys-remove_torrent :
    (torrent : Uuid) (queues : Queues) → keys (remove_torrent torrent queues) ≡ keys queues
unfolding remove_torrent
keys-remove_torrent torrent [] = refl
keys-remove_torrent torrent ((u, q) ∷ queues) = cc (keys-remove_torrent torrent queues)

-- The credit of one of the keys lowers what is lacking, while that user lacks anything.
pub credit-lack :
    (policy : SchedulerPolicy) (w : ℕ) (choice : Choice) (s : Loop) (u : Uuid)
    → lack (credit policy w choice s) u ≤ lack s u
unfolding credit
credit-lack policy w choice s u =
    let raised =
      min (deficit_cap policy) (get_or s.deficits choice.user 0 + policy.deficit_quantum * w) in
    let paid = get_or-put s.deficits choice.user u raised 0 in
    elim (Bool-cases (choice.user == u)) [
      | inl same ↦
          let mine = ap (λ v. get_or s.deficits v 0) ((==_iff choice.user u).0 same) in
          ground (arith, paid, same, mine)
      | inr other ↦ ground (arith, paid, other)
    ]

pub credit-lack_self :
    (policy : SchedulerPolicy) (w : ℕ) (choice : Choice) (s : Loop)
    → 1 ≤ policy.deficit_quantum
    → 1 ≤ w
    → deficit_of (credit policy w choice s) choice.user < large_cost
    → lack (credit policy w choice s) choice.user < lack s choice.user
unfolding credit
credit-lack_self policy w choice s q h poor =
    let raised =
      min (deficit_cap policy) (get_or s.deficits choice.user 0 + policy.deficit_quantum * w) in
    let paid = get_or-put s.deficits choice.user choice.user raised 0 in
    let gain : 1 ≤ policy.deficit_quantum * w = grind arith in
    ground (arith, paid, ==_refl choice.user, gain)

pub credit-total_lack :
    (policy : SchedulerPolicy) (w : ℕ) (choice : Choice) (s : Loop) (us : List Uuid)
    → (total_lack (credit policy w choice s) us ≤ total_lack s us)
credit-total_lack policy w choice s [] = omega arith
credit-total_lack policy w choice s (u ∷ us) =
    omega (arith, credit-lack policy w choice s u, credit-total_lack policy w choice s us)

pub credit-total_lack_lt :
    (policy : SchedulerPolicy) (w : ℕ) (choice : Choice) (s : Loop) (us : List Uuid)
    → contains us choice.user ≡ true
    → lack (credit policy w choice s) choice.user < lack s choice.user
    → total_lack (credit policy w choice s) us < total_lack s us
credit-total_lack_lt policy w choice s [] c h = cc
credit-total_lack_lt policy w choice s (u ∷ us) c h = elim (Bool-cases (u == choice.user)) [
  | inl same ↦
      let mine =
        subst (λ v. lack (credit policy w choice s) v < lack s v)
          (sym ((==_iff u choice.user).0 same)) h in
      omega (arith, credit-total_lack policy w choice s us)
  | inr other ↦
      let rest = credit-total_lack_lt policy w choice s us (ground arith) h in
      omega (arith, credit-lack policy w choice s u)
]

pub mem-contains : (xs : List Uuid) {u : Uuid} → Memᴰ u xs → contains xs u ≡ true
mem-contains [] m = elim m [ ]
mem-contains (x ∷ xs) (Memᴰ.head e) = ground (arith, ==_refl x)
mem-contains (x ∷ xs) (Memᴰ.tail m) = ground (arith, mem-contains xs m)

pub contains_self : (us : List Uuid) → All (λ u. contains us u ≡ true) us
contains_self us = All_of_mem _ us (λ u m. mem-contains us m)

pub mul_step : (a b m : ℕ) → a < b → a * m + m ≤ b * m
mul_step a b m h = grind arith

pub credit-keys :
    (policy : SchedulerPolicy) (w : ℕ) (choice : Choice) (s : Loop)
    → keys (credit policy w choice s).queues ≡ keys s.queues
unfolding credit
credit-keys policy w choice s = refl

pub credit-effort :
    (policy : SchedulerPolicy) (w : ℕ) (choice : Choice) (s : Loop)
    → total_lack (credit policy w choice s) (keys s.queues) < total_lack s (keys s.queues)
    → effort (credit policy w choice s) < effort s
unfolding credit
credit-effort policy w choice s h = omega arith

pub credit-slots :
    (policy : SchedulerPolicy) (w : ℕ) (choice : Choice) (s : Loop)
    → (credit policy w choice s).slots ≡ s.slots
unfolding credit
credit-slots policy w choice s = refl

pub credit-room :
    (policy : SchedulerPolicy) (w : ℕ) (choice : Choice) (s : Loop)
    → has_room policy (credit policy w choice s) choice.user ≡ has_room policy s choice.user
unfolding credit has_room
credit-room policy w choice s = refl

pub credit-queue :
    (policy : SchedulerPolicy) (w : ℕ) (choice : Choice) (s : Loop)
    → is_empty (queue_of (credit policy w choice s).queues choice.user)
      ≡ is_empty (queue_of s.queues choice.user)
unfolding credit
credit-queue policy w choice s = refl

pub none-ne-some {ℓ} : {A : Type ℓ} {a : A} → none ≡ some a → ⊥
none-ne-some e = cc

-- Fewer slots outweigh whatever the users lack.
pub effort-lt_of_slots :
    (s t : Loop) → t.slots < s.slots → keys t.queues ≡ keys s.queues → effort t < effort s
effort-lt_of_slots s t fewer same =
    let size : length t.queues ≡ length s.queues =
      sym (length-keys t.queues) ∙ ap length same ∙ length-keys s.queues in
    let weight = ap (λ (k : ℕ). t.slots * (large_cost * k + 1)) size in
    let step = mul_step t.slots s.slots (large_cost * length s.queues + 1) fewer in
    omega (arith, weight, step, size, total_lack-le t (keys t.queues), length-keys t.queues)
