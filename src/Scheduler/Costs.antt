-- ===== src/Scheduler/Costs.antt =====
-- What an admission costs (backend/app/scheduler/weighted_fair.py).
use world_of_seeds.Prelude.{ℕ, ◌+◌, ◌-◌, ◌/◌, ◌≤◌, ◌<◌, ◌≡◌, arith, ok}
use world_of_seeds.Models.{Uuid, Instant}
use world_of_seeds.Scheduler.{
  SchedulerPolicy, SchedulerCandidate, large_cost, check_policy, size_class, wait_seconds, decision,
}

module _ (p : SchedulerPolicy) (c : SchedulerCandidate) (now : Instant) (user : Uuid) where
  -- An admission is charged at least 1 and at most its base cost, which is at most 4; and aging
  -- takes off at most `aging_max_bonus`.
  pub charged_bounds :
      let d = decision p c now user in
      (1 ≤ d.charged_cost)
      × (d.charged_cost ≤ d.base_cost)
      × (d.base_cost ≤ large_cost)
      × (d.base_cost ≤ d.charged_cost + p.aging_max_bonus)
  unfolding decision size_class
  charged_bounds = ground arith

cost_mono :
    (p : SchedulerPolicy) (a b : ℕ)
    → p.small_torrent_bytes < p.medium_torrent_bytes
    → a ≤ b
    → (size_class p a).1 ≤ (size_class p b).1
unfolding size_class
cost_mono p a b h le = ground arith

div_mono : (k a b : ℕ) → a ≤ b → a / k ≤ b / k
div_mono k a b h = grind arith

ordered_thresholds :
    (p : SchedulerPolicy) → check_policy p ≡ ok tt → p.small_torrent_bytes < p.medium_torrent_bytes
unfolding check_policy
ordered_thresholds p h = ground arith

-- Of two admissions at one time under a valid policy, the one with no more bytes left and no later
-- queueing is charged no more.
pub charged_mono :
    (p : SchedulerPolicy) (c d : SchedulerCandidate) (now : Instant) (u v : Uuid)
    → check_policy p ≡ ok tt
    → c.remaining_bytes ≤ d.remaining_bytes
    → c.queued_at ≤ d.queued_at
    → (decision p c now u).charged_cost ≤ (decision p d now v).charged_cost
unfolding decision wait_seconds
charged_mono p c d now u v h bytes early =
    let cost = cost_mono p c.remaining_bytes d.remaining_bytes (ordered_thresholds p h) bytes in
    let longer : (now - d.queued_at) / 1000000 ≤ (now - c.queued_at) / 1000000 = omega arith in
    let aged = div_mono p.aging_interval_seconds _ _ longer in omega arith
