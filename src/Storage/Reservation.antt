-- ===== src/Storage/Reservation.antt =====
-- The reservation capacity (backend/app/storage/accounting.py) and the disk pressure.
use world_of_seeds.Prelude.{ℕ, ◌+◌, ◌-◌, ◌*◌, ◌/◌, ◌≤◌, ◌<◌, max, ◌≡◌, ap, ◌≢◌, arith, ok}
use world_of_seeds.Models.{critical}
use world_of_seeds.Storage.{
  StorageDiskSnapshot, StorageAdmissionPolicy, check_disk, check_storage_policy,
  classify_storage_pressure, managed_reservation_capacity,
}

div_lt : (a b k : ℕ) → 0 < k → a < b * k → a / k < b
div_lt a b k h less = grind arith

le_div : (a b k : ℕ) → 0 < k → b * k ≤ a → b ≤ a / k
le_div a b k h less = grind arith

distrib : (a b t : ℕ) → (a + b) * t ≡ a * t + b * t
distrib a b t = grind arith

comm : (a b : ℕ) → a * b ≡ b * a
comm a b = grind arith

-- Neither threshold is met, for content within the capacity.
below_thresholds :
    (total content reserve min_free : ℕ)
    → reserve ≤ 100
    → content ≤ (total - max min_free ((total * reserve + 99) / 100)) - 1
    → 0 < (total - max min_free ((total * reserve + 99) / 100)) - 1
    → ((total - (total - content)) * 100 < (100 - reserve) * total)
      × (min_free ≤ total - content)
      × (reserve * total ≤ (total - content) * 100)
below_thresholds total content reserve min_free bound fits room =
    let whole : (100 - reserve) + reserve ≡ 100 = omega arith in
    let m = distrib (100 - reserve) reserve total in
    let n = ap (λ (x : ℕ). x * total) whole in let c = comm total reserve in omega (arith, m, n, c)

capacity-le :
    (d : StorageDiskSnapshot) (p : StorageAdmissionPolicy)
    → managed_reservation_capacity d p
      ≤ (d.total_bytes
          - max p.min_free_bytes
              ((d.total_bytes * max p.min_free_percent (100 - p.critical_percent) + 99) / 100))
        - 1
unfolding managed_reservation_capacity
capacity-le d p = ground arith

-- As much managed content as the capacity allows, and nothing else on the disk, never makes the
-- pressure critical, on a valid disk under a valid policy that leaves any capacity at all.
pub reserved-not_critical :
    (d : StorageDiskSnapshot) (p : StorageAdmissionPolicy) (content : ℕ)
    → check_disk d ≡ ok tt
    → check_storage_policy p ≡ ok tt
    → 0 < managed_reservation_capacity d p
    → content ≤ managed_reservation_capacity d p
    → classify_storage_pressure (record d { free_bytes = d.total_bytes - content }) p ≢ critical
unfolding check_disk check_storage_policy classify_storage_pressure
reserved-not_critical d p content hd hp some_capacity fits =
    let reserve = max p.min_free_percent (100 - p.critical_percent) in
    let small : reserve ≤ 100 = ground arith in
    let total_pos : 0 < d.total_bytes = ground arith in
    let (used, free, percent) =
      below_thresholds d.total_bytes content reserve p.min_free_bytes small
        (omega (arith, capacity-le d p)) (omega (arith, capacity-le d p)) in
    let u = div_lt _ (100 - reserve) d.total_bytes total_pos used in
    let f = le_div _ reserve d.total_bytes total_pos percent in ground (arith, u, f, free)
