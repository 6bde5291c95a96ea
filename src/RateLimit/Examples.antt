-- ===== src/RateLimit/Examples.antt =====
-- Attempts at the login limiter (backend/app/auth/rate_limit.py) with room for one address.
use world_of_seeds.Prelude.{◌≡◌, refl, none, some, [], ◌∷◌, arith}
use world_of_seeds.RateLimit.{Limits, LoginIpRateLimiter, consume, drop_expired}
use world_of_seeds.RateLimit.Budget.{
  IsWithinBudget, Refuses, consume-IsWithinBudget, consume-Refuses,
}

abbrev limits : Limits
limits = record {
  maximum = 2;
  window_seconds = 60;
  max_keys = 1;
  global_maximum = 10;
  fallback_maximum = 1;
  overflow_buckets = 4;
}

abbrev used : LoginIpRateLimiter
used = record {
  windows = (5, record { started = 0; count = 2 }) ∷ [];
  overflow_ips = [];
  overflow_identities = [];
  global_window = some (record { started = 0; count = 2 });
}

-- The address has spent its two attempts: half of its window is left.
waits : (consume limits 30000000 5 0 none used).0 ≡ some 30
unfolding consume
waits = refl

-- Another address is admitted by its identity, behind the full windows.
falls_back : (consume limits 30000000 6 0 (some 3) used).0 ≡ none
unfolding consume
falls_back = refl

used-IsWithinBudget : IsWithinBudget limits used
used-IsWithinBudget = record {
  addresses = (omega arith, tt);
  overflows = tt;
  identities = tt;
  total = omega arith;
  bounded = omega arith;
}

consume-IsWithinBudget_example : IsWithinBudget limits (consume limits 30000000 6 0 (some 3) used).1
consume-IsWithinBudget_example =
    consume-IsWithinBudget limits 30000000 6 0 (some 3) refl used used-IsWithinBudget

consume-Refuses_example :
    Refuses limits 30000000 5 0 none
      (record used { windows = drop_expired limits 30000000 used.windows })
      (consume limits 30000000 5 0 none used)
consume-Refuses_example = consume-Refuses limits 30000000 5 0 none used
