-- ===== src/RateLimit.antt =====
-- backend/app/auth/rate_limit.py: `LoginIpRateLimiter`. The clock is counted in microseconds. The keyed
-- hashes of an address and of an identity (`hash_token`, `_index`) are the caller's to give: the
-- operation takes the key, the overflow index of the address and that of the identity, if there is one;
-- that an index is below `overflow_buckets` is `_index`'s part.
pub mod Budget
mod Examples
use world_of_seeds.Prelude.{
  if_ind, ℕ, zero, suc, ◌+◌, ◌-◌, ◌*◌, ◌/◌, ◌%◌, ◌^◌, ◌≤◌, ◌<◌, min, max, String, ◌≡◌, refl, sym,
  ap, subst, ◌∙◌, ◌≢◌, ◌↔◌, ◌⊎◌, inl, inr, Bool, true, false, not, ◌&&◌, ◌||◌, Option, none, some,
  List, [], ◌∷◌, ◌++◌, map, head?, arith, str_eq, eq_iff, ltb, leb, ◌==◌, if◌then◌else◌, between,
  is_some, is_number, leb→le, le→leb, ==_iff, ==_refl, Bool-cases, Option-cases, ℤ, pos, negsuc,
  is_positive, is_natural, shift, length, take, drop, where_rows, count_rows, any, all, sum_of, All,
  length-append, length-take-le, length-where_rows-le, All-append, All-if, All-if_of,
  All-where_rows_test, All_both, All-where_rows, All-take, All_imp, All_of_mem, All_at,
  mem_of_mem-where_rows, mem-where_rows, contains, Result, ok, err, ◌>>=◌, ◌>>◌, guard, OnOk,
  Returns, Returns-bind, Returns→OnOk, Returns-if, OnOk-if, OnOk-bind, OnOk-check, OnOk-always,
  OnOk-imp, OnOk_at, >>=-eq-ok,
}
use mathlib.Core.List.{Memᴰ}
use world_of_seeds.Prelude.Sorting.{
  lex_le, lex_le_refl, lex_le_total, lex_le_trans, insert_by, sort_by, IsLeast, IsSorted,
  All-insert_by, All-sort_by, length-insert_by, length-sort_by, sort_by-IsSorted, mem-sort_by,
}
use world_of_seeds.Prelude.Dict.{Dict, get, get_or, put, keys, get-put, get_or-put}
use world_of_seeds.Models.{Instant, seconds}

pub record Window : Type 0 where
  pub started : Instant
  pub count : ℕ

abbrev pub new_window : Instant → Window
new_window now = record { started = now; count = 0 }

pub record Limits : Type 0 where
  pub maximum : ℕ
  pub window_seconds : ℕ
  pub max_keys : ℕ
  pub global_maximum : ℕ
  pub fallback_maximum : ℕ
  pub overflow_buckets : ℕ

-- `__init__` refuses a limit below 1.
abbrev pub valid_limits : Limits → Bool
valid_limits l =
    leb 1 l.maximum
    && leb 1 l.window_seconds
    && leb 1 l.max_keys
    && leb 1 l.global_maximum
    && leb 1 l.fallback_maximum
    && leb 1 l.overflow_buckets

-- The attributes that change. An overflow slot that is `None` has no entry.
pub record LoginIpRateLimiter : Type 0 where
  pub windows : Dict Window
  pub overflow_ips : Dict Window
  pub overflow_identities : Dict Window
  pub global_window : Option Window

module _ (l : Limits) (now : Instant) where
  -- `window.started + self.window_seconds > now`
  unfoldable pub is_live : Window → Bool
  is_live w = ltb now (w.started + seconds l.window_seconds)

  -- `_live`
  unfoldable pub live : Option Window → Option Window
  unfolding is_live
  live none = none
  live (some w) = if is_live w then some w else none

  -- `_retry`: the rest of the window in seconds, rounded up.
  unfoldable pub retry : Window → ℕ
  retry w = max 1 (((w.started + seconds l.window_seconds - now) + 999999) / 1000000)

  -- `while self._windows`: the expired windows in front are dropped.
  unfoldable pub drop_expired : Dict Window → Dict Window
  unfolding is_live
  drop_expired [] = []
  drop_expired ((k, w) ∷ ws) = let rest = drop_expired ws in if is_live w then (k, w) ∷ ws else rest

  -- The wait that a spent budget asks for.
  unfoldable pub wait_for : Option Window → ℕ → ℕ
  unfolding retry
  wait_for none limit = 0
  wait_for (some w) limit = if leb limit w.count then retry w else 0

abbrev pub or_new : Option Window → Instant → Window
or_new none now = new_window now
or_new (some w) now = w

abbrev pub counted : Window → Window
counted w = record w { count = w.count + 1 }

-- `overflow or next(iter(self._windows.values()))`; without an overflow window the windows are full.
abbrev pub or_oldest : Option Window → Dict Window → Instant → Window
or_oldest (some w) windows now = w
or_oldest none [] now = new_window now
or_oldest none ((_, w) ∷ ws) now = w

unfoldable pub slot : Dict Window → Option ℕ → Option Window
unfolding get
slot d none = none
slot d (some i) = get d i

unfoldable pub count_account : Dict Window → Option ℕ → Option Window → Dict Window
unfolding put
count_account d (some i) (some a) = put d i (counted a)
count_account d _ _ = d

module _ (l : Limits) (now : Instant) (key ip_index : ℕ) (identity_index : Option ℕ) where
  -- The budgets are known: refuse, or count the attempt in each of them.
  unfoldable pub spend :
      Bool
      → ℕ
      → Window
      → Option Window
      → Option Window
      → LoginIpRateLimiter
      → Option ℕ × LoginIpRateLimiter
  unfolding wait_for count_account put
  spend use_overflow retry_after window account global s =
      let asked = max retry_after (
        max (wait_for l now (some window) l.maximum) (wait_for l now account l.fallback_maximum)) in
      let spent : LoginIpRateLimiter = record {
        windows = (if use_overflow then s.windows else put s.windows key (counted window));
        overflow_ips =
            (if use_overflow then put s.overflow_ips ip_index (counted window) else s.overflow_ips);
        overflow_identities = count_account s.overflow_identities identity_index account;
        global_window = some (counted (or_new global now));
      } in
      if not (asked == 0) then (some asked, s) else (none, spent)

  abbrev pub refused : Option Window → ℕ → LoginIpRateLimiter → Option ℕ × LoginIpRateLimiter
  refused overflow retry_after s =
      (some (max retry_after (retry l now (or_oldest overflow s.windows now))), s)

  -- An attempt behind the primary windows.
  unfoldable pub overflowing :
      Option ℕ
      → Option Window
      → ℕ
      → Option Window
      → Option Window
      → LoginIpRateLimiter
      → Option ℕ × LoginIpRateLimiter
  unfolding spend retry
  overflowing none overflow retry_after account global s = refused overflow retry_after s
  overflowing (some i) overflow retry_after account global s =
      spend true retry_after (or_new overflow now) (some (or_new account now)) global s

  unfoldable pub consume : LoginIpRateLimiter → Option ℕ × LoginIpRateLimiter
  unfolding live wait_for drop_expired slot get spend overflowing
  consume state =
      let global = live l now state.global_window in
      let retry_after = wait_for l now global l.global_maximum in
      let s = record state { windows = drop_expired l now state.windows } in
      let account = live l now (slot s.overflow_identities identity_index) in
      let window = get s.windows key in
      let overflow = (if is_some window then none else live l now (get s.overflow_ips ip_index)) in
      if not (is_some window) && (is_some overflow || leb l.max_keys (length s.windows))
      then overflowing identity_index overflow retry_after account global s
      else spend false retry_after (or_new window now) account global s
