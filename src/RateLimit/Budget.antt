-- ===== src/RateLimit/Budget.antt =====
-- The budgets of `LoginIpRateLimiter` (backend/app/auth/rate_limit.py).
use world_of_seeds.Prelude.{
  if_ind, ℕ, ◌+◌, ◌≤◌, max, ◌≡◌, refl, Bool, true, false, not, ◌&&◌, ◌||◌, Option, none, some, [],
  ◌∷◌, arith, leb, ◌==◌, if◌then◌else◌, is_some, length, All, All-if, All-if_of,
}
use world_of_seeds.Prelude.Dict.{Dict, get, put}
use world_of_seeds.Models.{Instant}
use world_of_seeds.RateLimit.{
  Window, Limits, valid_limits, LoginIpRateLimiter, is_live, live, retry, drop_expired, wait_for,
  or_new, counted, or_oldest, slot, count_account, spend, overflowing, consume,
}

abbrev pub Within : ℕ → Window → Type 0
Within limit w = w.count ≤ limit

abbrev pub OptionWithin : ℕ → Option Window → Type 0
OptionWithin limit none = Unit
OptionWithin limit (some w) = Within limit w

abbrev pub AllWithin : ℕ → Dict Window → Type 0
AllWithin limit d = All (λ e. Within limit e.1) d

-- No budget is overspent, and no more addresses are kept than `max_keys`.
pub record IsWithinBudget (l : Limits) (s : LoginIpRateLimiter) : Type 0 where
  pub addresses : AllWithin l.maximum s.windows
  pub overflows : AllWithin l.maximum s.overflow_ips
  pub identities : AllWithin l.fallback_maximum s.overflow_identities
  pub total : OptionWithin l.global_maximum s.global_window
  pub bounded : length s.windows ≤ l.max_keys

put-AllWithin :
    (limit : ℕ) (d : Dict Window) (k : ℕ) (w : Window)
    → AllWithin limit d
    → Within limit w
    → AllWithin limit (put d k w)
unfolding put
put-AllWithin limit [] k w h hw = (hw, tt)
put-AllWithin limit ((j, v) ∷ d) k w (hv, hd) hw =
    All-if (λ e. Within limit e.1) (j == k) _ _ (hw, hd) (hv, put-AllWithin limit d k w hd hw)

length-put :
    (d : Dict Window) (k : ℕ) (w : Window)
    → length (put d k w) ≡ (if is_some (get d k) then length d else length d + 1)
unfolding put get
length-put [] k w = omega arith
length-put ((j, v) ∷ d) k w = ground (arith, length-put d k w)

module _ (l : Limits) (now : Instant) where
  drop_expired-AllWithin :
      (limit : ℕ) (d : Dict Window) → AllWithin limit d → AllWithin limit (drop_expired l now d)
  unfolding drop_expired
  drop_expired-AllWithin limit [] h = tt
  drop_expired-AllWithin limit ((k, w) ∷ d) (hw, hd) =
      All-if (λ e. Within limit e.1) (is_live l now w) _ _ (hw, hd)
        (drop_expired-AllWithin limit d hd)

  length-drop_expired-le : (d : Dict Window) → length (drop_expired l now d) ≤ length d
  unfolding drop_expired
  length-drop_expired-le [] = omega arith
  length-drop_expired-le ((k, w) ∷ d) = ground (arith, length-drop_expired-le d)

  -- A budget that asks for no wait has room for one more attempt.
  wait_for-room :
      (w : Window) (limit : ℕ) → wait_for l now (some w) limit ≡ 0 → Within limit (counted w)
  unfolding wait_for retry
  wait_for-room w limit h = ground arith

  wait_for_new :
      (o : Option Window) (limit : ℕ)
      → 1 ≤ limit
      → wait_for l now o limit ≡ 0
      → Within limit (counted (or_new o now))
  wait_for_new none limit some_room h = some_room
  wait_for_new (some w) limit some_room h = wait_for-room w limit h

  count_account-AllWithin :
      (limit : ℕ) (d : Dict Window) (i : Option ℕ) (a : Option Window)
      → AllWithin limit d
      → wait_for l now a limit ≡ 0
      → AllWithin limit (count_account d i a)
  unfolding count_account
  count_account-AllWithin limit d none a h room = h
  count_account-AllWithin limit d (some i) none h room = h
  count_account-AllWithin limit d (some i) (some a) h room =
      put-AllWithin limit d i (counted a) h (wait_for-room a limit room)

module _ (l : Limits) (now : Instant) (key ip_index : ℕ) (identity_index : Option ℕ)
    (valid : valid_limits l ≡ true) where
  spend-IsWithinBudget :
      (use_overflow : Bool) (window : Window) (account global : Option Window)
      (s : LoginIpRateLimiter)
      → IsWithinBudget l s
      → (use_overflow ≡ false → length (put s.windows key (counted window)) ≤ l.max_keys)
      → IsWithinBudget l
          (spend l now key ip_index identity_index use_overflow
            (wait_for l now global l.global_maximum)
            window
            account
            global
            s).1
  unfolding spend
  spend-IsWithinBudget use_overflow window account global s h fits =
      let retry_after = wait_for l now global l.global_maximum in
      let asked = max retry_after (
        max (wait_for l now (some window) l.maximum) (wait_for l now account l.fallback_maximum)) in
      if_ind (λ (r : Option ℕ × LoginIpRateLimiter). IsWithinBudget l r.1) (not (asked == 0))
        (λ e. h)
        (λ e.
          let room = wait_for-room l now window l.maximum (ground arith) in
          record {
            addresses =
                All-if_of (λ x. Within l.maximum x.1) use_overflow _ _ (λ f. h.addresses)
                  (λ f. put-AllWithin l.maximum s.windows key (counted window) h.addresses room);
            overflows =
                All-if_of (λ x. Within l.maximum x.1) use_overflow _ _
                  (λ f.
                    put-AllWithin l.maximum s.overflow_ips ip_index (counted window) h.overflows
                      room)
                  (λ f. h.overflows);
            identities =
                count_account-AllWithin l now l.fallback_maximum s.overflow_identities
                  identity_index account h.identities (ground arith);
            total = wait_for_new l now global l.global_maximum (ground arith) (ground arith);
            bounded =
                if_ind (λ (d : Dict Window). length d ≤ l.max_keys) use_overflow (λ f. h.bounded)
                  fits;
          })

  overflowing-IsWithinBudget :
      (i : Option ℕ) (overflow account global : Option Window) (s : LoginIpRateLimiter)
      → IsWithinBudget l s
      → IsWithinBudget l
          (overflowing l now key ip_index identity_index i overflow
            (wait_for l now global l.global_maximum)
            account
            global
            s).1
  unfolding overflowing
  overflowing-IsWithinBudget none overflow account global s h = h
  overflowing-IsWithinBudget (some i) overflow account global s h =
      spend-IsWithinBudget true (or_new overflow now) (some (or_new account now)) global s h
        (λ e. cc)

  -- Under valid limits an attempt, admitted or refused, leaves every budget within its maximum: the
  -- attempts of an address, of an overflow bucket, of an identity and of all together in one window;
  -- and it leaves at most `max_keys` addresses.
  pub consume-IsWithinBudget :
      (state : LoginIpRateLimiter)
      → IsWithinBudget l state
      → IsWithinBudget l (consume l now key ip_index identity_index state).1
  unfolding consume
  consume-IsWithinBudget state h =
      let global = live l now state.global_window in
      let s : LoginIpRateLimiter = record state { windows = drop_expired l now state.windows } in
      let pruned : IsWithinBudget l s = record {
        addresses = drop_expired-AllWithin l now l.maximum state.windows h.addresses;
        overflows = h.overflows;
        identities = h.identities;
        total = h.total;
        bounded = omega (arith, length-drop_expired-le l now state.windows, h.bounded);
      } in
      let account = live l now (slot s.overflow_identities identity_index) in
      let window = get s.windows key in
      let overflow = (if is_some window then none else live l now (get s.overflow_ips ip_index)) in
      if_ind (λ (r : Option ℕ × LoginIpRateLimiter). IsWithinBudget l r.1)
        (not (is_some window) && (is_some overflow || leb l.max_keys (length s.windows)))
        (λ e. overflowing-IsWithinBudget identity_index overflow account global s pruned)
        (λ e. spend-IsWithinBudget false (or_new window now) account global s pruned (λ f.
          ground (arith, length-put s.windows key (counted (or_new window now)), pruned.bounded)))

module _ (l : Limits) (now : Instant) (key ip_index : ℕ) (identity_index : Option ℕ) where
  -- A refusal comes with a wait of at least a second.
  abbrev pub Refuses : LoginIpRateLimiter → Option ℕ × LoginIpRateLimiter → Type 0
  Refuses s (none, t) = Unit
  Refuses s (some wait, t) = (1 ≤ wait) × (t ≡ s)

  spend-Refuses :
      (use_overflow : Bool) (retry_after : ℕ) (window : Window) (account global : Option Window)
      (s : LoginIpRateLimiter)
      → Refuses s
          (spend l now key ip_index identity_index use_overflow retry_after window account global s)
  unfolding spend
  spend-Refuses use_overflow retry_after window account global s =
      let asked = max retry_after (
        max (wait_for l now (some window) l.maximum) (wait_for l now account l.fallback_maximum)) in
      if_ind (Refuses s) (not (asked == 0)) (λ e. (ground arith, refl)) (λ e. tt)

  refused-wait : (w : Window) (n : ℕ) → 1 ≤ max n (retry l now w)
  unfolding retry
  refused-wait w n = omega arith

  overflowing-Refuses :
      (i : Option ℕ) (overflow : Option Window) (retry_after : ℕ) (account global : Option Window)
      (s : LoginIpRateLimiter)
      → Refuses s
          (overflowing l now key ip_index identity_index i overflow retry_after account global s)
  unfolding overflowing
  overflowing-Refuses none overflow retry_after account global s =
      (refused-wait (or_oldest overflow s.windows now) retry_after, refl)
  overflowing-Refuses (some i) overflow retry_after account global s =
      spend-Refuses true retry_after (or_new overflow now) (some (or_new account now)) global s

  -- A refused attempt is told to wait for at least a second, and it spends no budget and moves no
  -- window: all it does is to drop expired windows.
  pub consume-Refuses :
      (state : LoginIpRateLimiter)
      → Refuses
          (record state { windows = drop_expired l now state.windows })
          (consume l now key ip_index identity_index state)
  unfolding consume
  consume-Refuses state =
      let global = live l now state.global_window in
      let s : LoginIpRateLimiter = record state { windows = drop_expired l now state.windows } in
      let retry_after = wait_for l now global l.global_maximum in
      let account = live l now (slot s.overflow_identities identity_index) in
      let window = get s.windows key in
      let overflow = (if is_some window then none else live l now (get s.overflow_ips ip_index)) in
      if_ind (Refuses s)
        (not (is_some window) && (is_some overflow || leb l.max_keys (length s.windows)))
        (λ e. overflowing-Refuses identity_index overflow retry_after account global s)
        (λ e. spend-Refuses false retry_after (or_new window now) account global s)
