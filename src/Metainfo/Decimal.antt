-- ===== src/Metainfo/Decimal.antt =====
-- The decimal texts that backend/app/torrents/metainfo.py reads and writes, as bytes.
use world_of_seeds.Prelude.{
  ℕ, zero, suc, ◌+◌, ◌-◌, ◌*◌, ◌/◌, ◌%◌, ◌≤◌, ◌<◌, ◌≡◌, refl, sym, ap, ◌∙◌, inl, inr, Bool, true,
  false, not, ◌&&◌, List, [], ◌∷◌, ◌++◌, arith, ltb, ◌==◌, if◌then◌else◌, between, Bool-cases,
  length, all, length-append,
}
use mathlib.Core.List.{append-nil, append_assoc}

abbrev pub Bytes : Type 0
Bytes = List ℕ

abbrev pub is_digit : ℕ → Bool
is_digit c = between b'0' b'9' c

-- `str(n)`; the first number bounds the digits.
unfoldable pub decimal_within : ℕ → ℕ → Bytes
decimal_within zero n = []
decimal_within (suc most) n =
    let higher = decimal_within most (n / 10) in
    if ltb n 10 then (b'0' + n) ∷ [] else higher ++ (b'0' + n % 10) ∷ []

unfoldable pub decimal : ℕ → Bytes
unfolding decimal_within
decimal n = decimal_within (n + 1) n

-- `int(raw)`, behind a number that has been read.
unfoldable pub number_from : ℕ → Bytes → ℕ
number_from n [] = n
number_from n (c ∷ cs) = number_from (n * 10 + (c - b'0')) cs

unfoldable pub number : Bytes → ℕ
unfolding number_from
number cs = number_from 0 cs

-- A decimal text without a leading zero.
unfoldable pub is_decimal : Bytes → Bool
is_decimal [] = false
is_decimal (c ∷ []) = is_digit c
is_decimal (c ∷ d ∷ cs) = not (c == b'0') && all is_digit (c ∷ d ∷ cs)

number_from-append :
    (n : ℕ) (cs : Bytes) (c : ℕ) → number_from n (cs ++ c ∷ []) ≡ number_from n cs * 10 + (c - b'0')
unfolding number_from
number_from-append n [] c = refl
number_from-append n (d ∷ cs) c = number_from-append (n * 10 + (d - b'0')) cs c

number-decimal_within : (most n : ℕ) → n < most → number_from 0 (decimal_within most n) ≡ n
unfolding decimal_within number_from
number-decimal_within zero n h = absurd (omega arith)
number-decimal_within (suc most) n h = ground (
  arith,
  number_from-append 0 (decimal_within most (n / 10)) (b'0' + n % 10),
  number-decimal_within most (n / 10),
)

pub number-decimal : (n : ℕ) → number (decimal n) ≡ n
unfolding number decimal
number-decimal n = number-decimal_within (n + 1) n (omega arith)

decimal_within_any : (a b n : ℕ) → n < a → n < b → decimal_within a n ≡ decimal_within b n
unfolding decimal_within
decimal_within_any zero b n h k = absurd (omega arith)
decimal_within_any (suc a) zero n h k = absurd (omega arith)
decimal_within_any (suc a) (suc b) n h k = ground (arith, decimal_within_any a b (n / 10))

decimal_small : (d : ℕ) → d < 10 → decimal d ≡ (b'0' + d) ∷ []
unfolding decimal
decimal_small d h = ground arith

decimal_within-step :
    (most n : ℕ)
    → 10 ≤ n
    → decimal_within (suc most) n ≡ decimal_within most (n / 10) ++ (b'0' + n % 10) ∷ []
unfolding decimal_within
decimal_within-step most n h = ground arith

decimal_step : (n d : ℕ) → 0 < n → d < 10 → decimal (n * 10 + d) ≡ decimal n ++ (b'0' + d) ∷ []
unfolding decimal
decimal_step n d some_digits h =
    let m = n * 10 + d in
    let quotient : m / 10 ≡ n = omega arith in
    let remainder : m % 10 ≡ d = omega arith in
    let larger : m + 1 ≡ suc m = omega arith in
    ap (λ (k : ℕ). decimal_within k m) larger
    ∙ decimal_within-step m m (omega arith)
    ∙ ap (λ (k : ℕ). decimal_within m k ++ (b'0' + m % 10) ∷ []) quotient
    ∙ ap (λ (k : ℕ). decimal_within m n ++ (b'0' + k) ∷ []) remainder
    ∙ ap (λ (ds : Bytes). ds ++ (b'0' + d) ∷ [])
        (decimal_within_any m (n + 1) n (omega arith) (omega arith))

decimal-number_from :
    (n : ℕ) (cs : Bytes)
    → 0 < n
    → all is_digit cs ≡ true
    → decimal (number_from n cs) ≡ decimal n ++ cs
unfolding number_from
decimal-number_from n [] h ds = sym (append-nil (decimal n))
decimal-number_from n (c ∷ cs) h ds =
    let d = c - b'0' in
    let exact : b'0' + d ≡ c = ground arith in
    decimal-number_from (n * 10 + d) cs (omega arith) (ground arith)
    ∙ ap (λ (xs : Bytes). xs ++ cs) (decimal_step n d h (ground arith))
    ∙ ap (λ (k : ℕ). (decimal n ++ k ∷ []) ++ cs) exact
    ∙ append_assoc (decimal n) (c ∷ []) cs

-- A decimal text is the text of its number.
pub decimal-number : (cs : Bytes) → is_decimal cs ≡ true → decimal (number cs) ≡ cs
unfolding is_decimal number number_from
decimal-number [] h = cc
decimal-number (c ∷ []) h =
    let d = c - b'0' in
    let exact : b'0' + d ≡ c = ground arith in
    ap decimal (omega arith) ∙ decimal_small d (ground arith) ∙ ap (λ (k : ℕ). k ∷ []) exact
decimal-number (c ∷ b ∷ cs) h =
    let d = c - b'0' in
    let exact : b'0' + d ≡ c = ground arith in
    ap (λ (k : ℕ). decimal (number_from k (b ∷ cs))) (omega arith)
    ∙ decimal-number_from d (b ∷ cs) (ground arith) (ground arith)
    ∙ ap (λ (xs : Bytes). xs ++ b ∷ cs)
        (decimal_small d (ground arith) ∙ ap (λ (k : ℕ). k ∷ []) exact)

all_digits-append :
    (xs : Bytes) (c : ℕ) → all is_digit (xs ++ c ∷ []) ≡ (all is_digit xs && is_digit c)
all_digits-append [] c = ground arith
all_digits-append (x ∷ xs) c = ground (arith, all_digits-append xs c)

decimal_within-digits : (most n : ℕ) → all is_digit (decimal_within most n) ≡ true
unfolding decimal_within
decimal_within-digits zero n = refl
decimal_within-digits (suc most) n = ground (
  arith,
  decimal_within-digits most (n / 10),
  all_digits-append (decimal_within most (n / 10)) (b'0' + n % 10),
)

-- The text of a number is a decimal text.
pub decimal-digits : (n : ℕ) → all is_digit (decimal n) ≡ true
unfolding decimal
decimal-digits n = decimal_within-digits (n + 1) n

-- The first digit is not zero, but for zero itself.
abbrev pub starts_with : ℕ → Bytes → Bool
starts_with m [] = false
starts_with m (c ∷ cs) = c == m

starts_with-append :
    (m : ℕ) (xs ys : Bytes)
    → starts_with m xs ≡ false
    → 0 < length xs
    → starts_with m (xs ++ ys) ≡ false
starts_with-append m [] ys h k = absurd (omega arith)
starts_with-append m (x ∷ xs) ys h k = h

decimal_within-start :
    (most n : ℕ)
    → 0 < n
    → n < most
    → (starts_with b'0' (decimal_within most n) ≡ false) × (0 < length (decimal_within most n))
unfolding decimal_within
decimal_within-start zero n h k = absurd (omega arith)
decimal_within-start (suc most) n h k = elim (Bool-cases (ltb n 10)) [
  | inl small ↦ ground arith
  | inr large ↦
      let (start, some_digits) = decimal_within-start most (n / 10) (ground arith) (ground arith) in
      rw large (
        starts_with-append b'0' (decimal_within most (n / 10)) _ start some_digits,
        omega (arith, length-append (decimal_within most (n / 10)) ((b'0' + n % 10) ∷ [])),
      )
]

is_decimal_of :
    (cs : Bytes)
    → all is_digit cs ≡ true
    → starts_with b'0' cs ≡ false
    → 0 < length cs
    → is_decimal cs ≡ true
unfolding is_decimal
is_decimal_of [] h s k = absurd (omega arith)
is_decimal_of (c ∷ []) h s k = ground arith
is_decimal_of (c ∷ d ∷ cs) h s k = ground arith

pub decimal-start :
    (n : ℕ) → 0 < n → (starts_with b'0' (decimal n) ≡ false) × (0 < length (decimal n))
unfolding decimal
decimal-start n h = decimal_within-start (n + 1) n h (omega arith)

pub is_decimal-decimal : (n : ℕ) → is_decimal (decimal n) ≡ true
is_decimal-decimal zero = rw (decimal_small 0 (omega arith)) (unfold is_decimal in refl)
is_decimal-decimal (suc n) =
    let (start, some_digits) = decimal-start (suc n) (omega arith) in
    is_decimal_of (decimal (suc n)) (decimal-digits (suc n)) start some_digits
