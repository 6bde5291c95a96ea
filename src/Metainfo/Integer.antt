-- ===== src/Metainfo/Integer.antt =====
-- The signed numbers of bencoded values (backend/app/torrents/metainfo.py).
use world_of_seeds.Prelude.{
  ℕ, zero, suc, ◌≡◌, refl, sym, ap, ◌∙◌, ◌≢◌, inl, inr, Bool, true, false, not, ◌&&◌, [], ◌∷◌,
  arith, ◌==◌, if◌then◌else◌, ==_iff, Bool-cases, ℤ, pos, negsuc, all,
}
use world_of_seeds.Metainfo.Decimal.{
  Bytes, is_digit, decimal, number, is_decimal, starts_with, number-decimal, decimal-number,
  decimal-digits, decimal-start, is_decimal-decimal,
}

-- The test of `_integer` on what stands between the `i` and the `e`: no text, no digits, a zero in
-- front of other digits and a negative zero are refused.
unfoldable pub is_integer : Bytes → Bool
is_integer [] = false
is_integer (c ∷ cs) =
    if c == b'-' then is_decimal cs && not (starts_with b'0' cs) else is_decimal (c ∷ cs)

abbrev pub negated : ℕ → ℤ
negated zero = pos 0
negated (suc n) = negsuc n

-- `digits = raw[1:] if raw.startswith(b"-") else raw`
abbrev pub digits : Bytes → Bytes
digits [] = []
digits (c ∷ cs) = if c == b'-' then cs else c ∷ cs

-- `int(raw)`
unfoldable pub integer : Bytes → ℤ
unfolding number
integer [] = pos 0
integer (c ∷ cs) = if c == b'-' then negated (number cs) else pos (number (c ∷ cs))

-- `str(value)`
unfoldable pub integer_text : ℤ → Bytes
unfolding decimal
integer_text (pos n) = decimal n
integer_text (negsuc n) = b'-' ∷ decimal (suc n)

-- No digit is an `e` or a `-`.
digits_free :
    (m : ℕ) (cs : Bytes)
    → is_digit m ≡ false
    → all is_digit cs ≡ true
    → all (λ c. not (c == m)) cs ≡ true
digits_free m [] h d = refl
digits_free m (c ∷ cs) h d = ground (arith, digits_free m cs)

pub integer_text_free : (z : ℤ) → all (λ c. not (c == b'e')) (integer_text z) ≡ true
unfolding integer_text
integer_text_free (pos n) = digits_free b'e' (decimal n) refl (decimal-digits n)
integer_text_free (negsuc n) = digits_free b'e' (decimal (suc n)) refl (decimal-digits (suc n))

pub decimal_free : (n : ℕ) → all (λ c. not (c == b':')) (decimal n) ≡ true
decimal_free n = digits_free b':' (decimal n) refl (decimal-digits n)

unsigned :
    (cs : Bytes) → is_decimal cs ≡ true → (is_integer cs ≡ true) × (integer cs ≡ pos (number cs))
unfolding is_integer integer is_decimal
unsigned [] h = cc
unsigned (c ∷ []) h = ground arith
unsigned (c ∷ d ∷ cs) h = ground arith

pub is_integer-integer_text : (z : ℤ) → is_integer (integer_text z) ≡ true
unfolding integer_text
is_integer-integer_text (pos n) = (unsigned (decimal n) (is_decimal-decimal n)).0
is_integer-integer_text (negsuc n) =
    unfold is_integer in
    ground (arith, is_decimal-decimal (suc n), (decimal-start (suc n) (omega arith)).0)

pub integer-integer_text : (z : ℤ) → integer (integer_text z) ≡ z
unfolding integer_text
integer-integer_text (pos n) =
    (unsigned (decimal n) (is_decimal-decimal n)).1 ∙ ap pos (number-decimal n)
integer-integer_text (negsuc n) = unfold integer in ap negated (number-decimal (suc n))

some_number : (cs : Bytes) → is_decimal cs ≡ true → starts_with b'0' cs ≡ false → number cs ≢ 0
some_number cs h s e =
    let same = ap decimal (sym e) ∙ decimal-number cs h in
    let zero_text : starts_with b'0' (decimal 0) ≡ true = unfold decimal in refl in
    cc (ap (starts_with b'0') same, zero_text, s)

negative_text : (n : ℕ) → n ≢ 0 → integer_text (negated n) ≡ b'-' ∷ decimal n
unfolding integer_text
negative_text zero h = absurd (h refl)
negative_text (suc n) h = refl

-- A text that passes the test is the text of its number.
pub integer_text-integer : (cs : Bytes) → is_integer cs ≡ true → integer_text (integer cs) ≡ cs
unfolding is_integer
integer_text-integer [] h = cc
integer_text-integer (c ∷ cs) h = elim (Bool-cases (c == b'-')) [
  | inl minus ↦
      let sign = (==_iff c b'-').0 minus in
      let digits : is_decimal cs ≡ true = ground arith in
      let start : starts_with b'0' cs ≡ false = ground arith in
      unfold integer in
      rw minus (
        negative_text (number cs) (some_number cs digits start)
        ∙ ap (λ (xs : Bytes). b'-' ∷ xs) (decimal-number cs digits)
        ∙ ap (λ (k : ℕ). k ∷ cs) (sym sign))
  | inr plus ↦
      let digits : is_decimal (c ∷ cs) ≡ true = ground arith in
      ap integer_text (unsigned (c ∷ cs) digits).1
      ∙ unfold integer_text in decimal-number (c ∷ cs) digits
]
