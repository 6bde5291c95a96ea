-- ===== src/Metainfo/Steps.antt =====
-- backend/app/torrents/metainfo.py: one step of `_Parser` on a text that `_encode` has written.
use world_of_seeds.Prelude.{
  ℕ, suc, ◌+◌, ◌≤◌, ◌≡◌, refl, sym, ap, ◌∙◌, inl, inr, true, false, not, ◌||◌, List, [], ◌∷◌, ◌++◌,
  arith, ◌==◌, le→leb, Bool-cases, ℤ, length, all, ok, ◌>>=◌, ◌>>◌, guard,
}
use mathlib.Core.List.{append_assoc}
use world_of_seeds.Metainfo.Decimal.{
  Bytes, is_digit, decimal, is_decimal, number-decimal, is_decimal-decimal, decimal-digits,
}
use world_of_seeds.Metainfo.Bytes.{
  until, until-append, split_at-append, bytes_eq, bytes_lt, bytes_lt_asym, bytes_lt_irrefl,
  bytes_eq-eq,
}
use world_of_seeds.Metainfo.Integer.{
  digits, integer_text, integer_text_free, decimal_free, is_integer-integer_text,
  integer-integer_text,
}
use world_of_seeds.Metainfo.Bencode.{
  BValue, number_of, bytes_of, list_of, dict_of, no_items, item, no_entries, entry,
  max_bencode_depth, max_bencode_items, not_canonical, read_integer, read_bytes, has_key,
  is_before_last, parse_value, parse_items, parse_entries, encode_bytes, encode,
}
use world_of_seeds.Metainfo.Printed.{IsNumberText, IsBehind}

-- What the digits of a number and a colon begin is read as so many bytes.
pub read_bytes-encode :
    (n : ℕ) (bs rest : Bytes)
    → IsNumberText (decimal (length bs))
    → read_bytes n (until b':' (encode_bytes bs ++ rest)) ≡ ok (bs, n, rest)
unfolding read_bytes
read_bytes-encode n bs rest h =
    rw
      (
        append_assoc (decimal (length bs)) (b':' ∷ bs) rest,
        until-append b':' (decimal (length bs)) (bs ++ rest) (decimal_free (length bs)),
        is_decimal-decimal (length bs),
        le→leb _ _ h,
        number-decimal (length bs),
        split_at-append bs rest,
      )
      refl

pub read_integer-encode :
    (n : ℕ) (z : ℤ) (rest : Bytes)
    → IsNumberText (digits (integer_text z))
    → read_integer n (until b'e' (integer_text z ++ b'e' ∷ rest)) ≡ ok (number_of z, n, rest)
unfolding read_integer
read_integer-encode n z rest h =
    rw
      (
        until-append b'e' (integer_text z) rest (integer_text_free z),
        is_integer-integer_text z,
        le→leb _ _ h,
        integer-integer_text z,
      )
      refl

-- The first byte of the text of a number.
abbrev pub StartsWithDigit : Bytes → Type 0
StartsWithDigit ds = (c : ℕ) × (cs : Bytes) × (ds ≡ c ∷ cs) × (is_digit c ≡ true)

pub first_of : (ds : Bytes) → is_decimal ds ≡ true → all is_digit ds ≡ true → StartsWithDigit ds
unfolding is_decimal
first_of [] h d = cc
first_of (c ∷ cs) h d = (c, cs, refl, ground arith)

pub digit_first : (n : ℕ) → StartsWithDigit (decimal n)
digit_first n = first_of (decimal n) (is_decimal-decimal n) (decimal-digits n)

module _ (fuel depth n : ℕ) (fits : depth ≤ max_bencode_depth)
    (room : n + 1 ≤ max_bencode_items) where
  pub value_step-integer :
      (s : Bytes) → parse_value (suc fuel) depth n (b'i' ∷ s) ≡ read_integer (n + 1) (until b'e' s)
  unfolding parse_value
  value_step-integer s = rw (le→leb _ _ fits, le→leb _ _ room) refl

  pub value_step-list :
      (s : Bytes)
      → parse_value (suc fuel) depth n (b'l' ∷ s)
        ≡ (do (xs, m, rest) ← parse_items fuel (depth + 1) (n + 1) s; ok (list_of xs, m, rest))
  unfolding parse_value
  value_step-list s = rw (le→leb _ _ fits, le→leb _ _ room) refl

  pub value_step-dict :
      (s : Bytes)
      → parse_value (suc fuel) depth n (b'd' ∷ s)
        ≡ (do (es, m, rest) ← parse_entries fuel (depth + 1) (n + 1) [] s; ok (dict_of es, m, rest))
  unfolding parse_value
  value_step-dict s = rw (le→leb _ _ fits, le→leb _ _ room) refl

  pub value_step-bytes :
      (c : ℕ) (s : Bytes)
      → is_digit c ≡ true
      → parse_value (suc fuel) depth n (c ∷ s)
        ≡ (do (bs, m, rest) ← read_bytes (n + 1) (until b':' (c ∷ s)); ok (bytes_of bs, m, rest))
  unfolding parse_value
  value_step-bytes c s h =
      let no_integer : (c == b'i') ≡ false = ground arith in
      let no_list : (c == b'l') ≡ false = ground arith in
      let no_dict : (c == b'd') ≡ false = ground arith in
      rw (le→leb _ _ fits, le→leb _ _ room, no_integer, no_list, no_dict, h) refl

-- A text that does not begin with an end.
abbrev pub IsOpen : Bytes → Type 0
IsOpen text = (c : ℕ) × (s : Bytes) × (text ≡ c ∷ s) × ((c == b'e') ≡ false)

pub encode_bytes-IsOpen : (bs : Bytes) → IsOpen (encode_bytes bs)
encode_bytes-IsOpen bs =
    let (c, ds, same, digit) = digit_first (length bs) in
    (c, ds ++ b':' ∷ bs, ap (λ (t : Bytes). t ++ b':' ∷ bs) same, ground arith)

pub encode-IsOpen : (v : BValue) → IsOpen (encode v)
unfolding encode
encode-IsOpen (number_of z) = (_, _, refl, refl)
encode-IsOpen (bytes_of bs) = encode_bytes-IsOpen bs
encode-IsOpen (list_of xs) = (_, _, refl, refl)
encode-IsOpen (dict_of es) = (_, _, refl, refl)

pub items_step :
    (fuel depth n : ℕ) (x : BValue) (tail : Bytes)
    → parse_items (suc fuel) depth n (encode x ++ tail) ≡ (do
      (y, m, rest) ← parse_value fuel depth n (encode x ++ tail)
      (ys, k, end) ← parse_items fuel depth m rest
      ok (item y ys, k, end))
unfolding parse_items
items_step fuel depth n x tail =
    let (c, s, same, goes_on) = encode-IsOpen x in rw (same, goes_on) refl

pub entries_step :
    (fuel depth n : ℕ) (keys : List Bytes) (key tail : Bytes)
    → parse_entries (suc fuel) depth n keys (encode_bytes key ++ tail) ≡ (do
      (read, m, value_at) ← read_bytes n (until b':' (encode_bytes key ++ tail))
      guard (not (has_key keys read || is_before_last keys read)) not_canonical
      (x, k, rest) ← parse_value fuel depth m value_at
      (es, l, end) ← parse_entries fuel depth k (read ∷ keys) rest
      ok (entry read x es, l, end))
unfolding parse_entries
entries_step fuel depth n keys key tail =
    let (c, s, same, goes_on) = encode_bytes-IsOpen key in rw (same, goes_on) refl

pub behind-has_key :
    (keys : List Bytes) (key : Bytes) → IsBehind keys key → has_key keys key ≡ false
unfolding has_key
behind-has_key [] key h = refl
behind-has_key (k ∷ keys) key (h, hs) = elim (Bool-cases (bytes_eq k key)) [
  | inl same ↦
      let equal = bytes_eq-eq k key same in cc (h, ap (bytes_lt k) equal, bytes_lt_irrefl k)
  | inr other ↦ rw other (behind-has_key keys key hs)
]

pub behind-passes :
    (keys : List Bytes) (key : Bytes)
    → IsBehind keys key
    → not (has_key keys key || is_before_last keys key) ≡ true
behind-passes [] key h = rw (behind-has_key [] key h) refl
behind-passes (k ∷ keys) key h = rw (behind-has_key (k ∷ keys) key h, bytes_lt_asym k key h.0) refl

pub items_end :
    (fuel depth n : ℕ) (rest : Bytes)
    → parse_items (suc fuel) depth n (b'e' ∷ rest) ≡ ok (no_items, n + 0, rest)
unfolding parse_items
items_end fuel depth n rest = ap (λ (m : ℕ). ok (no_items, m, rest)) (omega arith)

pub entries_end :
    (fuel depth n : ℕ) (keys : List Bytes) (rest : Bytes)
    → parse_entries (suc fuel) depth n keys (b'e' ∷ rest) ≡ ok (no_entries, n + 0, rest)
unfolding parse_entries
entries_end fuel depth n keys rest = ap (λ (m : ℕ). ok (no_entries, m, rest)) (omega arith)

pub bytes_value :
    (fuel depth n : ℕ) (bs rest : Bytes)
    → IsNumberText (decimal (length bs))
    → depth ≤ max_bencode_depth
    → n + 1 ≤ max_bencode_items
    → parse_value (suc fuel) depth n (encode_bytes bs ++ rest) ≡ ok (bytes_of bs, n + 1, rest)
bytes_value fuel depth n bs rest h fits room =
    let (c, ds, same, digit) = digit_first (length bs) in
    let read = read_bytes-encode (n + 1) bs rest h in
    let text : encode_bytes bs ++ rest ≡ c ∷ ((ds ++ b':' ∷ bs) ++ rest) =
      ap (λ (t : Bytes). (t ++ b':' ∷ bs) ++ rest) same in
    ap (parse_value (suc fuel) depth n) text
    ∙ value_step-bytes fuel depth n fits room c ((ds ++ b':' ∷ bs) ++ rest) digit
    ∙ rw (sym text, read) refl
