-- ===== src/Metainfo/Pieces.antt =====
-- backend/app/torrents/metainfo.py: what `_Parser` has read, for each kind of value.
use world_of_seeds.Prelude.{
  ℕ, suc, ◌+◌, ◌≤◌, ◌<◌, ◌≡◌, refl, sym, ap, ◌∙◌, true, not, ◌||◌, none, some, List, [], ◌∷◌, ◌++◌,
  arith, leb, leb→le, length, All, length-append, All_imp, ok, ◌>>=◌, OnOk, OnOk-bind, OnOk-guard,
}
use mathlib.Core.List.{append_assoc}
use world_of_seeds.Metainfo.Decimal.{Bytes, decimal, number, decimal-number}
use world_of_seeds.Metainfo.Bytes.{
  Split, OnSplit, until, until-OnSplit, split_at, split_at-OnSplit, bytes_lt, bytes_lt_of,
  bytes_lt_trans,
}
use world_of_seeds.Metainfo.Integer.{is_integer, integer, digits, integer_text-integer}
use world_of_seeds.Metainfo.Bencode.{
  BValue, number_of, bytes_of, list_of, dict_of, Items, item, Entries, entry, max_bencode_depth,
  max_bencode_items, max_int_digits, invalid_file, value_error, read_integer, or_truncated,
  read_bytes, has_key, is_before_last, encode_bytes, join, encode, encode_items, encode_entries,
}
use world_of_seeds.Metainfo.Printed.{
  IsNumberText, IsBehind, IsCanonical, ItemsAreCanonical, EntriesAreCanonical, count, count_items,
  count_entries, height, height_items, height_entries, entries_same,
}

-- A text that was read from `s`, up to `rest`.
abbrev pub BytesRead : ℕ → Bytes → Bytes × ℕ × Bytes → Type 0
BytesRead n s (bs, m, rest) =
    (s ≡ encode_bytes bs ++ rest) × IsNumberText (decimal (length bs)) × (m ≡ n)

sized_bytes :
    (n : ℕ) (s raw after : Bytes)
    → s ≡ raw ++ b':' ∷ after
    → decimal (number raw) ≡ raw
    → length raw ≤ max_int_digits
    → (o : Split) → OnSplit (λ a b. (after ≡ a ++ b) × (length a ≡ number raw)) o
    → OnOk (BytesRead n s) (or_truncated n o)
sized_bytes n s raw after text same short none h = tt
sized_bytes n s raw after text same short (some (bs, rest)) (parts, sized) =
    let printed : decimal (length bs) ≡ raw = ap decimal sized ∙ same in
    (
      text
          ∙ ap (λ (t : Bytes). raw ++ b':' ∷ t) parts
          ∙ sym (append_assoc raw (b':' ∷ bs) rest)
          ∙ ap (λ (t : Bytes). (t ++ b':' ∷ bs) ++ rest) (sym printed),
      rw printed short,
      refl,
    )

split_bytes :
    (n : ℕ) (s : Bytes) (o : Split)
    → OnSplit (λ a b. s ≡ a ++ b':' ∷ b) o
    → OnOk (BytesRead n s) (read_bytes n o)
unfolding read_bytes
split_bytes n s none h = tt
split_bytes n s (some (raw, after)) h = OnOk-guard (BytesRead n s) _ _ _ (λ digits_only.
    OnOk-guard (BytesRead n s) _ _ _ (λ short.
      sized_bytes n s raw after h (decimal-number raw digits_only) (leb→le _ _ short)
        (split_at (number raw) after) (split_at-OnSplit (number raw) after)))

pub read_bytes-OnOk : (n : ℕ) (s : Bytes) → OnOk (BytesRead n s) (read_bytes n (until b':' s))
read_bytes-OnOk n s = split_bytes n s (until b':' s) (until-OnSplit b':' s)

-- A value that was read from `s`, up to `rest`.
abbrev pub ValueRead : ℕ → ℕ → Bytes → BValue × ℕ × Bytes → Type 0
ValueRead depth n s (v, m, rest) =
    (s ≡ encode v ++ rest)
    × IsCanonical v
    × (depth + height v ≤ max_bencode_depth)
    × (m ≡ n + count v)
    × (m ≤ max_bencode_items)

abbrev pub ItemsRead : ℕ → ℕ → Bytes → Items × ℕ × Bytes → Type 0
ItemsRead depth n s (xs, m, rest) =
    (s ≡ encode_items xs ++ b'e' ∷ rest)
    × ItemsAreCanonical xs
    × (depth + height_items xs ≤ suc max_bencode_depth)
    × (m ≡ n + count_items xs)
    × (m ≤ max_bencode_items)

abbrev pub EntriesRead : ℕ → ℕ → List Bytes → Bytes → Entries × ℕ × Bytes → Type 0
EntriesRead depth n keys s (es, m, rest) =
    (s ≡ join (encode_entries es) ++ b'e' ∷ rest)
    × EntriesAreCanonical keys es
    × (depth + height_entries es ≤ suc max_bencode_depth)
    × (m ≡ n + count_entries es)
    × (m ≤ max_bencode_items)

-- The keys that were read, the last one first.
abbrev pub Descend : List Bytes → Type 0
Descend [] = Unit
Descend (k ∷ keys) = All (λ j. bytes_lt j k ≡ true) keys × Descend keys

module _ (depth n : ℕ) (fits : depth ≤ max_bencode_depth) (room : n + 1 ≤ max_bencode_items) where
  integer_read :
      (s raw rest : Bytes)
      → s ≡ raw ++ b'e' ∷ rest
      → is_integer raw ≡ true
      → length (digits raw) ≤ max_int_digits
      → ValueRead depth n (b'i' ∷ s) (number_of (integer raw), n + 1, rest)
  unfolding encode IsCanonical count height
  integer_read s raw rest text valid short =
      let same = integer_text-integer raw valid in
      (
        ap (λ (t : Bytes). b'i' ∷ t)
            (text
              ∙ sym (append_assoc raw (b'e' ∷ []) rest)
              ∙ ap (λ (t : Bytes). (t ++ b'e' ∷ []) ++ rest) (sym same)),
        rw same short,
        omega (arith, fits),
        refl,
        room,
      )

  pub split_integer :
      (s : Bytes) (o : Split)
      → OnSplit (λ a b. s ≡ a ++ b'e' ∷ b) o
      → OnOk (ValueRead depth n (b'i' ∷ s)) (read_integer (n + 1) o)
  unfolding read_integer
  split_integer s none h = tt
  split_integer s (some (raw, rest)) h =
      OnOk-guard (ValueRead depth n (b'i' ∷ s)) (is_integer raw) invalid_file _ (λ valid.
        OnOk-guard (ValueRead depth n (b'i' ∷ s)) (leb (length (digits raw)) max_int_digits)
          value_error (ok (number_of (integer raw), n + 1, rest))
          (λ short. integer_read s raw rest h valid (leb→le _ _ short)))

  pub bytes-ValueRead :
      (s : Bytes)
      → OnOk
          (ValueRead depth n s)
          (do (bs, m, rest) ← read_bytes (n + 1) (until b':' s); ok (bytes_of bs, m, rest))
  unfolding encode IsCanonical count height
  bytes-ValueRead s =
      OnOk-bind (BytesRead (n + 1) s) (ValueRead depth n s) _ _ (read_bytes-OnOk (n + 1) s)
        (λ (bs, m, rest) (text, printed, counted).
          (text, printed, omega (arith, fits), counted, omega (arith, counted, room)))

  pub list_read :
      (s : Bytes) (xs : Items) (m : ℕ) (rest : Bytes)
      → ItemsRead (depth + 1) (n + 1) s (xs, m, rest)
      → ValueRead depth n (b'l' ∷ s) (list_of xs, m, rest)
  unfolding encode IsCanonical count height
  list_read s xs m rest (text, canonical, deep, counted, bound) = (
    ap (λ (t : Bytes). b'l' ∷ t) (text ∙ sym (append_assoc (encode_items xs) (b'e' ∷ []) rest)),
    canonical,
    omega (arith, deep),
    omega (arith, counted),
    bound,
  )

  pub dict_read :
      (s : Bytes) (es : Entries) (m : ℕ) (rest : Bytes)
      → EntriesRead (depth + 1) (n + 1) [] s (es, m, rest)
      → ValueRead depth n (b'd' ∷ s) (dict_of es, m, rest)
  unfolding encode IsCanonical count height
  dict_read s es m rest (text, canonical, deep, counted, bound) = (
    ap (λ (t : Bytes). b'd' ∷ t)
        (text
          ∙ sym (append_assoc (join (encode_entries es)) (b'e' ∷ []) rest)
          ∙ ap (λ (t : List (Bytes × Bytes)). (join t ++ b'e' ∷ []) ++ rest)
              (sym (entries_same [] es canonical))),
    canonical,
    omega (arith, deep),
    omega (arith, counted),
    bound,
  )

pub length-encode : (v : BValue) → 0 < length (encode v)
unfolding encode
length-encode (number_of z) = omega arith
length-encode (bytes_of bs) = omega (arith, length-append (decimal (length bs)) (b':' ∷ bs))
length-encode (list_of xs) = omega arith
length-encode (dict_of es) = omega arith

pub not_before :
    (keys : List Bytes) (key : Bytes)
    → Descend keys
    → not (has_key keys key || is_before_last keys key) ≡ true
    → IsBehind keys key
unfolding has_key
not_before [] key h test = tt
not_before (k ∷ keys) key (h, hs) test =
    let last : bytes_lt k key ≡ true =
      bytes_lt_of k key (ground (arith, test)) (ground (arith, test)) in
    (last, All_imp _ _ keys (λ j below. bytes_lt_trans j k key below last) h)

pub item_read :
    (depth n : ℕ) (s : Bytes) (x : BValue) (m : ℕ) (rest : Bytes)
    → ValueRead depth n s (x, m, rest)
    → (xs : Items) (k : ℕ) (end : Bytes) → ItemsRead depth m rest (xs, k, end)
    → ItemsRead depth n s (item x xs, k, end)
unfolding encode_items ItemsAreCanonical count_items height_items
item_read depth n s x m rest (text, canonical, deep, counted, bound) xs k end
      (text', canonical', deep', counted', bound') =
    (
      text
          ∙ ap (λ (t : Bytes). encode x ++ t) text'
          ∙ sym (append_assoc (encode x) (encode_items xs) (b'e' ∷ end)),
      (canonical, canonical'),
      ground (arith, deep, deep'),
      omega (arith, counted, counted'),
      bound',
    )

pub entry_read :
    (depth n : ℕ) (keys : List Bytes) (s key : Bytes) (m : ℕ) (value_at : Bytes)
    → BytesRead n s (key, m, value_at)
    → IsBehind keys key
    → (x : BValue) (l : ℕ) (rest : Bytes) → ValueRead depth m value_at (x, l, rest)
    → (es : Entries) (j : ℕ) (end : Bytes) → EntriesRead depth l (key ∷ keys) rest (es, j, end)
    → EntriesRead depth n keys s (entry key x es, j, end)
unfolding encode_entries EntriesAreCanonical count_entries height_entries
entry_read depth n keys s key m value_at (text, printed, same) behind x l rest
      (text', canonical, deep, counted, bound) es j end
      (text'', canonical', deep', counted', bound') =
    (
      text
          ∙ ap (λ (t : Bytes). encode_bytes key ++ t)
              (text' ∙ ap (λ (t : Bytes). encode x ++ t) text'')
          ∙ sym
              (append_assoc (encode_bytes key) (encode x) (join (encode_entries es) ++ b'e' ∷ end))
          ∙ sym
              (append_assoc (encode_bytes key ++ encode x) (join (encode_entries es)) (b'e' ∷ end)),
      ((printed, behind), (canonical, canonical')),
      ground (arith, deep, deep'),
      omega (arith, same, counted, counted'),
      bound',
    )
