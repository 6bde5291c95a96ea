-- ===== src/Metainfo/Printed.antt =====
-- backend/app/torrents/metainfo.py: the values that the parser reads back from their text, and the text
-- of one of them.
use world_of_seeds.Prelude.{
  ℕ, ◌+◌, ◌≤◌, max, ◌≡◌, refl, true, List, [], ◌∷◌, arith, length, All, All_imp, All_at,
}
use mathlib.Core.List.{Memᴰ}
use world_of_seeds.Prelude.Sorting.{lex_le_total, sort_by, IsSorted}
use world_of_seeds.Prelude.Sorting.{sort_by_same}
use world_of_seeds.Metainfo.Decimal.{Bytes, decimal}
use world_of_seeds.Metainfo.Bytes.{bytes_lt}
use world_of_seeds.Metainfo.Integer.{digits, integer_text}
use world_of_seeds.Metainfo.Bencode.{
  BValue, number_of, bytes_of, list_of, dict_of, Items, no_items, item, Entries, no_entries, entry,
  max_int_digits, encode_entries,
}

-- The key stands behind every key before it.
abbrev pub IsBehind : List Bytes → Bytes → Type 0
IsBehind keys key = All (λ k. bytes_lt k key ≡ true) keys

abbrev pub IsNumberText : Bytes → Type 0
IsNumberText digits = length digits ≤ max_int_digits

-- The numbers are such that `int` takes their text, and the keys of each dictionary ascend.
unfoldable mutual
  unfolding bytes_lt integer_text decimal

  pub IsCanonical : BValue → Type 0
  IsCanonical (number_of z) = IsNumberText (digits (integer_text z))
  IsCanonical (bytes_of bs) = IsNumberText (decimal (length bs))
  IsCanonical (list_of xs) = ItemsAreCanonical xs
  IsCanonical (dict_of es) = EntriesAreCanonical [] es

  pub ItemsAreCanonical : Items → Type 0
  ItemsAreCanonical no_items = Unit
  ItemsAreCanonical (item x xs) = IsCanonical x × ItemsAreCanonical xs

  pub EntriesAreCanonical : List Bytes → Entries → Type 0
  EntriesAreCanonical keys no_entries = Unit
  EntriesAreCanonical keys (entry key x es) =
      (IsNumberText (decimal (length key)) × IsBehind keys key)
      × (IsCanonical x × EntriesAreCanonical (key ∷ keys) es)

-- How many values there are, as `items` counts them.
unfoldable mutual
  pub count : BValue → ℕ
  count (number_of z) = 1
  count (bytes_of bs) = 1
  count (list_of xs) = 1 + count_items xs
  count (dict_of es) = 1 + count_entries es

  pub count_items : Items → ℕ
  count_items no_items = 0
  count_items (item x xs) = count x + count_items xs

  pub count_entries : Entries → ℕ
  count_entries no_entries = 0
  count_entries (entry key x es) = count x + count_entries es

-- How deep the lists and dictionaries stand in each other.
unfoldable mutual
  pub height : BValue → ℕ
  height (number_of z) = 0
  height (bytes_of bs) = 0
  height (list_of xs) = height_items xs
  height (dict_of es) = height_entries es

  pub height_items : Items → ℕ
  height_items no_items = 0
  height_items (item x xs) = max (1 + height x) (height_items xs)

  pub height_entries : Entries → ℕ
  height_entries no_entries = 0
  height_entries (entry key x es) = max (1 + height x) (height_entries es)

above :
    (keys : List Bytes) (key : Bytes) (es : Entries)
    → Memᴰ key keys
    → EntriesAreCanonical keys es
    → All (λ e. bytes_lt key e.0 ≡ true) (encode_entries es)
unfolding EntriesAreCanonical encode_entries
above keys key no_entries m h = tt
above keys key (entry k x es) m ((text, behind), rest) =
    (All_at _ keys behind m, above (k ∷ keys) key es (Memᴰ.tail m) rest.1)

-- `_encode` writes such entries in the order they have.
entries-IsSorted :
    (keys : List Bytes) (es : Entries)
    → EntriesAreCanonical keys es
    → IsSorted (λ e. e.0) (encode_entries es)
unfolding EntriesAreCanonical encode_entries
entries-IsSorted keys no_entries h = tt
entries-IsSorted keys (entry k x es) (behind, rest) = (
  All_imp _ _ (encode_entries es) (λ e h. ground (arith, h, lex_le_total e.0 k))
      (above (k ∷ keys) k es (Memᴰ.head refl) rest.1),
  entries-IsSorted (k ∷ keys) es rest.1,
)

pub entries_same :
    (keys : List Bytes) (es : Entries)
    → EntriesAreCanonical keys es
    → sort_by (λ e. e.0) (encode_entries es) ≡ encode_entries es
entries_same keys es h = sort_by_same _ (encode_entries es) (entries-IsSorted keys es h)
