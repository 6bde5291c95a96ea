-- ===== src/Metainfo/Bencode.antt =====
-- backend/app/torrents/metainfo.py: bencoded values, `_Parser` and `_encode`. The parser's position is
-- the list of the bytes from there on.
use world_of_seeds.Prelude.{
  ℕ, zero, suc, ◌+◌, ◌*◌, Bool, false, not, ◌||◌, none, some, List, [], ◌∷◌, ◌++◌, leb, ◌==◌,
  if◌then◌else◌, ℤ, length, Result, ok, err, ◌>>=◌, ◌>>◌, guard,
}
use world_of_seeds.Prelude.Sorting.{sort_by}
use world_of_seeds.Prelude.Dict.{keys}
use world_of_seeds.Metainfo.Decimal.{Bytes, is_digit, decimal, number, is_decimal}
use world_of_seeds.Metainfo.Bytes.{Split, until, split_at, bytes_eq, bytes_lt}
use world_of_seeds.Metainfo.Integer.{is_integer, digits, integer, integer_text}

abbrev pub max_bencode_depth : ℕ
max_bencode_depth = 64

abbrev pub max_bencode_items : ℕ
max_bencode_items = 200000

-- `int` refuses a longer text (`sys.int_info.default_max_str_digits`).
abbrev pub max_int_digits : ℕ
max_int_digits = 4300

-- The messages of `TorrentValidationError`. `value_error` is what `int` raises, which is none
-- of them, and `out_of_fuel` has no counterpart in the code.
pub data MetainfoError : Type 0 where
  invalid_file too_many_items truncated not_canonical superfluous_bytes invalid_path empty_file
        invalid_root unsupported no_info invalid_pieces invalid_piece_length invalid_name
        invalid_attributes unsafe_attributes too_many_files invalid_files invalid_padding
        invalid_size too_large no_tracker invalid_tracker_list invalid_tracker_url unknown_tracker
        value_error out_of_fuel :
      MetainfoError

mutual
  pub data BValue : Type 0 where
    number_of : ℤ → BValue
    bytes_of : Bytes → BValue
    list_of : Items → BValue
    dict_of : Entries → BValue

  pub data Items : Type 0 where
    no_items : Items
    item : BValue → Items → Items

  -- A dictionary in the order of insertion.
  pub data Entries : Type 0 where
    no_entries : Entries
    entry : Bytes → BValue → Entries → Entries

-- What a read returns, the items counted so far, and the bytes from the new position on.
abbrev pub Read : Type 0 → Type 0
Read A = Result MetainfoError (A × ℕ × Bytes)

-- `_integer`, behind the marker
unfoldable pub read_integer : ℕ → Split → Read BValue
unfolding is_integer integer
read_integer n none = err invalid_file
read_integer n (some (raw, rest)) = do
  guard (is_integer raw) invalid_file
  guard (leb (length (digits raw)) max_int_digits) value_error
  ok (number_of (integer raw), n, rest)

abbrev pub or_truncated : ℕ → Split → Read Bytes
or_truncated n none = err truncated
or_truncated n (some (read, rest)) = ok (read, n, rest)

-- `_bytes`, for the split at the colon
unfoldable pub read_bytes : ℕ → Split → Read Bytes
unfolding is_decimal number split_at
read_bytes n none = err invalid_file
read_bytes n (some (raw_length, rest)) = do
  guard (is_decimal raw_length) invalid_file
  guard (leb (length raw_length) max_int_digits) value_error
  or_truncated n (split_at (number raw_length) rest)

-- `key in result`, and `key < previous` for the last key; the keys stand in the reverse order.
unfoldable pub has_key : List Bytes → Bytes → Bool
unfolding bytes_eq
has_key [] key = false
has_key (k ∷ keys) key = bytes_eq k key || has_key keys key

abbrev pub is_before_last : List Bytes → Bytes → Bool
is_before_last [] key = false
is_before_last (k ∷ keys) key = bytes_lt key k

-- `parse`, and the loops of `_list` and `_dictionary`. Each call costs a unit of fuel.
unfoldable mutual
  unfolding read_integer read_bytes until has_key bytes_lt

  pub parse_value : ℕ → ℕ → ℕ → Bytes → Read BValue
  parse_value zero depth n s = err out_of_fuel
  parse_value (suc fuel) depth n [] = err invalid_file
  parse_value (suc fuel) depth n (marker ∷ s) =
      let as_list = (do
        (xs, m, rest) ← parse_items fuel (depth + 1) (n + 1) s
        ok (list_of xs, m, rest)) in
      let as_dict = (do
        (es, m, rest) ← parse_entries fuel (depth + 1) (n + 1) [] s
        ok (dict_of es, m, rest)) in
      let as_bytes = (do
        (bs, m, rest) ← read_bytes (n + 1) (until b':' (marker ∷ s))
        ok (bytes_of bs, m, rest)) in
      guard (leb depth max_bencode_depth) invalid_file
      >> (guard (leb (n + 1) max_bencode_items) too_many_items
          >> (if marker == b'i'
              then read_integer (n + 1) (until b'e' s)
              else if marker == b'l'
              then as_list
              else if marker == b'd'
              then as_dict
              else if is_digit marker
              then as_bytes
              else err invalid_file))

  pub parse_items : ℕ → ℕ → ℕ → Bytes → Read Items
  parse_items zero depth n s = err out_of_fuel
  parse_items (suc fuel) depth n [] = err truncated
  parse_items (suc fuel) depth n (c ∷ s) =
      let more = (do
        (x, m, rest) ← parse_value fuel depth n (c ∷ s)
        (xs, k, end) ← parse_items fuel depth m rest
        ok (item x xs, k, end)) in
      if c == b'e' then ok (no_items, n, s) else more

  pub parse_entries : ℕ → ℕ → ℕ → List Bytes → Bytes → Read Entries
  parse_entries zero depth n keys s = err out_of_fuel
  parse_entries (suc fuel) depth n keys [] = err truncated
  parse_entries (suc fuel) depth n keys (c ∷ s) =
      let more = (do
        (key, m, value_at) ← read_bytes n (until b':' (c ∷ s))
        guard (not (has_key keys key || is_before_last keys key)) not_canonical
        (x, k, rest) ← parse_value fuel depth m value_at
        (es, l, end) ← parse_entries fuel depth k (key ∷ keys) rest
        ok (entry key x es, l, end)) in
      if c == b'e' then ok (no_entries, n, s) else more

abbrev pub encode_bytes : Bytes → Bytes
encode_bytes bs = decimal (length bs) ++ b':' ∷ bs

abbrev pub join : List (Bytes × Bytes) → Bytes
join [] = []
join ((key, value) ∷ es) = (encode_bytes key ++ value) ++ join es

-- `_encode`
unfoldable mutual
  unfolding integer_text decimal sort_by

  pub encode : BValue → Bytes
  encode (number_of z) = b'i' ∷ (integer_text z ++ b'e' ∷ [])
  encode (bytes_of bs) = encode_bytes bs
  encode (list_of xs) = b'l' ∷ (encode_items xs ++ b'e' ∷ [])
  encode (dict_of es) = b'd' ∷ (join (sort_by (λ e. e.0) (encode_entries es)) ++ b'e' ∷ [])

  pub encode_items : Items → Bytes
  encode_items no_items = []
  encode_items (item x xs) = encode x ++ encode_items xs

  pub encode_entries : Entries → List (Bytes × Bytes)
  encode_entries no_entries = []
  encode_entries (entry key x es) = (key, encode x) ∷ encode_entries es

-- Enough fuel for every input of this length: a value and each round of a loop take a byte.
abbrev pub fuel_for : Bytes → ℕ
fuel_for content = 2 * length content + 2

unfoldable pub whole : BValue × ℕ × Bytes → Result MetainfoError BValue
whole (v, n, []) = ok v
whole (v, n, c ∷ rest) = err superfluous_bytes

-- `_Parser(content).parse()` and the check that nothing is left.
unfoldable pub parse : Bytes → Result MetainfoError BValue
unfolding parse_value whole
parse content = do r ← parse_value (fuel_for content) 0 0 content; whole r
