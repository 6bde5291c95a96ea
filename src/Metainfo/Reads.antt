-- ===== src/Metainfo/Reads.antt =====
-- backend/app/torrents/metainfo.py: `_Parser` on what `_encode` writes.
use world_of_seeds.Prelude.{
  ℕ, zero, suc, ◌+◌, ◌*◌, ◌≤◌, ◌≡◌, sym, ap, ◌∙◌, List, [], ◌∷◌, ◌++◌, arith, length, length-append,
  ok,
}
use mathlib.Core.List.{append_assoc}
use world_of_seeds.Metainfo.Decimal.{Bytes}
use world_of_seeds.Metainfo.Integer.{integer_text}
use world_of_seeds.Metainfo.Bencode.{
  BValue, number_of, bytes_of, list_of, dict_of, Items, no_items, item, Entries, no_entries, entry,
  max_bencode_depth, max_bencode_items, parse_value, parse_items, parse_entries, encode_bytes, join,
  encode, encode_items, encode_entries,
}
use world_of_seeds.Metainfo.Printed.{
  IsCanonical, ItemsAreCanonical, EntriesAreCanonical, count, count_items, count_entries, height,
  height_items, height_entries, entries_same,
}
use world_of_seeds.Metainfo.Steps.{
  read_bytes-encode, read_integer-encode, value_step-integer, value_step-list, value_step-dict,
  encode_bytes-IsOpen, encode-IsOpen, items_step, entries_step, behind-passes, items_end,
  entries_end, bytes_value,
}

mutual
  unfolding encode encode_items encode_entries IsCanonical ItemsAreCanonical EntriesAreCanonical
      count count_items count_entries height height_items height_entries

  -- The text of a canonical value that is within the limits is read as that value, whatever stands
  -- behind the text.
  pub parse_value-encode :
      (v : BValue) (fuel depth n : ℕ) (rest : Bytes)
      → IsCanonical v
      → 2 * length (encode v) + 1 ≤ fuel
      → depth + height v ≤ max_bencode_depth
      → n + count v ≤ max_bencode_items
      → parse_value fuel depth n (encode v ++ rest) ≡ ok (v, n + count v, rest)
  parse_value-encode v zero depth n rest h enough fits room = absurd (omega arith)
  parse_value-encode (number_of z) (suc fuel) depth n rest h enough fits room =
      rw (append_assoc (integer_text z) (b'e' ∷ []) rest) (
        value_step-integer fuel depth n (omega arith) room (integer_text z ++ b'e' ∷ rest)
        ∙ read_integer-encode (n + 1) z rest h)
  parse_value-encode (bytes_of bs) (suc fuel) depth n rest h enough fits room =
      bytes_value fuel depth n bs rest h (omega arith) room
  parse_value-encode (list_of xs) (suc fuel) depth n rest h enough fits room =
      let lengths = length-append (encode_items xs) (b'e' ∷ []) in
      rw
        (
          append_assoc (encode_items xs) (b'e' ∷ []) rest,
          value_step-list fuel depth n (omega arith) (omega arith) (encode_items xs ++ b'e' ∷ rest),
          parse_items-encode xs fuel (depth + 1) (n + 1) rest h (omega (arith, lengths))
              (omega arith) (omega arith),
        )
        (ap (λ (m : ℕ). ok (list_of xs, m, rest)) (omega arith))
  parse_value-encode (dict_of es) (suc fuel) depth n rest h enough fits room =
      let text = join (encode_entries es) in
      let lengths = length-append text (b'e' ∷ []) in
      let same = entries_same [] es h in
      let enough_left : 2 * length (text ++ b'e' ∷ []) + 2 ≤ fuel =
        rw (sym same) (omega (arith, enough)) in
      rw
        (
          same,
          append_assoc text (b'e' ∷ []) rest,
          value_step-dict fuel depth n (omega arith) (omega arith) (text ++ b'e' ∷ rest),
          parse_entries-encode es fuel (depth + 1) (n + 1) [] rest h
              (omega (arith, lengths, enough_left)) (omega arith) (omega arith),
        )
        (ap (λ (m : ℕ). ok (dict_of es, m, rest)) (omega arith))

  parse_items-encode :
      (xs : Items) (fuel depth n : ℕ) (rest : Bytes)
      → ItemsAreCanonical xs
      → 2 * length (encode_items xs) + 2 ≤ fuel
      → depth + height_items xs ≤ suc max_bencode_depth
      → n + count_items xs ≤ max_bencode_items
      → parse_items fuel depth n (encode_items xs ++ b'e' ∷ rest)
        ≡ ok (xs, n + count_items xs, rest)
  parse_items-encode xs zero depth n rest h enough fits room = absurd (omega arith)
  parse_items-encode no_items (suc fuel) depth n rest h enough fits room =
      items_end fuel depth n rest
  parse_items-encode (item x xs) (suc fuel) depth n rest (h, hs) enough fits room =
      let lengths = length-append (encode x) (encode_items xs) in
      let (c, s, same, goes_on) = encode-IsOpen x in
      let some_byte : length (encode x) ≡ suc (length s) = ap length same in
      rw
        (
          append_assoc (encode x) (encode_items xs) (b'e' ∷ rest),
          items_step fuel depth n x (encode_items xs ++ b'e' ∷ rest),
          parse_value-encode x fuel depth n (encode_items xs ++ b'e' ∷ rest) h
              (omega (arith, lengths, some_byte)) (ground arith) (omega arith),
          parse_items-encode xs fuel depth (n + count x) rest hs (omega (arith, lengths, some_byte))
              (ground arith) (omega arith),
        )
        (ap (λ (m : ℕ). ok (item x xs, m, rest)) (omega arith))

  parse_entries-encode :
      (es : Entries) (fuel depth n : ℕ) (keys : List Bytes) (rest : Bytes)
      → EntriesAreCanonical keys es
      → 2 * length (join (encode_entries es)) + 2 ≤ fuel
      → depth + height_entries es ≤ suc max_bencode_depth
      → n + count_entries es ≤ max_bencode_items
      → parse_entries fuel depth n keys (join (encode_entries es) ++ b'e' ∷ rest)
        ≡ ok (es, n + count_entries es, rest)
  parse_entries-encode es zero depth n keys rest h enough fits room = absurd (omega arith)
  parse_entries-encode no_entries (suc fuel) depth n keys rest h enough fits room =
      entries_end fuel depth n keys rest
  parse_entries-encode (entry key x es) (suc fuel) depth n keys rest ((text, behind), (h, hs))
        enough fits room =
      let left = join (encode_entries es) in
      let head_text = encode_bytes key ++ encode x in
      let lengths = length-append head_text left in
      let head_lengths = length-append (encode_bytes key) (encode x) in
      let (c, s, same, goes_on) = encode_bytes-IsOpen key in
      let some_byte : length (encode_bytes key) ≡ suc (length s) = ap length same in
      rw
        (
          append_assoc head_text left (b'e' ∷ rest),
          append_assoc (encode_bytes key) (encode x) (left ++ b'e' ∷ rest),
          entries_step fuel depth n keys key (encode x ++ (left ++ b'e' ∷ rest)),
          read_bytes-encode n key (encode x ++ (left ++ b'e' ∷ rest)) text,
          behind-passes keys key behind,
          parse_value-encode x fuel depth n (left ++ b'e' ∷ rest) h
              (omega (arith, lengths, head_lengths, some_byte)) (ground arith) (omega arith),
          parse_entries-encode es fuel depth (n + count x) (key ∷ keys) rest hs
              (omega (arith, lengths, head_lengths, some_byte)) (ground arith) (omega arith),
        )
        (ap (λ (m : ℕ). ok (entry key x es, m, rest)) (omega arith))
