-- ===== src/Metainfo/Examples.antt =====
-- One small file, through the parser and back (backend/app/torrents/metainfo.py).
use world_of_seeds.Prelude.{◌≤◌, ◌≡◌, refl, ◌≢◌, true, false, [], ◌∷◌, arith, negsuc, ok, err}
use world_of_seeds.Prelude.Sorting.{lex_le}
use world_of_seeds.Metainfo.Decimal.{
  Bytes, decimal, decimal_within, number, number_from, is_decimal,
}
use world_of_seeds.Metainfo.Bytes.{until, split_at, bytes_eq, bytes_lt}
use world_of_seeds.Metainfo.Integer.{is_integer, integer, integer_text}
use world_of_seeds.Metainfo.Bencode.{
  BValue, number_of, bytes_of, list_of, dict_of, no_items, item, no_entries, entry,
  max_bencode_depth, max_bencode_items, out_of_fuel, read_integer, read_bytes, has_key, parse_value,
  encode, whole, parse,
}
use world_of_seeds.Metainfo.Printed.{IsCanonical, count, height}
use world_of_seeds.Metainfo.Paths.{
  PathNode, node, no_children, child, new_node, get_child, put_child, add_file,
}
use world_of_seeds.Metainfo.PathSet.{add_path, Represents, Agree}
use world_of_seeds.Metainfo.PathTree.{add_file-refines, new_node-Represents}
use world_of_seeds.Metainfo.RoundTrip.{parse-encode, encode-parse, parse-ends}

-- `{b"a": -5, b"b": [b"x"]}`
abbrev sample : BValue
sample = dict_of (
    entry (b'a' ∷ []) (number_of (negsuc 4))
      (entry (b'b' ∷ []) (list_of (item (bytes_of (b'x' ∷ [])) no_items)) no_entries))

abbrev content : Bytes
content =
    b'd' ∷ b'1' ∷ b':' ∷ b'a' ∷ b'i' ∷ b'-' ∷ b'5' ∷ b'e' ∷ b'1' ∷ b':' ∷ b'b' ∷ b'l' ∷ b'1' ∷ b':'
    ∷ b'x' ∷ b'e' ∷ b'e' ∷ []

sample-IsCanonical : IsCanonical sample
unfolding IsCanonical integer_text decimal decimal_within bytes_lt lex_le
sample-IsCanonical =
    ((omega arith, tt), (omega arith, ((omega arith, (refl, tt)), ((omega arith, tt), tt))))

sample_deep : height sample ≤ max_bencode_depth
unfolding height
sample_deep = ground arith

sample_many : count sample ≤ max_bencode_items
unfolding count
sample_many = omega arith

parse-encode_example : parse (encode sample) ≡ ok sample
parse-encode_example = parse-encode sample sample-IsCanonical sample_deep sample_many

parsed : parse content ≡ ok sample
unfolding parse whole parse_value read_integer read_bytes until split_at is_integer integer
    is_decimal number number_from has_key bytes_eq bytes_lt lex_le
parsed = refl

encode-parse_example :
    (content ≡ encode sample)
    × IsCanonical sample
    × (height sample ≤ max_bencode_depth)
    × (count sample ≤ max_bencode_items)
encode-parse_example = encode-parse content sample parsed

parse-ends_example : parse content ≢ err out_of_fuel
parse-ends_example = parse-ends content

-- A torrent with the file `a`.
abbrev one_file : PathNode
one_file = node false (child "a" (node true no_children) no_children)

one_file-Represents : Represents one_file (("a" ∷ []) ∷ [])
unfolding add_file add_path get_child put_child
one_file-Represents = add_file-refines ("a" ∷ []) new_node [] new_node-Represents

-- `a/b` is refused beside `a`.
add_file-refines_example :
    Agree (add_file ("a" ∷ "b" ∷ []) one_file) (add_path ("a" ∷ "b" ∷ []) (("a" ∷ []) ∷ []))
add_file-refines_example =
    add_file-refines ("a" ∷ "b" ∷ []) one_file (("a" ∷ []) ∷ []) one_file-Represents
