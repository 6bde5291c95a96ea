-- ===== src/Metainfo/Scan.antt =====
-- backend/app/torrents/metainfo.py: the bytes that the second parser takes for `info`.
use world_of_seeds.Prelude.{
  ℕ, zero, suc, ◌+◌, ◌-◌, ◌*◌, ◌≤◌, ◌≡◌, refl, ap, Option, some, List, [], ◌∷◌, ◌++◌, arith,
  if◌then◌else◌, length, take, length-append, ok, ◌>>=◌,
}
use mathlib.Core.List.{append_assoc}
use world_of_seeds.Metainfo.Decimal.{Bytes}
use world_of_seeds.Metainfo.Bytes.{until, bytes_eq}
use world_of_seeds.Metainfo.Bencode.{
  Entries, no_entries, entry, max_bencode_depth, max_bencode_items, read_bytes, parse_value, encode,
  encode_bytes, encode_entries, join,
}
use world_of_seeds.Metainfo.Printed.{EntriesAreCanonical, count_entries, height_entries, count}
use world_of_seeds.Metainfo.Steps.{read_bytes-encode, encode_bytes-IsOpen}
use world_of_seeds.Metainfo.Reads.{parse_value-encode}
use world_of_seeds.Metainfo.Rewrite.{info_key, scan_info}

-- The text of the last `info`.
abbrev pub last_info : Option Bytes → Entries → Option Bytes
last_info raw no_entries = raw
last_info raw (entry key v es) =
    last_info (if bytes_eq key info_key then some (encode v) else raw) es

take-append : (xs ys : Bytes) → take (length (xs ++ ys) - length ys) (xs ++ ys) ≡ xs
take-append xs ys =
    let n : length (xs ++ ys) - length ys ≡ length xs = omega (arith, length-append xs ys) in
    rw n (take_length xs ys)
  where
    take_length : (xs ys : Bytes) → take (length xs) (xs ++ ys) ≡ xs
    take_length [] ys = refl
    take_length (x ∷ xs) ys = ap (λ (zs : Bytes). x ∷ zs) (take_length xs ys)

scan_step :
    (fuel n : ℕ) (key tail : Bytes) (raw : Option Bytes)
    → scan_info (suc fuel) n (encode_bytes key ++ tail) raw ≡ (do
      (read, m, value_at) ← read_bytes n (until b':' (encode_bytes key ++ tail))
      (v, k, rest) ← parse_value fuel 1 m value_at
      scan_info fuel k rest (
          if bytes_eq read info_key
          then some (take (length value_at - length rest) value_at)
          else raw))
unfolding scan_info
scan_step fuel n key tail raw =
    let (c, s, same, goes_on) = encode_bytes-IsOpen key in rw (same, goes_on) refl

scan_end :
    (fuel n : ℕ) (rest : Bytes) (raw : Option Bytes)
    → scan_info (suc fuel) n (b'e' ∷ rest) raw ≡ ok raw
unfolding scan_info
scan_end fuel n rest raw = refl

pub scan_info-encode :
    (es : Entries) (fuel n : ℕ) (keys : List Bytes) (rest : Bytes) (raw : Option Bytes)
    → EntriesAreCanonical keys es
    → 2 * length (join (encode_entries es)) + 2 ≤ fuel
    → 1 + height_entries es ≤ suc max_bencode_depth
    → n + count_entries es ≤ max_bencode_items
    → scan_info fuel n (join (encode_entries es) ++ b'e' ∷ rest) raw ≡ ok (last_info raw es)
unfolding EntriesAreCanonical height_entries count_entries encode_entries
scan_info-encode es zero n keys rest raw h enough fits room = absurd (omega arith)
scan_info-encode no_entries (suc fuel) n keys rest raw h enough fits room = scan_end fuel n rest raw
scan_info-encode (entry key x es) (suc fuel) n keys rest raw ((text, behind), (h, hs)) enough fits
      room =
    let left = join (encode_entries es) in
    let head_text = encode_bytes key ++ encode x in
    let lengths = length-append head_text left in
    let head_lengths = length-append (encode_bytes key) (encode x) in
    let (c, s, same, goes_on) = encode_bytes-IsOpen key in
    let some_byte : length (encode_bytes key) ≡ suc (length s) = ap length same in
    let value =
      parse_value-encode x fuel 1 n (left ++ b'e' ∷ rest) h
        (omega (arith, lengths, head_lengths, some_byte)) (ground (arith, fits))
        (omega (arith, room)) in
    rw
      (
        append_assoc head_text left (b'e' ∷ rest),
        append_assoc (encode_bytes key) (encode x) (left ++ b'e' ∷ rest),
        scan_step fuel n key (encode x ++ (left ++ b'e' ∷ rest)) raw,
        read_bytes-encode n key (encode x ++ (left ++ b'e' ∷ rest)) text,
        value,
        take-append (encode x) (left ++ b'e' ∷ rest),
      )
      (scan_info-encode es fuel (n + count x) (key ∷ keys) rest
        (if bytes_eq key info_key then some (encode x) else raw) hs
        (omega (arith, lengths, head_lengths, some_byte)) (ground (arith, fits))
        (omega (arith, room)))
