-- ===== src/Metainfo/RewriteExamples.antt =====
-- A small torrent, with a library that knows it (backend/app/torrents/metainfo.py).
use world_of_seeds.Prelude.{
  ◌++◌, ◌≡◌, refl, Bool, true, false, none, some, [], ◌∷◌, ◌==◌, Result, ok, err, OnOk,
}
use world_of_seeds.Prelude.Sorting.{lex_le, insert_by, sort_by}
use world_of_seeds.Jobs.Validation.{codes}
use world_of_seeds.Metainfo.Decimal.{
  Bytes, decimal, decimal_within, number, number_from, is_decimal,
}
use world_of_seeds.Metainfo.Bytes.{until, split_at, bytes_eq, bytes_lt}
use world_of_seeds.Metainfo.Integer.{is_integer, integer, integer_text}
use world_of_seeds.Metainfo.Bencode.{
  MetainfoError, read_integer, read_bytes, has_key, parse_value, encode, whole, parse,
}
use world_of_seeds.Metainfo.Checks.{
  Library, get_entry, is_valid_component, select_utf8_bytes, validate_attributes,
}
use world_of_seeds.Metainfo.Files.{torrent_name, torrent_files}
use world_of_seeds.Metainfo.Rewrite.{
  ParsedTorrent, RewriteOptions, tracker_url, set_entry, pop_entries, normalize_trackers, scan_info,
  entry_texts, rewrite_torrent,
}
use world_of_seeds.Metainfo.Identity.{Rewrites, rewrite-Rewrites}

abbrev library : Library
library = record {
  decode_utf8 = λ bs. some "a";
  encode_utf8 = λ s. codes s;
  nfc = λ s. s;
  casefold = λ s. s;
  category = λ c. "Ll";
  urlsplit = λ bs. some (record {
    scheme = "http";
    hostname = some "x";
    username = none;
    password = none;
    port = none;
  });
  lower = λ s. s;
  urlunsplit = λ scheme host path. codes scheme ++ codes "://" ++ host ++ path;
  quote = λ s. s;
  sha1 = λ bs. "0123";
  join_path = λ parts. "a";
}

abbrev options : RewriteOptions
options = record { passkey = none; allowed_tracker_hosts = "x" ∷ []; max_total_size = 100 }

abbrev content : Bytes
content =
    codes
      "d8:announce8:http://x7:comment2:hi4:infod6:lengthi7e4:name1:a12:piece lengthi9e6:pieces20:aaaaaaaaaaaaaaaaaaaaee"

abbrev is_rewritten : Result MetainfoError ParsedTorrent → Bool
is_rewritten (ok r) = r.total_size == 7
is_rewritten (err e) = false

rewritten : is_rewritten (rewrite_torrent library options content) ≡ true
unfolding rewrite_torrent parse whole parse_value read_integer read_bytes until split_at is_integer
    integer is_decimal number number_from has_key bytes_eq bytes_lt lex_le get_entry
    is_valid_component select_utf8_bytes validate_attributes torrent_name torrent_files tracker_url
    set_entry pop_entries normalize_trackers scan_info entry_texts encode sort_by insert_by decimal
    decimal_within integer_text
rewritten = refl

rewrite-Rewrites_example : OnOk (Rewrites library content) (rewrite_torrent library options content)
rewrite-Rewrites_example = rewrite-Rewrites library options content
