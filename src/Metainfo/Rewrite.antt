-- ===== src/Metainfo/Rewrite.antt =====
-- backend/app/torrents/metainfo.py: the trackers, and the file that is written in place of the given one.
use world_of_seeds.Prelude.{
  ℕ, zero, suc, ◌-◌, ◌%◌, String, Bool, true, not, ◌&&◌, ◌||◌, Option, none, some, List, [], ◌∷◌,
  ◌++◌, map, str_eq, ltb, leb, ◌==◌, if◌then◌else◌, is_some, length, take, any, all, sum_of, Result,
  ok, err, ◌>>=◌, ◌>>◌, guard,
}
use world_of_seeds.Prelude.Sorting.{sort_by}
use world_of_seeds.Jobs.Validation.{codes}
use world_of_seeds.Metainfo.Decimal.{Bytes, decimal}
use world_of_seeds.Metainfo.Bytes.{until, bytes_eq}
use world_of_seeds.Metainfo.Bencode.{
  BValue, bytes_of, list_of, Items, no_items, item, Entries, no_entries, entry, MetainfoError,
  invalid_file, out_of_fuel, read_bytes, parse_value, encode, join, fuel_for, parse, empty_file,
  invalid_root, unsupported, no_info, invalid_pieces, invalid_piece_length, too_large, no_tracker,
  invalid_tracker_list, invalid_tracker_url, unknown_tracker,
}
use world_of_seeds.Metainfo.Checks.{
  Library, TorrentContentFile, get_entry, get_bytes, required_dictionary, or_error,
}
use world_of_seeds.Metainfo.Files.{torrent_name, torrent_files, size_of, items_of}

pub record ParsedTorrent : Type 0 where
  pub content : Bytes
  pub info_hash : String
  pub name : String
  pub total_size : ℕ
  pub files : List TorrentContentFile

-- What the callers choose: `normalize_torrent` gives a passkey, `sanitize_torrent` none.
pub record RewriteOptions : Type 0 where
  pub passkey : Option String
  pub allowed_tracker_hosts : List String
  pub max_total_size : ℕ

abbrev is_http : String → Bool
is_http scheme = str_eq scheme "http"

abbrev is_port : Option ℕ → Bool
is_port none = true
is_port (some p) = p == 80 || p == 443

abbrev without_80 : Option ℕ → Option ℕ
without_80 none = none
without_80 (some p) = if p == 80 then none else some p

-- `netloc` and `path`
abbrev netloc : String → Option ℕ → List ℕ
netloc host none = codes host
netloc host (some port) = codes host ++ b':' ∷ decimal port

abbrev announce_path : Library → Option String → List ℕ
announce_path lib none = codes "/announce"
announce_path lib (some passkey) = codes "/announce/" ++ codes (lib.quote passkey)

-- `_tracker_url`
unfoldable pub tracker_url : Library → RewriteOptions → Bytes → Result MetainfoError Bytes
unfolding decimal
tracker_url lib options raw = do
  guard (all (λ c. ltb c 128) raw) invalid_tracker_url
  url ← or_error (lib.urlsplit raw) invalid_tracker_url
  host ← or_error url.hostname unknown_tracker
  guard
      ((is_http url.scheme || str_eq url.scheme "https")
        && any (λ h. str_eq (lib.lower h) (lib.lower host)) options.allowed_tracker_hosts
        && not (is_some url.username || is_some url.password)
        && is_port url.port)
      unknown_tracker
  let upgraded = is_some options.passkey && is_http url.scheme
  ok (
      lib.urlunsplit (if upgraded then "https" else url.scheme)
        (netloc (lib.lower host) (if upgraded then without_80 url.port else url.port))
        (announce_path lib options.passkey))

-- `metainfo[key] = value` for a key that is there, and `metainfo.pop(key, None)`
unfoldable pub set_entry : Bytes → BValue → Entries → Entries
unfolding bytes_eq
set_entry key v no_entries = no_entries
set_entry key v (entry k w es) =
    let rest = set_entry key v es in if bytes_eq k key then entry k v es else entry k w rest

unfoldable pub pop_entries : List Bytes → Entries → Entries
unfolding bytes_eq
pop_entries keys no_entries = no_entries
pop_entries keys (entry k w es) =
    let rest = pop_entries keys es in if any (bytes_eq k) keys then rest else entry k w rest

unfoldable pub tracker_tier : Library → RewriteOptions → Items → Result MetainfoError Items
unfolding tracker_url
tracker_tier lib options no_items = ok no_items
tracker_tier lib options (item x xs) = do
  raw ← get_bytes (some x) invalid_tracker_list
  url ← tracker_url lib options raw
  rest ← tracker_tier lib options xs
  ok (item (bytes_of url) rest)

unfoldable pub tracker_tiers : Library → RewriteOptions → Items → Result MetainfoError Items
unfolding tracker_tier
tracker_tiers lib options no_items = ok no_items
tracker_tiers lib options (item x xs) = do
  tier ← or_error (items_of (some x)) invalid_tracker_list
  urls ← tracker_tier lib options tier
  rest ← tracker_tiers lib options xs
  ok (item (list_of urls) rest)

-- `_normalize_trackers`
unfoldable pub normalize_trackers :
    Library → RewriteOptions → Entries → Result MetainfoError Entries
unfolding get_entry tracker_url tracker_tiers set_entry
normalize_trackers lib options metainfo = do
  announce ← get_bytes (get_entry metainfo (codes "announce")) no_tracker
  url ← tracker_url lib options announce
  let announced = set_entry (codes "announce") (bytes_of url) metainfo
  let tiers = get_entry metainfo (codes "announce-list")
  let listed = (do
    xs ← or_error (items_of tiers) invalid_tracker_list
    urls ← tracker_tiers lib options xs
    ok (set_entry (codes "announce-list") (list_of urls) announced))
  if is_some tiers then listed else ok announced

-- `_PEER_DISCOVERY_FIELDS`
abbrev pub peer_discovery_fields : List Bytes
peer_discovery_fields = map codes (
    "url-list" ∷ "httpseeds" ∷ "nodes" ∷ "comment" ∷ "comment.utf-8" ∷ "created by" ∷ "publisher"
    ∷ "publisher.utf-8" ∷ "publisher-url" ∷ "publisher-url.utf-8" ∷ [])

abbrev pub info_key : Bytes
info_key = codes "info"

-- The second parser: the bytes of the value of `info`, the last one.
unfoldable pub scan_info : ℕ → ℕ → Bytes → Option Bytes → Result MetainfoError (Option Bytes)
unfolding read_bytes until parse_value bytes_eq
scan_info zero n s raw = err out_of_fuel
scan_info (suc fuel) n [] raw = ok raw
scan_info (suc fuel) n (c ∷ s) raw =
    let more = (do
      (key, m, value_at) ← read_bytes n (until b':' (c ∷ s))
      (v, k, rest) ← parse_value fuel 1 m value_at
      scan_info fuel k rest (
          if bytes_eq key info_key
          then some (take (length value_at - length rest) value_at)
          else raw)) in
    if c == b'e' then ok raw else more

abbrev pub info_bytes : Bytes → Result MetainfoError (Option Bytes)
info_bytes [] = err invalid_file
info_bytes (c ∷ s) = do guard (c == b'd') invalid_file; scan_info (fuel_for (c ∷ s)) 0 s none

-- The texts of the entries, that of `info` as it was given.
unfoldable pub entry_texts : Bytes → Entries → List (Bytes × Bytes)
unfolding bytes_eq encode
entry_texts raw no_entries = []
entry_texts raw (entry key v es) =
    (key, if bytes_eq key info_key then raw else encode v) ∷ entry_texts raw es

abbrev pub check_pieces : Entries → Result MetainfoError (Unit {0})
check_pieces info = do
  pieces ← get_bytes (get_entry info (codes "pieces")) invalid_pieces
  guard (not (length pieces == 0) && length pieces % 20 == 0) invalid_pieces
  piece_length ← or_error (size_of (get_entry info (codes "piece length"))) invalid_piece_length
  guard (not (piece_length == 0)) invalid_piece_length

abbrev pub is_unsupported : Entries → Bool
is_unsupported info =
    is_some (get_entry info (codes "file tree"))
    || is_some (get_entry info (codes "meta version"))
    || is_some (get_entry info (codes "pieces root"))

-- `_rewrite_torrent`
unfoldable pub rewrite_torrent :
    Library → RewriteOptions → Bytes → Result MetainfoError ParsedTorrent
unfolding parse get_entry scan_info torrent_name torrent_files normalize_trackers pop_entries
    entry_texts sort_by
rewrite_torrent lib options content = do
  guard (not (length content == 0)) empty_file
  value ← parse content
  metainfo ← required_dictionary (some value) invalid_root
  info ← required_dictionary (get_entry metainfo info_key) no_info
  guard (not (is_unsupported info)) unsupported
  found ← info_bytes content
  raw ← or_error found no_info
  check_pieces info
  name ← torrent_name lib info
  files ← torrent_files lib info name
  let total = sum_of (λ (f : TorrentContentFile). f.size) files
  guard (leb total options.max_total_size) too_large
  normalized ← normalize_trackers lib options metainfo
  let kept = pop_entries peer_discovery_fields normalized
  ok (record {
    content = b'd' ∷ (join (sort_by (λ e. e.0) (entry_texts raw kept)) ++ b'e' ∷ []);
    info_hash = lib.sha1 raw;
    name = name;
    total_size = total;
    files = files;
  })
