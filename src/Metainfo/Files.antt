-- ===== src/Metainfo/Files.antt =====
-- backend/app/torrents/metainfo.py: the name and the files of a torrent.
use world_of_seeds.Prelude.{
  ℕ, ◌+◌, String, Bool, true, false, not, ◌&&◌, ◌||◌, Option, none, some, List, [], ◌∷◌, map,
  str_eq, leb, ◌==◌, if◌then◌else◌, is_some, pos, length, any, Result, ok, err, ◌>>=◌, ◌>>◌, guard,
}
use world_of_seeds.Jobs.Validation.{codes}
use world_of_seeds.Metainfo.Bencode.{
  BValue, number_of, list_of, Items, no_items, item, Entries, MetainfoError, invalid_path,
  invalid_name, too_many_files, invalid_files, invalid_padding, invalid_size,
}
use world_of_seeds.Metainfo.Paths.{PathNode, new_node, add_file}
use world_of_seeds.Metainfo.Checks.{
  Library, TorrentContentFile, get_entry, required_dictionary, texts, or_error, is_valid_component,
  validate_components, select_utf8_bytes, validate_attributes,
}

-- `_torrent_name`
unfoldable pub torrent_name : Library → Entries → Result MetainfoError String
unfolding get_entry select_utf8_bytes is_valid_component
torrent_name lib info = do
  raw ←
      select_utf8_bytes lib (get_entry info (codes "name")) (get_entry info (codes "name.utf-8"))
        invalid_name
  name ← or_error (lib.decode_utf8 raw) invalid_name
  guard (is_valid_component lib true name) invalid_name
  ok name

abbrev pub size_of : Option BValue → Option ℕ
size_of (some (number_of (pos n))) = some n
size_of _ = none

abbrev pub items_of : Option BValue → Option Items
items_of (some (list_of no_items)) = none
items_of (some (list_of (item x xs))) = some (item x xs)
items_of _ = none

abbrev pub count_of : Items → ℕ
count_of no_items = 0
count_of (item x xs) = 1 + count_of xs

abbrev pub max_torrent_files : ℕ
max_torrent_files = 100000

abbrev pub max_torrent_path_bytes : ℕ
max_torrent_path_bytes = 2048

abbrev same_texts : List String → List String → Bool
same_texts [] [] = true
same_texts [] (y ∷ ys) = false
same_texts (x ∷ xs) [] = false
same_texts (x ∷ xs) (y ∷ ys) = str_eq x y && same_texts xs ys

-- `path` must agree with `path.utf-8`, where both are there.
abbrev check_fallback : Library → Bool → Items → List String → Result MetainfoError (Unit {0})
check_fallback lib false path components = ok tt
check_fallback lib true path components = do
  guard (count_of path == length components) invalid_path
  fallback ← texts lib invalid_path path
  guard (same_texts (map lib.nfc fallback) (map lib.nfc components)) invalid_path

abbrev starts_with_slash : String → Bool
starts_with_slash text = elim (codes text) [ [] ↦ false | ◌∷◌ c cs ↦ c == b'/' ]

-- `components[0] == ".pad"`
abbrev is_pad : List String → Bool
is_pad [] = false
is_pad (x ∷ xs) = str_eq x ".pad"

-- The path list of a file entry, and whether it is the UTF-8 one.
abbrev selected : Items → Option Items → Items
selected path none = path
selected path (some utf8) = utf8

abbrev named_path : Library → Items → Option Items → Result MetainfoError (List String)
named_path lib path utf8 = do
  components ← texts lib invalid_path (selected path utf8)
  validate_components lib true components
  check_fallback lib (is_some utf8) path components
  ok components

-- The body of the loop: the file, and the tree with its path.
unfoldable pub torrent_file :
    Library → String → ℕ → BValue → PathNode → Result MetainfoError (TorrentContentFile × PathNode)
unfolding get_entry validate_attributes validate_components add_file
torrent_file lib name index raw tree = do
  es ← required_dictionary (some raw) invalid_files
  attributes ← validate_attributes es
  let utf8 = get_entry es (codes "path.utf-8")
  size ← or_error (size_of (get_entry es (codes "length"))) invalid_files
  path ← or_error (items_of (get_entry es (codes "path"))) invalid_files
  guard (not (is_some utf8) || is_some (items_of utf8)) invalid_files
  components ← named_path lib path (items_of utf8)
  let relative = lib.join_path (name ∷ components)
  guard
      (not (starts_with_slash relative)
        && leb (length (lib.encode_utf8 relative)) max_torrent_path_bytes)
      invalid_path
  guard
      (not (any (λ c. c == b'p') attributes)
        || is_pad components && not (any (λ c. c == b'h') attributes))
      invalid_padding
  grown ← add_file (map (λ part. lib.casefold (lib.nfc part)) (name ∷ components)) tree
  ok (record { file_index = index; relative_path = relative; size = size }, grown)

unfoldable pub torrent_file_list :
    Library → String → ℕ → Items → PathNode → Result MetainfoError (List TorrentContentFile)
unfolding torrent_file
torrent_file_list lib name index no_items tree = ok []
torrent_file_list lib name index (item x xs) tree = do
  (file, grown) ← torrent_file lib name index x tree
  rest ← torrent_file_list lib name (index + 1) xs grown
  ok (file ∷ rest)

-- `_torrent_files`
unfoldable pub torrent_files :
    Library → Entries → String → Result MetainfoError (List TorrentContentFile)
unfolding get_entry validate_attributes torrent_file_list
torrent_files lib info name = do
  validated ← validate_attributes info
  let single = get_entry info (codes "length")
  let files = get_entry info (codes "files")
  let many = (do
    guard (not (is_some single)) invalid_size
    xs ← or_error (items_of files) invalid_size
    guard (leb (count_of xs) max_torrent_files) too_many_files
    torrent_file_list lib name 0 xs new_node)
  elim (size_of single) [
    | none ↦ many
    | some n ↦
        if is_some files
        then err invalid_size
        else ok (record { file_index = 0; relative_path = name; size = n } ∷ [])
  ]
