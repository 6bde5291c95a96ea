-- ===== src/Metainfo/Checks.antt =====
-- backend/app/torrents/metainfo.py: the checks of names, attributes and paths. Texts are Python's, and what
-- the Unicode database, `urllib` and `hashlib` compute is given by a record.
use world_of_seeds.Prelude.{
  ℕ, String, Bool, false, not, ◌&&◌, ◌||◌, Option, none, some, List, [], ◌∷◌, str_eq, ltb, leb,
  ◌==◌, if◌then◌else◌, between, is_some, length, all, Result, ok, err, ◌>>=◌, ◌>>◌, guard,
}
use world_of_seeds.Jobs.Validation.{codes}
use world_of_seeds.Metainfo.Decimal.{Bytes}
use world_of_seeds.Metainfo.Bytes.{bytes_eq}
use world_of_seeds.Metainfo.Bencode.{
  BValue, bytes_of, dict_of, Items, no_items, item, Entries, no_entries, entry, MetainfoError,
  invalid_path, invalid_attributes, unsafe_attributes,
}

-- `urlsplit(value)` with its `port`
pub record SplitUrl : Type 0 where
  pub scheme : String
  pub hostname : Option String
  pub username : Option String
  pub password : Option String
  pub port : Option ℕ

-- What the code takes from the interpreter's tables and libraries, by their names there. `decode_utf8` and
-- `urlsplit` give none where the code catches an exception of theirs; `join_path` is
-- `PurePosixPath(*parts).as_posix()`, and `urlunsplit` takes the scheme, the host with its port and the path.
pub record Library : Type 0 where
  pub decode_utf8 : Bytes → Option String
  pub encode_utf8 : String → Bytes
  pub nfc : String → String
  pub casefold : String → String
  pub category : ℕ → String
  pub lower : String → String
  pub urlsplit : Bytes → Option SplitUrl
  pub urlunsplit : String → List ℕ → List ℕ → Bytes
  pub quote : String → String
  pub sha1 : Bytes → String
  pub join_path : List String → String

pub record TorrentContentFile : Type 0 where
  pub file_index : ℕ
  pub relative_path : String
  pub size : ℕ

-- `value.get(field)`, and the types that `isinstance` tells apart
unfoldable pub get_entry : Entries → Bytes → Option BValue
unfolding bytes_eq
get_entry no_entries key = none
get_entry (entry k v es) key = if bytes_eq k key then some v else get_entry es key

abbrev pub get_bytes : Option BValue → MetainfoError → Result MetainfoError Bytes
get_bytes (some (bytes_of bs)) e = ok bs
get_bytes _ e = err e

abbrev pub required_dictionary : Option BValue → MetainfoError → Result MetainfoError Entries
required_dictionary (some (dict_of es)) e = ok es
required_dictionary _ e = err e

abbrev pub or_error {ℓ} : {A : Type ℓ} → Option A → MetainfoError → Result MetainfoError A
or_error none e = err e
or_error (some a) e = ok a

-- The collected texts of a path. The two messages of `TorrentValidationError`, for a component that is no
-- byte string and for one that is not UTF-8, are one error, and the components are validated afterwards.
abbrev pub texts : Library → MetainfoError → Items → Result MetainfoError (List String)
texts lib e no_items = ok []
texts lib e (item x xs) = do
  bs ← get_bytes (some x) e
  text ← or_error (lib.decode_utf8 bs) e
  rest ← texts lib e xs
  ok (text ∷ rest)

abbrev is_bidi : ℕ → Bool
is_bidi c = between 8234 8238 c || between 8294 8297 c

-- `_UNSAFE_CHARACTER_CATEGORIES`
abbrev is_unsafe_category : String → Bool
is_unsafe_category category = str_eq category "Cc" || str_eq category "Zl" || str_eq category "Zp"

abbrev is_letter : ℕ → Bool
is_letter c = between b'A' b'Z' c || between b'a' b'z' c

-- `^[A-Za-z]:$`
abbrev is_drive : List ℕ → Bool
is_drive (c ∷ d ∷ []) = is_letter c && d == b':'
is_drive _ = false

abbrev ends_badly : List ℕ → Bool
ends_badly [] = false
ends_badly (c ∷ []) = c == b' ' || c == b'.'
ends_badly (c ∷ d ∷ cs) = ends_badly (d ∷ cs)

abbrev pub max_component_bytes : ℕ
max_component_bytes = 255

unfoldable pub is_valid_component : Library → Bool → String → Bool
is_valid_component lib first component =
    not (length (codes component) == 0)
    && not (str_eq component "." || str_eq component "..")
    && all (λ c. not (c == b'/' || c == b'\\' || c == 0)) (codes component)
    && leb (length (lib.encode_utf8 component)) max_component_bytes
    && not (ends_badly (codes component))
    && all (λ c. not (is_unsafe_category (lib.category c) || is_bidi c)) (codes component)
    && not (first && is_drive (codes component))

-- `_validate_component` on each part of a path, the first of which may not be a drive.
unfoldable pub validate_components : Library → Bool → List String → Result MetainfoError (Unit {0})
unfolding is_valid_component
validate_components lib first [] = ok tt
validate_components lib first (x ∷ xs) = do
  guard (is_valid_component lib first x) invalid_path
  validate_components lib false xs

-- `_select_utf8_bytes`
unfoldable pub select_utf8_bytes :
    Library → Option BValue → Option BValue → MetainfoError → Result MetainfoError Bytes
select_utf8_bytes lib raw none e = get_bytes raw e
select_utf8_bytes lib none (some v) e = get_bytes (some v) e
select_utf8_bytes lib (some r) (some v) e = do
  utf8 ← get_bytes (some v) e
  bs ← get_bytes (some r) e
  decoded ← or_error (lib.decode_utf8 bs) e
  decoded_utf8 ← or_error (lib.decode_utf8 utf8) e
  guard (str_eq (lib.nfc decoded) (lib.nfc decoded_utf8)) e
  ok utf8

abbrev attributes_of : Option BValue → Result MetainfoError Bytes
attributes_of none = ok []
attributes_of (some (bytes_of bs)) = do guard (all (λ c. ltb c 128) bs) invalid_attributes; ok bs
attributes_of (some _) = err invalid_attributes

-- `_validate_attributes`: the characters of `attr`
unfoldable pub validate_attributes : Entries → Result MetainfoError Bytes
unfolding get_entry
validate_attributes es = do
  attributes ← attributes_of (get_entry es (codes "attr"))
  guard
      (not (is_some (get_entry es (codes "symlink path")))
        && all (λ c. c == b'p' || c == b'h') attributes)
      unsafe_attributes
  ok attributes
