-- ===== src/Metainfo/Identity.antt =====
-- backend/app/torrents/metainfo.py: the rewritten file has the same `info`, and nothing that names peers.
use world_of_seeds.Prelude.{
  ◌≤◌, String, ◌≡◌, refl, sym, ap, subst, ◌∙◌, true, false, not, Option, none, some, List, [], ◌∷◌,
  ◌++◌, arith, leb, ◌==◌, is_some, length, any, sum_of, length-append, Result, ok, err, OnOk,
  OnOk-if, OnOk-bind, OnOk-guard, OnOk-check, OnOk-always,
}
use world_of_seeds.Prelude.Sorting.{sort_by}
use world_of_seeds.Metainfo.Decimal.{Bytes}
use world_of_seeds.Metainfo.Bytes.{bytes_eq}
use world_of_seeds.Jobs.Validation.{codes}
use world_of_seeds.Metainfo.Bencode.{
  BValue, number_of, bytes_of, list_of, dict_of, Items, Entries, MetainfoError, max_bencode_depth,
  max_bencode_items, encode, encode_entries, join, fuel_for, parse, empty_file, invalid_root,
  unsupported, no_info, too_large, no_tracker, invalid_tracker_list,
}
use world_of_seeds.Metainfo.Printed.{IsCanonical, entries_same, height, count}
use world_of_seeds.Metainfo.RoundTrip.{encode-parse}
use world_of_seeds.Metainfo.Checks.{
  Library, TorrentContentFile, get_entry, get_bytes, required_dictionary, or_error,
}
use world_of_seeds.Metainfo.Files.{torrent_name, torrent_files, items_of}
use world_of_seeds.Metainfo.Rewrite.{
  ParsedTorrent, RewriteOptions, tracker_url, tracker_tiers, set_entry, pop_entries,
  normalize_trackers, peer_discovery_fields, info_key, info_bytes, entry_texts, check_pieces,
  is_unsupported, rewrite_torrent,
}
use world_of_seeds.Metainfo.Scan.{last_info, scan_info-encode}
use world_of_seeds.Metainfo.Infos.{
  InfoIs, last_info-get, set_entry-info, pop_entries-info, pop_entries-none, entry_texts-encode,
}

OnOk-known {ℓ} : {A : Type ℓ} (m : Result MetainfoError A) → OnOk (λ a. m ≡ ok a) m
OnOk-known (ok a) = refl
OnOk-known (err e) = tt

required_dictionary-eq :
    (o : Option BValue) (e : MetainfoError) {es : Entries}
    → required_dictionary o e ≡ ok es
    → o ≡ some (dict_of es)
required_dictionary-eq none e h = cc h
required_dictionary-eq (some (number_of z)) e h = cc h
required_dictionary-eq (some (bytes_of bs)) e h = cc h
required_dictionary-eq (some (list_of xs)) e h = cc h
required_dictionary-eq (some (dict_of fs)) e h = cc h

or_error-eq {ℓ} :
    {A : Type ℓ} (o : Option A) (e : MetainfoError) {a : A} → or_error o e ≡ ok a → o ≡ some a
or_error-eq none e h = cc h
or_error-eq (some b) e h = cc h

-- What the second parser finds in a file that the first one accepts.
info_bytes-eq :
    (metainfo : Entries)
    → IsCanonical (dict_of metainfo)
    → height (dict_of metainfo) ≤ max_bencode_depth
    → count (dict_of metainfo) ≤ max_bencode_items
    → info_bytes (encode (dict_of metainfo)) ≡ ok (last_info none metainfo)
unfolding IsCanonical height count encode
info_bytes-eq metainfo canonical deep many =
    let text = join (encode_entries metainfo) in
    let lengths = length-append text (b'e' ∷ []) in
    rw (entries_same [] metainfo canonical) (
      scan_info-encode metainfo (fuel_for (b'd' ∷ (text ++ b'e' ∷ []))) 0 [] [] none canonical
        (omega (arith, lengths)) (omega (arith, deep)) (omega (arith, many)))

-- The changes keep `info`.
abbrev KeepsInfo : Bytes → Entries → Entries → Type 0
KeepsInfo raw metainfo es = InfoIs raw es × (get_entry es info_key ≡ get_entry metainfo info_key)

announce_other : bytes_eq (codes "announce") info_key ≡ false
unfolding bytes_eq
announce_other = refl

announce_list_other : bytes_eq (codes "announce-list") info_key ≡ false
unfolding bytes_eq
announce_list_other = refl

info_is_kept : any (bytes_eq info_key) peer_discovery_fields ≡ false
unfolding bytes_eq
info_is_kept = refl

normalize-KeepsInfo :
    (lib : Library) (options : RewriteOptions) (metainfo : Entries) (raw : Bytes)
    → InfoIs raw metainfo
    → OnOk (KeepsInfo raw metainfo) (normalize_trackers lib options metainfo)
unfolding normalize_trackers
normalize-KeepsInfo lib options metainfo raw infos =
    OnOk-bind (λ (_ : Bytes). Unit {0}) (KeepsInfo raw metainfo) _ _
      (OnOk-always (get_bytes (get_entry metainfo (codes "announce")) no_tracker))
      (λ announce _.
        OnOk-bind (λ (_ : Bytes). Unit {0}) (KeepsInfo raw metainfo) _ _
          (OnOk-always (tracker_url lib options announce))
          (λ url _.
            let announced = set_entry (codes "announce") (bytes_of url) metainfo in
            let first =
              set_entry-info (codes "announce") (bytes_of url) metainfo raw announce_other infos in
            let tiers = get_entry metainfo (codes "announce-list") in
            OnOk-if (KeepsInfo raw metainfo) (is_some tiers) _ _
              (λ e.
                OnOk-bind (λ (_ : Items). Unit {0}) (KeepsInfo raw metainfo) _ _
                  (OnOk-always (or_error (items_of tiers) invalid_tracker_list))
                  (λ xs _.
                    OnOk-bind (λ (_ : Items). Unit {0}) (KeepsInfo raw metainfo) _ _
                      (OnOk-always (tracker_tiers lib options xs))
                      (λ urls _.
                        let (infos', same) =
                          set_entry-info (codes "announce-list") (list_of urls) announced raw
                            announce_list_other first.0 in
                        (infos', same ∙ first.1))))
              (λ e. first)))

-- What the theorem says of a rewritten file.
abbrev pub Rewrites : Library → Bytes → ParsedTorrent → Type 0
Rewrites lib content r =
    (metainfo : Entries) × (info : Entries) × (kept : Entries) × (parse content
      ≡ ok (dict_of metainfo))
    × (get_entry metainfo info_key ≡ some (dict_of info))
    × (r.info_hash ≡ lib.sha1 (encode (dict_of info)))
    × (r.content ≡ encode (dict_of kept))
    × (get_entry kept info_key ≡ some (dict_of info))
    × ((key : Bytes) → any (bytes_eq key) peer_discovery_fields ≡ true → get_entry kept key ≡ none)

content_eq :
    (raw : Bytes) (kept : Entries)
    → InfoIs raw kept
    → b'd' ∷ (join (sort_by (λ e. e.0) (entry_texts raw kept)) ++ b'e' ∷ []) ≡ encode (dict_of kept)
unfolding encode
content_eq raw kept infos =
    ap (λ (es : List (Bytes × Bytes)). b'd' ∷ (join (sort_by (λ e. e.0) es) ++ b'e' ∷ []))
      (entry_texts-encode raw kept infos)

some_eq : {a b : Bytes} → some a ≡ some b → a ≡ b
some_eq h = cc h

raw_eq :
    (content : Bytes) (metainfo info : Entries) {found : Option Bytes} {raw : Bytes}
    → parse content ≡ ok (dict_of metainfo)
    → get_entry metainfo info_key ≡ some (dict_of info)
    → info_bytes content ≡ ok found
    → or_error found no_info ≡ ok raw
    → (raw ≡ encode (dict_of info)) × InfoIs (encode (dict_of info)) metainfo
unfolding IsCanonical
raw_eq content metainfo info {found} {raw} parsed has_info scanned some_info =
    let (text, canonical, deep, many) = encode-parse content (dict_of metainfo) parsed in
    let (last, infos) = last_info-get [] metainfo (dict_of info) canonical has_info none in
    let taken : ok found ≡ ok (last_info none metainfo) =
      sym scanned ∙ ap info_bytes text ∙ info_bytes-eq metainfo canonical deep many in
    let same : found ≡ last_info none metainfo = ok_eq taken in
    (some_eq (sym (or_error-eq found no_info some_info) ∙ same ∙ last), infos)
  where
    ok_eq :
        {a b : Option Bytes} → ◌≡◌ {A = Result MetainfoError (Option Bytes)} (ok a) (ok b) → a ≡ b
    ok_eq h = cc h

-- A file that is rewritten is a dictionary with a dictionary `info`. The new content is the encoding of a
-- dictionary with the same `info` and with none of the fields that name peers or other sources, and the
-- info hash is the hash of the encoding of `info`.
pub rewrite-Rewrites :
    (lib : Library) (options : RewriteOptions) (content : Bytes)
    → OnOk (Rewrites lib content) (rewrite_torrent lib options content)
unfolding rewrite_torrent
rewrite-Rewrites lib options content =
    let P = Rewrites lib content in
    OnOk-guard P (not (length content == 0)) empty_file _ (λ _.
      OnOk-bind (λ v. parse content ≡ ok v) P (parse content) _ (OnOk-known (parse content))
        (λ value parsed.
          OnOk-bind (λ m. required_dictionary (some value) invalid_root ≡ ok m) P
            (required_dictionary (some value) invalid_root) _ (OnOk-known _)
            (λ metainfo root.
              OnOk-bind (λ i. required_dictionary (get_entry metainfo info_key) no_info ≡ ok i) P
                (required_dictionary (get_entry metainfo info_key) no_info) _ (OnOk-known _)
                (λ info has_info. OnOk-guard P (not (is_unsupported info)) unsupported _ (λ _.
                  OnOk-bind (λ f. info_bytes content ≡ ok f) P (info_bytes content) _ (OnOk-known _)
                    (λ found scanned.
                      OnOk-bind (λ r. or_error found no_info ≡ ok r) P (or_error found no_info) _
                        (OnOk-known _)
                        (λ raw some_info. OnOk-check P (check_pieces info) _ (λ _.
                          OnOk-bind (λ (_ : String). Unit {0}) P (torrent_name lib info) _
                            (OnOk-always _)
                            (λ name _.
                              OnOk-bind (λ (_ : List TorrentContentFile). Unit {0}) P
                                (torrent_files lib info name) _ (OnOk-always _)
                                (λ files _.
                                  OnOk-guard P
                                    (leb (sum_of (λ (f : TorrentContentFile). f.size) files)
                                      options.max_total_size)
                                    too_large _
                                    (λ _.
                                      let there =
                                        parsed
                                        ∙ ap ok (
                                            value_eq (
                                              required_dictionary-eq (some value) invalid_root
                                                root)) in
                                      let named =
                                        required_dictionary-eq (get_entry metainfo info_key) no_info
                                          has_info in
                                      let (same, infos) =
                                        raw_eq content metainfo info there named scanned
                                          some_info in
                                      let kept_raw =
                                        subst (λ t. InfoIs t metainfo) (sym same) infos in
                                      OnOk-bind (KeepsInfo raw metainfo) P
                                        (normalize_trackers lib options metainfo) _
                                        (normalize-KeepsInfo lib options metainfo raw kept_raw)
                                        (λ normalized (texts, entry_kept).
                                          let (all_texts, last_kept) =
                                            pop_entries-info peer_discovery_fields normalized raw
                                              info_is_kept texts in
                                          (
                                            metainfo,
                                            info,
                                            pop_entries peer_discovery_fields normalized,
                                            there,
                                            named,
                                            ap lib.sha1 same,
                                            content_eq raw
                                                (pop_entries peer_discovery_fields normalized)
                                                all_texts,
                                            last_kept ∙ entry_kept ∙ named,
                                            pop_entries-none peer_discovery_fields normalized,
                                          )))))))))))))
  where
    value_eq : {a b : BValue} → some a ≡ some b → a ≡ b
    value_eq h = cc h
