-- ===== src/Metainfo/Infos.antt =====
-- backend/app/torrents/metainfo.py: `info` in the dictionary of a torrent, and after the changes of
-- `_rewrite_torrent`.
use world_of_seeds.Prelude.{
  ◌≡◌, refl, sym, ap, ◌∙◌, inl, inr, true, false, Option, none, some, List, ◌∷◌, Bool-cases, any,
  All_at,
}
use mathlib.Core.List.{Memᴰ}
use world_of_seeds.Metainfo.Decimal.{Bytes}
use world_of_seeds.Metainfo.Bytes.{bytes_eq, bytes_eq-eq, bytes_lt, bytes_lt_irrefl}
use world_of_seeds.Metainfo.Bencode.{BValue, Entries, no_entries, entry, encode, encode_entries}
use world_of_seeds.Metainfo.Printed.{EntriesAreCanonical}
use world_of_seeds.Metainfo.Checks.{get_entry}
use world_of_seeds.Metainfo.Rewrite.{info_key, set_entry, pop_entries, entry_texts}
use world_of_seeds.Metainfo.Scan.{last_info}

-- Every value of `info` has this text.
unfoldable pub InfoIs : Bytes → Entries → Type 0
unfolding bytes_eq
InfoIs raw no_entries = Unit
InfoIs raw (entry k v es) = (bytes_eq k info_key ≡ true → encode v ≡ raw) × InfoIs raw es

-- Behind a key there is no other entry of it.
no_later :
    (keys : List Bytes) (es : Entries)
    → Memᴰ info_key keys
    → EntriesAreCanonical keys es
    → (raw : Bytes) → InfoIs raw es × ((o : Option Bytes) → last_info o es ≡ o)
unfolding EntriesAreCanonical InfoIs
no_later keys no_entries m h raw = (tt, λ o. refl)
no_later keys (entry k v es) m ((text, behind), (canonical, rest)) raw =
    let less : bytes_lt info_key k ≡ true = All_at _ keys behind m in
    let other : bytes_eq k info_key ≡ false = apart k less in
    let (infos, last) = no_later (k ∷ keys) es (Memᴰ.tail m) rest raw in
    (((λ e. absurd (cc (e, other))), infos), λ o. rw other (last o))
  where
    apart : (k : Bytes) → bytes_lt info_key k ≡ true → bytes_eq k info_key ≡ false
    apart k less = elim (Bool-cases (bytes_eq k info_key)) [
      | inl same ↦ absurd (
          cc (less, ap (bytes_lt info_key) (bytes_eq-eq k info_key same), bytes_lt_irrefl info_key))
      | inr other ↦ other
    ]

-- In a dictionary with ascending keys the second parser takes the `info` that `get` gives.
pub last_info-get :
    (keys : List Bytes) (es : Entries) (v : BValue)
    → EntriesAreCanonical keys es
    → get_entry es info_key ≡ some v
    → (o : Option Bytes) → (last_info o es ≡ some (encode v)) × InfoIs (encode v) es
unfolding EntriesAreCanonical InfoIs get_entry
last_info-get keys no_entries v h found o = cc found
last_info-get keys (entry k x es) v ((text, behind), (canonical, rest)) found o =
    elim (Bool-cases (bytes_eq k info_key)) [
      | inl same ↦
          let key : info_key ≡ k = sym (bytes_eq-eq k info_key same) in
          let there : get_entry (entry k x es) info_key ≡ some x = rw same refl in
          let value : x ≡ v = some_eq (sym there ∙ found) in
          let (infos, last) = no_later (k ∷ keys) es (Memᴰ.head key) rest (encode v) in
          (
            rw same (last (some (encode x)) ∙ ap (λ (y : BValue). some (encode y)) value),
            ((λ e. ap encode value), infos),
          )
      | inr other ↦
          let below : get_entry (entry k x es) info_key ≡ get_entry es info_key = rw other refl in
          let (last, infos) = last_info-get (k ∷ keys) es v rest (sym below ∙ found) o in
          (rw other last, ((λ e. absurd (cc (e, other))), infos))
    ]
  where
    some_eq : {a b : BValue} → some a ≡ some b → a ≡ b
    some_eq h = cc h

-- A change of another key keeps `info`.
pub set_entry-info :
    (key : Bytes) (w : BValue) (es : Entries) (raw : Bytes)
    → bytes_eq key info_key ≡ false
    → InfoIs raw es
    → InfoIs raw (set_entry key w es)
      × (get_entry (set_entry key w es) info_key ≡ get_entry es info_key)
unfolding InfoIs get_entry set_entry
set_entry-info key w no_entries raw h infos = (tt, refl)
set_entry-info key w (entry k v es) raw h (here, infos) = elim (Bool-cases (bytes_eq k key)) [
  | inl same ↦
      let other : bytes_eq k info_key ≡ false =
        ap (λ (b : Bytes). bytes_eq b info_key) (bytes_eq-eq k key same) ∙ h in
      rw (same, other) (((λ e. absurd (cc e)), infos), refl)
  | inr other ↦
      let (still, kept) = set_entry-info key w es raw h infos in
      rw (other, kept) ((here, still), refl)
]

pub pop_entries-info :
    (keys : List Bytes) (es : Entries) (raw : Bytes)
    → any (bytes_eq info_key) keys ≡ false
    → InfoIs raw es
    → InfoIs raw (pop_entries keys es)
      × (get_entry (pop_entries keys es) info_key ≡ get_entry es info_key)
unfolding InfoIs get_entry pop_entries
pop_entries-info keys no_entries raw h infos = (tt, refl)
pop_entries-info keys (entry k v es) raw h (here, infos) =
    let (still, kept) = pop_entries-info keys es raw h infos in
    elim (Bool-cases (any (bytes_eq k) keys)) [
      | inl dropped ↦
          let other : bytes_eq k info_key ≡ false = apart k dropped in
          rw (dropped, other) (still, kept)
      | inr left ↦ rw (left, kept) ((here, still), refl)
    ]
  where
    apart : (k : Bytes) → any (bytes_eq k) keys ≡ true → bytes_eq k info_key ≡ false
    apart k dropped = elim (Bool-cases (bytes_eq k info_key)) [
      | inl same ↦
          absurd (
            cc
              (dropped, h, ap (λ (b : Bytes). any (bytes_eq b) keys) (bytes_eq-eq k info_key same)))
      | inr other ↦ other
    ]

-- No entry of a dropped key is left.
pub pop_entries-none :
    (keys : List Bytes) (es : Entries) (key : Bytes)
    → any (bytes_eq key) keys ≡ true
    → get_entry (pop_entries keys es) key ≡ none
unfolding get_entry pop_entries
pop_entries-none keys no_entries key h = refl
pop_entries-none keys (entry k v es) key h = elim (Bool-cases (any (bytes_eq k) keys)) [
  | inl dropped ↦ rw dropped (pop_entries-none keys es key h)
  | inr left ↦
      let other : bytes_eq k key ≡ false = apart k left in
      rw (left, other) (pop_entries-none keys es key h)
]
  where
    apart : (k : Bytes) → any (bytes_eq k) keys ≡ false → bytes_eq k key ≡ false
    apart k left = elim (Bool-cases (bytes_eq k key)) [
      | inl same ↦
          absurd (cc (left, h, ap (λ (b : Bytes). any (bytes_eq b) keys) (bytes_eq-eq k key same)))
      | inr other ↦ other
    ]

-- With the given text of `info`, the texts of the entries are those of their values.
pub entry_texts-encode :
    (raw : Bytes) (es : Entries) → InfoIs raw es → entry_texts raw es ≡ encode_entries es
unfolding InfoIs entry_texts encode_entries
entry_texts-encode raw no_entries h = refl
entry_texts-encode raw (entry k v es) (here, h) =
    let rest = entry_texts-encode raw es h in
    elim (Bool-cases (bytes_eq k info_key)) [
      | inl same ↦ rw (same, rest, here same) refl
      | inr other ↦ rw (other, rest) refl
    ]
