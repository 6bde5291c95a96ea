-- ===== src/Metainfo/RoundTrip.antt =====
-- backend/app/torrents/metainfo.py: `_Parser` and `_encode` undo each other.
use world_of_seeds.Prelude.{
  ℕ, ◌≤◌, ◌≡◌, refl, sym, ap, subst, ◌∙◌, ◌≢◌, [], ◌∷◌, arith, ok, err, OnOk, OnOk-bind, OnErr,
  OnErr-bind, OnOk_at,
}
use mathlib.Core.List.{append-nil}
use world_of_seeds.Metainfo.Decimal.{Bytes}
use world_of_seeds.Metainfo.Bencode.{
  BValue, max_bencode_depth, max_bencode_items, out_of_fuel, parse_value, encode, fuel_for, whole,
  parse,
}
use world_of_seeds.Metainfo.Printed.{IsCanonical, count, height}
use world_of_seeds.Metainfo.Pieces.{ValueRead}
use world_of_seeds.Metainfo.Reads.{parse_value-encode}
use world_of_seeds.Metainfo.Accepted.{parse_value-OnOk}
use world_of_seeds.Metainfo.Ends.{IsRaised, parse_value-OnErr}

-- For a value whose dictionaries have ascending keys, whose numbers and lengths have no more digits than
-- `int` takes, that is no deeper than `MAX_BENCODE_DEPTH` and has no more than `MAX_BENCODE_ITEMS` values,
-- the parser returns the value from the text that `_encode` writes.
pub parse-encode :
    (v : BValue)
    → IsCanonical v
    → height v ≤ max_bencode_depth
    → count v ≤ max_bencode_items
    → parse (encode v) ≡ ok v
unfolding parse whole
parse-encode v canonical deep many =
    let read =
      parse_value-encode v (fuel_for (encode v)) 0 0 [] canonical (omega arith)
        (omega (arith, deep)) (omega (arith, many)) in
    let same : parse_value (fuel_for (encode v)) 0 0 (encode v) ≡ ok (v, count v, []) =
      ap (parse_value (fuel_for (encode v)) 0 0) (sym (append-nil (encode v)))
      ∙ read
      ∙ ap (λ (m : ℕ). ok (v, m, [])) (omega arith) in
    rw same refl

whole-OnOk :
    (content : Bytes) (r : BValue × ℕ × Bytes)
    → ValueRead 0 0 content r
    → OnOk
        (λ v.
          (content ≡ encode v)
          × IsCanonical v
          × (height v ≤ max_bencode_depth)
          × (count v ≤ max_bencode_items))
        (whole r)
unfolding whole
whole-OnOk content (v, m, []) (text, canonical, deep, counted, bound) =
    (text ∙ append-nil (encode v), canonical, omega (arith, deep), omega (arith, counted, bound))
whole-OnOk content (v, m, c ∷ rest) h = tt

-- A file that the parser accepts is the text that `_encode` writes for the value it returns: its bytes are
-- given back, the keys of each dictionary ascend, and the value is within the limits of depth and number.
pub encode-parse :
    (content : Bytes) (v : BValue)
    → parse content ≡ ok v
    → (content ≡ encode v)
      × IsCanonical v
      × (height v ≤ max_bencode_depth)
      × (count v ≤ max_bencode_items)
unfolding parse
encode-parse content v h =
    OnOk_at _ (parse content)
      (OnOk-bind (ValueRead 0 0 content) _ (parse_value (fuel_for content) 0 0 content) whole
        (parse_value-OnOk (fuel_for content) 0 0 content) (whole-OnOk content))
      h

whole-OnErr : (r : BValue × ℕ × Bytes) → OnErr IsRaised (whole r)
unfolding whole
whole-OnErr (v, m, []) = tt
whole-OnErr (v, m, c ∷ rest) = λ e. cc

-- For every file the parser returns a value or raises an error of the code: the fuel is enough.
pub parse-ends : (content : Bytes) → parse content ≢ err out_of_fuel
unfolding parse
parse-ends content h =
    let raised : OnErr IsRaised (parse content) =
      OnErr-bind IsRaised (parse_value (fuel_for content) 0 0 content) whole
        (parse_value-OnErr (fuel_for content) 0 0 content (omega arith)) (λ r _. whole-OnErr r) in
    (subst (OnErr IsRaised) h raised) refl
