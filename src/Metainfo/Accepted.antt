-- ===== src/Metainfo/Accepted.antt =====
-- backend/app/torrents/metainfo.py: what `_Parser` has read when it returns.
use world_of_seeds.Prelude.{
  ℕ, zero, suc, ◌+◌, ◌≤◌, sym, ap, subst, List, [], ◌∷◌, arith, leb, ◌==◌, leb→le, ==_iff, OnOk,
  OnOk-if, OnOk-bind, OnOk-guard,
}
use world_of_seeds.Metainfo.Decimal.{Bytes, is_digit}
use world_of_seeds.Metainfo.Bytes.{until, until-OnSplit}
use world_of_seeds.Metainfo.Bencode.{
  list_of, dict_of, max_bencode_depth, max_bencode_items, not_canonical, invalid_file,
  too_many_items, read_integer, parse_value, parse_items, parse_entries, encode_items,
  encode_entries,
}
use world_of_seeds.Metainfo.Printed.{
  ItemsAreCanonical, EntriesAreCanonical, count_items, count_entries, height_items, height_entries,
}
use world_of_seeds.Metainfo.Pieces.{
  BytesRead, read_bytes-OnOk, ValueRead, ItemsRead, EntriesRead, Descend, split_integer,
  bytes-ValueRead, list_read, dict_read, not_before, item_read, entry_read,
}

mutual
  unfolding parse_value parse_items parse_entries encode_items encode_entries ItemsAreCanonical
      EntriesAreCanonical count_items count_entries height_items height_entries

  pub parse_value-OnOk :
      (fuel depth n : ℕ) (s : Bytes) → OnOk (ValueRead depth n s) (parse_value fuel depth n s)
  parse_value-OnOk zero depth n s = tt
  parse_value-OnOk (suc fuel) depth n [] = tt
  parse_value-OnOk (suc fuel) depth n (c ∷ s) =
      OnOk-guard (ValueRead depth n (c ∷ s)) (leb depth max_bencode_depth) invalid_file _
        (λ shallow.
          OnOk-guard (ValueRead depth n (c ∷ s)) (leb (n + 1) max_bencode_items) too_many_items _
            (λ few.
              let fits = leb→le _ _ shallow in
              let room = leb→le _ _ few in
              OnOk-if (ValueRead depth n (c ∷ s)) (c == b'i') _ _
                (λ e.
                  subst
                    (λ k. OnOk (ValueRead depth n (k ∷ s)) (read_integer (n + 1) (until b'e' s)))
                    (sym ((==_iff c b'i').0 e))
                    (split_integer depth n fits room s (until b'e' s) (until-OnSplit b'e' s)))
                (λ _.
                  OnOk-if (ValueRead depth n (c ∷ s)) (c == b'l') _ _
                    (λ e.
                      OnOk-bind (ItemsRead (depth + 1) (n + 1) s) (ValueRead depth n (c ∷ s)) _ _
                        (parse_items-OnOk fuel (depth + 1) (n + 1) s (omega (arith, fits)) room)
                        (λ (xs, m, rest) h.
                          subst (λ k. ValueRead depth n (k ∷ s) (list_of xs, m, rest))
                            (sym ((==_iff c b'l').0 e))
                            (list_read depth n fits room s xs m rest h)))
                    (λ _.
                      OnOk-if (ValueRead depth n (c ∷ s)) (c == b'd') _ _
                        (λ e.
                          OnOk-bind (EntriesRead (depth + 1) (n + 1) [] s)
                            (ValueRead depth n (c ∷ s)) _ _
                            (parse_entries-OnOk fuel (depth + 1) (n + 1) [] s tt
                              (omega (arith, fits)) room)
                            (λ (es, m, rest) h.
                              subst (λ k. ValueRead depth n (k ∷ s) (dict_of es, m, rest))
                                (sym ((==_iff c b'd').0 e))
                                (dict_read depth n fits room s es m rest h)))
                        (λ _.
                          OnOk-if (ValueRead depth n (c ∷ s)) (is_digit c) _ _
                            (λ _. bytes-ValueRead depth n fits room (c ∷ s)) (λ _. tt))))))

  parse_items-OnOk :
      (fuel depth n : ℕ) (s : Bytes)
      → depth ≤ suc max_bencode_depth
      → n ≤ max_bencode_items
      → OnOk (ItemsRead depth n s) (parse_items fuel depth n s)
  parse_items-OnOk zero depth n s fits room = tt
  parse_items-OnOk (suc fuel) depth n [] fits room = tt
  parse_items-OnOk (suc fuel) depth n (c ∷ s) fits room =
      OnOk-if (ItemsRead depth n (c ∷ s)) (c == b'e') _ _
        (λ e.
          (ap (λ (k : ℕ). k ∷ s) ((==_iff c b'e').0 e), tt, omega (arith, fits), omega arith, room))
        (λ _.
          OnOk-bind (ValueRead depth n (c ∷ s)) (ItemsRead depth n (c ∷ s)) _ _
            (parse_value-OnOk fuel depth n (c ∷ s))
            (λ (x, m, rest) h.
              OnOk-bind (ItemsRead depth m rest) (ItemsRead depth n (c ∷ s)) _ _
                (parse_items-OnOk fuel depth m rest fits h.4)
                (λ (xs, k, end) hs. item_read depth n (c ∷ s) x m rest h xs k end hs)))

  parse_entries-OnOk :
      (fuel depth n : ℕ) (keys : List Bytes) (s : Bytes)
      → Descend keys
      → depth ≤ suc max_bencode_depth
      → n ≤ max_bencode_items
      → OnOk (EntriesRead depth n keys s) (parse_entries fuel depth n keys s)
  parse_entries-OnOk zero depth n keys s below fits room = tt
  parse_entries-OnOk (suc fuel) depth n keys [] below fits room = tt
  parse_entries-OnOk (suc fuel) depth n keys (c ∷ s) below fits room =
      OnOk-if (EntriesRead depth n keys (c ∷ s)) (c == b'e') _ _
        (λ e.
          (ap (λ (k : ℕ). k ∷ s) ((==_iff c b'e').0 e), tt, omega (arith, fits), omega arith, room))
        (λ _.
          OnOk-bind (BytesRead n (c ∷ s)) (EntriesRead depth n keys (c ∷ s)) _ _
            (read_bytes-OnOk n (c ∷ s))
            (λ (key, m, value_at) k.
              OnOk-guard (EntriesRead depth n keys (c ∷ s)) _ not_canonical _ (λ test.
                let behind = not_before keys key below test in
                OnOk-bind (ValueRead depth m value_at) (EntriesRead depth n keys (c ∷ s)) _ _
                  (parse_value-OnOk fuel depth m value_at)
                  (λ (x, l, rest) h.
                    OnOk-bind (EntriesRead depth l (key ∷ keys) rest)
                      (EntriesRead depth n keys (c ∷ s)) _ _
                      (parse_entries-OnOk fuel depth l (key ∷ keys) rest (behind, below) fits h.4)
                      (λ (es, j, end) hs.
                        entry_read depth n keys (c ∷ s) key m value_at k behind x l rest h es j end
                          hs)))))
