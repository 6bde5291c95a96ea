-- ===== src/Metainfo/Ends.antt =====
-- backend/app/torrents/metainfo.py: the parser ends, by an answer or by an error of its own.
use world_of_seeds.Prelude.{
  ℕ, zero, suc, ◌+◌, ◌*◌, ◌≤◌, ◌<◌, ◌≡◌, ap, ◌≢◌, not, ◌||◌, none, some, List, [], ◌∷◌, arith, leb,
  ◌==◌, length, length-append, ok, err, OnErr, OnErr-bind, OnErr-guard, OnErr-if, OnErr-map,
  OnOk_at,
}
use world_of_seeds.Metainfo.Decimal.{Bytes, is_digit, decimal, number, is_decimal}
use world_of_seeds.Metainfo.Bytes.{Split, until, split_at}
use world_of_seeds.Metainfo.Integer.{is_integer, integer, digits}
use world_of_seeds.Metainfo.Bencode.{
  BValue, number_of, no_items, no_entries, max_bencode_depth, max_bencode_items, max_int_digits,
  MetainfoError, not_canonical, out_of_fuel, invalid_file, value_error, too_many_items,
  read_integer, or_truncated, read_bytes, has_key, is_before_last, parse_value, parse_items,
  parse_entries, encode_bytes, encode,
}
use world_of_seeds.Metainfo.Pieces.{BytesRead, read_bytes-OnOk, ValueRead, length-encode}
use world_of_seeds.Metainfo.Accepted.{parse_value-OnOk}

-- The error is one that the code raises.
abbrev pub IsRaised : MetainfoError → Type 0
IsRaised e = e ≢ out_of_fuel

read_integer-OnErr : (n : ℕ) (o : Split) → OnErr IsRaised (read_integer n o)
unfolding read_integer
read_integer-OnErr n none = λ e. cc
read_integer-OnErr n (some (raw, rest)) =
    OnErr-guard IsRaised (is_integer raw) invalid_file _ (λ e. cc)
      (OnErr-guard IsRaised (leb (length (digits raw)) max_int_digits) value_error
        (ok (number_of (integer raw), n, rest)) (λ e. cc) tt)

or_truncated-OnErr : (n : ℕ) (o : Split) → OnErr IsRaised (or_truncated n o)
or_truncated-OnErr n none = λ e. cc
or_truncated-OnErr n (some (raw, rest)) = tt

read_bytes-OnErr : (n : ℕ) (o : Split) → OnErr IsRaised (read_bytes n o)
unfolding read_bytes
read_bytes-OnErr n none = λ e. cc
read_bytes-OnErr n (some (raw, rest)) =
    OnErr-guard IsRaised (is_decimal raw) invalid_file _ (λ e. cc)
      (OnErr-guard IsRaised (leb (length raw) max_int_digits) value_error _ (λ e. cc)
        (or_truncated-OnErr n (split_at (number raw) rest)))

-- A value, and a key, take a byte at least.
value_shorter :
    (fuel depth n : ℕ) (s : Bytes) {x : BValue} {m : ℕ} {rest : Bytes}
    → parse_value fuel depth n s ≡ ok (x, m, rest)
    → length rest < length s
value_shorter fuel depth n s {x} {m} {rest} h =
    let read = OnOk_at (ValueRead depth n s) _ (parse_value-OnOk fuel depth n s) h in
    omega (arith, ap length read.0, length-append (encode x) rest, length-encode x)

key_shorter :
    (n : ℕ) (s : Bytes) {key : Bytes} {m : ℕ} {rest : Bytes}
    → read_bytes n (until b':' s) ≡ ok (key, m, rest)
    → length rest < length s
key_shorter n s {key} {m} {rest} h =
    let read = OnOk_at (BytesRead n s) _ (read_bytes-OnOk n s) h in
    omega (
      arith,
      ap length read.0,
      length-append (encode_bytes key) rest,
      length-append (decimal (length key)) (b':' ∷ key),
    )

raised : OnErr {A = BValue × ℕ × Bytes} IsRaised (err invalid_file)
raised = λ e. cc

mutual
  unfolding parse_value parse_items parse_entries

  pub parse_value-OnErr :
      (fuel depth n : ℕ) (s : Bytes)
      → 2 * length s + 1 ≤ fuel
      → OnErr IsRaised (parse_value fuel depth n s)
  parse_value-OnErr zero depth n s h = absurd (omega arith)
  parse_value-OnErr (suc fuel) depth n [] h = λ e. cc
  parse_value-OnErr (suc fuel) depth n (c ∷ s) h =
      OnErr-guard IsRaised (leb depth max_bencode_depth) invalid_file _ (λ e. cc)
        (OnErr-guard IsRaised (leb (n + 1) max_bencode_items) too_many_items _ (λ e. cc)
          (OnErr-if IsRaised (c == b'i') _ _ (read_integer-OnErr (n + 1) (until b'e' s)) (
            OnErr-if IsRaised (c == b'l') _ _
              (OnErr-map IsRaised _ _
                (parse_items-OnErr fuel (depth + 1) (n + 1) s (omega (arith, h))))
              (OnErr-if IsRaised (c == b'd') _ _
                (OnErr-map IsRaised _ _
                  (parse_entries-OnErr fuel (depth + 1) (n + 1) [] s (omega (arith, h))))
                (OnErr-if IsRaised (is_digit c) _ _
                  (OnErr-map IsRaised _ _ (read_bytes-OnErr (n + 1) (until b':' (c ∷ s))))
                  raised)))))

  parse_items-OnErr :
      (fuel depth n : ℕ) (s : Bytes)
      → 2 * length s + 2 ≤ fuel
      → OnErr IsRaised (parse_items fuel depth n s)
  parse_items-OnErr zero depth n s h = absurd (omega arith)
  parse_items-OnErr (suc fuel) depth n [] h = λ e. cc
  parse_items-OnErr (suc fuel) depth n (c ∷ s) h =
      OnErr-if IsRaised (c == b'e') (ok (no_items, n, s)) _ tt (
        OnErr-bind IsRaised _ _ (parse_value-OnErr fuel depth n (c ∷ s) (omega (arith, h)))
          (λ (x, m, rest) e. OnErr-map IsRaised _ _ (
            parse_items-OnErr fuel depth m rest
              (omega (arith, h, value_shorter fuel depth n (c ∷ s) e)))))

  parse_entries-OnErr :
      (fuel depth n : ℕ) (keys : List Bytes) (s : Bytes)
      → 2 * length s + 2 ≤ fuel
      → OnErr IsRaised (parse_entries fuel depth n keys s)
  parse_entries-OnErr zero depth n keys s h = absurd (omega arith)
  parse_entries-OnErr (suc fuel) depth n keys [] h = λ e. cc
  parse_entries-OnErr (suc fuel) depth n keys (c ∷ s) h =
      OnErr-if IsRaised (c == b'e') (ok (no_entries, n, s)) _ tt (
        OnErr-bind IsRaised _ _ (read_bytes-OnErr n (until b':' (c ∷ s))) (λ (key, m, value_at) k.
          OnErr-guard IsRaised (not (has_key keys key || is_before_last keys key)) not_canonical _
            (λ e. cc)
            (let shorter = key_shorter n (c ∷ s) k in
              OnErr-bind IsRaised _ _
                (parse_value-OnErr fuel depth m value_at (omega (arith, h, shorter)))
                (λ (x, l, rest) e. OnErr-map IsRaised _ _ (
                  parse_entries-OnErr fuel depth l (key ∷ keys) rest
                    (omega (arith, h, shorter, value_shorter fuel depth m value_at e)))))))
