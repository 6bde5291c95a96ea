-- ===== src/Metainfo/Bytes.antt =====
-- Searching, slicing and comparing byte strings, as backend/app/torrents/metainfo.py does with `find`,
-- slices and `<`.
use world_of_seeds.Prelude.{
  if_ind, ℕ, zero, suc, ◌≡◌, refl, ap, Bool, true, false, not, ◌&&◌, Option, none, some, [], ◌∷◌,
  ◌++◌, arith, ◌==◌, if◌then◌else◌, ==_iff, length, all,
}
use world_of_seeds.Prelude.Sorting.{lex_le, lex_le_refl, lex_le_total, lex_le_trans}
use world_of_seeds.Metainfo.Decimal.{Bytes}

abbrev pub Split : Type 0
Split = Option (Bytes × Bytes)

abbrev pub prepend : ℕ → Split → Split
prepend c none = none
prepend c (some (a, b)) = some (c ∷ a, b)

-- `content.find(m, position)`: what stands before the first `m`, and what stands behind it.
unfoldable pub until : ℕ → Bytes → Split
until m [] = none
until m (c ∷ cs) = let rest = prepend c (until m cs) in if c == m then some ([], cs) else rest

-- `content[start:start + n]` with what follows it, where there are so many bytes.
unfoldable pub split_at : ℕ → Bytes → Split
split_at zero cs = some ([], cs)
split_at (suc n) [] = none
split_at (suc n) (c ∷ cs) = prepend c (split_at n cs)

-- `a == b` and `a < b`
unfoldable pub bytes_eq : Bytes → Bytes → Bool
bytes_eq [] [] = true
bytes_eq [] (y ∷ ys) = false
bytes_eq (x ∷ xs) [] = false
bytes_eq (x ∷ xs) (y ∷ ys) = x == y && bytes_eq xs ys

unfoldable pub bytes_lt : Bytes → Bytes → Bool
unfolding lex_le
bytes_lt a b = not (lex_le b a)

pub until-append :
    (m : ℕ) (xs rest : Bytes)
    → all (λ c. not (c == m)) xs ≡ true
    → until m (xs ++ m ∷ rest) ≡ some (xs, rest)
unfolding until
until-append m [] rest h = ground arith
until-append m (x ∷ xs) rest h = ground (arith, until-append m xs rest)

-- What the two halves of a text that was split are.
abbrev pub OnSplit : (Bytes → Bytes → Type 0) → Split → Type 0
OnSplit P none = Unit
OnSplit P (some (a, b)) = P a b

prepend-OnSplit :
    (P Q : Bytes → Bytes → Type 0) (c : ℕ) (o : Split)
    → ((a b : Bytes) → P a b → Q (c ∷ a) b)
    → OnSplit P o
    → OnSplit Q (prepend c o)
prepend-OnSplit P Q c none f h = tt
prepend-OnSplit P Q c (some (a, b)) f h = f a b h

pub until-OnSplit : (m : ℕ) (s : Bytes) → OnSplit (λ a b. s ≡ a ++ m ∷ b) (until m s)
unfolding until
until-OnSplit m [] = tt
until-OnSplit m (c ∷ cs) =
    if_ind (OnSplit (λ a b. c ∷ cs ≡ a ++ m ∷ b)) (c == m)
      (λ e. ap (λ (k : ℕ). k ∷ cs) ((==_iff c m).0 e))
      (λ e.
        prepend-OnSplit (λ a b. cs ≡ a ++ m ∷ b) _ c (until m cs)
          (λ a b h. ap (λ (xs : Bytes). c ∷ xs) h) (until-OnSplit m cs))

pub split_at-append : (xs rest : Bytes) → split_at (length xs) (xs ++ rest) ≡ some (xs, rest)
unfolding split_at
split_at-append [] rest = refl
split_at-append (x ∷ xs) rest = ground (arith, split_at-append xs rest)

pub split_at-OnSplit :
    (n : ℕ) (s : Bytes) → OnSplit (λ a b. (s ≡ a ++ b) × (length a ≡ n)) (split_at n s)
unfolding split_at
split_at-OnSplit zero s = (refl, refl)
split_at-OnSplit (suc n) [] = tt
split_at-OnSplit (suc n) (c ∷ cs) =
    prepend-OnSplit (λ a b. (cs ≡ a ++ b) × (length a ≡ n)) _ c (split_at n cs)
      (λ a b (h, k). (ap (λ (xs : Bytes). c ∷ xs) h, omega (arith, k))) (split_at-OnSplit n cs)

pub bytes_eq_refl : (a : Bytes) → bytes_eq a a ≡ true
unfolding bytes_eq
bytes_eq_refl [] = refl
bytes_eq_refl (x ∷ xs) = ground (arith, bytes_eq_refl xs)

pub bytes_eq-eq : (a b : Bytes) → bytes_eq a b ≡ true → a ≡ b
unfolding bytes_eq
bytes_eq-eq [] [] h = refl
bytes_eq-eq [] (y ∷ ys) h = cc
bytes_eq-eq (x ∷ xs) [] h = cc
bytes_eq-eq (x ∷ xs) (y ∷ ys) h = ground (arith, bytes_eq-eq xs ys)

-- Between two different texts one is less.
pub bytes_lt_of : (a b : Bytes) → bytes_eq a b ≡ false → bytes_lt b a ≡ false → bytes_lt a b ≡ true
unfolding bytes_lt bytes_eq
bytes_lt_of [] [] h k = cc
bytes_lt_of [] (y ∷ ys) h k = refl
bytes_lt_of (x ∷ xs) [] h k = cc
bytes_lt_of (x ∷ xs) (y ∷ ys) h k = ground (arith, bytes_lt_of xs ys)

pub bytes_lt_irrefl : (a : Bytes) → bytes_lt a a ≡ false
unfolding bytes_lt
bytes_lt_irrefl a = ground (arith, lex_le_refl a)

pub bytes_lt_asym : (a b : Bytes) → bytes_lt a b ≡ true → bytes_lt b a ≡ false
unfolding bytes_lt
bytes_lt_asym a b h = ground (arith, lex_le_total b a)

pub bytes_lt_trans :
    (a b c : Bytes) → bytes_lt a b ≡ true → bytes_lt b c ≡ true → bytes_lt a c ≡ true
unfolding bytes_lt
bytes_lt_trans a b c h k =
    ground (arith, lex_le_total b a, lex_le_total c b, lex_le_trans b c a, lex_le_trans c a b)
