-- ===== src/Prelude/Sorting.antt =====
-- `ORDER BY`, `sorted` and `list.sort`: a stable insertion sort by a key, a list of numbers that is
-- compared lexicographically.
use Prim.Native.Nat.{ℕ, compare, Ordering, suc}
use mathlib.Core.Path.{◌≡◌, refl, sym, ap, subst, ◌∙◌}
use mathlib.Core.Bool.{Bool, true, false}
use mathlib.Core.List.{List, [], ◌∷◌, Memᴰ}
use native.Mathlib.Omega.{arith}
use world_of_seeds.Prelude.Tests.{if◌then◌else◌}
use world_of_seeds.Prelude.Lists.{All, All-if, All_imp, length}

-- The order of tuples: the first difference decides.
unfoldable pub lex_le : List ℕ → List ℕ → Bool
lex_le [] ys = true
lex_le (x ∷ xs) [] = false
lex_le (x ∷ xs) (y ∷ ys) = elim (compare x y) [
  | Ordering.lt ↦ true
  | Ordering.eq ↦ lex_le xs ys
  | Ordering.gt ↦ false
]

pub lex_le_refl : (xs : List ℕ) → lex_le xs xs ≡ true
unfolding lex_le
lex_le_refl [] = refl
lex_le_refl (x ∷ xs) = ground (arith, lex_le_refl xs)

pub lex_le_total : (xs ys : List ℕ) → lex_le xs ys ≡ false → lex_le ys xs ≡ true
unfolding lex_le
lex_le_total [] ys h = cc
lex_le_total (x ∷ xs) [] h = refl
lex_le_total (x ∷ xs) (y ∷ ys) h = ground (arith, lex_le_total xs ys)

pub lex_le_trans :
    (xs ys zs : List ℕ) → lex_le xs ys ≡ true → lex_le ys zs ≡ true → lex_le xs zs ≡ true
unfolding lex_le
lex_le_trans [] ys zs h k = refl
lex_le_trans (x ∷ xs) [] zs h k = cc
lex_le_trans (x ∷ xs) (y ∷ ys) [] h k = cc
lex_le_trans (x ∷ xs) (y ∷ ys) (z ∷ zs) h k = ground (arith, lex_le_trans xs ys zs)

module _ {ℓ} {A : Type ℓ} (key : A → List ℕ) where
  unfoldable pub insert_by : A → List A → List A
  insert_by a [] = a ∷ []
  insert_by a (x ∷ xs) =
      let rest = insert_by a xs in if lex_le (key a) (key x) then a ∷ x ∷ xs else x ∷ rest

  unfoldable pub sort_by : List A → List A
  unfolding insert_by
  sort_by [] = []
  sort_by (x ∷ xs) = insert_by x (sort_by xs)

  -- No element of the list comes before `a`.
  abbrev pub IsLeast : A → List A → Type 0
  IsLeast a xs = All (λ x. lex_le (key a) (key x) ≡ true) xs

  abbrev pub IsSorted : List A → Type 0
  IsSorted [] = Unit
  IsSorted (x ∷ xs) = IsLeast x xs × IsSorted xs

module _ {ℓ} {A : Type ℓ} (key : A → List ℕ) where
  pub All-insert_by {κ} :
      (P : A → Type κ) (a : A) (xs : List A) → P a → All P xs → All P (insert_by key a xs)
  unfolding insert_by
  All-insert_by P a [] h hs = (h, tt)
  All-insert_by P a (x ∷ xs) h hs =
      All-if P (lex_le (key a) (key x)) _ _ (h, hs) (hs.0, All-insert_by P a xs h hs.1)

  -- What holds of every row of a table holds of every row of its sorted version.
  pub All-sort_by {κ} : (P : A → Type κ) (xs : List A) → All P xs → All P (sort_by key xs)
  unfolding sort_by
  All-sort_by P [] h = tt
  All-sort_by P (x ∷ xs) h = All-insert_by P x (sort_by key xs) h.0 (All-sort_by P xs h.1)

  pub length-insert_by : (a : A) (xs : List A) → length (insert_by key a xs) ≡ suc (length xs)
  unfolding insert_by
  length-insert_by a [] = refl
  length-insert_by a (x ∷ xs) = ground (arith, length-insert_by a xs)

  pub length-sort_by : (xs : List A) → length (sort_by key xs) ≡ length xs
  unfolding sort_by
  length-sort_by [] = refl
  length-sort_by (x ∷ xs) = ground (arith, length-insert_by x (sort_by key xs), length-sort_by xs)

  IsLeast-trans :
      (a b : A) (xs : List A) → lex_le (key a) (key b) ≡ true → IsLeast key b xs → IsLeast key a xs
  IsLeast-trans a b xs h = All_imp _ _ xs (λ x k. lex_le_trans (key a) (key b) (key x) h k)

  insert_by-IsSorted : (a : A) (xs : List A) → IsSorted key xs → IsSorted key (insert_by key a xs)
  unfolding insert_by
  insert_by-IsSorted a [] h = (tt, tt)
  insert_by-IsSorted a (x ∷ xs) (least, h) =
      step (lex_le (key a) (key x)) refl (insert_by-IsSorted a xs h)
    where
      step :
          (b : Bool)
          → lex_le (key a) (key x) ≡ b
          → IsSorted key (insert_by key a xs)
          → IsSorted key (if b then a ∷ x ∷ xs else x ∷ insert_by key a xs)
      step true e rest = ((e, IsLeast-trans a x xs e least), (least, h))
      step false e rest = (All-insert_by _ a xs (lex_le_total (key a) (key x) e) least, rest)

  pub sort_by-IsSorted : (xs : List A) → IsSorted key (sort_by key xs)
  unfolding sort_by
  sort_by-IsSorted [] = tt
  sort_by-IsSorted (x ∷ xs) = insert_by-IsSorted x (sort_by key xs) (sort_by-IsSorted xs)

  mem-insert_by_self : (a : A) (xs : List A) → Memᴰ a (insert_by key a xs)
  unfolding insert_by
  mem-insert_by_self a [] = Memᴰ.head refl
  mem-insert_by_self a (x ∷ xs) = step (lex_le (key a) (key x)) (mem-insert_by_self a xs)
    where
      step :
          (b : Bool)
          → Memᴰ a (insert_by key a xs)
          → Memᴰ a (if b then a ∷ x ∷ xs else x ∷ insert_by key a xs)
      step true m = Memᴰ.head refl
      step false m = Memᴰ.tail m

  mem-insert_by : (a : A) (xs : List A) {y : A} → Memᴰ y xs → Memᴰ y (insert_by key a xs)
  unfolding insert_by
  mem-insert_by a [] m = elim m [ ]
  mem-insert_by a (x ∷ xs) {y} (Memᴰ.head e) = step (lex_le (key a) (key x))
    where
      step : (b : Bool) → Memᴰ y (if b then a ∷ x ∷ xs else x ∷ insert_by key a xs)
      step true = Memᴰ.tail (Memᴰ.head e)
      step false = Memᴰ.head e
  mem-insert_by a (x ∷ xs) {y} (Memᴰ.tail m) = step (lex_le (key a) (key x)) (mem-insert_by a xs m)
    where
      step :
          (b : Bool)
          → Memᴰ y (insert_by key a xs)
          → Memᴰ y (if b then a ∷ x ∷ xs else x ∷ insert_by key a xs)
      step true n = Memᴰ.tail (Memᴰ.tail m)
      step false n = Memᴰ.tail n

  pub mem-sort_by : (xs : List A) {y : A} → Memᴰ y xs → Memᴰ y (sort_by key xs)
  unfolding sort_by
  mem-sort_by [] m = elim m [ ]
  mem-sort_by (x ∷ xs) (Memᴰ.head e) =
      subst (λ z. Memᴰ z (insert_by key x (sort_by key xs))) (sym e)
        (mem-insert_by_self x (sort_by key xs))
  mem-sort_by (x ∷ xs) (Memᴰ.tail m) = mem-insert_by x (sort_by key xs) (mem-sort_by xs m)

module _ {ℓ} {A : Type ℓ} (key : A → List ℕ) where
  insert_by_least : (a : A) (xs : List A) → IsLeast key a xs → insert_by key a xs ≡ a ∷ xs
  unfolding insert_by
  insert_by_least a [] h = refl
  insert_by_least a (x ∷ xs) (h, hs) = ground (arith, h)

  -- A sorted list stays as it is.
  pub sort_by_same : (xs : List A) → IsSorted key xs → sort_by key xs ≡ xs
  unfolding sort_by
  sort_by_same [] h = refl
  sort_by_same (x ∷ xs) (h, hs) = ap (insert_by key x) (sort_by_same xs hs) ∙ insert_by_least x xs h
