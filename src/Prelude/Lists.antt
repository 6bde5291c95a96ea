-- ===== src/Prelude/Lists.antt =====
-- Lists measured by native numbers, quantified predicates, and queries in the style of SQL.
use Prim.Native.Nat.{ℕ, zero, suc, ◌+◌, ◌≤◌}
use mathlib.Core.Path.{◌≡◌, refl, sym, ap, subst, ◌∙◌}
use mathlib.Core.Bool.{Bool, true, false, ◌&&◌, ◌||◌}
use mathlib.Core.List.{List, [], ◌∷◌, ◌++◌, Memᴰ}
use native.Mathlib.Omega.{arith}
use world_of_seeds.Prelude.Tests.{◌==◌, if◌then◌else◌}

module _ {ℓ} {A : Type ℓ} where
  abbrev pub length : List A → ℕ
  length [] = 0
  length (x ∷ xs) = suc (length xs)

  abbrev pub take : ℕ → List A → List A
  take zero xs = []
  take (suc n) [] = []
  take (suc n) (x ∷ xs) = x ∷ take n xs

  abbrev pub drop : ℕ → List A → List A
  drop zero xs = xs
  drop (suc n) [] = []
  drop (suc n) (x ∷ xs) = drop n xs

  -- `WHERE test`, and a comprehension's `if test`.
  abbrev pub where_rows : (A → Bool) → List A → List A
  where_rows p [] = []
  where_rows p (x ∷ xs) = let rest = where_rows p xs in if p x then x ∷ rest else rest

  abbrev pub count_rows : (A → Bool) → List A → ℕ
  count_rows p [] = 0
  count_rows p (x ∷ xs) = (if p x then 1 else 0) + count_rows p xs

  abbrev pub any : (A → Bool) → List A → Bool
  any p [] = false
  any p (x ∷ xs) = p x || any p xs

  abbrev pub all : (A → Bool) → List A → Bool
  all p [] = true
  all p (x ∷ xs) = p x && all p xs

  abbrev pub sum_of : (A → ℕ) → List A → ℕ
  sum_of f [] = 0
  sum_of f (x ∷ xs) = f x + sum_of f xs

  abbrev pub All {κ} : (A → Type κ) → List A → Type κ
  All P [] = Unit
  All P (x ∷ xs) = P x × All P xs

  pub length-append : (xs ys : List A) → length (xs ++ ys) ≡ length xs + length ys
  length-append [] ys = omega arith
  length-append (x ∷ xs) ys = omega (arith, length-append xs ys)

  pub length-take-le : (n : ℕ) (xs : List A) → length (take n xs) ≤ n
  length-take-le zero xs = omega arith
  length-take-le (suc n) [] = omega arith
  length-take-le (suc n) (x ∷ xs) = omega (arith, length-take-le n xs)

  pub length-where_rows-le : (p : A → Bool) (xs : List A) → length (where_rows p xs) ≤ length xs
  length-where_rows-le p [] = omega arith
  length-where_rows-le p (x ∷ xs) = ground (arith, length-where_rows-le p xs)

module _ {ℓ κ} {A : Type ℓ} (P : A → Type κ) where
  pub All-append : (xs ys : List A) → All P xs → All P ys → All P (xs ++ ys)
  All-append [] ys hx hy = hy
  All-append (x ∷ xs) ys hx hy = (hx.0, All-append xs ys hx.1 hy)

  pub All-if : (b : Bool) (xs ys : List A) → All P xs → All P ys → All P (if b then xs else ys)
  All-if true xs ys hx hy = hx
  All-if false xs ys hx hy = hy

  pub All-if_of :
      (b : Bool) (xs ys : List A)
      → (b ≡ true → All P xs)
      → (b ≡ false → All P ys)
      → All P (if b then xs else ys)
  All-if_of true xs ys hx hy = hx refl
  All-if_of false xs ys hx hy = hy refl

  pub All-where_rows : (p : A → Bool) (xs : List A) → All P xs → All P (where_rows p xs)
  All-where_rows p [] h = tt
  All-where_rows p (x ∷ xs) h =
      let rest = All-where_rows p xs h.1 in All-if (p x) _ _ (h.0, rest) rest

  pub All-take : (n : ℕ) (xs : List A) → All P xs → All P (take n xs)
  All-take zero xs h = tt
  All-take (suc n) [] h = tt
  All-take (suc n) (x ∷ xs) h = (h.0, All-take n xs h.1)

  pub All_both {μ} : (Q : A → Type μ) (xs : List A) → All P xs → All Q xs → All (λ x. P x × Q x) xs
  All_both Q [] h k = tt
  All_both Q (x ∷ xs) h k = ((h.0, k.0), All_both Q xs h.1 k.1)

  pub All_imp {μ} : (Q : A → Type μ) (xs : List A) → ((x : A) → P x → Q x) → All P xs → All Q xs
  All_imp Q [] f h = tt
  All_imp Q (x ∷ xs) f h = (f x h.0, All_imp Q xs f h.1)

  pub All_of_mem : (xs : List A) → ((x : A) → Memᴰ x xs → P x) → All P xs
  All_of_mem [] f = tt
  All_of_mem (x ∷ xs) f = (f x (Memᴰ.head refl), All_of_mem xs (λ y m. f y (Memᴰ.tail m)))

  pub All_at : (xs : List A) {x : A} → All P xs → Memᴰ x xs → P x
  All_at [] h m = elim m [ ]
  All_at (y ∷ xs) h (Memᴰ.head e) = subst P (sym e) h.0
  All_at (y ∷ xs) h (Memᴰ.tail m) = All_at xs h.1 m

module _ {ℓ} {A : Type ℓ} (p : A → Bool) where
  pub All-where_rows_test : (xs : List A) → All (λ x. p x ≡ true) (where_rows p xs)
  All-where_rows_test [] = tt
  All-where_rows_test (x ∷ xs) =
      All-if_of (λ y. p y ≡ true) (p x) _ _ (λ e. (e, All-where_rows_test xs))
        (λ e. All-where_rows_test xs)

  -- A row that a query returns is a row of the table that passes the test.
  pub mem_of_mem-where_rows :
      (xs : List A) {x : A} → Memᴰ x (where_rows p xs) → Memᴰ x xs × (p x ≡ true)
  mem_of_mem-where_rows [] m = elim m [ ]
  mem_of_mem-where_rows (y ∷ xs) {x} m = step (p y) refl (λ n. mem_of_mem-where_rows xs n) m
    where
      step :
          (b : Bool)
          → p y ≡ b
          → (Memᴰ x (where_rows p xs) → Memᴰ x xs × (p x ≡ true))
          → Memᴰ x (if b then y ∷ where_rows p xs else where_rows p xs)
          → Memᴰ x (y ∷ xs) × (p x ≡ true)
      step true e rec (Memᴰ.head h) = (Memᴰ.head h, ap p h ∙ e)
      step true e rec (Memᴰ.tail n) = (Memᴰ.tail (rec n).0, (rec n).1)
      step false e rec n = (Memᴰ.tail (rec n).0, (rec n).1)

  pub mem-where_rows : (xs : List A) {x : A} → Memᴰ x xs → p x ≡ true → Memᴰ x (where_rows p xs)
  mem-where_rows [] m h = elim m [ ]
  mem-where_rows (y ∷ xs) {x} (Memᴰ.head e) h = step (p y) (sym (ap p e) ∙ h)
    where
      step : (b : Bool) → b ≡ true → Memᴰ x (if b then y ∷ where_rows p xs else where_rows p xs)
      step true t = Memᴰ.head e
      step false t = cc
  mem-where_rows (y ∷ xs) {x} (Memᴰ.tail m) h = step (p y) (mem-where_rows xs m h)
    where
      step :
          (b : Bool)
          → Memᴰ x (where_rows p xs)
          → Memᴰ x (if b then y ∷ where_rows p xs else where_rows p xs)
      step true n = Memᴰ.tail n
      step false n = n

-- `x in xs`, on identifiers.
abbrev pub contains : List ℕ → ℕ → Bool
contains [] a = false
contains (x ∷ xs) a = x == a || contains xs a
