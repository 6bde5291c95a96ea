-- ===== src/Lifecycle/Distinct.antt =====
-- Rows with different identifiers keep them different when some are selected, sorted and limited, as the
-- queries of backend/app/torrents/lifecycle.py do.
use world_of_seeds.Prelude.{
  ℕ, zero, suc, ◌≡◌, refl, ap, ◌∙◌, Bool, true, not, ◌&&◌, List, [], ◌∷◌, arith, ◌==◌, take,
  where_rows, all, All, All-take, All_of_mem, mem_of_mem-where_rows,
}
use mathlib.Core.List.{Memᴰ}
use world_of_seeds.Prelude.Sorting.{insert_by, sort_by, All-sort_by}
use world_of_seeds.Lifecycle.Sums.{all_distinct}

module _ {ℓ} {A : Type ℓ} (key : A → ℕ) where
  all-where_rows : (p q : A → Bool) (xs : List A) → all p xs ≡ true → all p (where_rows q xs) ≡ true
  all-where_rows p q [] h = refl
  all-where_rows p q (x ∷ xs) h = ground (arith, all-where_rows p q xs)

  pub distinct-where_rows :
      (q : A → Bool) (xs : List A)
      → all_distinct key xs ≡ true
      → all_distinct key (where_rows q xs) ≡ true
  distinct-where_rows q [] h = refl
  distinct-where_rows q (x ∷ xs) h =
      ground (arith, distinct-where_rows q xs, all-where_rows (λ y. not (key y == key x)) q xs)

  all-take : (p : A → Bool) (n : ℕ) (xs : List A) → all p xs ≡ true → all p (take n xs) ≡ true
  all-take p zero xs h = refl
  all-take p (suc n) [] h = refl
  all-take p (suc n) (x ∷ xs) h = ground (arith, all-take p n xs)

  pub distinct-take :
      (n : ℕ) (xs : List A) → all_distinct key xs ≡ true → all_distinct key (take n xs) ≡ true
  distinct-take zero xs h = refl
  distinct-take (suc n) [] h = refl
  distinct-take (suc n) (x ∷ xs) h =
      ground (arith, distinct-take n xs, all-take (λ y. not (key y == key x)) n xs)

  module _ (order : A → List ℕ) where
    all-insert_by :
        (p : A → Bool) (x : A) (xs : List A) → all p (insert_by order x xs) ≡ (p x && all p xs)
    unfolding insert_by
    all-insert_by p x [] = refl
    all-insert_by p x (y ∷ ys) = ground (arith, all-insert_by p x ys)

    all-sort_by : (p : A → Bool) (xs : List A) → all p (sort_by order xs) ≡ all p xs
    unfolding sort_by
    all-sort_by p [] = refl
    all-sort_by p (x ∷ xs) =
        all-insert_by p x (sort_by order xs) ∙ ap (λ (b : Bool). p x && b) (all-sort_by p xs)

    distinct-insert_by :
        (x : A) (xs : List A)
        → all (λ y. not (key y == key x)) xs ≡ true
        → all_distinct key xs ≡ true
        → all_distinct key (insert_by order x xs) ≡ true
    unfolding insert_by
    distinct-insert_by x [] h k = refl
    distinct-insert_by x (y ∷ ys) h k =
        ground (arith, distinct-insert_by x ys, all-insert_by (λ z. not (key z == key y)) x ys)

    pub distinct-sort_by :
        (xs : List A) → all_distinct key xs ≡ true → all_distinct key (sort_by order xs) ≡ true
    unfolding sort_by
    distinct-sort_by [] h = refl
    distinct-sort_by (x ∷ xs) h =
        distinct-insert_by x (sort_by order xs)
          (all-sort_by (λ y. not (key y == key x)) xs ∙ ground (arith, h))
          (distinct-sort_by xs (ground (arith, h)))

-- `SELECT ... WHERE ... ORDER BY ... LIMIT ...`
module _ {ℓ} {A : Type ℓ} (order : A → List ℕ) (q : A → Bool) (limit : ℕ) (xs : List A) where
  pub page-distinct :
      (key : A → ℕ)
      → all_distinct key xs ≡ true
      → all_distinct key (take limit (sort_by order (where_rows q xs))) ≡ true
  page-distinct key h =
      distinct-take key limit (sort_by order (where_rows q xs))
        (distinct-sort_by key order (where_rows q xs) (distinct-where_rows key q xs h))

  pub All-page {κ} :
      (P : A → Type κ)
      → ((x : A) → Memᴰ x xs → q x ≡ true → P x)
      → All P (take limit (sort_by order (where_rows q xs)))
  All-page P h = All-take P limit (sort_by order (where_rows q xs)) (
      All-sort_by order P (where_rows q xs) (
        All_of_mem P (where_rows q xs)
          (λ x m. let (known, test) = mem_of_mem-where_rows q xs m in h x known test)))
