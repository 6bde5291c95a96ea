-- ===== src/Metainfo/PathTree.antt =====
-- backend/app/torrents/metainfo.py: `_PathNode.add_file` refines a set of paths.
use world_of_seeds.Prelude.{
  ◌≡◌, refl, sym, ap, subst, ◌∙◌, ◌⊎◌, inl, inr, Bool, true, false, not, ◌||◌, List, [], ◌∷◌, arith,
  Bool-cases, any, Result, ok, err, OnErr, OnErr-guard, OnErr-map, OnOk_at,
}
use mathlib.Core.List.{Memᴰ}
use world_of_seeds.Metainfo.Bencode.{MetainfoError, invalid_path}
use world_of_seeds.Metainfo.Paths.{
  PathKey, PathNode, node, new_node, add_file, is_childless, get_child, put_child,
}
use world_of_seeds.Metainfo.PathSet.{
  path_eq, path_eq_refl, path_eq-eq, is_comparable, add_path, IsTree, refused-IsComparable, Joins,
  taken-Joins, Represents, Agree, new_is_empty,
}

any_none {ℓ} :
    {A : Type ℓ} (p : A → Bool) (xs : List A)
    → ((x : A) → Memᴰ x xs → p x ≡ false)
    → any p xs ≡ false
any_none p [] h = refl
any_none p (x ∷ xs) h = rw (h x (Memᴰ.head refl)) (any_none p xs (λ y m. h y (Memᴰ.tail m)))

any_of {ℓ} :
    {A : Type ℓ} (p : A → Bool) (xs : List A) {x : A} → Memᴰ x xs → p x ≡ true → any p xs ≡ true
any_of p [] m h = elim m [ ]
any_of p (y ∷ xs) (Memᴰ.head e) h = rw (ap p (sym e) ∙ h) refl
any_of p (y ∷ xs) (Memᴰ.tail m) h = ground (arith, any_of p xs m h)

any_some {ℓ} :
    {A : Type ℓ} (p : A → Bool) (xs : List A) → any p xs ≡ true → (x : A) × Memᴰ x xs × (p x ≡ true)
any_some p [] h = cc h
any_some p (x ∷ xs) h = elim (Bool-cases (p x)) [
  | inl here ↦ (x, Memᴰ.head refl, here)
  | inr other ↦
      let (y, m, there) = any_some p xs (ground (arith, other, h)) in (y, Memᴰ.tail m, there)
]

refused_error : (path : PathKey) (t : PathNode) → OnErr (λ e. e ≡ invalid_path) (add_file path t)
unfolding add_file
refused_error [] (node is_file cs) =
    OnErr-guard (λ e. e ≡ invalid_path) (not (is_file || not (is_childless cs))) invalid_path
      (ok (node true cs)) refl tt
refused_error (p ∷ ps) (node is_file cs) =
    OnErr-guard (λ e. e ≡ invalid_path) (not is_file) invalid_path _ refl
      (OnErr-map (λ e. e ≡ invalid_path) (add_file ps (get_child cs p))
        (λ x. node is_file (put_child cs p x)) (refused_error ps (get_child cs p)))

Result-cases {ℓ} :
    {E : Type 0} {A : Type ℓ} (r : Result E A) → ((a : A) × (r ≡ ok a)) ⊎ ((e : E) × (r ≡ err e))
Result-cases (ok a) = inl (a, refl)
Result-cases (err e) = inr (e, refl)

module _ (path : PathKey) (t : PathNode) (paths : List PathKey) (h : Represents t paths) where
  taken_agrees : {u : PathNode} → add_file path t ≡ ok u → Agree (ok u) (add_path path paths)
  unfolding add_path
  taken_agrees {u} same =
      let (tree, files, apart) =
        OnOk_at (Joins path t) (add_file path t) (taken-Joins path t h.0) same in
      let free : any (is_comparable path) paths ≡ false =
        any_none (is_comparable path) paths
          (λ q m. apart q (h.1 q ∙ any_of (path_eq q) paths m (path_eq_refl q))) in
      rw free (tree, λ q. files q ∙ ap (λ b. path_eq q path || b) (h.1 q))

  refused_agrees :
      {e : MetainfoError} → add_file path t ≡ err e → Agree (err e) (add_path path paths)
  unfolding add_path
  refused_agrees {e} same =
      let (q, file, met) = refused-IsComparable path t h.0 same in
      let (r, known, equal) = any_some (path_eq q) paths (sym (h.1 q) ∙ file) in
      let taken : any (is_comparable path) paths ≡ true =
        any_of (is_comparable path) paths known
          (ap (is_comparable path) (sym (path_eq-eq q r equal)) ∙ met) in
      rw taken (subst (OnErr (λ x. x ≡ invalid_path)) same (refused_error path t))

  -- On a tree that holds these paths, `add_file` does what the set does: it refuses exactly the path that
  -- leads through one of them, or that one of them leads through, or that is there, and the tree holds the
  -- other paths together with these.
  pub add_file-refines : Agree (add_file path t) (add_path path paths)
  add_file-refines = elim (Result-cases (add_file path t)) [
    | inl (u, same) ↦ subst (λ r. Agree r (add_path path paths)) (sym same) (taken_agrees same)
    | inr (e, same) ↦ subst (λ r. Agree r (add_path path paths)) (sym same) (refused_agrees same)
  ]

-- An empty tree holds no path.
pub new_node-Represents : Represents new_node []
unfolding IsTree
new_node-Represents = (((λ e. refl), tt), new_is_empty)
