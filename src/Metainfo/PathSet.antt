-- ===== src/Metainfo/PathSet.antt =====
-- backend/app/torrents/metainfo.py: the tree of `_PathNode` is a set of paths, none of which leads through
-- another one.
use world_of_seeds.Prelude.{
  if_ind, String, ◌≡◌, refl, sym, ap, ◌∙◌, inl, inr, Bool, true, false, not, ◌&&◌, ◌||◌, List, [],
  ◌∷◌, arith, str_eq, eq_iff, if◌then◌else◌, Bool-cases, any, Result, ok, err, ◌>>=◌, ◌>>◌, guard,
  OnOk, OnOk-bind,
}
use world_of_seeds.Metainfo.Bencode.{MetainfoError, invalid_path}
use world_of_seeds.Metainfo.Paths.{
  PathKey, PathNode, node, Children, no_children, child, new_node, get_child, put_child,
  is_childless, add_file,
}

-- The file of a path.
unfoldable pub is_file_at : PathKey → PathNode → Bool
unfolding get_child
is_file_at [] (node is_file cs) = is_file
is_file_at (part ∷ parts) (node is_file cs) = is_file_at parts (get_child cs part)

abbrev pub path_eq : PathKey → PathKey → Bool
path_eq [] [] = true
path_eq [] (b ∷ q) = false
path_eq (a ∷ p) [] = false
path_eq (a ∷ p) (b ∷ q) = str_eq a b && path_eq p q

-- One path leads through the other, or they are the same.
abbrev pub is_comparable : PathKey → PathKey → Bool
is_comparable [] q = true
is_comparable (a ∷ p) [] = true
is_comparable (a ∷ p) (b ∷ q) = str_eq a b && is_comparable p q

-- A set of paths, without the tree.
unfoldable pub add_path : PathKey → List PathKey → Result MetainfoError (List PathKey)
add_path path paths = do
  guard (not (any (is_comparable path) paths)) invalid_path
  ok (path ∷ paths)

abbrev HasFile : PathNode → Type 0
HasFile n = (q : PathKey) × (is_file_at q n ≡ true)

-- A file has no children, and below every child is a file.
unfoldable mutual
  unfolding is_file_at

  pub IsTree : PathNode → Type 0
  IsTree (node is_file cs) = (is_file ≡ true → is_childless cs ≡ true) × AreTrees cs

  pub AreTrees : Children → Type 0
  AreTrees no_children = Unit
  AreTrees (child name n cs) = HasFile n × IsTree n × AreTrees cs

str_eq_refl : (a : String) → str_eq a a ≡ true
str_eq_refl a = (eq_iff a a).1 refl

str_eq_join : (a b c : String) → str_eq a c ≡ true → str_eq b c ≡ true → str_eq a b ≡ true
str_eq_join a b c h k = (eq_iff a b).1 ((eq_iff a c).0 h ∙ sym ((eq_iff b c).0 k))

str_eq_other : (a b : String) → str_eq b a ≡ false → str_eq a b ≡ false
str_eq_other a b h = elim (Bool-cases (str_eq a b)) [
  | inl same ↦ absurd (cc (h, (eq_iff b a).1 (sym ((eq_iff a b).0 same))))
  | inr other ↦ other
]

-- The law of the children.
get-put_child :
    (cs : Children) (part name : String) (x : PathNode)
    → get_child (put_child cs part x) name ≡ (if str_eq part name then x else get_child cs name)
unfolding get_child put_child
get-put_child no_children part name x = refl
get-put_child (child key n cs) part name x = elim (Bool-cases (str_eq key part)) [
  | inl same ↦
      let equal = ap (λ (k : String). str_eq k name) ((eq_iff key part).0 same) in
      ground (arith, same, equal)
  | inr other ↦ ground (arith, other, get-put_child cs part name x, str_eq_join key part name)
]

get_child-IsTree : (cs : Children) (part : String) → AreTrees cs → IsTree (get_child cs part)
unfolding get_child IsTree AreTrees
get_child-IsTree no_children part h = ((λ e. refl), tt)
get_child-IsTree (child name n cs) part (some_file, tree, trees) =
    if_ind IsTree (str_eq name part) (λ e. tree) (λ e. get_child-IsTree cs part trees)

put_child-AreTrees :
    (cs : Children) (part : String) (x : PathNode)
    → AreTrees cs
    → HasFile x
    → IsTree x
    → AreTrees (put_child cs part x)
unfolding put_child AreTrees
put_child-AreTrees no_children part x h f t = (f, t, tt)
put_child-AreTrees (child name n cs) part x (some_file, tree, trees) f t =
    if_ind AreTrees (str_eq name part) (λ e. (f, t, trees))
      (λ e. (some_file, tree, put_child-AreTrees cs part x trees f t))

pub new_is_empty : (q : PathKey) → is_file_at q new_node ≡ false
unfolding is_file_at get_child
new_is_empty [] = refl
new_is_empty (p ∷ ps) = new_is_empty ps

err_of {ℓ κ} :
    {E : Type 0} {A : Type ℓ} {B : Type κ} (r : Result E A) (f : A → B) {e : E}
    → (r >>= λ a. ok (f a)) ≡ err e
    → r ≡ err e
err_of (ok a) f h = cc h
err_of (err x) f h = cc h

-- A path that is refused is comparable with one that is there.
pub refused-IsComparable :
    (path : PathKey) (t : PathNode) {e : MetainfoError}
    → IsTree t
    → add_file path t ≡ err e
    → (q : PathKey) × (is_file_at q t ≡ true) × (is_comparable path q ≡ true)
unfolding add_file is_file_at IsTree AreTrees get_child
refused-IsComparable [] (node true cs) h k = ([], refl, refl)
refused-IsComparable [] (node false no_children) h k = cc
refused-IsComparable [] (node false (child name n cs)) (h, ((q, file), tree, trees)) k =
    (name ∷ q, rw (str_eq_refl name) file, refl)
refused-IsComparable (p ∷ ps) (node true cs) h k = ([], refl, refl)
refused-IsComparable (p ∷ ps) (node false cs) (h, trees) k =
    let (q, file, met) =
      refused-IsComparable ps (get_child cs p) (get_child-IsTree cs p trees) (err_of _ _ k) in
    (p ∷ q, file, rw (str_eq_refl p) met)

-- A path that is taken is comparable with none that is there, and joins them.
abbrev pub Joins : PathKey → PathNode → PathNode → Type 0
Joins path t u =
    IsTree u
    × ((q : PathKey) → is_file_at q u ≡ (path_eq q path || is_file_at q t))
    × ((q : PathKey) → is_file_at q t ≡ true → is_comparable path q ≡ false)

pub path_eq-eq : (p q : PathKey) → path_eq p q ≡ true → p ≡ q
path_eq-eq [] [] h = refl
path_eq-eq [] (b ∷ q) h = cc h
path_eq-eq (a ∷ p) [] h = cc h
path_eq-eq (a ∷ p) (b ∷ q) h =
    let first = (eq_iff a b).0 (ground (arith, h)) in
    let rest = path_eq-eq p q (ground (arith, h)) in cc (first, rest)

pub path_eq_refl : (p : PathKey) → path_eq p p ≡ true
path_eq_refl [] = refl
path_eq_refl (a ∷ p) = rw (str_eq_refl a) (path_eq_refl p)

root_files :
    (q : PathKey)
    → is_file_at q (node true no_children) ≡ (path_eq q [] || is_file_at q (node false no_children))
unfolding is_file_at
root_files [] = refl
root_files (a ∷ q) = refl

child_files :
    (cs : Children) (p : String) (ps : PathKey) (x : PathNode)
    → ((q : PathKey) → is_file_at q x ≡ (path_eq q ps || is_file_at q (get_child cs p)))
    → (q : PathKey)
    → is_file_at q (node false (put_child cs p x))
      ≡ (path_eq q (p ∷ ps) || is_file_at q (node false cs))
unfolding is_file_at
child_files cs p ps x h [] = refl
child_files cs p ps x h (a ∷ q) = elim (Bool-cases (str_eq p a)) [
  | inl same ↦
      let equal = (eq_iff p a).0 same in
      let there : get_child (put_child cs p x) a ≡ x = get-put_child cs p a x ∙ rw same refl in
      let old : is_file_at q (get_child cs p) ≡ is_file_at q (get_child cs a) =
        ap (λ (k : String). is_file_at q (get_child cs k)) equal in
      let named : str_eq a p ≡ true = (eq_iff a p).1 (sym equal) in rw (there, h q, old, named) refl
  | inr other ↦
      let there : get_child (put_child cs p x) a ≡ get_child cs a =
        get-put_child cs p a x ∙ rw other refl in
      rw (there, str_eq_other a p other) refl
]

child_apart :
    (cs : Children) (p : String) (ps : PathKey)
    → ((q : PathKey) → is_file_at q (get_child cs p) ≡ true → is_comparable ps q ≡ false)
    → (q : PathKey) → is_file_at q (node false cs) ≡ true
    → is_comparable (p ∷ ps) q ≡ false
unfolding is_file_at
child_apart cs p ps h [] file = cc file
child_apart cs p ps h (a ∷ q) file = elim (Bool-cases (str_eq p a)) [
  | inl same ↦
      let equal = (eq_iff p a).0 same in
      rw same (h q (ap (λ (k : String). is_file_at q (get_child cs k)) equal ∙ file))
  | inr other ↦ rw other refl
]

pub taken-Joins : (path : PathKey) (t : PathNode) → IsTree t → OnOk (Joins path t) (add_file path t)
unfolding add_file is_file_at IsTree
taken-Joins [] (node true cs) h = tt
taken-Joins [] (node false (child name n cs)) h = tt
taken-Joins [] (node false no_children) h =
    (((λ e. refl), tt), root_files, (λ q file. absurd (cc (file, new_is_empty q))))
taken-Joins (p ∷ ps) (node true cs) h = tt
taken-Joins (p ∷ ps) (node false cs) (h, trees) =
    OnOk-bind (Joins ps (get_child cs p)) (Joins (p ∷ ps) (node false cs))
      (add_file ps (get_child cs p)) (λ x. ok (node false (put_child cs p x)))
      (taken-Joins ps (get_child cs p) (get_child-IsTree cs p trees))
      (λ x (tree, files, apart). (
        (
          (λ e. cc e),
          put_child-AreTrees cs p x trees (ps, files ps ∙ rw (path_eq_refl ps) refl) tree,
        ),
        child_files cs p ps x files,
        child_apart cs p ps apart,
      ))

-- The tree holds these paths, and no others.
abbrev pub Represents : PathNode → List PathKey → Type 0
Represents t paths = IsTree t × ((q : PathKey) → is_file_at q t ≡ any (path_eq q) paths)

abbrev pub Agree : Result MetainfoError PathNode → Result MetainfoError (List PathKey) → Type 0
Agree (ok t) (ok paths) = Represents t paths
Agree (err e) (err f) = e ≡ f
Agree _ _ = ⊥
