-- ===== src/Metainfo/Paths.antt =====
-- backend/app/torrents/metainfo.py: `_PathNode`, the tree of the paths of a torrent's files. A path is the
-- collision key of its parts.
use world_of_seeds.Prelude.{
  String, Bool, true, false, not, ◌||◌, List, [], ◌∷◌, str_eq, if◌then◌else◌, Result, ok, ◌>>=◌,
  ◌>>◌, guard,
}
use world_of_seeds.Metainfo.Bencode.{MetainfoError, invalid_path}

abbrev pub PathKey : Type 0
PathKey = List String

mutual
  pub data PathNode : Type 0 where
    node : Bool → Children → PathNode

  -- `children`, in the order of insertion.
  pub data Children : Type 0 where
    no_children : Children
    child : String → PathNode → Children → Children

-- `_PathNode()`
abbrev pub new_node : PathNode
new_node = node false no_children

-- `node.children.get(part)`, or a new node
unfoldable pub get_child : Children → String → PathNode
get_child no_children part = new_node
get_child (child name n cs) part =
    let rest = get_child cs part in if str_eq name part then n else rest

-- `node.children[part] = child`
unfoldable pub put_child : Children → String → PathNode → Children
put_child no_children part x = child part x no_children
put_child (child name n cs) part x =
    let rest = put_child cs part x in
    if str_eq name part then child name x cs else child name n rest

abbrev pub is_childless : Children → Bool
is_childless no_children = true
is_childless (child name n cs) = false

-- `add_file`; the tree of a path that is refused is dropped with the whole file.
unfoldable pub add_file : PathKey → PathNode → Result MetainfoError PathNode
unfolding get_child put_child
add_file [] (node is_file cs) = do
  guard (not (is_file || not (is_childless cs))) invalid_path
  ok (node true cs)
add_file (part ∷ parts) (node is_file cs) = do
  guard (not is_file) invalid_path
  x ← add_file parts (get_child cs part)
  ok (node is_file (put_child cs part x))
