-- ===== src/Cache/Disk.antt =====
-- The part of the file system that src/cache.rs uses: which paths exist, and what stands there.
use togewire.Prelude.{
  ℕ, Bool, true, false, Option, none, some, List, [], ◌∷◌, ◌++◌, Text, Text-discrete, ◌=?◌, is_some,
  codes, if◌then◌else◌, ◌&&◌, ◌==◌,
}
use togewire.Prelude.Maps.{get, remove}

pub data Kind : Type 0 where
  file : ℕ → Kind
  directory : Kind

-- What stands at a path, with the folder that lists it and its name there.
pub record Node : Type 0 where
  pub folder : Text
  pub name : Text
  pub kind : Kind

-- `refuses` names the paths on which the operating system denies a change, `lists` the folders that
-- can be read; `metadata` is the text of the metadata file, `none` if it cannot be read.
pub record Disk : Type 0 where
  pub nodes : List (Text × Node)
  pub refuses : Text → Bool
  pub lists : Text → Bool
  pub metadata : Option Text

unfoldable pub exists : Text → Disk → Bool
unfolding get
exists path d = is_some (get Text-discrete path d.nodes)

-- `fs::metadata(path).map_or(0, |m| m.len())`
unfoldable pub file_len : Text → Disk → ℕ
unfolding get
file_len path d = elim (get Text-discrete path d.nodes) [
  | none ↦ 0
  | some n ↦ elim n.kind [ file len ↦ len | directory ↦ 0 ]
]

is_file : Option Node → Bool
is_file none = false
is_file (some n) = elim n.kind [ file _ ↦ true | directory ↦ false ]

-- `let _ = fs::remove_file(path)`: a failure leaves everything as it was.
unfoldable pub remove_file : Text → Disk → Disk
unfolding get remove is_file
remove_file path d =
    if d.refuses path
    then d
    else if is_file (get Text-discrete path d.nodes)
    then record d { nodes = remove Text-discrete path d.nodes }
    else d

unfoldable pub starts_with : Text → Text → Bool
starts_with [] s = true
starts_with (p ∷ ps) [] = false
starts_with (p ∷ ps) (c ∷ cs) = p == c && starts_with ps cs

drop_below : Text → List (Text × Node) → List (Text × Node)
unfolding starts_with
drop_below path [] = []
drop_below path ((p, n) ∷ ns) =
    let rest = drop_below path ns in
    if starts_with (path ++ codes "/") p then rest else (p, n) ∷ rest

-- `let _ = fs::remove_dir_all(path)`
unfoldable pub remove_dir_all : Text → Disk → Disk
unfolding remove drop_below
remove_dir_all path d =
    if d.refuses path
    then d
    else record d { nodes = drop_below path (remove Text-discrete path d.nodes) }

children : Text → List (Text × Node) → List (Text × Node)
children dir [] = []
children dir ((p, n) ∷ ns) =
    let rest = children dir ns in if n.folder =? dir then (p, n) ∷ rest else rest

-- `fs::read_dir(dir)`: the entries, each with its path.
unfoldable pub read_dir : Text → Disk → Option (List (Text × Node))
unfolding children
read_dir dir d = if d.lists dir then some (children dir d.nodes) else none
