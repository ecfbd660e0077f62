-- ===== src/Flash.antt =====
-- crates/tiny-io-oi/src/memory.rs: `FlashFileSystem`, the files that cdDB keeps its log in. The map
-- behind the lock is a list of paths with their contents; every operation holds the lock from its
-- first line to its last, so operations are steps.
pub mod Contents
use text.Mathlib.Text.{◌==◌ as str_eq}
use Prim.Native.String.{String}
use tiny_io_oi.Prelude.{
  ℕ, List, [], ◌∷◌, ◌++◌, Option, none, some, Bool, true, false, if◌then◌else◌,
}

pub record FlashFileSystem : Type 0 where
  pub storage : List (String × List ℕ)

abbrev pub new : FlashFileSystem
new = record { storage = [] }

-- `BTreeMap::get`.
unfoldable pub find : String → List (String × List ℕ) → Option (List ℕ)
find path [] = none
find path ((k, bytes) ∷ rest) =
    let later = find path rest in if str_eq k path then some bytes else later

-- `BTreeMap::insert`: the content of a path that is there is replaced.
unfoldable pub insert : String → List ℕ → List (String × List ℕ) → List (String × List ℕ)
insert path bytes [] = (path, bytes) ∷ []
insert path bytes ((k, old) ∷ rest) =
    let later = insert path bytes rest in
    if str_eq k path then (k, bytes) ∷ rest else (k, old) ∷ later

-- `Ok(())` is the state alone, since no operation but `read` fails.
unfoldable pub write : String → List ℕ → FlashFileSystem → FlashFileSystem
unfolding insert
write path bytes fs = record { storage = insert path bytes fs.storage }

-- `none` is the error "File not found".
unfoldable pub read : String → FlashFileSystem → Option (List ℕ)
unfolding find
read path fs = find path fs.storage

-- `entry(path).or_insert_with(Vec::new)`, extended.
abbrev pub or_empty : Option (List ℕ) → List ℕ
or_empty none = []
or_empty (some bytes) = bytes

unfoldable pub append : String → List ℕ → FlashFileSystem → FlashFileSystem
unfolding find insert
append path bytes fs = record {
  storage = insert path (or_empty (find path fs.storage) ++ bytes) fs.storage;
}

unfoldable pub exists : String → FlashFileSystem → Bool
unfolding find
exists path fs = elim (find path fs.storage) [ none ↦ false | some bytes ↦ true ]

abbrev pub create_dir_all : String → FlashFileSystem → FlashFileSystem
create_dir_all path fs = fs

abbrev pub read_dir : String → FlashFileSystem → List String
read_dir path fs = []
