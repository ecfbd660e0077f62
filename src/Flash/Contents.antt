-- ===== src/Flash/Contents.antt =====
-- crates/tiny-io-oi/src/memory.rs: the file system as a function from paths to contents.
use text.Mathlib.Text.{◌==◌ as str_eq}
use Prim.Native.String.{String}
use text.Mathlib.TextEquality.{eq_iff}
use tiny_io_oi.Prelude.{
  ℕ, List, [], ◌∷◌, ◌++◌, Option, some, true, false, ◌≡◌, ◌≢◌, refl, sym, ap, ◌∙◌, inl, inr, ◌⊎◌,
  Bool-cases, if◌then◌else◌,
}
use tiny_io_oi.Flash.{FlashFileSystem, find, insert, or_empty, write, read, append, create_dir_all}

-- An operation that may change the files.
pub data FileOp : Type 0 where
  write_op append_op : (path : String) (bytes : List ℕ) → FileOp
  create_op : (path : String) → FileOp

abbrev pub perform : FileOp → FlashFileSystem → FlashFileSystem
perform (FileOp.write_op path bytes) fs = write path bytes fs
perform (FileOp.append_op path bytes) fs = append path bytes fs
perform (FileOp.create_op path) fs = create_dir_all path fs

abbrev pub perform_all : List FileOp → FlashFileSystem → FlashFileSystem
perform_all [] fs = fs
perform_all (op ∷ ops) fs = perform_all ops (perform op fs)

-- What an operation makes of the content of one path: an operation on another path leaves it.
abbrev pub content : String → FileOp → Option (List ℕ) → Option (List ℕ)
content name (FileOp.write_op path bytes) old = if str_eq path name then some bytes else old
content name (FileOp.append_op path bytes) old =
    if str_eq path name then some (or_empty old ++ bytes) else old
content name (FileOp.create_op path) old = old

abbrev pub contents : String → List FileOp → Option (List ℕ) → Option (List ℕ)
contents name [] old = old
contents name (op ∷ ops) old = contents name ops (content name op old)

str_eq-false : (a b : String) → a ≢ b → str_eq a b ≡ false
str_eq-false a b ne = elim (Bool-cases (str_eq a b)) [
  | inl t ↦ absurd (ne ((eq_iff a b).0 t))
  | inr f ↦ f
]

find-insert :
    (name path : String) (bytes : List ℕ) (s : List (String × List ℕ))
    → find name (insert path bytes s) ≡ (if str_eq path name then some bytes else find name s)
unfolding find insert
find-insert name path bytes [] = refl
find-insert name path bytes ((k, old) ∷ rest) = elim (Bool-cases (str_eq k path)) [
  | inl t ↦
      rw t (replaced (Bool-cases (str_eq k name)) (ap (λ x. str_eq x name) ((eq_iff k path).0 t)))
  | inr f ↦ rw f (
      kept_on (Bool-cases (str_eq k name)) (find-insert name path bytes rest)
        (λ e. ne_of f ((eq_iff k path).1 e)))
]
  where
    ne_of : str_eq k path ≡ false → ¬ (str_eq k path ≡ true)
    ne_of f t = absurd cc

    replaced :
        (str_eq k name ≡ true) ⊎ (str_eq k name ≡ false)
        → str_eq k name ≡ str_eq path name
        → (if str_eq k name then some bytes else find name rest) ≡ (
            if str_eq path name
            then some bytes
            else (if str_eq k name then some old else find name rest))
    replaced (inl t) same = rw (sym same, t) refl
    replaced (inr f) same = rw (sym same, f) refl

    kept_on :
        (str_eq k name ≡ true) ⊎ (str_eq k name ≡ false)
        → find name (insert path bytes rest)
          ≡ (if str_eq path name then some bytes else find name rest)
        → k ≢ path
        → (if str_eq k name then some old else find name (insert path bytes rest)) ≡ (
            if str_eq path name
            then some bytes
            else (if str_eq k name then some old else find name rest))
    kept_on (inl t) later ne =
        rw (t, str_eq-false path name (λ e. ne ((eq_iff k name).0 t ∙ sym e))) refl
    kept_on (inr f) later ne = rw f later

perform-content :
    (name : String) (op : FileOp) (fs : FlashFileSystem)
    → read name (perform op fs) ≡ content name op (read name fs)
unfolding read write append
perform-content name (FileOp.write_op path bytes) fs = find-insert name path bytes fs.storage
perform-content name (FileOp.append_op path bytes) fs =
    find-insert name path (or_empty (find path fs.storage) ++ bytes) fs.storage
    ∙ same_file (Bool-cases (str_eq path name))
  where
    same_file :
        (str_eq path name ≡ true) ⊎ (str_eq path name ≡ false)
        → (if str_eq path name
            then some (or_empty (find path fs.storage) ++ bytes)
            else find name fs.storage)
          ≡ (if str_eq path name
              then some (or_empty (find name fs.storage) ++ bytes)
              else find name fs.storage)
    same_file (inl t) =
        ap
          (λ p.
            if str_eq path name
            then some (or_empty (find p fs.storage) ++ bytes)
            else find name fs.storage)
          ((eq_iff path name).0 t)
    same_file (inr f) = rw f refl
perform-content name (FileOp.create_op path) fs = refl

-- After any sequence of writes, appends and directory creations, a read of a path gives what the
-- operations on that path alone make of its content, in their order: a write replaces it, an append
-- extends it, or begins it where the file is new.
pub perform_all-contents :
    (name : String) (ops : List FileOp) (fs : FlashFileSystem)
    → read name (perform_all ops fs) ≡ contents name ops (read name fs)
perform_all-contents name [] fs = refl
perform_all-contents name (op ∷ ops) fs =
    perform_all-contents name ops (perform op fs)
    ∙ ap (contents name ops) (perform-content name op fs)
