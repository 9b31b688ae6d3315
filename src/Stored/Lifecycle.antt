-- ===== src/Stored/Lifecycle.antt =====
-- agent/internal/lifecycle/store.go. Parameters: package os (Stored.Files) and encoding/json.
use devopsellence.Base.{
  Bool, false, ◌&&◌, ◌≡◌, refl, sym, ◌∙◌, ap, subst, Option, none, some, [], Text, ◌==◌, is_empty,
  nat_eq, ℤ, pos, negsuc, Dict, lookup, insert, lookup-insert, Result, ok, err, if◌then◌else◌,
  Bool-cases, arith, inl, inr,
}
use devopsellence.Config.Store.{FileRead, missing, failed, contents}
use devopsellence.Stored.Files.{
  FileSystem, IsFileSystem, unless_failed, unless_failed-none, plain, ensure_dir_max_mode,
  replace_file, read-replace_file,
}

pub record Record : Type 0 where
  pub sequence : ℤ
  pub hash : Text

-- encoding/json on a fileState; the tasks that are decoded are `none` where they are null.
pub record Json : Type 0 where
  pub unmarshal : Text → Result Text (Option (Dict Record))
  pub marshal : Dict Record → Result Text Text

-- `a == b`
unfoldable pub is_same_sequence : ℤ → ℤ → Bool
is_same_sequence (pos m) (pos n) = nat_eq m n
is_same_sequence (negsuc m) (negsuc n) = nat_eq m n
is_same_sequence a b = false

unfoldable pub is_record : Option Record → ℤ → Text → Bool
unfolding is_same_sequence
is_record none sequence hash = false
is_record (some record') sequence hash =
    is_same_sequence record'.sequence sequence && record'.hash == hash

unfoldable pub satisfied_in : Result Text (Dict Record) → (name : Text) → ℤ → (hash : Text) → Bool
unfolding is_record
satisfied_in (err e) name sequence hash = false
satisfied_in (ok tasks) name sequence hash = is_record (lookup name tasks) sequence hash

-- The tasks of a decoded file: none where it does not parse or has null.
unfoldable pub decoded_tasks : Result Text (Option (Dict Record)) → Dict Record
decoded_tasks (err e) = []
decoded_tasks (ok none) = []
decoded_tasks (ok (some tasks)) = tasks

-- Where the store keeps its file; a nil store and one without a path have none.
unfoldable pub file_of : Option Text → Option Text
file_of none = none
file_of (some path) = if is_empty path then none else some path

module _ {D : Type 0} (fs : FileSystem D) (json : Json) where
  unfoldable pub load_read : FileRead → Result Text (Dict Record)
  unfolding decoded_tasks
  load_read missing = ok []
  load_read (failed e) = err e
  load_read (contents text) =
      if is_empty text then ok [] else ok (decoded_tasks (json.unmarshal text))

  unfoldable pub load_file : Option Text → D → Result Text (Dict Record)
  unfolding load_read
  load_file none disk = ok []
  load_file (some path) disk = load_read (fs.read_file disk path)

  unfoldable pub load : Option Text → D → Result Text (Dict Record)
  unfolding load_file file_of
  load store disk = load_file (file_of store) disk

  unfoldable pub satisfied : Option Text → D → (name : Text) → ℤ → (hash : Text) → Bool
  unfolding load satisfied_in
  satisfied store disk name sequence hash = satisfied_in (load store disk) name sequence hash

  unfoldable pub save_marshalled : Text → Result Text Text → D → D × Option Text
  unfolding replace_file
  save_marshalled path (err e) disk = (disk, some e)
  save_marshalled path (ok text) disk = replace_file fs plain plain path text disk

  -- 457 is 0o711.
  unfoldable pub save_file : Option Text → Dict Record → D → D × Option Text
  unfolding unless_failed save_marshalled ensure_dir_max_mode
  save_file none tasks disk = (disk, none)
  save_file (some path) tasks disk =
      unless_failed (ensure_dir_max_mode fs disk (fs.dir path) 457) plain
        (save_marshalled path (json.marshal tasks))

  unfoldable pub save : Option Text → Dict Record → D → D × Option Text
  unfolding save_file file_of
  save store tasks disk = save_file (file_of store) tasks disk

  unfoldable pub mark_loaded :
      Option Text → (name : Text) → Record → Result Text (Dict Record) → D → D × Option Text
  unfolding save
  mark_loaded store name record' (err e) disk = (disk, some e)
  mark_loaded store name record' (ok tasks) disk = save store (insert name record' tasks) disk

  unfoldable pub mark_satisfied :
      Option Text → D → (name : Text) → ℤ → (hash : Text) → D × Option Text
  unfolding mark_loaded load
  mark_satisfied store disk name sequence hash =
      mark_loaded store name (record { sequence = sequence; hash = hash }) (load store disk) disk

-- What encoding/json keeps of the tasks: the document is not empty and has the records of their
-- names, maybe in another order.
pub record IsJson (json : Json) : Type 0 where
  pub document :
      (tasks : Dict Record) (text : Text)
      → json.marshal tasks ≡ ok text
      → (is_empty text ≡ false)
        × ((again : Dict Record) × ((json.unmarshal text ≡ ok (some again))
              × ((name : Text) → lookup name again ≡ lookup name tasks)))

module _ {D : Type 0} (fs : FileSystem D) (json : Json) (path : Text) (laws : IsFileSystem fs path)
    (codec : IsJson json) (named : is_empty path ≡ false) where
  abbrev IsSaved : (tasks : Dict Record) → D × Option Text → Type 0
  IsSaved tasks r =
      (again : Dict Record) × ((load fs json (some path) r.0 ≡ ok again)
        × ((name : Text) → lookup name again ≡ lookup name tasks))

  -- What a save without an error leaves is loaded with the same records.
  load-IsSaved :
      (tasks : Dict Record) (m : Result Text Text) (disk : D)
      → json.marshal tasks ≡ m
      → (save_marshalled fs json path m disk).1 ≡ none
      → IsSaved tasks (save_marshalled fs json path m disk)
  unfolding load load_file load_read file_of save_marshalled decoded_tasks
  load-IsSaved tasks (err e) disk m h = absurd (ground arith)
  load-IsSaved tasks (ok text) disk m h =
      let (full, (again, (read, same))) = codec.document tasks text m in
      let stored = read-replace_file fs path text laws plain plain disk h in
      (again, (rw (named, stored, full, read) refl, same))

  save_file-IsSaved :
      (tasks : Dict Record) (disk : D)
      → (save_file fs json (some path) tasks disk).1 ≡ none
      → IsSaved tasks (save_file fs json (some path) tasks disk)
  unfolding save_file
  save_file-IsSaved tasks disk h =
      let (d, (ensured, rest)) =
        unless_failed-none (ensure_dir_max_mode fs disk (fs.dir path) 457) plain _ h in
      subst (IsSaved tasks) (sym rest)
        (load-IsSaved tasks (json.marshal tasks) d refl (sym (ap (λ r. r.1) rest) ∙ h))

  load-save :
      (tasks : Dict Record) (disk : D)
      → (save fs json (some path) tasks disk).1 ≡ none
      → IsSaved tasks (save fs json (some path) tasks disk)
  unfolding save file_of
  load-save tasks disk h = rw named (save_file-IsSaved tasks disk (rw named at h))

  marked-satisfied :
      (loaded : Result Text (Dict Record)) (disk : D) (name : Text) (r : Record)
      → (mark_loaded fs json (some path) name r loaded disk).1 ≡ none
      → (asked : Text) (sequence : ℤ) (hash : Text)
      → satisfied fs json
          (some path)
          (mark_loaded fs json (some path) name r loaded disk).0
          asked
          sequence
          hash
        ≡ (if name == asked
            then is_same_sequence r.sequence sequence && r.hash == hash
            else satisfied_in loaded asked sequence hash)
  unfolding mark_loaded satisfied satisfied_in is_record
  marked-satisfied (err e) disk name r h asked sequence hash = absurd (ground arith)
  marked-satisfied (ok tasks) disk name r h asked sequence hash =
      let (again, (loaded, same)) = load-save (insert name r tasks) disk h in
      elim (Bool-cases (name == asked)) [
        | inl e ↦ rw (loaded, same asked, lookup-insert name asked r tasks, e) refl
        | inr e ↦ rw (loaded, same asked, lookup-insert name asked r tasks, e) refl
      ]

  -- After MarkSatisfied without an error, Satisfied answers for the task that was marked exactly if
  -- the sequence and the hash are those marked, and for every other task what it answered before:
  -- for a store with a path, a disk that keeps what is written and renamed, and a JSON library that
  -- keeps the records of a document.
  pub mark_satisfied-satisfied :
      (disk : D) (name : Text) (sequence : ℤ) (hash : Text)
      → (mark_satisfied fs json (some path) disk name sequence hash).1 ≡ none
      → (asked : Text) (asked_sequence : ℤ) (asked_hash : Text)
      → satisfied fs json
          (some path)
          (mark_satisfied fs json (some path) disk name sequence hash).0
          asked
          asked_sequence
          asked_hash
        ≡ (if name == asked
            then is_same_sequence sequence asked_sequence && hash == asked_hash
            else satisfied fs json (some path) disk asked asked_sequence asked_hash)
  unfolding mark_satisfied satisfied
  mark_satisfied-satisfied disk name sequence hash h asked asked_sequence asked_hash =
      marked-satisfied (load fs json (some path) disk) disk name
        (record { sequence = sequence; hash = hash }) h asked asked_sequence asked_hash
