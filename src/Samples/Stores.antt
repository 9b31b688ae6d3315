-- ===== src/Samples/Stores.antt =====
-- A disk of files by their paths, with libraries that read back what they write.
use devopsellence.Base.{
  false, ◌≡◌, refl, sym, ap, subst, ◌∙◌, ◌&&◌, none, some, [], ◌∷◌, Text, codes, ◌==◌, trim,
  is_empty, lookup, insert, lookup_inserted, ℤ, pos, negsuc, ok, err, Result, Dict, Option,
  if◌then◌else◌, Bool-cases, inl, inr, arith,
}
use devopsellence.Base.TextLaws.{eq_iff}
use devopsellence.Config.Store.{FileRead, missing, contents}
use devopsellence.DesiredState.Types.{DesiredState}
use devopsellence.Stored.Files.{FileSystem, IsFileSystem, temporary, and_bits}
use devopsellence.Stored.Lifecycle
use devopsellence.Stored.Lifecycle.{
  Record, is_same_sequence, satisfied, mark_satisfied, mark_satisfied-satisfied,
}
use devopsellence.Stored.Cache.{
  Codec, DesiredStateSnapshot, IsCodec, entry_of, save, load, load-save,
}
use devopsellence.Stored.Override.{parse_override}
use devopsellence.Stored.Fetch.{
  changed_at, not_there, fetch, fetch_all, new_authority, FetchResult, IsAnswer, fetch-IsAnswer,
}

abbrev found : Option Text → FileRead
found none = missing
found (some text) = contents text

-- A rename of a file that is not there fails.
abbrev renamed : Text → Option Text → Dict Text → Dict Text × Option Text
renamed target none files = (files, some (codes "no such file"))
renamed target (some text) files = (insert target text files, none)

abbrev files : FileSystem (Dict Text)
files = record {
  dir = λ path. codes "state";
  read_file = λ disk path. found (lookup path disk);
  stat_mode = λ disk path. ok 511;
  stat_owner = λ disk path. ok (some (0, 0));
  chown = λ disk path uid gid. (disk, none);
  mkdir_all = λ disk path mode. (disk, none);
  chmod = λ disk path mode. (disk, none);
  write_file = λ disk path text mode. (insert path text disk, none);
  rename = λ disk source target. renamed target (lookup source disk) disk;
}

abbrev path : Text
path = codes "state.json"

was_renamed :
    (text : Option Text) (d d' : Dict Text)
    → renamed path text d ≡ (d', none)
    → found (lookup path d') ≡ found text
was_renamed none d d' h = absurd (ground (arith, ap (λ r. r.1) h))
was_renamed (some text) d d' h =
    ap (λ r. found (lookup path r.0)) (sym h) ∙ ap found (lookup_inserted path text d)

files-IsFileSystem : IsFileSystem files path
files-IsFileSystem = record {
  writes = λ d d' text mode h.
      ap (λ disk. found (lookup (temporary files path) disk)) (sym (ap (λ r. r.0) h))
      ∙ ap found (lookup_inserted (temporary files path) text d);
  moves = λ d d' h. was_renamed (lookup (temporary files path) d) d d' h;
}

-- 0o777 limited to 0o711.
limited : and_bits 32 511 457 ≡ 457
unfolding and_bits
limited = refl

-- The document of one record of the task `migrate` is its sequence and its hash.
abbrev migrate : Text
migrate = codes "migrate"

abbrev marshal_record : Text → ℤ → Text → Result Text Text
marshal_record name (pos n) hash = if name == migrate then ok (n ∷ hash) else err (codes "refused")
marshal_record name (negsuc n) hash = err (codes "refused")

abbrev marshal_one : Dict Record → Result Text Text
marshal_one ((name, task) ∷ []) = marshal_record name task.sequence task.hash
marshal_one other = err (codes "refused")

abbrev unmarshal_one : Text → Result Text (Option (Dict Record))
unmarshal_one [] = err (codes "refused")
unmarshal_one (n ∷ hash) =
    ok (some ((codes "migrate", record { sequence = pos n; hash = hash }) ∷ []))

abbrev task_json : Lifecycle.Json
task_json = record { unmarshal = unmarshal_one; marshal = marshal_one }

abbrev IsDocument : Dict Record → Text → Type 0
IsDocument tasks text =
    (is_empty text ≡ false)
    × ((again : Dict Record) × ((unmarshal_one text ≡ ok (some again))
          × ((name : Text) → lookup name again ≡ lookup name tasks)))

text_of : (a : Text) {b : Text} → ◌≡◌ {A = Result Text Text} (ok a) (ok b) → a ≡ b
text_of a h = ap (λ r. elim r [ ok x ↦ x | err e ↦ a ]) h

record-IsDocument :
    (name : Text) (sequence : ℤ) (hash text : Text)
    → marshal_record name sequence hash ≡ ok text
    → IsDocument ((name, record { sequence = sequence; hash = hash }) ∷ []) text
record-IsDocument name (negsuc n) hash text h = absurd (ground arith)
record-IsDocument name (pos n) hash text h = elim (Bool-cases (name == migrate)) [
  | inl e ↦
      let same = (eq_iff name migrate).0 e in
      subst (IsDocument ((name, record { sequence = pos n; hash = hash }) ∷ []))
        (text_of (n ∷ hash) (rw e at h))
        (
          refl,
          (
            (migrate, record { sequence = pos n; hash = hash }) ∷ [],
            (
              refl,
              λ asked.
                  ap (λ key. lookup asked ((key, record { sequence = pos n; hash = hash }) ∷ []))
                    (sym same),
            ),
          ),
        )
  | inr e ↦ absurd (ground arith)
]

task-IsDocument :
    (tasks : Dict Record) (text : Text) → marshal_one tasks ≡ ok text → IsDocument tasks text
task-IsDocument [] text h = absurd (ground arith)
task-IsDocument ((name, task) ∷ []) text h = record-IsDocument name task.sequence task.hash text h
task-IsDocument (first ∷ second ∷ rest) text h = absurd (ground arith)

task_json-IsJson : Lifecycle.IsJson task_json
task_json-IsJson = record { document = task-IsDocument }

marked_example :
    satisfied files task_json
      (some path)
      (mark_satisfied files task_json (some path) [] migrate (pos 7) (codes "abc")).0
      migrate
      (pos 7)
      (codes "abc")
    ≡ (if migrate == migrate
        then is_same_sequence (pos 7) (pos 7) && codes "abc" == codes "abc"
        else satisfied files task_json (some path) [] migrate (pos 7) (codes "abc"))
unfolding mark_satisfied lookup ◌==◌ and_bits insert
marked_example =
    mark_satisfied-satisfied files task_json path files-IsFileSystem task_json-IsJson refl []
      migrate (pos 7) (codes "abc") refl migrate (pos 7) (codes "abc")

abbrev desired : DesiredState
desired = record {
  schema_version = 2;
  revision = codes "r1";
  environments = [];
  node_peers = [];
  ingress = none;
}

abbrev web_target : DesiredStateSnapshot
web_target = record {
  node_id = pos 1;
  environment_id = pos 2;
  sequence_floor = pos 3;
  target = record {
    mode = codes "inline";
    uri = codes "";
    inline = codes "";
    organization_bundle_token = codes "o";
    environment_bundle_token = codes "e";
    node_bundle_token = codes "n";
  };
}

-- One entry and one desired state; no override document parses.
abbrev one_codec : Codec
one_codec = record {
  marshal_entry = λ entry. ok (codes "entry");
  unmarshal_entry =
      λ text. ok (entry_of web_target (pos 4) (codes "2024-01-01T00:00:00Z") (codes "desired"));
  marshal_desired = λ state. ok (codes "desired");
  unmarshal_desired = λ text. ok desired;
  unmarshal_document = λ text. err (codes "refused");
  unmarshal_bool = λ text. err (codes "refused");
}

one_codec-IsCodec : IsCodec one_codec web_target (pos 4) (codes "2024-01-01T00:00:00Z") desired
unfolding trim
one_codec-IsCodec = record {
  entry = λ json text h e.
      ap (λ t. ok (entry_of web_target (pos 4) (codes "2024-01-01T00:00:00Z") t))
        (text_of (codes "desired") h);
  payload =
      λ text h. (subst (λ t. is_empty (trim t) ≡ false) (text_of (codes "desired") h) refl, refl);
}

abbrev saved_disk : Dict Text
saved_disk =
    (save files one_codec (some path) web_target (pos 4) (codes "2024-01-01T00:00:00Z")
      (some desired) []).0

cached_example :
    (desired_json : Text) × (load files one_codec (some path) saved_disk
      ≡ ok
          (some (entry_of web_target (pos 4) (codes "2024-01-01T00:00:00Z") desired_json, desired)))
unfolding save lookup ◌==◌ insert
cached_example =
    load-save files one_codec path files-IsFileSystem web_target (pos 4)
      (codes "2024-01-01T00:00:00Z") desired [] one_codec-IsCodec refl

-- The file changed within one millisecond.
abbrev plain_digest : Text → Text
plain_digest text = text

abbrev second_result : FetchResult
second_result = record { desired = desired; sequence = pos 11 }

answered_example :
    IsAnswer one_codec plain_digest
      (fetch_all one_codec plain_digest
        ((not_there, missing) ∷ (changed_at (pos 10), contents (codes "a")) ∷ [])
        new_authority)
      (contents (codes "b"))
      second_result
unfolding fetch fetch_all parse_override ◌==◌
answered_example =
    fetch-IsAnswer one_codec plain_digest
      ((not_there, missing) ∷ (changed_at (pos 10), contents (codes "a")) ∷ [])
      (changed_at (pos 10)) (contents (codes "b")) second_result refl
