-- ===== src/Config/Store/RoundTrip.antt =====
-- deployment-core/pkg/deploycore/config/config.go: what Write leaves on the disk is what Fetch reads.
use devopsellence.Base.{
  ℕ, true, false, ◌≡◌, refl, sym, ap, ◌∙◌, subst, Option, none, some, Text, Result, ok, ◌>>=◌, err,
  arith, if◌then◌else◌,
}
use devopsellence.Config.Types.{ProjectConfig}
use devopsellence.Config.Defaults.{is_zero, apply_defaults}
use devopsellence.Config.Defaults.Idempotent.{IsToLower, apply_defaults_idem}
use devopsellence.Config.Resolved.{ConfigError}
use devopsellence.Config.Validate.{validate}
use devopsellence.Config.Store.{
  contents, FileSystem, Yaml, StoreError, checked, accept, file_path, accept_decoded, load_read,
  load, existing_path, load_if_any, initialized, load_from_root, fetch, unless_failed,
  write_encoded, write_checked, write,
}

-- A file that os.WriteFile wrote without an error is there, with what was written.
pub record IsFileSystem {D : Type 0} (fs : FileSystem D) : Type 0 where
  pub written :
      (disk disk' : D) (path text : Text)
      → fs.write_file disk path text ≡ (disk', none)
      → (fs.read_file disk' path ≡ contents text) × (fs.exists disk' path ≡ true)

-- A document that was encoded of the configuration is decoded to it.
abbrev pub IsYaml : Yaml → ProjectConfig → Type 0
IsYaml yaml cfg = (text : Text) → yaml.encode cfg ≡ ok text → yaml.decode text ≡ ok cfg

version-set :
    (lower : ℕ → ℕ) (cfg : ProjectConfig)
    → is_zero (apply_defaults lower cfg).schema_version ≡ false
unfolding apply_defaults
version-set lower cfg = ground arith

-- A configuration with its defaults that Validate accepts is accepted as it is.
accept_saved :
    (lower : ℕ → ℕ) (lc : IsToLower lower) (cfg : ProjectConfig)
    → validate lower (apply_defaults lower cfg) ≡ ok tt
    → accept lower (apply_defaults lower cfg) ≡ ok (apply_defaults lower cfg)
unfolding accept checked
accept_saved lower lc cfg h = rw (version-set lower cfg, apply_defaults_idem lower lc cfg, h) refl

saved_of_err : {A : Type 0} {e : StoreError} {a : A} → ¬ (err e ≡ ok a)
saved_of_err h = ground arith

value_of_ok :
    {a b : ProjectConfig} → ◌≡◌ {A = Result StoreError ProjectConfig} (ok a) (ok b) → a ≡ b
value_of_ok h = ground arith

-- A call that did not fail, and what followed it.
unless_failed-ok :
    {D A : Type 0} (r : D × Option Text) (next : D → D × Result StoreError A) (disk : D) (a : A)
    → unless_failed r next ≡ (disk, ok a)
    → (d : D) × ((r ≡ (d, none)) × (next d ≡ (disk, ok a)))
unfolding unless_failed
unless_failed-ok (d, none) next disk a h = (d, (refl, h))
unless_failed-ok (d, some e) next disk a h = absurd (saved_of_err (ap (λ r. r.1) h))

module _ {D : Type 0} (fs : FileSystem D) (yaml : Yaml) (lower : ℕ → ℕ) where
  fetch_saved :
      (disk : D) (root text : Text) (cfg : ProjectConfig)
      → fs.exists disk (fs.join root file_path) ≡ true
      → fs.read_file disk (fs.join root file_path) ≡ contents text
      → yaml.decode text ≡ ok cfg
      → accept lower cfg ≡ ok cfg
      → fetch fs yaml lower disk root ≡ ok cfg
  unfolding fetch load_from_root existing_path load_if_any load load_read accept_decoded initialized
  fetch_saved disk root text cfg h r d a =
      let path = fs.join root file_path in
      ap (λ b. initialized root (load_if_any fs yaml lower disk (if b then some path else none))) h
      ∙ (ap (λ c. initialized root (load_read fs yaml lower c)) r
          ∙ (ap (λ c. initialized root (accept_decoded fs yaml lower c)) d
              ∙ ap (λ c. initialized root (c >>= λ accepted. ok (some accepted))) a))

  write_encoded-ok :
      (disk disk' : D) (path : Text) (cfg saved : ProjectConfig) (encoded : Result Text Text)
      → write_encoded fs yaml lower disk path cfg encoded ≡ (disk', ok saved)
      → (saved ≡ cfg)
        × ((text : Text) × ((encoded ≡ ok text) × (fs.write_file disk path text ≡ (disk', none))))
  unfolding write_encoded
  write_encoded-ok disk disk' path cfg saved (err e) h = absurd (saved_of_err (ap (λ r. r.1) h))
  write_encoded-ok disk disk' path cfg saved (ok text) h =
      let (d, (called, rest)) = unless_failed-ok (fs.write_file disk path text) _ disk' saved h in
      (
        sym (value_of_ok (ap (λ r. r.1) rest)),
        (text, (refl, called ∙ ap (λ x. (x, none)) (ap (λ r. r.0) rest))),
      )

  write_checked-ok :
      (disk disk' : D) (path : Text) (cfg saved : ProjectConfig) (r : Result ConfigError (Unit {0}))
      → write_checked fs yaml lower disk path cfg r ≡ (disk', ok saved)
      → (r ≡ ok tt)
        × ((saved ≡ cfg)
            × ((d : D) × ((text : Text) × ((yaml.encode cfg ≡ ok text)
                    × (fs.write_file d path text ≡ (disk', none))))))
  unfolding write_checked
  write_checked-ok disk disk' path cfg saved (err e) h = absurd (saved_of_err (ap (λ r. r.1) h))
  write_checked-ok disk disk' path cfg saved (ok tt) h =
      let (d, (called, rest)) =
        unless_failed-ok (fs.mkdir_all disk (fs.dir path)) _ disk' saved h in
      let (same, (text, done)) = write_encoded-ok d disk' path cfg saved (yaml.encode cfg) rest in
      (refl, (same, (d, (text, done))))

  -- What Write saved without an error, Fetch reads back as it is, defaults included, and finds valid
  -- again: for a file system that keeps what is written, a YAML library that decodes the saved
  -- configuration's document to it,
  -- and a lower-casing of runes that is idempotent and keeps white space apart.
  pub fetch-write :
      (lc : IsToLower lower)
      → IsFileSystem fs
      → (disk disk' : D) (root : Text) (cfg saved : ProjectConfig) → IsYaml yaml saved
      → write fs yaml lower disk root cfg ≡ (disk', ok saved)
      → fetch fs yaml lower disk' root ≡ ok saved
  unfolding write
  fetch-write lc files disk disk' root cfg saved codec h =
      let path = fs.join root file_path in
      let cfg' = apply_defaults lower cfg in
      let (valid, (same, (d, (text, (encoded, written))))) =
        write_checked-ok disk disk' path cfg' saved (validate lower cfg') h in
      let (read, there) = files.written d disk' path text written in
      fetch_saved disk' root text cfg' there read (subst (IsYaml yaml) same codec text encoded)
        (accept_saved lower lc cfg valid)
      ∙ ap ok (sym same)
