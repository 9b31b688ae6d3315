-- ===== src/Solo/Store/Atomic.antt =====
-- cli/internal/solo/state.go: writeFileAtomicPrivate leaves the old or the new file.
use devopsellence.Base.{
  false, ◌≡◌, refl, sym, ◌∙◌, ap, Option, none, some, Text, ◌==◌, Result, ok, err, arith, inl, inr,
  ◌⊎◌,
}
use devopsellence.Config.Store.{FileRead, contents}
use devopsellence.Solo.Store.{
  Disk, after, cleaned, closed_and_cleaned, write_temp, write_created, write_file_atomic_private,
}

-- What the operations of package os keep, for the file at a path: only a rename onto it changes it,
-- and that one puts what stood at its source. A temporary file is another file.
pub record IsDisk {D : Type 0} (fs : Disk D) (path : Text) : Type 0 where
  pub mkdir_all_keeps :
      (d : D) (dir : Text) → fs.read_file (fs.mkdir_all d dir).0 path ≡ fs.read_file d path
  pub create_temp_keeps :
      (d : D) (dir : Text) → fs.read_file (fs.create_temp d dir).0 path ≡ fs.read_file d path
  pub create_temp_other :
      (d d' : D) (dir temp : Text) → fs.create_temp d dir ≡ (d', ok temp) → (temp == path) ≡ false
  pub write_keeps :
      (d : D) (file text : Text)
      → (file == path) ≡ false
      → fs.read_file (fs.write d file text).0 path ≡ fs.read_file d path
  pub write_writes :
      (d d' : D) (file text : Text)
      → fs.write d file text ≡ (d', none)
      → fs.read_file d' file ≡ contents text
  pub chmod_keeps :
      (d : D) (file other : Text) → fs.read_file (fs.chmod d file).0 other ≡ fs.read_file d other
  pub sync_keeps :
      (d : D) (file other : Text) → fs.read_file (fs.sync d file).0 other ≡ fs.read_file d other
  pub close_keeps :
      (d : D) (file other : Text) → fs.read_file (fs.close d file).0 other ≡ fs.read_file d other
  pub sync_dir_keeps :
      (d : D) (dir other : Text) → fs.read_file (fs.sync_dir d dir) other ≡ fs.read_file d other
  pub remove_keeps :
      (d : D) (file : Text)
      → (file == path) ≡ false
      → fs.read_file (fs.remove d file) path ≡ fs.read_file d path
  pub rename_fails :
      (d d' : D) (source e : Text)
      → fs.rename d source path ≡ (d', some e)
      → fs.read_file d' path ≡ fs.read_file d path
  pub rename_moves :
      (d d' : D) (source : Text)
      → fs.rename d source path ≡ (d', none)
      → fs.read_file d' path ≡ fs.read_file d source

-- The outcome of a write over what was read before: without an error the new text is there, and with
-- one the old file or the new text.
pub record IsOldOrNew (before : FileRead) (text : Text) (now : FileRead) (error : Option Text)
    : Type 0 where
  pub on_success : error ≡ none → now ≡ contents text
  pub always : (now ≡ before) ⊎ (now ≡ contents text)

module _ {D : Type 0} (fs : Disk D) (path text : Text) (laws : IsDisk fs path)
    (before : FileRead) where
  abbrev Outcome : D × Option Text → Type 0
  Outcome r = IsOldOrNew before text (fs.read_file r.0 path) r.1

  failed-old : (d : D) (e : Text) → fs.read_file d path ≡ before → Outcome (d, some e)
  failed-old d e same = record { on_success = λ h. absurd (ground arith); always = inl same }

  -- After an operation that keeps the file, what holds of both ends holds of the whole.
  after-Outcome :
      (r : D × Option Text) (fail : Text → D → D × Option Text) (next : D → D × Option Text)
      → fs.read_file r.0 path ≡ before
      → ((e : Text) (d : D) → fs.read_file d path ≡ before → Outcome (fail e d))
      → ((d : D) → r ≡ (d, none) → fs.read_file d path ≡ before → Outcome (next d))
      → Outcome (after r fail next)
  unfolding after
  after-Outcome (d, none) fail next same f n = n d refl same
  after-Outcome (d, some e) fail next same f n = f e d same

  cleaned-old :
      (temp e : Text) (d : D)
      → (temp == path) ≡ false
      → fs.read_file d path ≡ before
      → Outcome (cleaned fs temp e d)
  cleaned-old temp e d o same = failed-old (fs.remove d temp) e (laws.remove_keeps d temp o ∙ same)

  closed-old :
      (temp e : Text) (d : D)
      → (temp == path) ≡ false
      → fs.read_file d path ≡ before
      → Outcome (closed_and_cleaned fs temp e d)
  closed-old temp e d o same =
      failed-old (fs.remove (fs.close d temp).0 temp) e
        (laws.remove_keeps (fs.close d temp).0 temp o ∙ (laws.close_keeps d temp path ∙ same))

  -- Once the new file is in place, only its mode is set.
  placed :
      (d : D)
      → fs.read_file d path ≡ contents text
      → Outcome (fs.chmod (fs.sync_dir d (fs.dir path)) path)
  placed d h =
      let now =
        laws.chmod_keeps (fs.sync_dir d (fs.dir path)) path path
        ∙ (laws.sync_dir_keeps d (fs.dir path) path ∙ h) in
      record { on_success = λ e. now; always = inr now }

  renamed :
      (temp : Text) (d : D) (r : D × Option Text)
      → (temp == path) ≡ false
      → fs.rename d temp path ≡ r
      → fs.read_file d path ≡ before
      → fs.read_file d temp ≡ contents text
      → Outcome (after r (cleaned fs temp) (λ d'. fs.chmod (fs.sync_dir d' (fs.dir path)) path))
  unfolding after
  renamed temp d (d', none) o h same new = placed d' (laws.rename_moves d d' temp h ∙ new)
  renamed temp d (d', some e) o h same new =
      cleaned-old temp e d' o (laws.rename_fails d d' temp e h ∙ same)

  -- What an operation without an error left of a file that it keeps.
  left :
      {d d' : D} {r : D × Option Text} {file : Text}
      → r ≡ (d', none)
      → fs.read_file r.0 file ≡ fs.read_file d file
      → fs.read_file d' file ≡ fs.read_file d file
  left {file = file} e keeps = ap (λ q. fs.read_file q.0 file) (sym e) ∙ keeps

  written :
      (temp : Text) (d : D)
      → (temp == path) ≡ false
      → fs.read_file d path ≡ before
      → Outcome (write_temp fs path text temp d)
  unfolding write_temp
  written temp d o same =
      after-Outcome (fs.chmod d temp) _ _ (laws.chmod_keeps d temp path ∙ same)
        (λ e x h. closed-old temp e x o h)
        (λ d1 r1 h1.
          after-Outcome (fs.write d1 temp text) _ _ (laws.write_keeps d1 temp text o ∙ h1)
            (λ e x h. closed-old temp e x o h)
            (λ d2 r2 h2.
              after-Outcome (fs.sync d2 temp) _ _ (laws.sync_keeps d2 temp path ∙ h2)
                (λ e x h. closed-old temp e x o h)
                (λ d3 r3 h3.
                  after-Outcome (fs.close d3 temp) _ _ (laws.close_keeps d3 temp path ∙ h3)
                    (λ e x h. cleaned-old temp e x o h)
                    (λ d4 r4 h4. renamed temp d4 (fs.rename d4 temp path) o refl h4 (
                      left r4 (laws.close_keeps d3 temp temp)
                      ∙ (left r3 (laws.sync_keeps d2 temp temp)
                          ∙ laws.write_writes d1 d2 temp text r2))))))

  created :
      (d : D) (r : D × Result Text Text)
      → fs.create_temp d (fs.dir path) ≡ r
      → fs.read_file r.0 path ≡ before
      → Outcome (write_created fs path text r)
  unfolding write_created
  created d (d', ok temp) e same =
      written temp d' (laws.create_temp_other d d' (fs.dir path) temp e) same
  created d (d', err x) e same = failed-old d' x same

  pub write_file_atomic_private-IsOldOrNew :
      (disk : D)
      → fs.read_file disk path ≡ before
      → Outcome (write_file_atomic_private fs path text disk)
  unfolding write_file_atomic_private
  write_file_atomic_private-IsOldOrNew disk same =
      after-Outcome (fs.mkdir_all disk (fs.dir path)) _ _
        (laws.mkdir_all_keeps disk (fs.dir path) ∙ same) (λ e x h. failed-old x e h)
        (λ d r h.
          created d (fs.create_temp d (fs.dir path)) refl
            (laws.create_temp_keeps d (fs.dir path) ∙ h))
