-- ===== src/Stored/Files.antt =====
-- agent/internal/fileaccess/permissions.go, and the write to a temporary file that is renamed onto
-- the file. Parameter: package os, with the state `D` of the disk.
use devopsellence.Base.{
  Bool, false, ◌&&◌, ℤ, pos, negsuc, ℕ, zero, suc, ◌+◌, ◌*◌, ◌/◌, ◌%◌, ◌≡◌, refl, sym, ◌∙◌, ap,
  Option, none, some, Text, codes, ◌++◌, Result, ok, err, nat_eq, if◌then◌else◌, arith,
}
use devopsellence.Config.Store.{FileRead, contents}

-- Package os: an operation leaves a disk and an error, if there is one. `stat_mode` is
-- `info.Mode().Perm()` of os.Stat, `stat_owner` the Uid and Gid of its syscall.Stat_t, if that is what
-- Sys returns.
pub record FileSystem (D : Type 0) : Type 0 where
  pub dir : Text → Text
  pub read_file : D → Text → FileRead
  pub stat_mode : D → Text → Result Text ℕ
  pub stat_owner : D → Text → Result Text (Option (ℕ × ℕ))
  pub chown : D → Text → (uid gid : ℤ) → D × Option Text
  pub mkdir_all : D → Text → (mode : ℕ) → D × Option Text
  pub chmod : D → Text → (mode : ℕ) → D × Option Text
  pub write_file : D → (path text : Text) → (mode : ℕ) → D × Option Text
  pub rename : D → (source target : Text) → D × Option Text

-- `if err := call; err != nil { return wrap(err) }` and what follows.
unfoldable pub unless_failed {ℓ κ} :
    {D : Type ℓ} {E : Type κ}
    → D × Option Text
    → (wrap : Text → E) → (next : D → D × Option E) → D × Option E
unless_failed (disk, none) wrap next = next disk
unless_failed (disk, some e) wrap next = (disk, some (wrap e))

-- `a & b` on the lowest `bits` bits.
unfoldable pub and_bits : (bits a b : ℕ) → ℕ
and_bits zero a b = 0
and_bits (suc bits) a b = (a % 2) * (b % 2) + 2 * and_bits bits (a / 2) (b / 2)

-- `int(n) == z`
unfoldable pub is_number : ℕ → ℤ → Bool
is_number n (pos m) = nat_eq n m
is_number n (negsuc m) = false

-- `err` returned as it is.
abbrev pub plain : Text → Text
plain e = e

module _ {D : Type 0} (fs : FileSystem D) where
  -- The chmod to `mode`, unless the permissions are that already.
  abbrev pub chmod_from : D → Text → (mode current : ℕ) → D × Option Text
  chmod_from disk path mode current =
      if nat_eq mode current then (disk, none) else fs.chmod disk path mode

  unfoldable pub set_mode : D → Text → ℕ → Result Text ℕ → D × Option Text
  set_mode disk path mode (err e) = (disk, some e)
  set_mode disk path mode (ok current) = chmod_from disk path mode current

  unfoldable pub ensure_mode : D → Text → ℕ → D × Option Text
  unfolding set_mode
  ensure_mode disk path mode = set_mode disk path mode (fs.stat_mode disk path)

  unfoldable pub ensure_dir_mode : D → Text → ℕ → D × Option Text
  unfolding unless_failed ensure_mode
  ensure_dir_mode disk path mode =
      unless_failed (fs.mkdir_all disk path mode) plain (λ d. ensure_mode d path mode)

  -- os.FileMode has 32 bits.
  unfoldable pub limit_mode : D → Text → ℕ → Result Text ℕ → D × Option Text
  limit_mode disk path mode (err e) = (disk, some e)
  limit_mode disk path mode (ok current) = chmod_from disk path (and_bits 32 current mode) current

  unfoldable pub ensure_dir_max_mode : D → Text → ℕ → D × Option Text
  unfolding unless_failed limit_mode
  ensure_dir_max_mode disk path mode =
      unless_failed (fs.mkdir_all disk path mode) plain
        (λ d. limit_mode d path mode (fs.stat_mode d path))

  unfoldable pub own_from :
      D → Text → (uid gid : ℤ) → Result Text (Option (ℕ × ℕ)) → D × Option Text
  unfolding is_number
  own_from disk path uid gid (err e) = (disk, some e)
  own_from disk path uid gid (ok none) = fs.chown disk path uid gid
  own_from disk path uid gid (ok (some (user, group))) =
      if is_number user uid && is_number group gid then (disk, none) else fs.chown disk path uid gid

  unfoldable pub ensure_ownership_and_mode : D → Text → ℕ → (uid gid : ℤ) → D × Option Text
  unfolding unless_failed ensure_mode own_from
  ensure_ownership_and_mode disk path mode uid gid =
      unless_failed (ensure_mode disk path mode) plain
        (λ d. own_from d path uid gid (fs.stat_owner d path))

  unfoldable pub ensure_dir_ownership_and_mode : D → Text → ℕ → (uid gid : ℤ) → D × Option Text
  unfolding unless_failed ensure_ownership_and_mode
  ensure_dir_ownership_and_mode disk path mode uid gid =
      unless_failed (fs.mkdir_all disk path mode) plain
        (λ d. ensure_ownership_and_mode d path mode uid gid)

  abbrev pub temporary : Text → Text
  temporary path = path ++ codes ".tmp"

  -- The write to `path + ".tmp"` with 0o600, and the rename.
  unfoldable pub replace_file {κ} :
      {E : Type κ} → (write_failed rename_failed : Text → E) → (path text : Text) → D → D × Option E
  unfolding unless_failed
  replace_file write_failed rename_failed path text disk =
      unless_failed (fs.write_file disk (temporary path) text 384) write_failed
        (λ d. unless_failed (fs.rename d (temporary path) path) rename_failed (λ e. (e, none)))

-- What os.WriteFile and os.Rename do for the temporary file of a path when they return no error.
pub record IsFileSystem {D : Type 0} (fs : FileSystem D) (path : Text) : Type 0 where
  pub writes :
      (d d' : D) (text : Text) (mode : ℕ)
      → fs.write_file d (temporary fs path) text mode ≡ (d', none)
      → fs.read_file d' (temporary fs path) ≡ contents text
  pub moves :
      (d d' : D)
      → fs.rename d (temporary fs path) path ≡ (d', none)
      → fs.read_file d' path ≡ fs.read_file d (temporary fs path)

-- What went on when nothing failed.
pub unless_failed-none {ℓ κ} :
    {D : Type ℓ} {E : Type κ} (r : D × Option Text) (wrap : Text → E) (next : D → D × Option E)
    → (unless_failed r wrap next).1 ≡ none
    → (d : D) × ((r ≡ (d, none)) × (unless_failed r wrap next ≡ next d))
unfolding unless_failed
unless_failed-none (d, none) wrap next h = (d, (refl, refl))
unless_failed-none (d, some e) wrap next h = absurd (ground arith)

module _ {D : Type 0} (fs : FileSystem D) (path text : Text) (laws : IsFileSystem fs path) where
  pub read-replace_file {κ} :
      {E : Type κ} (write_failed rename_failed : Text → E) (disk : D)
      → (replace_file fs write_failed rename_failed path text disk).1 ≡ none
      → fs.read_file (replace_file fs write_failed rename_failed path text disk).0 path
        ≡ contents text
  unfolding replace_file
  read-replace_file write_failed rename_failed disk h =
      let (d, (written, rest)) =
        unless_failed-none (fs.write_file disk (temporary fs path) text 384) write_failed _ h in
      let (d', (moved, last)) =
        unless_failed-none (fs.rename d (temporary fs path) path) rename_failed _
          (sym (ap (λ r. r.1) rest) ∙ h) in
      ap (λ r. fs.read_file r.0 path) (rest ∙ last)
      ∙ (laws.moves d d' moved ∙ laws.writes disk d text 384 written)
