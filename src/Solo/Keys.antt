-- ===== src/Solo/Keys.antt =====
-- cli/internal/solo/state.go: the keys under which a state holds what belongs to a workspace and an
-- environment. Parameter: path/filepath.
use devopsellence.Base.{
  Option, none, some, List, [], ◌∷◌, ◌++◌, Text, trim, is_empty, nat_eq, Result, ok, err, ◌>>=◌,
  if◌then◌else◌,
}
use devopsellence.Plan.Schedule.{or_default, default_environment_name}
use devopsellence.Solo.Types.{StateError, path_failed, workspace_required}

-- path/filepath, as CanonicalWorkspaceKey uses it.
pub record Paths : Type 0 where
  pub abs : Text → Result Text Text
  pub eval_symlinks : Text → Result Text Text
  pub clean : Text → Text

abbrev pub or_path_failed {ℓ} : {A : Type ℓ} → Result Text A → Result StateError A
or_path_failed (ok a) = ok a
or_path_failed (err e) = err (path_failed e)

abbrev pub resolved_or : Text → Result Text Text → Text
resolved_or absolute (ok resolved) = if is_empty (trim resolved) then absolute else resolved
resolved_or absolute (err e) = absolute

unfoldable pub canonical_workspace_key : Paths → Text → Result StateError Text
canonical_workspace_key paths root = or_path_failed (paths.abs (trim root)) >>= λ absolute.
    ok (paths.clean (resolved_or absolute (paths.eval_symlinks absolute)))

-- `workspaceKey + "\n" + environment`
abbrev pub joined_key : Text → Text → Text
joined_key workspace environment = workspace ++ 10 ∷ environment

unfoldable pub environment_state_key : Paths → (root environment : Text) → Result StateError Text
unfolding canonical_workspace_key default_environment_name
environment_state_key paths root environment = canonical_workspace_key paths root >>= λ key.
    ok (joined_key key (default_environment_name environment))

-- What stands before the first newline, and what follows it, if there is one.
unfoldable pub cut : Text → Text × Option Text
cut [] = ([], none)
cut (c ∷ s) = let rest = cut s in if nat_eq c 10 then ([], some s) else (c ∷ rest.0, rest.1)

-- A part that is missing is empty.
abbrev pub or_blank : Option Text → Text
or_blank none = []
or_blank (some s) = s

unfoldable pub split_environment_state_key : Text → Text × Text
unfolding cut
split_environment_state_key key = (trim (cut key).0, trim (or_blank (cut key).1))

pub record SecretKeyParts : Type 0 where
  pub workspace : Text
  pub environment : Text
  pub service : Text
  pub name : Text

unfoldable pub split_secret_state_key : Text → SecretKeyParts
unfolding cut
split_secret_state_key key =
    let first = cut key in
    let second = cut (or_blank first.1) in
    let third = cut (or_blank second.1) in
    record {
      workspace = trim first.0;
      environment = trim second.0;
      service = trim third.0;
      name = trim (or_blank third.1);
    }

-- The values trimmed, the first that is not empty.
unfoldable pub first_non_empty : List Text → Text
first_non_empty [] = []
first_non_empty (value ∷ values) = or_default (trim value) (first_non_empty values)

unfoldable pub secret_key : (workspace environment service name : Text) → Text
unfolding default_environment_name
secret_key workspace environment service name =
    joined_key (trim workspace)
      (joined_key (default_environment_name environment) (joined_key (trim service) (trim name)))

-- normalizeWorkspaceIdentity: the root and the canonical key.
unfoldable pub normalize_workspace_identity :
    Paths → (key root workspace_key : Text) → Result StateError (Text × Text)
unfolding split_environment_state_key first_non_empty canonical_workspace_key
normalize_workspace_identity paths key root workspace_key =
    let source =
      first_non_empty (root ∷ workspace_key ∷ (split_environment_state_key key).0 ∷ []) in
    if is_empty (trim source)
    then err workspace_required
    else (canonical_workspace_key paths source >>= λ canonical.
        ok (or_default (trim root) canonical, canonical))

-- The environment that a record under a key is for: its own, or the key's.
unfoldable pub environment_of : (key environment : Text) → Text
unfolding split_environment_state_key first_non_empty default_environment_name
environment_of key environment =
    default_environment_name
      (first_non_empty (environment ∷ (split_environment_state_key key).1 ∷ []))
