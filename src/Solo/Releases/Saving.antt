-- ===== src/Solo/Releases/Saving.antt =====
-- cli/internal/solo/state.go: a saved release is the current one of its environment.
use devopsellence.Base.{
  false, [], ◌≡◌, sym, ◌∙◌, ap, subst, none, some, Text, trim, is_empty, lookup, insert,
  lookup_inserted, or_value, Result, ok, err, ◌>>=◌, bind-ok, reject_if-ok, if◌then◌else◌,
}
use devopsellence.Release.Types.{Release}
use devopsellence.Solo.Types.{
  State, StateError, release_id_required, release_revision_required, release_workspace_required,
  release_environment_required,
}
use devopsellence.Solo.Keys.{Paths, environment_state_key}
use devopsellence.Solo.Releases.{
  snapshot, keyed_release, store_release, save_release, current_under, current_release,
}

ok-value {ℓ} : {A : Type ℓ} {a b : A} → ◌≡◌ {A = Result StateError A} (ok a) (ok b) → a ≡ b
ok-value {a = a} h = ap (λ r. elim r [ ok x ↦ x | err e ↦ a ]) h

current_stored :
    (key : Text) (new : Release) (state : State)
    → trim new.id ≡ new.id
    → is_empty new.id ≡ false
    → current_under (store_release key new state) key ≡ some new
unfolding current_under store_release
current_stored key new state t e =
    let id = ap (λ o. trim (or_value [] o)) (lookup_inserted key new.id state.current) ∙ t in
    ap (λ i. if is_empty i then none else lookup i (insert new.id new state.releases)) id
    ∙ rw e (lookup_inserted new.id new state.releases)

-- The release is current under the key, with its snapshot.
abbrev IsReadBack : Paths → (root environment : Text) → Release → Text × State → Type 0
IsReadBack paths root environment release saved =
    (current_release paths saved.1 root environment
      ≡ ok (saved.0, some (keyed_release saved.0 release)))
    × (snapshot paths saved.1 root environment
        ≡ ok (saved.0, some (keyed_release saved.0 release).snapshot))

stored-IsReadBack :
    (paths : Paths) (root environment key : Text) (release : Release) (state : State)
    → environment_state_key paths root environment ≡ ok key
    → trim release.id ≡ release.id
    → is_empty release.id ≡ false
    → IsReadBack paths root environment release
        (key, store_release key (keyed_release key release) state)
unfolding current_release snapshot store_release keyed_release
stored-IsReadBack paths root environment key release state k t e =
    let new = keyed_release key release in
    let stored = store_release key new state in
    (
      ap (λ r. r >>= λ j. ok (j, current_under stored j)) k
          ∙ ap (λ o. ok (key, o)) (current_stored key new state t e),
      ap (λ r. r >>= λ j. ok (j, lookup j stored.snapshots)) k
          ∙ ap (λ o. ok (key, o)) (lookup_inserted key new.snapshot state.snapshots),
    )

-- A release that SaveRelease saved, under an id without white space around it, is what CurrentRelease
-- returns for its workspace and environment, with the key, the environment's name and the revision
-- filled in, and its snapshot is what Snapshot returns for them.
pub save_release-current_release :
    (paths : Paths) (release : Release) (state state' : State) (key : Text)
    → trim release.id ≡ release.id
    → save_release paths release state ≡ ok (key, state')
    → (current_release paths state' release.snapshot.workspace_root release.snapshot.environment
        ≡ ok (key, some (keyed_release key release)))
      × (snapshot paths state' release.snapshot.workspace_root release.snapshot.environment
          ≡ ok (key, some (keyed_release key release).snapshot))
unfolding save_release
save_release-current_release paths release state state' key t h =
    let root = release.snapshot.workspace_root in
    let environment = release.snapshot.environment in
    let h1 = reject_if-ok (is_empty (trim release.id)) release_id_required _ (key, state') h in
    let h2 =
      reject_if-ok (is_empty (trim release.revision)) release_revision_required _ (key, state')
        h1.1 in
    let h3 = reject_if-ok (is_empty (trim root)) release_workspace_required _ (key, state') h2.1 in
    let h4 =
      reject_if-ok (is_empty (trim environment)) release_environment_required _ (key, state')
        h3.1 in
    let (k, (e, done)) =
      bind-ok (environment_state_key paths root environment) _ (key, state') h4.1 in
    subst (IsReadBack paths root environment release) (ok-value done)
      (stored-IsReadBack paths root environment k release state e t (ap is_empty (sym t) ∙ h1.0))
