-- ===== src/Plan/Build/Env.antt =====
-- deployment-core/pkg/deploycore/desiredstate/desiredstate.go: what mergeEnv returns.
use devopsellence.Base.{
  false, not, ◌&&◌, ◌≡◌, refl, sym, ◌∙◌, ap, Option, Option-cases, List, [], ◌∷◌, map, keep, Text,
  is_empty, contains, Dict, IsMap, lookup, has_key, insert, lookup-insert, has_key_of_lookup,
  has_key-lookup, merge, merge_copy, Result, ok, err, arith, inl, inr, if◌then◌else◌,
}
use devopsellence.Base.TextLaws.{eq_iff}
use devopsellence.Config.Types.{SecretRef}
use devopsellence.Plan.Build.{put_secret, put_secrets, unless_missing, merge_env}

-- The referenced names that are no secrets, in order.
abbrev pub missing_secrets : List SecretRef → Dict Text → List Text
missing_secrets refs secrets =
    keep (λ name. not (has_key name secrets)) (map (λ ref. ref.name) refs)

pub put_secrets-missing :
    (secrets merged : Dict Text) (refs : List SecretRef)
    → (put_secrets secrets merged refs).1 ≡ missing_secrets refs secrets
unfolding put_secrets put_secret
put_secrets-missing secrets merged [] = refl
put_secrets-missing secrets merged (r ∷ rs) = elim (Option-cases (lookup r.name secrets)) [
  | inl e ↦
      rw (e, has_key-lookup r.name secrets e)
        (ap (λ l. r.name ∷ l) (put_secrets-missing secrets merged rs))
  | inr (v, e) ↦
      rw (e, has_key_of_lookup r.name secrets v e)
        (put_secrets-missing secrets (insert r.name v merged) rs)
]

-- The value of a referenced secret if there is one, and otherwise the plain one.
abbrev pub value_of : Dict Text → List SecretRef → Dict Text → Text → Option Text
value_of env refs secrets key =
    if contains (map (λ ref. ref.name) refs) key && has_key key secrets
    then lookup key secrets
    else lookup key env

lookup-put_secrets :
    (secrets merged : Dict Text) (refs : List SecretRef) (key : Text)
    → lookup key (put_secrets secrets merged refs).0 ≡ value_of merged refs secrets key
unfolding put_secrets put_secret contains
lookup-put_secrets secrets merged [] key = refl
lookup-put_secrets secrets merged (r ∷ rs) key = elim (Option-cases (lookup r.name secrets)) [
  | inl e ↦ rw e (
      lookup-put_secrets secrets merged rs key
      ∙ ground (arith, has_key-lookup r.name secrets e, eq_iff r.name key))
  | inr (v, e) ↦ rw e (
      lookup-put_secrets secrets (insert r.name v merged) rs key
      ∙ ground (
        arith,
        has_key_of_lookup r.name secrets v e,
        eq_iff r.name key,
        lookup-insert r.name key v merged,
      ))
]

-- What a merge promises: all the referenced secrets are there, and a name has its secret's value,
-- or else its plain one; or the merge names exactly the missing secrets, of which there are some.
abbrev pub IsMerged :
    Dict Text → List SecretRef → Dict Text → Result (List Text) (Dict Text) → Type 0
IsMerged env refs secrets (ok merged) =
    (missing_secrets refs secrets ≡ [])
    × ((key : Text) → lookup key merged ≡ value_of env refs secrets key)
IsMerged env refs secrets (err names) =
    (names ≡ missing_secrets refs secrets) × (is_empty names ≡ false)

merged-outcome :
    (env : Dict Text) (refs : List SecretRef) (secrets : Dict Text) (r : Dict Text × List Text)
    → r.1 ≡ missing_secrets refs secrets
    → ((key : Text) → lookup key r.0 ≡ value_of env refs secrets key)
    → IsMerged env refs secrets (unless_missing r)
unfolding unless_missing
merged-outcome env refs secrets (merged, []) m v = (sym m, v)
merged-outcome env refs secrets (merged, name ∷ names) m v = (m, refl)

-- mergeEnv fails exactly if a referenced secret is missing, with the missing names in order;
-- otherwise the merged environment has each referenced secret's value, which goes before a plain
-- value of that name, and every other plain value.
pub merge_env-IsMerged :
    (env : Dict Text) (refs : List SecretRef) (secrets : Dict Text)
    → IsMap env
    → IsMerged env refs secrets (merge_env env refs secrets)
unfolding merge_env
merge_env-IsMerged env refs secrets d =
    merged-outcome env refs secrets (put_secrets secrets (merge [] env) refs)
      (put_secrets-missing secrets (merge [] env) refs)
      (λ key.
        lookup-put_secrets secrets (merge [] env) refs key
        ∙ ap (λ e. value_of e refs secrets key) (merge_copy env d))
