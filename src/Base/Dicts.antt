-- ===== src/Base/Dicts.antt =====
-- Go's `map[string]V` as an association list; a new key goes to the end.
use mathlib.Core.Path.{◌≡◌, refl}
use mathlib.Core.Bool.{Bool, false, ◌||◌}
use mathlib.Core.Option.{Option, none, some}
use mathlib.Core.List.{List, [], ◌∷◌, map}
use native.Mathlib.Omega.{arith}
use devopsellence.Base.Tests.{if◌then◌else◌}
use devopsellence.Base.Texts.{Text, ◌==◌}
use devopsellence.Base.TextLaws.{eq_iff}

abbrev pub Dict {ℓ} : Type ℓ → Type ℓ
Dict V = List (Text × V)

module _ {ℓ} {V : Type ℓ} where
  abbrev pub keys : Dict V → List Text
  keys entries = map (λ entry. entry.0) entries

  -- `_, ok := m[key]`
  unfoldable pub has_key : Text → Dict V → Bool
  has_key key [] = false
  has_key key ((name, value) ∷ rest) = name == key || has_key key rest

  -- `v, ok := m[key]`
  unfoldable pub lookup : Text → Dict V → Option V
  lookup key [] = none
  lookup key ((name, value) ∷ rest) = if name == key then some value else lookup key rest

  -- `m[key] = value`
  unfoldable pub insert : Text → V → Dict V → Dict V
  insert key value [] = (key, value) ∷ []
  insert key value ((name, old) ∷ rest) =
      if name == key then (name, value) ∷ rest else (name, old) ∷ insert key value rest

  pub has_key-lookup :
      (key : Text) (entries : Dict V) → lookup key entries ≡ none → has_key key entries ≡ false
  unfolding has_key lookup
  has_key-lookup key [] missing = refl
  has_key-lookup key ((name, value) ∷ rest) missing = ground (arith, has_key-lookup key rest)

  pub has_key-insert :
      (key other : Text) (value : V) (entries : Dict V)
      → has_key other (insert key value entries) ≡ (key == other || has_key other entries)
  unfolding has_key insert
  has_key-insert key other value [] = refl
  has_key-insert key other value ((name, old) ∷ rest) =
      let later = has_key-insert key other value rest in
      ground (arith, later, eq_iff name key, eq_iff name other, eq_iff key other)

  pub lookup-insert :
      (key other : Text) (value : V) (entries : Dict V)
      → lookup other (insert key value entries)
        ≡ (if key == other then some value else lookup other entries)
  unfolding lookup insert
  lookup-insert key other value [] = refl
  lookup-insert key other value ((name, old) ∷ rest) =
      let later = lookup-insert key other value rest in
      ground (arith, later, eq_iff name key, eq_iff name other, eq_iff key other)
