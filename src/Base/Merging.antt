-- ===== src/Base/Merging.antt =====
-- What the loops that copy one Go map into another amount to.
use mathlib.Core.Path.{◌≡◌, refl, sym, ◌∙◌, ap}
use mathlib.Core.Bool.{true, false, ◌||◌}
use mathlib.Core.Logic.{inl, inr}
use mathlib.Core.Option
use mathlib.Core.Option.{Option, none, some}
use mathlib.Core.List.{[], ◌∷◌, ◌++◌}
use native.Mathlib.Omega.{arith}
use devopsellence.Base.Tests.{if◌then◌else◌, Bool-cases}
use devopsellence.Base.Texts.{Text, ◌==◌}
use devopsellence.Base.TextLaws.{eq_iff, eq_refl, eq_sym}
use devopsellence.Base.Sets.{contains, is_distinct}
use devopsellence.Base.Dicts.{Dict, keys, has_key, lookup, insert, lookup-insert, has_key-insert}

-- The value there is, or the default.
abbrev pub or_value {ℓ} : {V : Type ℓ} → V → Option V → V
or_value d none = d
or_value d (some v) = v

-- `for k, v := range part { merged[k] = v }`
unfoldable pub merge {ℓ} : {V : Type ℓ} → Dict V → Dict V → Dict V
merge merged [] = merged
merge merged ((key, value) ∷ part) = merge (insert key value merged) part

-- `for k, v := range m { m[k] = f(v) }`
unfoldable pub map_values {ℓ κ} : {V : Type ℓ} {W : Type κ} → (V → W) → Dict V → Dict W
map_values f [] = []
map_values f ((key, value) ∷ rest) = (key, f value) ∷ map_values f rest

module _ {ℓ} {V : Type ℓ} where
  pub has_key-merge :
      (base part : Dict V) (key : Text)
      → has_key key (merge base part) ≡ (has_key key part || has_key key base)
  unfolding merge has_key
  has_key-merge base [] key = refl
  has_key-merge base ((k, v) ∷ part) key =
      ground (arith, has_key-merge (insert k v base) part key, has_key-insert k key v base)

  -- The keys of a map are pairwise different.
  abbrev pub IsMap : Dict V → Type 0
  IsMap entries = is_distinct (keys entries) ≡ true

  pub has_key-keys :
      (key : Text) (entries : Dict V) → has_key key entries ≡ contains (keys entries) key
  unfolding has_key contains
  has_key-keys key [] = refl
  has_key-keys key ((k, v) ∷ rest) = ground (arith, has_key-keys key rest)

  pub has_key_of_lookup :
      (key : Text) (entries : Dict V) (v : V)
      → lookup key entries ≡ some v
      → has_key key entries ≡ true
  unfolding has_key lookup
  has_key_of_lookup key [] v h = absurd (ground arith)
  has_key_of_lookup key ((k, w) ∷ rest) v h = elim (Bool-cases (k == key)) [
    | inl e ↦ ground arith
    | inr e ↦ ground (arith, has_key_of_lookup key rest v (ground arith))
  ]

  pub lookup_of_missing :
      (key : Text) (entries : Dict V) → has_key key entries ≡ false → lookup key entries ≡ none
  unfolding has_key lookup
  lookup_of_missing key [] h = refl
  lookup_of_missing key ((k, w) ∷ rest) h = ground (arith, lookup_of_missing key rest)

  -- The first value there is.
  abbrev pub or_else : Option V → Option V → Option V
  or_else none other = other
  or_else (some v) other = some v

  -- Where both have the key the part wins.
  pub lookup-merge :
      (base part : Dict V) (key : Text)
      → IsMap part
      → lookup key (merge base part) ≡ or_else (lookup key part) (lookup key base)
  unfolding merge lookup is_distinct
  lookup-merge base [] key d = refl
  lookup-merge base ((k, v) ∷ part) key d =
      let later = lookup-merge (insert k v base) part key (ground arith) in
      let put = lookup-insert k key v base in
      elim (Bool-cases (k == key)) [
        | inl e ↦
            later ∙ ground (arith, put, eq_iff k key, lookup_of_missing k part, has_key-keys k part)
        | inr e ↦ later ∙ ground (arith, put)
      ]

  -- A key that the map lacks goes to its end.
  insert_fresh :
      (key : Text) (value : V) (entries : Dict V)
      → has_key key entries ≡ false
      → insert key value entries ≡ entries ++ (key, value) ∷ []
  unfolding insert has_key
  insert_fresh key value [] h = refl
  insert_fresh key value ((k, v) ∷ rest) h =
      ground (arith, insert_fresh key value rest, eq_iff k key)

  has_key-snoc :
      (key k : Text) (v : V) (entries : Dict V)
      → has_key key (entries ++ (k, v) ∷ []) ≡ (has_key key entries || k == key)
  unfolding has_key
  has_key-snoc key k v [] = ground arith
  has_key-snoc key k v ((j, w) ∷ rest) = ground (arith, has_key-snoc key k v rest)

  append_assoc_one : (xs ys : Dict V) (e : Text × V) → (xs ++ e ∷ []) ++ ys ≡ xs ++ e ∷ ys
  append_assoc_one [] ys e = refl
  append_assoc_one (x ∷ xs) ys e = ap (λ l. x ∷ l) (append_assoc_one xs ys e)

  head_key : (k : Text) (v : V) (part : Dict V) → has_key k ((k, v) ∷ part) ≡ true
  unfolding has_key
  head_key k v part = ground (arith, eq_refl k)

  tail_key :
      (k : Text) (v : V) (part : Dict V) (key : Text)
      → has_key key part ≡ true
      → has_key key ((k, v) ∷ part) ≡ true
  unfolding has_key
  tail_key k v part key h = ground arith

  merge_fresh :
      (base part : Dict V)
      → IsMap part
      → ((key : Text) → has_key key part ≡ true → has_key key base ≡ false)
      → merge base part ≡ base ++ part
  unfolding merge is_distinct
  merge_fresh base [] d f = sym (append_nil base)
    where
      append_nil : (xs : Dict V) → xs ++ [] ≡ xs
      append_nil [] = refl
      append_nil (x ∷ xs) = ap (λ l. x ∷ l) (append_nil xs)
  merge_fresh base ((k, v) ∷ part) d f =
      let new = f k (head_key k v part) in
      ap (λ b. merge b part) (insert_fresh k v base new)
      ∙ (merge_fresh (base ++ (k, v) ∷ []) part (ground arith) (λ key h. ground (
        arith,
        has_key-snoc key k v base,
        f key (tail_key k v part key h),
        eq_iff k key,
        has_key-keys key part,
      ))
          ∙ append_assoc_one base part (k, v))

  -- A copy of a map is that map.
  pub merge_copy : (part : Dict V) → IsMap part → merge [] part ≡ part
  unfolding has_key
  merge_copy part d = merge_fresh [] part d (λ key h. refl)

  IsMap-insert :
      (key : Text) (value : V) (entries : Dict V) → IsMap entries → IsMap (insert key value entries)
  unfolding insert is_distinct contains has_key
  IsMap-insert key value [] d = refl
  IsMap-insert key value ((k, v) ∷ rest) d = elim (Bool-cases (k == key)) [
    | inl e ↦ ground arith
    | inr e ↦ ground (
      arith,
      IsMap-insert key value rest,
      has_key-insert key k value rest,
      eq_sym k key,
      has_key-keys k rest,
      has_key-keys k (insert key value rest),
    )
  ]

  pub IsMap-merge : (base part : Dict V) → IsMap base → IsMap (merge base part)
  unfolding merge
  IsMap-merge base [] d = d
  IsMap-merge base ((k, v) ∷ part) d = IsMap-merge (insert k v base) part (IsMap-insert k v base d)

module _ {ℓ κ} {V : Type ℓ} {W : Type κ} where
  pub keys-map_values : (f : V → W) (entries : Dict V) → keys (map_values f entries) ≡ keys entries
  unfolding map_values
  keys-map_values f [] = refl
  keys-map_values f ((k, v) ∷ rest) = ap (λ l. k ∷ l) (keys-map_values f rest)

  pub lookup-map_values :
      (f : V → W) (key : Text) (entries : Dict V)
      → lookup key (map_values f entries) ≡ Option.map f (lookup key entries)
  unfolding map_values lookup
  lookup-map_values f key [] = refl
  lookup-map_values f key ((k, v) ∷ rest) = elim (Bool-cases (k == key)) [
    | inl e ↦ rw e refl
    | inr e ↦ rw e (lookup-map_values f key rest)
  ]

pub map_values_idem {ℓ} :
    {V : Type ℓ} (f : V → V)
    → ((v : V) → f (f v) ≡ f v)
    → (entries : Dict V) → map_values f (map_values f entries) ≡ map_values f entries
unfolding map_values
map_values_idem f h [] = refl
map_values_idem f h ((k, v) ∷ rest) = rw (h v, map_values_idem f h rest) refl

-- `delete(m, key)`
unfoldable pub remove {ℓ} : {V : Type ℓ} → Text → Dict V → Dict V
remove key [] = []
remove key ((name, value) ∷ rest) =
    let later = remove key rest in if name == key then later else (name, value) ∷ later

pub lookup-remove {ℓ} :
    {V : Type ℓ} (key other : Text) (entries : Dict V)
    → lookup other (remove key entries) ≡ (if key == other then none else lookup other entries)
unfolding lookup remove
lookup-remove key other [] = ground arith
lookup-remove key other ((name, value) ∷ rest) =
    ground
      (arith, lookup-remove key other rest, eq_iff name key, eq_iff name other, eq_iff key other)

pub lookup_inserted {ℓ} :
    {V : Type ℓ} (key : Text) (value : V) (entries : Dict V)
    → lookup key (insert key value entries) ≡ some value
lookup_inserted key value entries = lookup-insert key key value entries ∙ rw (eq_refl key) refl
