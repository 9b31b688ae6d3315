-- ===== src/DesiredState/Names/Containers.antt =====
-- agent/internal/desiredstate/names.go: when ServiceContainerName gives a name, and what name.
use mathlib.Core.List.{append_assoc}
use devopsellence.Base.{
  ℕ, ◌+◌, ◌≤◌, true, false, ◌≡◌, ◌↔◌, refl, sym, ap, subst, ◌∙◌, [], ◌∷◌, ◌++◌, All, length,
  length-append, take, is_empty, Text, codes, byte_len, has_prefix, ltb, Result, ok, err,
  reject_if-ok, arith,
}
use devopsellence.DesiredState.Names.{
  NameError, service_name_empty, revision_empty, environment_name_empty, container_name_too_long,
  is_safe, sanitize, checked_name, service_container_name,
}
use devopsellence.DesiredState.Names.Sanitized.{sanitize-IsSafe, byte_len-IsSafe}
use devopsellence.DesiredState.Names.Lengths.{take-All}

-- Only characters that a container's name may have.
abbrev pub IsSafe : Text → Type 0
IsSafe = All (λ c. is_safe c ≡ true)

-- The parts, joined by dashes.
abbrev joined : (env service rev suffix : Text) → Text
joined env service rev suffix = codes "svc-" ++ (env ++ 45 ∷ (service ++ 45 ∷ (rev ++ 45 ∷ suffix)))

append-IsSafe : (s t : Text) → IsSafe s → IsSafe t → IsSafe (s ++ t)
append-IsSafe [] t a b = b
append-IsSafe (c ∷ s) t a b = (a.0, append-IsSafe s t a.1 b)

joined-IsSafe :
    (env service rev suffix : Text)
    → IsSafe env
    → IsSafe service
    → IsSafe rev
    → IsSafe suffix
    → IsSafe (joined env service rev suffix)
unfolding is_safe
joined-IsSafe env service rev suffix a b c d =
    append-IsSafe (codes "svc-") _ (refl, (refl, (refl, (refl, tt))))
      (append-IsSafe env _ a
        (refl, append-IsSafe service _ b (refl, append-IsSafe rev _ c (refl, d))))

length-joined :
    (env service rev suffix : Text)
    → length (joined env service rev suffix)
      ≡ length env + length service + length rev + length suffix + 7
length-joined env service rev suffix = omega (
  arith,
  length-append env (45 ∷ (service ++ 45 ∷ (rev ++ 45 ∷ suffix))),
  length-append service (45 ∷ (rev ++ 45 ∷ suffix)),
  length-append rev (45 ∷ suffix),
)

joined-starts :
    (env service rev suffix : Text)
    → has_prefix (joined env service rev suffix) (codes "svc-") ≡ true
unfolding has_prefix
joined-starts env service rev suffix = refl

joined-ends :
    (env service rev suffix : Text)
    → joined env service rev suffix
      ≡ (codes "svc-" ++ (env ++ 45 ∷ (service ++ 45 ∷ rev))) ++ 45 ∷ suffix
joined-ends env service rev suffix =
    ap (λ l. codes "svc-" ++ l)
      (ap (λ l. env ++ 45 ∷ l) (sym (append_assoc service (45 ∷ rev) (45 ∷ suffix)))
        ∙ sym (append_assoc env (45 ∷ (service ++ 45 ∷ rev)) (45 ∷ suffix)))

at_most : (n m : ℕ) → n ≡ m → ltb 255 n ≡ false → m ≤ 255
at_most n m e h = ground arith

not_above : (n m : ℕ) → n ≡ m → m ≤ 255 → ltb 255 n ≡ false
not_above n m e h = ground arith

value_of : {a b : Text} → ◌≡◌ {A = Result NameError Text} (ok a) (ok b) → a ≡ b
value_of {a = a} h = ap (λ r. elim r [ ok x ↦ x | err e ↦ a ]) h

-- A name that Docker takes for a container: it starts with a letter, has only safe characters, and
-- is not too long; it ends with the first 8 characters of the hash.
pub record IsContainerName (hash name : Text) : Type 0 where
  pub safe : IsSafe name
  pub starts : has_prefix name (codes "svc-") ≡ true
  pub short : byte_len name ≤ 255
  pub front : Text
  pub ends : name ≡ front ++ 45 ∷ take 8 hash

module _ (environment_name service_name revision hash : Text) (hexadecimal : IsSafe hash) where
  abbrev whole : Text
  whole =
      joined (sanitize environment_name) (sanitize service_name) (sanitize revision) (take 8 hash)

  -- The parts are there and the whole fits.
  abbrev pub Fits : Type 0
  Fits =
      (is_empty (sanitize environment_name) ≡ false)
      × (is_empty (sanitize service_name) ≡ false)
      × (is_empty (sanitize revision) ≡ false)
      × (length (sanitize environment_name)
            + length (sanitize service_name)
            + length (sanitize revision)
            + length (take 8 hash)
            + 7
          ≤ 255)

  byte_len-whole :
      byte_len whole
      ≡ length (sanitize environment_name)
        + length (sanitize service_name)
        + length (sanitize revision)
        + length (take 8 hash)
        + 7
  byte_len-whole =
      byte_len-IsSafe whole (
        joined-IsSafe _ _ _ _ (sanitize-IsSafe environment_name) (sanitize-IsSafe service_name)
          (sanitize-IsSafe revision) (take-All 8 hash hexadecimal))
      ∙ length-joined (sanitize environment_name) (sanitize service_name) (sanitize revision)
          (take 8 hash)

  whole-Fits :
      (name : Text)
      → service_container_name environment_name service_name revision hash ≡ ok name
      → Fits × (whole ≡ name)
  unfolding service_container_name checked_name
  whole-Fits name h =
      let (e, h1) =
        reject_if-ok (is_empty (sanitize environment_name)) environment_name_empty _ name h in
      let (s, h2) = reject_if-ok (is_empty (sanitize service_name)) service_name_empty _ name h1 in
      let (r, h3) = reject_if-ok (is_empty (sanitize revision)) revision_empty _ name h2 in
      let (l, h4) = reject_if-ok (ltb 255 (byte_len whole)) container_name_too_long _ name h3 in
      ((e, s, r, at_most _ _ byte_len-whole l), value_of h4)

  Fits-ok : Fits → service_container_name environment_name service_name revision hash ≡ ok whole
  unfolding service_container_name checked_name
  Fits-ok (e, s, r, l) = let fits = not_above _ _ byte_len-whole l in rw (e, s, r, fits) refl

  whole-IsContainerName : Fits → IsContainerName hash whole
  whole-IsContainerName (e, s, r, l) = record {
    safe =
        joined-IsSafe _ _ _ _ (sanitize-IsSafe environment_name) (sanitize-IsSafe service_name)
          (sanitize-IsSafe revision) (take-All 8 hash hexadecimal);
    starts =
        joined-starts (sanitize environment_name) (sanitize service_name) (sanitize revision)
          (take 8 hash);
    short = subst (λ n. n ≤ 255) (sym byte_len-whole) l;
    front =
        codes "svc-"
        ++ (sanitize environment_name ++ 45 ∷ (sanitize service_name ++ 45 ∷ sanitize revision));
    ends =
        joined-ends (sanitize environment_name) (sanitize service_name) (sanitize revision)
          (take 8 hash);
  }

  -- For a hash of lower-case letters, digits, `_`, `.` and `-`, ServiceContainerName gives a name
  -- exactly if the environment, the service and the revision are not empty once sanitized and, with
  -- the first 8 characters of the hash and 7 more, take at most 255 characters. The name then is one
  -- that Docker takes: it starts with `svc-`, has only characters of these, at most 255 bytes, and
  -- ends with those first characters of the hash.
  pub service_container_name-IsContainerName :
      (((name : Text) × (service_container_name environment_name service_name revision hash
            ≡ ok name))
        ↔ Fits)
      × ((name : Text)
          → service_container_name environment_name service_name revision hash ≡ ok name
          → IsContainerName hash name)
  service_container_name-IsContainerName = (
    ((λ (name, h). (whole-Fits name h).0), (λ fits. (whole, Fits-ok fits))),
    λ name h.
        subst (IsContainerName hash) (whole-Fits name h).1
          (whole-IsContainerName (whole-Fits name h).0),
  )
