-- ===== src/DesiredState/Names/Sanitized.antt =====
-- agent/internal/desiredstate/names.go: the characters that `sanitize` leaves.
use devopsellence.Base.{
  ℕ, Bool, true, false, ◌&&◌, ◌≡◌, refl, [], ◌∷◌, map, All, length, Text, trim, byte_len,
  utf8_width, nat_eq, arith, Bool-cases, inl, inr,
}
use devopsellence.Base.TextLaws.{trim_by-All}
use devopsellence.Plan.Schedule.{ascii_lower}
use devopsellence.DesiredState.Names.{
  is_safe, replace_unsafe, replace_pairs, is_dash_or_dot, sanitize,
}

abbrev IsSafe : ℕ → Type 0
IsSafe c = is_safe c ≡ true

replace_unsafe-IsSafe : (in_run : Bool) (s : Text) → All IsSafe (replace_unsafe in_run s)
unfolding replace_unsafe is_safe
replace_unsafe-IsSafe in_run [] = tt
replace_unsafe-IsSafe in_run (c ∷ s) = elim (Bool-cases (is_safe c)) [
  | inl e ↦ rw (e, replace_unsafe) (e, replace_unsafe-IsSafe false s)
  | inr e ↦ elim (Bool-cases in_run) [
    | inl r ↦ rw (e, r, replace_unsafe) (replace_unsafe-IsSafe true s)
    | inr r ↦ rw (e, r, replace_unsafe) (refl, replace_unsafe-IsSafe true s)
  ]
]

replace_pairs-IsSafe :
    (d : ℕ) → IsSafe d → (s : Text) → All IsSafe s → All IsSafe (replace_pairs d s)
unfolding replace_pairs
replace_pairs-IsSafe d h [] a = tt
replace_pairs-IsSafe d h (c ∷ []) a = a
replace_pairs-IsSafe d h (c ∷ e ∷ s) a = elim (Bool-cases (nat_eq c d && nat_eq e d)) [
  | inl q ↦ rw (q, replace_pairs) (h, replace_pairs-IsSafe d h s a.1.1)
  | inr q ↦ rw (q, replace_pairs) (a.0, replace_pairs-IsSafe d h (e ∷ s) a.1)
]

-- What `sanitize` returns has only lower-case letters, digits, and the characters `_`, `.` and `-`.
pub sanitize-IsSafe : (input : Text) → All (λ c. is_safe c ≡ true) (sanitize input)
unfolding sanitize is_safe
sanitize-IsSafe input =
    let mapped = map ascii_lower (trim input) in
    replace_pairs-IsSafe 45 refl _ (
      replace_pairs-IsSafe 46 refl _ (
        trim_by-All is_dash_or_dot IsSafe (replace_unsafe false mapped)
          (replace_unsafe-IsSafe false mapped)))

-- A safe text is ASCII: it has as many bytes as characters.
pub byte_len-IsSafe : (s : Text) → All (λ c. is_safe c ≡ true) s → byte_len s ≡ length s
unfolding byte_len utf8_width is_safe
byte_len-IsSafe [] a = refl
byte_len-IsSafe (c ∷ s) a = ground (arith, a.0, byte_len-IsSafe s a.1)
