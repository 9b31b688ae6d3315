-- ===== src/DesiredState/Names/Lengths.antt =====
-- agent/internal/desiredstate/names.go: the lengths of the names of networks.
use devopsellence.Base.{
  reject_if-rest, ℕ, zero, suc, ◌+◌, ◌-◌, ◌≤◌, Bool, true, ◌≡◌, refl, subst, [], ◌∷◌, ◌++◌, All,
  length, take, is_empty, Text, byte_len, utf8_width, trim_left, trim_right, trim_by, ltb, leb, ok,
  arith, Bool-cases, inl, inr,
}
use devopsellence.Base.TextLaws.{trim_by-All}
use devopsellence.DesiredState.Names.{
  environment_name_empty, is_safe, is_dash_or_dot, sanitize, shorten, environment_network_prefix,
  environment_network_name,
}
use devopsellence.DesiredState.Names.Sanitized.{sanitize-IsSafe, byte_len-IsSafe}

byte_len-append : (s t : Text) → byte_len (s ++ t) ≡ byte_len s + byte_len t
unfolding byte_len
byte_len-append [] t = omega arith
byte_len-append (c ∷ s) t = omega (arith, byte_len-append s t)

dash_len : (s : Text) → byte_len (45 ∷ s) ≡ 1 + byte_len s
unfolding byte_len utf8_width
dash_len s = refl

carry_short : {s t : Text} → s ≡ t → byte_len s ≤ 255 → byte_len t ≤ 255
carry_short e h = subst (λ u. byte_len u ≤ 255) e h

pub take-All :
    (n : ℕ) (s : Text) → All (λ c. is_safe c ≡ true) s → All (λ c. is_safe c ≡ true) (take n s)
take-All zero s a = tt
take-All (suc n) [] a = tt
take-All (suc n) (c ∷ s) a = (a.0, take-All n s a.1)

length-take : (n : ℕ) (s : Text) → length (take n s) ≤ n
length-take zero s = omega arith
length-take (suc n) [] = omega arith
length-take (suc n) (c ∷ s) = omega (arith, length-take n s)

length-trim_left : (p : ℕ → Bool) (s : Text) → length (trim_left p s) ≤ length s
unfolding trim_left
length-trim_left p [] = omega arith
length-trim_left p (c ∷ s) = ground (arith, length-trim_left p s)

length-trim_right : (p : ℕ → Bool) (s : Text) → length (trim_right p s) ≤ length s
unfolding trim_right
length-trim_right p [] = omega arith
length-trim_right p (c ∷ s) = ground (arith, length-trim_right p s)

length-trim_by : (p : ℕ → Bool) (s : Text) → length (trim_by p s) ≤ length s
unfolding trim_by
length-trim_by p s = omega (arith, length-trim_right p (trim_left p s), length-trim_left p s)

byte_len-shorten :
    (max : ℕ) (s : Text) → All (λ c. is_safe c ≡ true) s → byte_len (shorten max s) ≤ max
unfolding shorten
byte_len-shorten max s a = elim (Bool-cases (ltb max (byte_len s))) [
  | inl e ↦
      let safe =
        trim_by-All is_dash_or_dot (λ c. is_safe c ≡ true) (take max s) (take-All max s a) in
      rw (e, shorten)
        (omega (
          arith,
          byte_len-IsSafe _ safe,
          length-trim_by is_dash_or_dot (take max s),
          length-take max s,
        ))
  | inr e ↦ rw (e, shorten) (ground (arith, e))
]

-- A network's name that EnvironmentNetworkName returns has at most 255 bytes, also where the
-- environment's part was cut and the hash was added.
pub environment_network_name-short :
    (sha256_hex : Text → Text) (base_network_name environment_name name : Text)
    → environment_network_name sha256_hex base_network_name environment_name ≡ ok name
    → byte_len name ≤ 255
unfolding environment_network_name
environment_network_name-short sha256_hex base_network_name environment_name name h =
    let env = sanitize environment_name in
    let prefix = environment_network_prefix base_network_name in
    let suffix = take 8 (sha256_hex environment_name) in
    let taken = byte_len prefix + byte_len suffix + 1 in
    let short = shorten (255 - taken) env in
    let h' = reject_if-rest (is_empty env) environment_name_empty _ name h in
    elim (Bool-cases (leb (byte_len (prefix ++ env)) 255)) [
      | inl e ↦ let same : prefix ++ env ≡ name = ground (arith, e, h') in ground (arith, e, same)
      | inr e ↦ elim (Bool-cases (leb 255 taken)) [
        | inl t ↦ absurd (ground (arith, e, t, h'))
        | inr t ↦ elim (Bool-cases (is_empty short)) [
          | inl u ↦ absurd (ground (arith, e, t, u, h'))
          | inr u ↦
              let same : prefix ++ (short ++ 45 ∷ suffix) ≡ name = ground (arith, e, t, u, h') in
              let cut = byte_len-shorten (255 - taken) env (sanitize-IsSafe environment_name) in
              let room : taken ≤ 255 = ground (arith, t) in
              carry_short same (
                omega (
                  arith,
                  byte_len-append prefix (short ++ 45 ∷ suffix),
                  byte_len-append short (45 ∷ suffix),
                  dash_len suffix,
                  cut,
                  room,
                ))
        ]
      ]
    ]
