-- ===== src/DesiredState/Names/Keys.antt =====
-- agent/internal/desiredstate/runtime.go: ScopedKey tells any two lists of parts apart.
use devopsellence.Base.{
  ℕ, ◌-◌, zero, suc, ◌+◌, ◌*◌, ◌/◌, ◌%◌, ◌<◌, ◌≤◌, ◌≡◌, refl, sym, ap, ◌∙◌, List, [], ◌∷◌, ◌++◌,
  map, Text, trim, byte_len, utf8_width, ltb, nat_eq, ltb→lt, arith, Bool-cases, inl, inr,
  if◌then◌else◌,
}
use devopsellence.DesiredState.Names.{decimal, show_number, scoped_part, scoped_key}

-- The number before the colon, read from the left, and what follows the colon.
abbrev read_number : ℕ → Text → ℕ × Text
read_number n [] = (n, [])
read_number n (c ∷ s) = if nat_eq c 58 then (n, s) else read_number (10 * n + (c - 48)) s

append_snoc : (xs : Text) (c : ℕ) (ys : Text) → (xs ++ c ∷ []) ++ ys ≡ xs ++ c ∷ ys
append_snoc [] c ys = refl
append_snoc (x ∷ xs) c ys = ap (◌∷◌ x) (append_snoc xs c ys)

read_digit :
    (m d : ℕ) (rest : Text)
    → d < 10
    → read_number m ((48 + d) ∷ rest) ≡ read_number (10 * m + d) rest
read_digit m d rest h = elim (Bool-cases (nat_eq (48 + d) 58)) [
  | inl e ↦ absurd (ground (arith, h))
  | inr e ↦
      let same : 10 * m + (48 + d - 48) ≡ 10 * m + d = omega arith in
      rw e (ap (λ n. read_number n rest) same)
]

read_number-decimal :
    (fuel n : ℕ) (rest : Text)
    → n < fuel
    → read_number 0 (decimal fuel n ++ rest) ≡ read_number n rest
unfolding decimal
read_number-decimal zero n rest h = absurd (omega (arith, h))
read_number-decimal (suc fuel) n rest h = elim (Bool-cases (ltb n 10)) [
  | inl e ↦
      let same : 10 * 0 + n ≡ n = omega arith in
      rw (e, decimal) (read_digit 0 n rest (ltb→lt n 10 e) ∙ ap (λ m. read_number m rest) same)
  | inr e ↦
      let big : 10 ≤ n = ground (arith, e) in
      let small : n / 10 < fuel = omega (arith, big, h) in
      let digit : n % 10 < 10 = omega arith in
      let whole : 10 * (n / 10) + n % 10 ≡ n = omega arith in
      rw (e, decimal)
        (ap (read_number 0) (append_snoc (decimal fuel (n / 10)) (48 + n % 10) rest)
          ∙ (read_number-decimal fuel (n / 10) ((48 + n % 10) ∷ rest) small
              ∙ (read_digit (n / 10) (n % 10) rest digit ∙ ap (λ m. read_number m rest) whole)))
]

read_number-show : (n : ℕ) (rest : Text) → read_number 0 (show_number n ++ 58 ∷ rest) ≡ (n, rest)
unfolding show_number
read_number-show n rest = read_number-decimal (suc n) n (58 ∷ rest) (omega arith)

utf8_width-positive : (c : ℕ) → 1 ≤ utf8_width c
unfolding utf8_width
utf8_width-positive c = ground arith

-- Prefixes of one text with as many bytes are the same.
split_same : (s t x y : Text) → byte_len s ≡ byte_len t → s ++ x ≡ t ++ y → (s ≡ t) × (x ≡ y)
unfolding byte_len
split_same [] [] x y h e = (refl, e)
split_same [] (d ∷ t) x y h e = absurd (omega (arith, h, utf8_width-positive d))
split_same (c ∷ s) [] x y h e = absurd (omega (arith, h, utf8_width-positive c))
split_same (c ∷ s) (d ∷ t) x y h e =
    let head : c ≡ d = ground arith in
    let width = ap utf8_width head in
    let rest = split_same s t x y (omega (arith, h, width)) (ground arith) in
    (ground (arith, head, rest.0), rest.1)

append_assoc : (xs ys zs : Text) → (xs ++ ys) ++ zs ≡ xs ++ (ys ++ zs)
append_assoc [] ys zs = refl
append_assoc (x ∷ xs) ys zs = ap (◌∷◌ x) (append_assoc xs ys zs)

scoped_part-read :
    (p rest : Text)
    → read_number 0 (scoped_part p ++ rest) ≡ (byte_len (trim p), trim p ++ 124 ∷ rest)
unfolding scoped_part
scoped_part-read p rest =
    ap (read_number 0)
      (append_assoc (show_number (byte_len (trim p))) (58 ∷ (trim p ++ 124 ∷ [])) rest)
    ∙ (read_number-show (byte_len (trim p)) ((trim p ++ 124 ∷ []) ++ rest)
        ∙ ap (λ s. (byte_len (trim p), s)) (append_snoc (trim p) 124 rest))

scoped_part-same :
    (p q x y : Text) → scoped_part p ++ x ≡ scoped_part q ++ y → (trim p ≡ trim q) × (x ≡ y)
scoped_part-same p q x y e =
    let read = sym (scoped_part-read p x) ∙ (ap (read_number 0) e ∙ scoped_part-read q y) in
    let parts =
      split_same (trim p) (trim q) (124 ∷ x) (124 ∷ y) (ap (λ r. r.0) read) (ap (λ r. r.1) read) in
    (parts.0, ground (arith, parts.1))

append_some : (xs : Text) (c : ℕ) (ys : Text) → xs ++ c ∷ ys ≡ [] → ⊥
append_some [] c ys e = ground arith
append_some (x ∷ xs) c ys e = ground arith

scoped_part-some : (p rest : Text) → scoped_part p ++ rest ≡ [] → ⊥
scoped_part-some p rest e =
    append_some (trim p) 124 rest
      (ap (λ r. r.1) (sym (scoped_part-read p rest) ∙ ap (read_number 0) e))

-- ScopedKey gives two lists of parts the same key only if the parts are the same up to the white
-- space around them.
pub scoped_key-injective :
    (xs ys : List Text) → scoped_key xs ≡ scoped_key ys → map trim xs ≡ map trim ys
unfolding scoped_key
scoped_key-injective [] [] e = refl
scoped_key-injective [] (y ∷ ys) e = absurd (scoped_part-some y (scoped_key ys) (sym e))
scoped_key-injective (x ∷ xs) [] e = absurd (scoped_part-some x (scoped_key xs) e)
scoped_key-injective (x ∷ xs) (y ∷ ys) e =
    let parts = scoped_part-same x y (scoped_key xs) (scoped_key ys) e in
    let rest = scoped_key-injective xs ys parts.1 in ground (arith, parts.0, rest)
