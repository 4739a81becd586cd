-- ===== src/Text/Decimal.antt =====
-- The decimal digits of a number determine it.
use log_forge.Prelude.{
  ℕ, zero, suc, ◌+◌, ◌-◌, ◌*◌, ◌/◌, ◌%◌, ◌<◌, ◌≤◌, ◌≡◌, ap, sym, ◌∙◌, [], ◌∷◌, arith, ltb, All,
  Bool-cases, inl, inr, ltb→lt,
}
use mathlib.Core.Path.{subst}
use log_forge.Text.{Text, digits_from, decimal}

-- The number that digits spell, after a number before them.
value_from : ℕ → Text → ℕ
value_from n [] = n
value_from n (c ∷ s) = value_from (n * 10 + (c - 48)) s

abbrev pub IsDigits : Text → Type 0
IsDigits = All (λ c. (48 ≤ c) × (c ≤ 57))

digits_from-last :
    (fuel n : ℕ) (rest : Text) → n < 10 → digits_from (suc fuel) n rest ≡ (48 + n) ∷ rest
unfolding digits_from
digits_from-last fuel n rest h = ground arith

digits_from-more :
    (fuel n : ℕ) (rest : Text)
    → 10 ≤ n
    → digits_from (suc fuel) n rest ≡ digits_from fuel (n / 10) ((48 + n % 10) ∷ rest)
unfolding digits_from
digits_from-more fuel n rest h = ground arith

digits_from-value :
    (fuel n : ℕ) (rest : Text)
    → n < fuel
    → value_from 0 (digits_from fuel n rest) ≡ value_from n rest
unfolding value_from
digits_from-value zero n rest h = absurd (omega arith)
digits_from-value (suc fuel) n rest h = elim (Bool-cases (ltb n 10)) [
  | inl small ↦
      let first : 0 * 10 + (48 + n - 48) ≡ n = omega arith in
      ap (value_from 0) (digits_from-last fuel n rest (ltb→lt n 10 small))
      ∙ ap (λ m. value_from m rest) first
  | inr large ↦
      let big : 10 ≤ n = ground arith in
      let less : n / 10 < fuel = omega arith in
      let back : n / 10 * 10 + (48 + n % 10 - 48) ≡ n = omega arith in
      ap (value_from 0) (digits_from-more fuel n rest big)
      ∙ digits_from-value fuel (n / 10) ((48 + n % 10) ∷ rest) less
      ∙ ap (λ m. value_from m rest) back
]

digits_from-IsDigits :
    (fuel n : ℕ) (rest : Text) → IsDigits rest → IsDigits (digits_from fuel n rest)
unfolding digits_from
digits_from-IsDigits zero n rest h = h
digits_from-IsDigits (suc fuel) n rest h = elim (Bool-cases (ltb n 10)) [
  | inl small ↦
      let less = ltb→lt n 10 small in
      let digit : (48 ≤ 48 + n) × (48 + n ≤ 57) = (omega arith, omega arith) in
      subst IsDigits (sym (digits_from-last fuel n rest less)) (digit, h)
  | inr large ↦
      let big : 10 ≤ n = ground arith in
      let digit : (48 ≤ 48 + n % 10) × (48 + n % 10 ≤ 57) = (omega arith, omega arith) in
      subst IsDigits (sym (digits_from-more fuel n rest big))
        (digits_from-IsDigits fuel (n / 10) ((48 + n % 10) ∷ rest) (digit, h))
]

decimal-value : (n : ℕ) → value_from 0 (decimal n) ≡ n
unfolding decimal value_from
decimal-value n = digits_from-value (n + 1) n [] (omega arith)

pub decimal_injective : (m n : ℕ) → decimal m ≡ decimal n → m ≡ n
decimal_injective m n h = sym (decimal-value m) ∙ ap (value_from 0) h ∙ decimal-value n

pub decimal-IsDigits : (n : ℕ) → IsDigits (decimal n)
unfolding decimal
decimal-IsDigits n = digits_from-IsDigits (n + 1) n [] tt
