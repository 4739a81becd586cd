-- ===== src/Text/Trim.antt =====
-- Laws of trimming: it is idempotent, and equality of texts is decided by `text_eq`.
use log_forge.Prelude.{ℕ, ◌≡◌, refl, Bool, true, [], ◌∷◌, arith, is_empty, ◌↔◌, ap}
use log_forge.Text.{Text, text_eq, trim_left, trim_right, trim, trim_space, is_blank, is_space}

trim_right-trim_right : (p : ℕ → Bool) (s : Text) → trim_right p (trim_right p s) ≡ trim_right p s
unfolding trim_right
trim_right-trim_right p [] = refl
trim_right-trim_right p (c ∷ s) = ground (arith, trim_right-trim_right p s)

-- Trimming on the left after trimming on both sides finds nothing more.
trim_left-trim : (p : ℕ → Bool) (s : Text) → trim_left p (trim p s) ≡ trim p s
unfolding trim
trim_left-trim p [] = refl
trim_left-trim p (c ∷ s) = ground (arith, trim_left-trim p s)

pub trim-trim : (p : ℕ → Bool) (s : Text) → trim p (trim p s) ≡ trim p s
unfolding trim
trim-trim p s = rw (trim_left-trim p s) (trim_right-trim_right p (trim_left p s))

pub trim_space-trim_space : (s : Text) → trim_space (trim_space s) ≡ trim_space s
unfolding trim_space
trim_space-trim_space s = trim-trim is_space s

-- A text that is not blank is not blank after trimming.
pub is_blank-trim_space : (s : Text) → is_blank (trim_space s) ≡ is_blank s
unfolding is_blank
is_blank-trim_space s = ap is_empty (trim_space-trim_space s)

pub text_eq_iff : (s t : Text) → (text_eq s t ≡ true) ↔ (s ≡ t)
unfolding text_eq
text_eq_iff [] [] = ground arith
text_eq_iff [] (d ∷ t) = ground arith
text_eq_iff (c ∷ s) [] = ground arith
text_eq_iff (c ∷ s) (d ∷ t) = ground (arith, text_eq_iff s t)

pub text_eq_refl : (s : Text) → text_eq s s ≡ true
text_eq_refl s = (text_eq_iff s s).1 refl
