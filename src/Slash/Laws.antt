-- ===== src/Slash/Laws.antt =====
-- Laws of splitting and joining.
use log_forge.Prelude.{
  ℕ, ◌≡◌, refl, ap, sym, ◌∙◌, Bool, false, List, [], ◌∷◌, ◌++◌, ◌==◌, arith, is_empty, All,
  Bool-cases, inl, inr,
}
use mathlib.Core.Path.{subst}
use mathlib.Core.List.{append_assoc}
use log_forge.Text.{Text, codes, text_eq}
use log_forge.Slash.{push, split, join, clean_part, clean_parts, reverse_onto}

abbrev pub NoSlash : Text → Type 0
NoSlash = All (λ c. (c == b'/') ≡ false)

pub split-one : (part : Text) → NoSlash part → split part ≡ part ∷ []
unfolding split push
split-one [] h = refl
split-one (c ∷ part) h = let rest = split-one part h.1 in let own = h.0 in ground arith

pub split-append : (part s : Text) → NoSlash part → split (part ++ (b'/' ∷ s)) ≡ part ∷ split s
unfolding split push
split-append [] s h = refl
split-append (c ∷ part) s h = let rest = split-append part s h.1 in let own = h.0 in ground arith

-- Splitting undoes joining.
pub split-join :
    (part : Text) (parts : List Text)
    → All NoSlash (part ∷ parts)
    → split (join (part ∷ parts)) ≡ part ∷ parts
unfolding join
split-join part [] h = split-one part h.0
split-join part (next ∷ parts) h =
    split-append part (join (next ∷ parts)) h.0 ∙ ap (λ l. part ∷ l) (split-join next parts h.1)

push-NoSlash :
    (c : ℕ) (parts : List Text)
    → (c == b'/') ≡ false
    → All NoSlash parts
    → All NoSlash (push c parts)
unfolding push
push-NoSlash c [] own h = ((own, tt), tt)
push-NoSlash c (part ∷ parts) own h = ((own, h.0), h.1)

-- Every part of a split text is free of slashes.
pub split-NoSlash : (s : Text) → All NoSlash (split s)
unfolding split
split-NoSlash [] = (tt, tt)
split-NoSlash (c ∷ s) =
    let rest = split-NoSlash s in
    elim (Bool-cases (c == b'/')) [
      | inl h ↦
          let eq : split (c ∷ s) ≡ [] ∷ split s = ground arith in
          subst (All NoSlash) (sym eq) (tt, rest)
      | inr h ↦
          let eq : split (c ∷ s) ≡ push c (split s) = ground arith in
          subst (All NoSlash) (sym eq) (push-NoSlash c (split s) h rest)
    ]

-- A text has at least one part.
pub split-parts : (s : Text) → (x : Text) × (xs : List Text) × (split s ≡ x ∷ xs)
unfolding split push
split-parts [] = ([], [], refl)
split-parts (c ∷ s) =
    let (x, xs, h) = split-parts s in
    elim (Bool-cases (c == b'/')) [
      | inl own ↦ ([], split s, ground arith)
      | inr own ↦ (c ∷ x, xs, ground arith)
    ]

-- Splitting at a slash.
pub split-slash : (s t : Text) → split (s ++ (b'/' ∷ t)) ≡ split s ++ split t
unfolding split push
split-slash [] t = refl
split-slash (c ∷ s) t =
    let rest = split-slash s t in
    let (x, xs, parts) = split-parts s in
    elim (Bool-cases (c == b'/')) [
      | inl own ↦ ground arith
      | inr own ↦
          let more : push c (split (s ++ (b'/' ∷ t))) ≡ push c (split s) ++ split t =
            ap (push c) rest
            ∙ ap (λ l. push c (l ++ split t)) parts
            ∙ ap (λ l. push c l ++ split t) (sym parts) in
          ground arith
    ]

pub clean_parts-append :
    (rooted : Bool) (xs ys parts : List Text)
    → clean_parts rooted (xs ++ ys) parts ≡ clean_parts rooted ys (clean_parts rooted xs parts)
unfolding clean_parts
clean_parts-append rooted [] ys parts = refl
clean_parts-append rooted (x ∷ xs) ys parts =
    clean_parts-append rooted xs ys (clean_part rooted x parts)

-- A part that path.Clean keeps as it is.
abbrev pub Plain : Text → Type 0
Plain part =
    NoSlash part
    × (is_empty part ≡ false)
    × (text_eq part (codes ".") ≡ false)
    × (text_eq part (codes "..") ≡ false)

pub clean_part-Plain :
    (rooted : Bool) (x : Text) (parts : List Text)
    → is_empty x ≡ false
    → text_eq x (codes ".") ≡ false
    → text_eq x (codes "..") ≡ false
    → clean_part rooted x parts ≡ x ∷ parts
unfolding clean_part
clean_part-Plain rooted x parts h₁ h₂ h₃ = ground arith

pub clean_parts-Plain :
    (rooted : Bool) (xs parts : List Text)
    → All Plain xs
    → clean_parts rooted xs parts ≡ reverse_onto xs parts
unfolding clean_parts reverse_onto
clean_parts-Plain rooted [] parts h = refl
clean_parts-Plain rooted (x ∷ xs) parts h =
    let (slashes, empty, dot, dots) = h.0 in
    let own : clean_part rooted x parts ≡ x ∷ parts =
      clean_part-Plain rooted x parts empty dot dots in
    ap (clean_parts rooted xs) own ∙ clean_parts-Plain rooted xs (x ∷ parts) h.1

pub reverse_onto-append :
    (xs ys zs : List Text) → reverse_onto (reverse_onto xs ys) zs ≡ reverse_onto ys (xs ++ zs)
unfolding reverse_onto
reverse_onto-append [] ys zs = refl
reverse_onto-append (x ∷ xs) ys zs = reverse_onto-append xs (x ∷ ys) zs

pub reverse_onto-front : (xs ys : List Text) → reverse_onto xs ys ≡ reverse_onto xs [] ++ ys
unfolding reverse_onto
reverse_onto-front [] ys = refl
reverse_onto-front (x ∷ xs) ys =
    reverse_onto-front xs (x ∷ ys)
    ∙ sym (append_assoc (reverse_onto xs []) (x ∷ []) ys)
    ∙ ap (λ l. l ++ ys) (sym (reverse_onto-front xs (x ∷ [])))
