-- ===== src/Slash/Ends.antt =====
-- path.Clean and path.Join keep the last parts of a path, if these are plain names.
use log_forge.Prelude.{
  ◌≡◌, refl, ap, sym, ◌∙◌, Bool, true, false, List, [], ◌∷◌, ◌++◌, arith, is_empty, All, Bool-cases,
  inl, inr, ◌||◌, All-append,
}
use mathlib.Core.Path.{subst}
use mathlib.Core.List.{append-nil, append_assoc}
use log_forge.Text.{Text, codes, text_eq, has_prefix}
use log_forge.Slash.{split, join, back, clean_part, clean_parts, reverse_onto, clean, path_join}
use log_forge.Slash.Laws.{
  NoSlash, Plain, split-join, split-NoSlash, split-slash, clean_parts-append, clean_parts-Plain,
  reverse_onto-append, reverse_onto-front,
}

-- The last parts of a text between its slashes.
abbrev pub EndsIn : List Text → Text → Type 0
EndsIn parts s = (before : List Text) × (split s ≡ before ++ parts)

is_empty-append : (xs : List Text) (y : Text) (ys : List Text) → is_empty (xs ++ (y ∷ ys)) ≡ false
is_empty-append [] y ys = refl
is_empty-append (x ∷ xs) y ys = refl

split-join-All :
    (parts : List Text) → is_empty parts ≡ false → All NoSlash parts → split (join parts) ≡ parts
split-join-All [] h all = ground arith
split-join-All (part ∷ parts) h all = split-join part parts all

back-NoSlash :
    (rooted : Bool) (parts : List Text) → All NoSlash parts → All NoSlash (back rooted parts)
unfolding back
back-NoSlash true [] h = tt
back-NoSlash false [] h = ((refl, (refl, tt)), tt)
back-NoSlash rooted (part ∷ parts) h = elim (Bool-cases (text_eq part (codes ".."))) [
  | inl e ↦
      let eq : back rooted (part ∷ parts) ≡ codes ".." ∷ (part ∷ parts) = ground arith in
      subst (All NoSlash) (sym eq) ((refl, (refl, tt)), h)
  | inr e ↦
      let eq : back rooted (part ∷ parts) ≡ parts = ground arith in subst (All NoSlash) (sym eq) h.1
]

clean_part-NoSlash :
    (rooted : Bool) (part : Text) (parts : List Text)
    → NoSlash part
    → All NoSlash parts
    → All NoSlash (clean_part rooted part parts)
unfolding clean_part
clean_part-NoSlash rooted part parts own h =
    elim (Bool-cases (is_empty part || text_eq part (codes "."))) [
      | inl e ↦
          let eq : clean_part rooted part parts ≡ parts = ground arith in
          subst (All NoSlash) (sym eq) h
      | inr e ↦ elim (Bool-cases (text_eq part (codes ".."))) [
        | inl f ↦
            let eq : clean_part rooted part parts ≡ back rooted parts = ground arith in
            subst (All NoSlash) (sym eq) (back-NoSlash rooted parts h)
        | inr f ↦
            let eq : clean_part rooted part parts ≡ part ∷ parts = ground arith in
            subst (All NoSlash) (sym eq) (own, h)
      ]
    ]

clean_parts-NoSlash :
    (rooted : Bool) (xs parts : List Text)
    → All NoSlash xs
    → All NoSlash parts
    → All NoSlash (clean_parts rooted xs parts)
unfolding clean_parts
clean_parts-NoSlash rooted [] parts hx h = h
clean_parts-NoSlash rooted (x ∷ xs) parts hx h =
    clean_parts-NoSlash rooted xs (clean_part rooted x parts) hx.1
      (clean_part-NoSlash rooted x parts hx.0 h)

reverse_onto-NoSlash :
    (xs ys : List Text) → All NoSlash xs → All NoSlash ys → All NoSlash (reverse_onto xs ys)
unfolding reverse_onto
reverse_onto-NoSlash [] ys hx h = h
reverse_onto-NoSlash (x ∷ xs) ys hx h = reverse_onto-NoSlash xs (x ∷ ys) hx.1 (hx.0, h)

clean-rooted :
    (s : Text)
    → has_prefix (codes "/") s ≡ true
    → clean s ≡ b'/' ∷ join (reverse_onto (clean_parts true (split s) []) [])
unfolding clean
clean-rooted s h = ground arith

clean-relative :
    (s : Text)
    → has_prefix (codes "/") s ≡ false
    → is_empty (clean_parts false (split s) []) ≡ false
    → clean s ≡ join (reverse_onto (clean_parts false (split s) []) [])
unfolding clean
clean-relative s h₁ h₂ = ground arith

-- The parts that path.Clean leaves of a text.
module _ (rooted : Bool) (s : Text) (x : Text) (xs : List Text) (plain : All Plain (x ∷ xs))
    (ends : EndsIn (x ∷ xs) s) where
  kept : clean_parts rooted (split s) [] ≡ reverse_onto xs (x ∷ clean_parts rooted ends.0 [])
  unfolding reverse_onto
  kept =
      ap (λ l. clean_parts rooted l []) ends.1
      ∙ clean_parts-append rooted ends.0 (x ∷ xs) []
      ∙ clean_parts-Plain rooted (x ∷ xs) (clean_parts rooted ends.0 []) plain

  kept_nonempty : is_empty (clean_parts rooted (split s) []) ≡ false
  kept_nonempty =
      ap is_empty (kept ∙ reverse_onto-front xs (x ∷ clean_parts rooted ends.0 []))
      ∙ is_empty-append (reverse_onto xs []) x (clean_parts rooted ends.0 [])

  kept_in_order :
      reverse_onto (clean_parts rooted (split s) []) []
      ≡ reverse_onto (clean_parts rooted ends.0 []) [] ++ (x ∷ xs)
  unfolding reverse_onto
  kept_in_order =
      let q = clean_parts rooted ends.0 [] in
      ap (λ l. reverse_onto l []) kept
      ∙ reverse_onto-append xs (x ∷ q) []
      ∙ reverse_onto-front q (x ∷ (xs ++ []))
      ∙ ap (λ l. reverse_onto q [] ++ (x ∷ l)) (append-nil xs)

  split-kept :
      split (join (reverse_onto (clean_parts rooted (split s) []) []))
      ≡ reverse_onto (clean_parts rooted ends.0 []) [] ++ (x ∷ xs)
  split-kept =
      let l = reverse_onto (clean_parts rooted (split s) []) [] in
      let clean_ones = clean_parts-NoSlash rooted (split s) [] (split-NoSlash s) tt in
      let some_part =
        ap is_empty kept_in_order
        ∙ is_empty-append (reverse_onto (clean_parts rooted ends.0 []) []) x xs in
      split-join-All l some_part
        (reverse_onto-NoSlash (clean_parts rooted (split s) []) [] clean_ones tt)
      ∙ kept_in_order

pub clean-EndsIn :
    (s : Text) (x : Text) (xs : List Text)
    → All Plain (x ∷ xs)
    → EndsIn (x ∷ xs) s
    → EndsIn (x ∷ xs) (clean s)
unfolding split
clean-EndsIn s x xs plain ends = elim (Bool-cases (has_prefix (codes "/") s)) [
  | inl h ↦ (
    [] ∷ reverse_onto (clean_parts true ends.0 []) [],
    ap split (clean-rooted s h) ∙ ap (λ l. [] ∷ l) (split-kept true s x xs plain ends),
  )
  | inr h ↦ (
    reverse_onto (clean_parts false ends.0 []) [],
    ap split (clean-relative s h (kept_nonempty false s x xs plain ends))
        ∙ split-kept false s x xs plain ends,
  )
]

clean-EndsIn_any :
    (s : Text) (parts : List Text)
    → is_empty parts ≡ false
    → All Plain parts
    → EndsIn parts s
    → EndsIn parts (clean s)
clean-EndsIn_any s [] h plain ends = ground arith
clean-EndsIn_any s (x ∷ xs) h plain ends = clean-EndsIn s x xs plain ends

pub path_join-cons :
    (elem : Text) (elems : List Text)
    → is_empty elem ≡ false
    → path_join (elem ∷ elems) ≡ clean (join (elem ∷ elems))
unfolding path_join
path_join-cons elem elems h = ground arith

Plain-NoSlash : (parts : List Text) → All Plain parts → All NoSlash parts
Plain-NoSlash [] h = tt
Plain-NoSlash (part ∷ parts) h = (h.0.0, Plain-NoSlash parts h.1)

-- A path that is joined from a first element and plain names ends in what the element ends in, when
-- these are plain names, and in the names.
pub path_join-EndsIn :
    (elem : Text) (tail : List Text) (x : Text) (xs : List Text)
    → is_empty elem ≡ false
    → EndsIn tail elem
    → All Plain tail
    → All Plain (x ∷ xs)
    → EndsIn (tail ++ (x ∷ xs)) (path_join (elem ∷ (x ∷ xs)))
unfolding join
path_join-EndsIn elem tail x xs some_elem ends plain plain_names =
    let s = elem ++ (b'/' ∷ join (x ∷ xs)) in
    let parts : split s ≡ ends.0 ++ (tail ++ (x ∷ xs)) =
      split-slash elem (join (x ∷ xs))
      ∙ ap (λ l. split elem ++ l) (split-join x xs (Plain-NoSlash (x ∷ xs) plain_names))
      ∙ ap (λ l. l ++ (x ∷ xs)) ends.1
      ∙ append_assoc ends.0 tail (x ∷ xs) in
    let all = All-append Plain tail (x ∷ xs) plain plain_names in
    let cleaned =
      clean-EndsIn_any s (tail ++ (x ∷ xs)) (is_empty-append tail x xs) all (ends.0, parts) in
    (cleaned.0, ap split (path_join-cons elem (x ∷ xs) some_elem) ∙ cleaned.1)
