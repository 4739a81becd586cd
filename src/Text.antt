-- ===== src/Text.antt =====
-- The parts of Go's `strings` package that the program calls, over a text as its list of runes:
-- TrimSpace, Trim with a cutset, TrimPrefix, HasSuffix, TrimSuffix, Contains, ToLower.
-- Case mapping is written out for ASCII, which is all that the program's literals hold.
pub mod Trim
pub mod Decimal
use Prim.Native.Char.{code}
use log_forge.Prelude.{
  zero, suc, ◌/◌, ◌%◌, ltb, ℕ, ◌+◌, ◌-◌, String, Bool, true, false, not, ◌&&◌, ◌||◌, List, [], ◌∷◌,
  map, is_empty, leb, ◌==◌, if◌then◌else◌, Option, none, some,
}

abbrev pub Text : Type 0
Text = List ℕ

abbrev pub codes : String → Text
codes String.[] = []
codes (String.◌∷◌ c s) = code c ∷ codes s

-- `a == b` on strings.
unfoldable pub text_eq : Text → Text → Bool
text_eq [] [] = true
text_eq [] (d ∷ t) = false
text_eq (c ∷ s) [] = false
text_eq (c ∷ s) (d ∷ t) = c == d && text_eq s t

-- `unicode.IsSpace`.
unfoldable pub is_space : ℕ → Bool
is_space c =
    (leb 9 c && leb c 13)
    || c == 32
    || c == 0x85
    || c == 0xa0
    || c == 0x1680
    || (leb 0x2000 c && leb c 0x200a)
    || c == 0x2028
    || c == 0x2029
    || c == 0x202f
    || c == 0x205f
    || c == 0x3000

-- `strings.TrimLeftFunc` and `strings.TrimRightFunc`.
unfoldable pub trim_left : (ℕ → Bool) → Text → Text
trim_left p [] = []
trim_left p (c ∷ s) = if p c then trim_left p s else c ∷ s

unfoldable pub trim_right : (ℕ → Bool) → Text → Text
trim_right p [] = []
trim_right p (c ∷ s) = let r = trim_right p s in if is_empty r && p c then [] else c ∷ r

-- `strings.Trim(s, cutset)` for a cutset given as a test.
unfoldable pub trim : (ℕ → Bool) → Text → Text
unfolding trim_left trim_right
trim p s = trim_right p (trim_left p s)

unfoldable pub trim_space : Text → Text
unfolding trim is_space
trim_space s = trim is_space s

-- `strings.TrimSpace(s) == ""`.
unfoldable pub is_blank : Text → Bool
unfolding trim_space
is_blank s = is_empty (trim_space s)

-- What is left of a text after a prefix.
unfoldable pub strip_prefix : Text → Text → Option Text
strip_prefix [] t = some t
strip_prefix (c ∷ s) [] = none
strip_prefix (c ∷ s) (d ∷ t) = let rest = strip_prefix s t in if c == d then rest else none

unfoldable pub has_prefix : Text → Text → Bool
has_prefix [] t = true
has_prefix (c ∷ s) [] = false
has_prefix (c ∷ s) (d ∷ t) = c == d && has_prefix s t

-- `strings.Contains(t, s)`.
unfoldable pub contains : Text → Text → Bool
unfolding has_prefix
contains [] s = is_empty s
contains (c ∷ t) s = has_prefix s (c ∷ t) || contains t s

unfoldable pub lower : ℕ → ℕ
lower c = if leb b'A' c && leb c b'Z' then c + 32 else c

-- `unicode.ToLower`. Beside the ASCII letters, the dotted capital I and the Kelvin sign are the only
-- runes whose lower case is ASCII; the other runes stay as they are here.
unfoldable pub lower_rune : ℕ → ℕ
unfolding lower
lower_rune c = if c == 0x130 then b'i' else if c == 0x212a then b'k' else lower c

-- `strings.ToLower`.
unfoldable pub to_lower : Text → Text
unfolding lower_rune
to_lower s = map lower_rune s

-- `strings.EqualFold`, on ASCII.
unfoldable pub equal_fold : Text → Text → Bool
unfolding text_eq lower
equal_fold s t = text_eq (map lower s) (map lower t)

digits_from : ℕ → ℕ → Text → Text
digits_from zero n rest = rest
digits_from (suc fuel) n rest =
    let more = digits_from fuel (n / 10) ((48 + n % 10) ∷ rest) in
    if ltb n 10 then (48 + n) ∷ rest else more

-- `strconv.Itoa` and `%d` on a number that is not negative; a number has fewer digits than itself
-- plus one.
unfoldable pub decimal : ℕ → Text
unfolding digits_from
decimal n = digits_from (n + 1) n []

-- `strings.HasSuffix(s, suffix)`.
unfoldable pub has_suffix : Text → Text → Bool
unfolding text_eq
has_suffix [] suffix = is_empty suffix
has_suffix (c ∷ s) suffix = text_eq (c ∷ s) suffix || has_suffix s suffix
