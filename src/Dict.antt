-- ===== src/Dict.antt =====
-- Dictionaries as association lists: Go's maps, and the files of a file system by their names.
pub mod Laws
use log_forge.Prelude.{
  ℕ, ◌+◌, Bool, true, false, ◌&&◌, Option, some, none, List, [], ◌∷◌, if◌then◌else◌,
}
use log_forge.Text.{Text, text_eq}

module _ {K V : Type 0} (same : K → K → Bool) where
  unfoldable pub lookup : K → List (K × V) → Option V
  lookup k [] = none
  lookup k ((j, v) ∷ m) = if same j k then some v else lookup k m

  unfoldable pub insert : K → V → List (K × V) → List (K × V)
  insert k v [] = (k, v) ∷ []
  insert k v ((j, w) ∷ m) = if same j k then (k, v) ∷ m else (j, w) ∷ insert k v m

module _ {K : Type 0} (same : K → K → Bool) where
  -- How often a key stands in a list.
  unfoldable pub occurrences : K → List K → ℕ
  occurrences k [] = 0
  occurrences k (j ∷ keys) = (if same j k then 1 else 0) + occurrences k keys

-- The names from a base directory down to a file.
abbrev pub Names : Type 0
Names = List Text

unfoldable pub names_eq : Names → Names → Bool
names_eq [] [] = true
names_eq [] (t ∷ ts) = false
names_eq (s ∷ ss) [] = false
names_eq (s ∷ ss) (t ∷ ts) = text_eq s t && names_eq ss ts
