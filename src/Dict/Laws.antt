-- ===== src/Dict/Laws.antt =====
-- Laws of dictionaries, for a test that decides equality of keys.
use log_forge.Prelude.{◌≡◌, ◌↔◌, refl, Bool, true, some, List, [], ◌∷◌, arith, if◌then◌else◌}
use log_forge.Text.Trim.{text_eq_iff}
use log_forge.Dict.{lookup, insert, Names, names_eq}

pub names_eq_iff : (ss ts : Names) → (names_eq ss ts ≡ true) ↔ (ss ≡ ts)
unfolding names_eq
names_eq_iff [] [] = ground arith
names_eq_iff [] (t ∷ ts) = ground arith
names_eq_iff (s ∷ ss) [] = ground arith
names_eq_iff (s ∷ ss) (t ∷ ts) = ground (arith, names_eq_iff ss ts, text_eq_iff s t)

module _ {K V : Type 0} (same : K → K → Bool)
    (same_iff : (j k : K) → (same j k ≡ true) ↔ (j ≡ k)) where
  pub lookup-insert :
      (k j : K) (v : V) (m : List (K × V))
      → lookup same j (insert same k v m) ≡ (if same k j then some v else lookup same j m)
  unfolding lookup insert
  lookup-insert k j v [] = refl
  lookup-insert k j v ((i, w) ∷ m) =
      ground (arith, same_iff k j, same_iff i k, same_iff i j, lookup-insert k j v m)
