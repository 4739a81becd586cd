-- ===== src/Prelude/Weights.antt =====
-- A multiset, seen through a weight: two lists hold the same elements as often exactly if every weight
-- of elements sums up to the same over both.
use Prim.Native.Nat.{ℕ, ◌+◌}
use mathlib.Core.Path.{◌≡◌}
use mathlib.Core.List.{List, [], ◌∷◌, ◌++◌, map}
use native.Mathlib.Omega.{arith}

pub weigh {ℓ} : {A : Type ℓ} → (A → ℕ) → List A → ℕ
weigh f [] = 0
weigh f (b ∷ bs) = f b + weigh f bs

pub weigh-append {ℓ} :
    {A : Type ℓ} (f : A → ℕ) (xs ys : List A) → weigh f (xs ++ ys) ≡ weigh f xs + weigh f ys
unfolding weigh
weigh-append f [] ys = omega arith
weigh-append f (x ∷ xs) ys = omega (arith, weigh-append f xs ys)

pub weigh-cons {ℓ} :
    {A : Type ℓ} (f : A → ℕ) (x : A) (xs : List A) → weigh f (x ∷ xs) ≡ f x + weigh f xs
unfolding weigh
weigh-cons f x xs = omega arith

pub weigh-nil {ℓ} : {A : Type ℓ} (f : A → ℕ) → weigh f [] ≡ 0
unfolding weigh
weigh-nil f = omega arith

-- Taking one element out of the middle.
pub weigh-middle {ℓ} :
    {A : Type ℓ} (f : A → ℕ) (xs : List A) (x : A) (ys : List A)
    → weigh f (xs ++ x ∷ ys) ≡ f x + weigh f (xs ++ ys)
weigh-middle f xs x ys =
    omega (arith, weigh-append f xs (x ∷ ys), weigh-append f xs ys, weigh-cons f x ys)

pub weigh-map {ℓ κ} :
    {A : Type ℓ} {B : Type κ} (f : B → ℕ) (g : A → B) (xs : List A)
    → weigh f (map g xs) ≡ weigh (λ x. f (g x)) xs
unfolding weigh
weigh-map f g [] = omega arith
weigh-map f g (x ∷ xs) = omega (arith, weigh-map f g xs)
