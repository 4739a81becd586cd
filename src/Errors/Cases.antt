-- ===== src/Errors/Cases.antt =====
-- Splitting on a result.
use log_forge.Prelude.{◌≡◌, ◌≢◌, ◌⊎◌, inl, inr, refl, arith}
use log_forge.Errors.{Err, Result, done, failed}

pub Result-cases :
    {A : Type 0} (r : Result A) → ((a : A) × (r ≡ done a)) ⊎ ((e : Err) × (r ≡ failed e))
Result-cases (done a) = inl (a, refl)
Result-cases (failed e) = inr (e, refl)

pub done_injective : {A : Type 0} (x y : A) → done x ≡ done y → x ≡ y
done_injective x y h = ground arith

pub done_not_failed : {A : Type 0} (x : A) (e : Err) → failed e ≢ done x
done_not_failed x e h = ground arith
