-- ===== src/Retry/Bounds.antt =====
-- Bounds of the delays of util/retry.go, over the whole range of an int64.
use log_forge.Prelude.{
  zero, suc, ◌^◌, inl, inr, refl, ap, ℕ, ◌+◌, ◌*◌, ◌/◌, ◌≤◌, ◌<◌, ◌≡◌, ◌⊎◌, some, arith, ltb,
  if◌then◌else◌, ◌-◌,
}
use log_forge.Prelude.Int.{ℤ, pos, negsuc, ◌<ℤ◌, two_63, two_64, wrap_64, is_nonpos, pos_part, ◌+ℤ◌}
use log_forge.Retry.{next_retry_delay, jitter_retry_delay, millisecond}
use Prim.Native.Nat.{min, max}
use native.Mathlib.Nat.{pow-suc}

-- The upper limit that the code uses.
abbrev pub effective_max : ℕ → ℤ → ℤ → ℕ
effective_max unit lo hi = max (pos_part hi) (if is_nonpos lo then unit else pos_part lo)

Nat-cases : (n : ℕ) → (n ≡ 0) ⊎ ((k : ℕ) × (n ≡ suc k))
Nat-cases zero = inl refl
Nat-cases (suc k) = inr (k, refl)

double_wraps :
    (c : ℕ)
    → c < two_63
    → wrap_64 (pos c +ℤ pos c)
      ≡ (if ltb (c + c) two_63 then pos (c + c) else negsuc (two_64 - 1 - (c + c)))
double_wraps c h = ground arith

-- For a positive current delay and limits that are int64 values, the next delay is the double of
-- the current one or the upper limit, whichever is less; a doubling that overflows gives the
-- limit. The upper limit is raised to the lower one, and a lower one of 0 or less is a millisecond.
pub next_retry_delay-eq-min :
    (c : ℕ) (lo hi : ℤ)
    → 0 < c
    → c < two_63
    → lo <ℤ pos two_63
    → hi <ℤ pos two_63
    → next_retry_delay (pos c) lo hi ≡ pos (min (c + c) (effective_max millisecond lo hi))
unfolding next_retry_delay
next_retry_delay-eq-min c lo hi a b d e = rw (double_wraps c b) (ground arith)

wrap_small : (n : ℕ) → n < two_63 → wrap_64 (pos n) ≡ pos n
wrap_small n h = ground arith

-- For a delay of 0 or more whose sixth fifth fits an int64, and a generator that answers below its
-- bound, the jittered delay is an integer of 0 or more within one fifth of the delay.
pub jitter_retry_delay_bounds :
    (base : ℕ) (rng : ℕ → ℕ)
    → base + base / 5 < two_63
    → ((n : ℕ) → 0 < n → rng n < n)
    → (d : ℕ) × (jitter_retry_delay (pos base) (some rng) ≡ pos d)
      × (base ≤ d + base / 5)
      × (d ≤ base + base / 5)
unfolding jitter_retry_delay
jitter_retry_delay_bounds zero rng fits below = (0, refl, omega arith, omega arith)
jitter_retry_delay_bounds (suc b) rng fits below = elim (Nat-cases (suc b / 5)) [
  | inl small ↦ (suc b, rw small, omega arith, omega arith)
  | inr (k, big) ↦
      let r : ℕ = rng (suc k * 2 + 1) in
      let h : r < suc k * 2 + 1 = below (suc k * 2 + 1) (omega arith) in
      (suc b + r - suc k, rw big (ground arith), omega arith, omega arith)
]

-- The delay that a loop waits after `k` more failures.
unfoldable pub iterate_delay : ℕ → ℤ → ℤ → ℤ → ℤ
iterate_delay zero d lo hi = d
iterate_delay (suc k) d lo hi = next_retry_delay (iterate_delay k d lo hi) lo hi

double_pow : (lo k : ℕ) → lo * 2 ^ suc k ≡ lo * 2 ^ k + lo * 2 ^ k
double_pow lo k = rw pow-suc (omega arith)

scaled_pos : (lo k : ℕ) → 0 < lo → 0 < lo * 2 ^ k
scaled_pos lo zero h = omega arith
scaled_pos lo (suc k) h = rw double_pow (omega (arith, scaled_pos lo k h))

-- Starting from the lower limit, `k` failures in a row give the lower limit times 2^k, or the upper
-- limit if that is less, for limits that are positive int64 values in order.
pub iterate_delay-eq-min :
    (k lo hi : ℕ)
    → 0 < lo
    → lo ≤ hi
    → hi < two_63
    → iterate_delay k (pos lo) (pos lo) (pos hi) ≡ pos (min (lo * 2 ^ k) hi)
unfolding iterate_delay
iterate_delay-eq-min zero lo hi a b c = ground arith
iterate_delay-eq-min (suc k) lo hi a b c = rw (iterate_delay-eq-min k lo hi a b c) (
    rw
      (next_retry_delay-eq-min (min (lo * 2 ^ k) hi) (pos lo) (pos hi)
        (omega (arith, scaled_pos lo k a)) (omega arith) (omega arith) (omega arith))
      (ap pos (rw double_pow (ground arith))))
