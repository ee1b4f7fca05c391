-- ===== src/Common/Decimal.antt =====
-- `%d` of `snprintf` for a number that is not negative.
use a_tiny_network_library.Common.{
  ◌^◌, ◌<◌, ◌≤◌, length, arith, if-holds, length-append, ℕ, zero, suc, ◌+◌, ◌/◌, ◌%◌, List, [], ◌∷◌,
  ◌++◌, ◌==◌, if◌then◌else◌,
}

-- The digits of `n`, the last digit last; an `int` and a `size_t` have at most 20.
unfoldable pub digits_of : ℕ → ℕ → List ℕ
digits_of zero n = []
digits_of (suc fuel) n =
    let rest = digits_of fuel (n / 10) in
    if n / 10 == 0 then (b'0' + n) ∷ [] else rest ++ ((b'0' + n % 10) ∷ [])

unfoldable pub decimal : ℕ → List ℕ
decimal n = digits_of 20 n

-- How many digits a number has.
pub length-digits_of_le : (fuel n : ℕ) → length (digits_of fuel n) ≤ fuel
unfolding digits_of
length-digits_of_le zero n = omega arith
length-digits_of_le (suc fuel) n =
    if-holds (λ (xs : List ℕ). length xs ≤ suc fuel) (n / 10 == 0) (λ last. omega arith)
      (λ more. omega (
        arith,
        length-append (digits_of fuel (n / 10)) ((b'0' + n % 10) ∷ []),
        length-digits_of_le fuel (n / 10),
      ))

pub length-digits_of : (fuel k n : ℕ) → n < 10 ^ suc k → length (digits_of fuel n) ≤ suc k
unfolding digits_of
length-digits_of zero k n h = omega arith
length-digits_of (suc fuel) zero n h =
    if-holds (λ (xs : List ℕ). length xs ≤ 1) (n / 10 == 0) (λ last. omega arith)
      (λ more. absurd (ground arith))
length-digits_of (suc fuel) (suc k) n h =
    if-holds (λ (xs : List ℕ). length xs ≤ suc (suc k)) (n / 10 == 0) (λ last. omega arith)
      (λ more. omega (
        arith,
        length-append (digits_of fuel (n / 10)) ((b'0' + n % 10) ∷ []),
        length-digits_of fuel k (n / 10) (omega arith),
      ))
