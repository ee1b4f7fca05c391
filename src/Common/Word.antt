-- ===== src/Common/Word.antt =====
-- `size_t` and `int` of the platform the program is built for (64-bit Linux): a word is the number
-- it stands for, and every operation wraps as the machine's does.
use a_tiny_network_library.Common.{ℕ, ◌+◌, ◌-◌, ◌%◌, ◌^◌, ◌≤◌, ◌<◌, ◌≡◌, arith, ltb, if◌then◌else◌}

abbrev pub size_mod : ℕ
size_mod = 2 ^ 64

-- `a + b` and `a - b` on `size_t`.
unfoldable pub add_size : ℕ → ℕ → ℕ
add_size a b = (a + b) % size_mod

unfoldable pub sub_size : ℕ → ℕ → ℕ
sub_size a b = (a + size_mod - b) % size_mod

-- A `size_t` that is passed as an `int` and used as a `size_t` again: the low 32 bits, sign
-- extended.
unfoldable pub through_int : ℕ → ℕ
through_int n = let low = n % 2 ^ 32 in if ltb low (2 ^ 31) then low else low + (size_mod - 2 ^ 32)

pub add_size-eq_of_lt : (a b : ℕ) → a + b < size_mod → add_size a b ≡ a + b
unfolding add_size
add_size-eq_of_lt a b h = omega arith

pub sub_size-eq_of_le : (a b : ℕ) → b ≤ a → a < size_mod → sub_size a b ≡ a - b
unfolding sub_size
sub_size-eq_of_le a b h k = omega arith

pub through_int-eq_of_lt : (n : ℕ) → n < 2 ^ 31 → through_int n ≡ n
unfolding through_int
through_int-eq_of_lt n h = ground arith
