-- ===== src/Logger/LogStream.antt =====
-- src/logger/LogStream.h and src/logger/LogStream.cc: the text of integers and strings.
pub mod Digits
use a_tiny_network_library.Common.{
  ℕ, zero, suc, ◌+◌, ◌-◌, ◌*◌, ◌/◌, ◌%◌, ◌≡◌, Bool, true, false, List, [], ◌∷◌, ◌++◌, reverse,
  Option, none, some, if◌then◌else◌, ltb, leb, ◌==◌, length, take, drop, get_or,
}
use a_tiny_network_library.Common.Text.{codes}
use a_tiny_network_library.Logger.FixedBuffer.{FixedBuffer, avail, append, reset, to_string}

-- An integer of any of the types: `pos n` is n and `negsuc n` is - n - 1.
pub data ℤ : Type 0 where
  pos negsuc : ℕ → ℤ

-- The table `digits`; `zero` points at its place 9.
abbrev pub digits : List ℕ
digits = codes "9876543210123456789"

-- The place of `zero[num % 10]`: the remainder has the sign of the number.
unfoldable pub digit_place : ℤ → ℕ
digit_place (pos n) = 9 + n % 10
digit_place (negsuc n) = 9 - suc n % 10

abbrev pub neg : ℕ → ℤ
neg zero = pos 0
neg (suc n) = negsuc n

-- `num / 10`, which rounds towards 0.
unfoldable pub quotient : ℤ → ℤ
quotient (pos n) = pos (n / 10)
quotient (negsuc n) = neg (suc n / 10)

abbrev pub is_zero : ℤ → Bool
is_zero (pos n) = n == 0
is_zero (negsuc n) = false

abbrev pub is_negative : ℤ → Bool
is_negative (pos n) = false
is_negative (negsuc n) = true

-- The loop of `formatInteger`, last digit first; 20 turns are enough for 64 bits.
unfoldable pub digit_loop : ℕ → ℤ → List ℕ
digit_loop zero num = []
digit_loop (suc fuel) num =
    let rest = digit_loop fuel (quotient num) in
    get_or digits (digit_place num) 0 ∷ (if is_zero (quotient num) then [] else rest)

unfoldable pub formatted : ℤ → List ℕ
formatted num = reverse (digit_loop 20 num ++ (if is_negative num then b'-' ∷ [] else []))

abbrev pub max_numeric_size : ℕ
max_numeric_size = 48

-- The characters and the NUL behind them go to `current()`, which then moves over the characters.
unfoldable pub put_integer : List ℕ → FixedBuffer → FixedBuffer
put_integer text b = record {
  bytes = take b.cur b.bytes ++ text ++ (0 ∷ []) ++ drop (b.cur + length text + 1) b.bytes;
  cur = b.cur + length text;
}

unfoldable pub format_integer : ℤ → FixedBuffer → FixedBuffer
format_integer num b = if leb max_numeric_size (avail b) then put_integer (formatted num) b else b

-- `operator<<` of a character and of a string; a null pointer is `none`.
unfoldable pub put_char : ℕ → FixedBuffer → FixedBuffer
put_char c b = append (c ∷ []) b

unfoldable pub put_string : Option (List ℕ) → FixedBuffer → FixedBuffer
put_string none b = append (codes "(null)") b
put_string (some text) b = append text b

-- `operator<<` of a floating-point number, with what `snprintf` makes of it by `%.12g`. Without room
-- the operator ends with no `return`: `none`.
unfoldable pub put_double : (text : List ℕ) → FixedBuffer → Option FixedBuffer
put_double text b =
    if leb max_numeric_size (avail b)
    then some
        (record (put_integer (take (max_numeric_size - 1) text) b) { cur = b.cur + length text })
    else none

-- `operator<<` of another buffer.
unfoldable pub put_buffer : FixedBuffer → FixedBuffer → FixedBuffer
put_buffer other b = append (to_string other) b

unfoldable pub reset_buffer : FixedBuffer → FixedBuffer
reset_buffer b = reset b
