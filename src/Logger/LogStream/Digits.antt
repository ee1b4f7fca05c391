-- ===== src/Logger/LogStream/Digits.antt =====
-- src/logger/LogStream.cc: the text of an integer reads back as the integer.
use a_tiny_network_library.Common.{
  ℕ, zero, suc, ◌+◌, ◌-◌, ◌*◌, ◌/◌, ◌%◌, ◌^◌, ◌≤◌, ◌<◌, ◌≡◌, refl, ap, sym, subst, ◌∙◌, true, List,
  [], ◌∷◌, ◌++◌, reverse, if◌then◌else◌, ◌==◌, length, take, drop, get_or, arith, if-holds,
  both_ways, append-nil, length-append, ==→eq, le→leb, length-take, length-drop, take-append,
  take-append_le,
}
use mathlib.Core.List.{reverse-cons, reverse-append}
use a_tiny_network_library.Logger.FixedBuffer.{FixedBuffer, avail, text_of, IsValid}
use a_tiny_network_library.Logger.LogStream.{
  ℤ, pos, negsuc, digits, digit_place, neg, quotient, is_zero, is_negative, digit_loop, formatted,
  max_numeric_size, put_integer, format_integer,
}

-- The value of decimal digits, and of an integer with its sign.
abbrev pub value : ℕ → List ℕ → ℕ
value n [] = n
value n (c ∷ cs) = value (n * 10 + (c - b'0')) cs

abbrev pub read_integer : List ℕ → ℤ
read_integer [] = pos 0
read_integer (c ∷ cs) = if c == b'-' then neg (value 0 cs) else pos (value 0 (c ∷ cs))

abbrev pub magnitude : ℤ → ℕ
magnitude (pos n) = n
magnitude (negsuc n) = suc n

pub value-append :
    (n : ℕ) (xs : List ℕ) (c : ℕ) → value n (xs ++ (c ∷ [])) ≡ value n xs * 10 + (c - b'0')
value-append n [] c = refl
value-append n (x ∷ xs) c = value-append (n * 10 + (x - b'0')) xs c

value-reverse :
    (c : ℕ) (cs : List ℕ) → value 0 (reverse (c ∷ cs)) ≡ value 0 (reverse cs) * 10 + (c - b'0')
value-reverse c cs = ap (value 0) (reverse-cons c cs) ∙ value-append 0 (reverse cs) c

-- The table is symmetric: it gives the digit of the remainder on either side.
digit_right : (r : ℕ) → r < 10 → get_or digits (9 + r) 0 ≡ b'0' + r
digit_right zero h = refl
digit_right (suc zero) h = refl
digit_right (suc (suc zero)) h = refl
digit_right (suc (suc (suc zero))) h = refl
digit_right (suc (suc (suc (suc zero)))) h = refl
digit_right (suc (suc (suc (suc (suc zero))))) h = refl
digit_right (suc (suc (suc (suc (suc (suc zero)))))) h = refl
digit_right (suc (suc (suc (suc (suc (suc (suc zero))))))) h = refl
digit_right (suc (suc (suc (suc (suc (suc (suc (suc zero)))))))) h = refl
digit_right (suc (suc (suc (suc (suc (suc (suc (suc (suc zero))))))))) h = refl
digit_right (suc (suc (suc (suc (suc (suc (suc (suc (suc (suc r)))))))))) h = absurd (omega arith)

digit_left : (r : ℕ) → r < 10 → get_or digits (9 - r) 0 ≡ b'0' + r
digit_left zero h = refl
digit_left (suc zero) h = refl
digit_left (suc (suc zero)) h = refl
digit_left (suc (suc (suc zero))) h = refl
digit_left (suc (suc (suc (suc zero)))) h = refl
digit_left (suc (suc (suc (suc (suc zero))))) h = refl
digit_left (suc (suc (suc (suc (suc (suc zero)))))) h = refl
digit_left (suc (suc (suc (suc (suc (suc (suc zero))))))) h = refl
digit_left (suc (suc (suc (suc (suc (suc (suc (suc zero)))))))) h = refl
digit_left (suc (suc (suc (suc (suc (suc (suc (suc (suc zero))))))))) h = refl
digit_left (suc (suc (suc (suc (suc (suc (suc (suc (suc (suc r)))))))))) h = absurd (omega arith)

digit-eq : (num : ℤ) → get_or digits (digit_place num) 0 ≡ b'0' + magnitude num % 10
unfolding digit_place
digit-eq (pos n) = digit_right (n % 10) (omega arith)
digit-eq (negsuc n) = digit_left (suc n % 10) (omega arith)

magnitude-neg : (n : ℕ) → magnitude (neg n) ≡ n
magnitude-neg zero = refl
magnitude-neg (suc n) = refl

magnitude-quotient : (num : ℤ) → magnitude (quotient num) ≡ magnitude num / 10
unfolding quotient
magnitude-quotient (pos n) = refl
magnitude-quotient (negsuc n) = magnitude-neg (suc n / 10)

magnitude_zero : (num : ℤ) → is_zero num ≡ true → magnitude num ≡ 0
magnitude_zero (pos n) h = ==→eq n 0 h
magnitude_zero (negsuc n) h = both_ways h refl

-- Enough turns for the digits give the value.
digit_loop-value :
    (fuel : ℕ) (num : ℤ)
    → magnitude num < 10 ^ fuel
    → value 0 (reverse (digit_loop fuel num)) ≡ magnitude num
unfolding digit_loop
digit_loop-value zero num h = omega arith
digit_loop-value (suc fuel) num h =
    let q : magnitude (quotient num) ≡ magnitude num / 10 = magnitude-quotient num in
    let rest : value 0
          (reverse (if is_zero (quotient num) then [] else digit_loop fuel (quotient num)))
        ≡ magnitude (quotient num) =
      if-holds (λ (xs : List ℕ). value 0 (reverse xs) ≡ magnitude (quotient num))
        (is_zero (quotient num)) (λ z. sym (magnitude_zero (quotient num) z))
        (λ more. digit_loop-value fuel (quotient num) (omega (arith, q))) in
    value-reverse (get_or digits (digit_place num) 0)
      (if is_zero (quotient num) then [] else digit_loop fuel (quotient num))
    ∙ omega (arith, rest, q, digit-eq num)

abbrev AllDigits : List ℕ → Type 0
AllDigits [] = Unit {0}
AllDigits (c ∷ cs) = (b'0' ≤ c) × AllDigits cs

AllDigits-append : (xs : List ℕ) (c : ℕ) → AllDigits xs → b'0' ≤ c → AllDigits (xs ++ (c ∷ []))
AllDigits-append [] c a h = (h, tt)
AllDigits-append (x ∷ xs) c (k, a) h = (k, AllDigits-append xs c a h)

AllDigits-reverse : (xs : List ℕ) → AllDigits xs → AllDigits (reverse xs)
AllDigits-reverse [] a = tt
AllDigits-reverse (x ∷ xs) (h, a) =
    subst AllDigits (sym (reverse-cons x xs))
      (AllDigits-append (reverse xs) x (AllDigits-reverse xs a) h)

digit_loop-AllDigits : (fuel : ℕ) (num : ℤ) → AllDigits (digit_loop fuel num)
unfolding digit_loop
digit_loop-AllDigits zero num = tt
digit_loop-AllDigits (suc fuel) num = (
  omega (arith, digit-eq num),
  if-holds AllDigits (is_zero (quotient num)) (λ z. tt)
      (λ more. digit_loop-AllDigits fuel (quotient num)),
)

read_digits : (xs : List ℕ) → AllDigits xs → read_integer xs ≡ pos (value 0 xs)
read_digits [] a = refl
read_digits (c ∷ cs) (h, a) =
    if-holds (λ n. n ≡ pos (value 0 (c ∷ cs))) (c == b'-')
      (λ minus. absurd (omega (arith, h, ==→eq c b'-' minus))) (λ digit. refl)

-- The text of an integer of up to 64 bits, signed or not, reads back as the integer.
pub read_integer-formatted :
    (num : ℤ) → magnitude num < 10 ^ 20 → read_integer (formatted num) ≡ num
unfolding formatted
read_integer-formatted (pos n) h =
    ap (λ (xs : List ℕ). read_integer (reverse xs)) (append-nil (digit_loop 20 (pos n)))
    ∙ read_digits _ (AllDigits-reverse _ (digit_loop-AllDigits 20 (pos n)))
    ∙ ap pos (digit_loop-value 20 (pos n) h)
read_integer-formatted (negsuc n) h =
    ap read_integer (reverse-append (digit_loop 20 (negsuc n)) (b'-' ∷ []))
    ∙ ap neg (digit_loop-value 20 (negsuc n) h)

pub length-reverse : (xs : List ℕ) → length (reverse xs) ≡ length xs
length-reverse [] = refl
length-reverse (x ∷ xs) =
    ap length (reverse-cons x xs)
    ∙ omega (arith, length-append (reverse xs) (x ∷ []), length-reverse xs)

length-digit_loop : (fuel : ℕ) (num : ℤ) → length (digit_loop fuel num) ≤ fuel
unfolding digit_loop
length-digit_loop zero num = omega arith
length-digit_loop (suc fuel) num =
    if-holds (λ (xs : List ℕ). suc (length xs) ≤ suc fuel) (is_zero (quotient num))
      (λ z. omega arith) (λ more. omega (arith, length-digit_loop fuel (quotient num)))

pub length-formatted : (num : ℤ) → length (formatted num) ≤ 21
unfolding formatted
length-formatted num =
    let sign : List ℕ = if is_negative num then b'-' ∷ [] else [] in
    let one : length sign ≤ 1 =
      if-holds (λ (xs : List ℕ). length xs ≤ 1) (is_negative num) (λ m. omega arith)
        (λ p. omega arith) in
    omega (
      arith,
      one,
      length-reverse (digit_loop 20 num ++ sign),
      length-append (digit_loop 20 num) sign,
      length-digit_loop 20 num,
    )

pub put_integer-text :
    (text : List ℕ) (b : FixedBuffer)
    → b.cur + length text < length b.bytes
    → (text_of (put_integer text b) ≡ text_of b ++ text)
      × IsValid (put_integer text b)
      × (length (put_integer text b).bytes ≡ length b.bytes)
unfolding put_integer
put_integer-text text b h =
    let front : length (take b.cur b.bytes ++ text) ≡ b.cur + length text =
      omega (arith, h, length-append (take b.cur b.bytes) text, length-take b.cur b.bytes) in
    let whole : length
          (take b.cur b.bytes ++ text ++ (0 ∷ []) ++ drop (b.cur + length text + 1) b.bytes)
        ≡ length b.bytes =
      omega (
        arith,
        h,
        front,
        length-append (take b.cur b.bytes ++ text) (0 ∷ []),
        length-append (take b.cur b.bytes ++ text ++ (0 ∷ []))
            (drop (b.cur + length text + 1) b.bytes),
        length-drop (b.cur + length text + 1) b.bytes,
      ) in
    (
      take-append_le (take b.cur b.bytes ++ text ++ (0 ∷ []))
            (drop (b.cur + length text + 1) b.bytes) (b.cur + length text)
            (omega (arith, front, length-append (take b.cur b.bytes ++ text) (0 ∷ [])))
          ∙ take-append (take b.cur b.bytes ++ text) (0 ∷ []) (b.cur + length text) (sym front),
      omega (arith, h, whole),
      whole,
    )

-- With 48 bytes of room, `formatInteger` puts behind the text one that reads back as the integer, for
-- every integer of up to 64 bits, signed or not, and stays within the array.
pub format_integer-reads :
    (num : ℤ) (b : FixedBuffer)
    → IsValid b
    → max_numeric_size ≤ avail b
    → magnitude num < 10 ^ 20
    → (text : List ℕ) × (text_of (format_integer num b) ≡ text_of b ++ text)
      × (read_integer text ≡ num)
      × IsValid (format_integer num b)
      × (length (format_integer num b).bytes ≡ length b.bytes)
unfolding format_integer
format_integer-reads num b v room small =
    let fits : b.cur + length (formatted num) < length b.bytes =
      unfold avail in omega (arith, room, length-formatted num) in
    let (e, w, k) = put_integer-text (formatted num) b fits in
    rw (le→leb max_numeric_size (avail b) room)
      (formatted num, e, read_integer-formatted num small, w, k)
