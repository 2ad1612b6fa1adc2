-- ===== src/Floats.antt =====
-- IEEE 754 double precision numbers as bit patterns: the conversions and comparisons of Go's
-- float64 that the program uses.
use company_data_go.Prelude.{
  ℕ, zero, suc, ◌+◌, ◌-◌, ◌*◌, ◌/◌, ◌%◌, ◌^◌, Bool, true, false, not, ◌&&◌, ◌||◌, ℤ, pos, negsuc,
  max_int64, ltb, leb, ◌==◌, if◌then◌else◌,
}

abbrev pub sign_bit : ℕ
sign_bit = 9223372036854775808

abbrev pub is_negative : ℕ → Bool
is_negative bits = leb sign_bit bits

-- The bits below the sign.
abbrev pub magnitude : ℕ → ℕ
magnitude bits = bits % sign_bit

abbrev pub infinity : ℕ
infinity = 0x7ff0000000000000

abbrev pub is_nan : ℕ → Bool
is_nan bits = ltb infinity (magnitude bits)

-- The whole part of the absolute value of a finite number.
unfoldable pub whole_part : ℕ → ℕ
whole_part bits =
    let e = magnitude bits / 2 ^ 52 in
    let m = 2 ^ 52 + bits % 2 ^ 52 in
    if e == 0 then 0 else if leb 1075 e then m * 2 ^ (e - 1075) else m / 2 ^ (1075 - e)

abbrev pub signed : Bool → ℕ → ℤ
signed negative zero = pos 0
signed false (suc n) = if ltb max_int64 (suc n) then negsuc max_int64 else pos (suc n)
signed true (suc n) = if ltb max_int64 n then negsuc max_int64 else negsuc n

-- `int(a)`; out of range and for a NaN it is the smallest integer, as on amd64.
unfoldable pub float_to_int : ℕ → ℤ
unfolding whole_part
float_to_int bits =
    if leb infinity (magnitude bits)
    then negsuc max_int64
    else signed (is_negative bits) (whole_part bits)

-- `a == b`: no NaN equals anything, and the two zeros are equal.
unfoldable pub float_eq : ℕ → ℕ → Bool
float_eq a b =
    not (is_nan a) && not (is_nan b) && ((a == b) || (magnitude a == 0 && magnitude b == 0))

-- `a < b`.
unfoldable pub float_lt : ℕ → ℕ → Bool
float_lt a b =
    not (is_nan a)
    && not (is_nan b)
    && (if is_negative a
        then (if is_negative b
            then ltb (magnitude b) (magnitude a)
            else ltb 0 (magnitude a + magnitude b))
        else (not (is_negative b) && ltb (magnitude a) (magnitude b)))

-- `a <= b`.
unfoldable pub float_le : ℕ → ℕ → Bool
unfolding float_eq float_lt
float_le a b = float_lt a b || float_eq a b
