-- ===== src/Js/Number.antt =====
-- Numbers as the status codes use them: NaN and the integers. `parseInt(s, 10)` as ECMAScript
-- defines it; an integer of more than 53 bits is kept exact here, where a double rounds it.
use grpc_web.Prelude.{ℕ, zero, suc, ◌+◌, ◌*◌, ◌-◌, ◌≡◌, refl, Bool, true, false, ◌&&◌, ◌||◌}
use grpc_web.Prelude.{[], ◌∷◌, leb, ◌==◌, if◌then◌else◌, Text, text}

-- `neg n` is -(n + 1).
pub data Number : Type 0 where
  nan : Number
  int : ℕ → Number
  neg : ℕ → Number

abbrev pub is_truthy : Number → Bool
is_truthy nan = false
is_truthy (int zero) = false
is_truthy (int (suc n)) = true
is_truthy (neg n) = true

-- `x >= 0`.
abbrev pub is_at_least_zero : Number → Bool
is_at_least_zero (int n) = true
is_at_least_zero _ = false

-- `x === n` for a natural number `n`.
abbrev pub is_number : Number → ℕ → Bool
is_number (int m) n = m == n
is_number _ n = false

is_digit : ℕ → Bool
is_digit c = leb b'0' c && leb c b'9'

-- WhiteSpace and LineTerminator.
is_space : ℕ → Bool
is_space c =
    leb 0x9 c && leb c 0xd
    || c == 0x20
    || c == 0xa0
    || c == 0x1680
    || leb 0x2000 c && leb c 0x200a
    || c == 0x2028
    || c == 0x2029
    || c == 0x202f
    || c == 0x205f
    || c == 0x3000
    || c == 0xfeff

skip_spaces : Text → Text
skip_spaces [] = []
skip_spaces (c ∷ s) = let rest = skip_spaces s in if is_space c then rest else c ∷ s

-- The value of the digits at the front, behind those that make up `value`.
digits_value : ℕ → Text → ℕ
digits_value value [] = value
digits_value value (c ∷ s) =
    let rest = digits_value (value * 10 + (c - b'0')) s in if is_digit c then rest else value

starts_with_digit : Text → Bool
starts_with_digit [] = false
starts_with_digit (c ∷ s) = is_digit c

-- -0 is 0 here: the sources do not tell them apart.
abbrev negated : ℕ → Number
negated zero = int 0
negated (suc n) = neg n

unsigned : Bool → Text → Number
unsigned minus s =
    if starts_with_digit s
    then (if minus then negated (digits_value 0 s) else int (digits_value 0 s))
    else nan

signed : Text → Number
signed [] = nan
signed (c ∷ s) =
    if c == b'-'
    then unsigned true s
    else if c == b'+'
    then unsigned false s
    else unsigned false (c ∷ s)

unfoldable pub parse_int : Text → Number
unfolding signed unsigned skip_spaces is_space is_digit digits_value starts_with_digit
parse_int s = signed (skip_spaces s)

parse_int_tests :
    (parse_int (text "13") ≡ int 13)
    × (parse_int (text " -2x") ≡ neg 1)
    × (parse_int (text "x") ≡ nan)
    × (parse_int [] ≡ nan)
    × (parse_int (text "+0") ≡ int 0)
unfolding parse_int
parse_int_tests = (refl, refl, refl, refl, refl)
