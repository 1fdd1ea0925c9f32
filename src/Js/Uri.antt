-- ===== src/Js/Uri.antt =====
-- `decodeURIComponent` as ECMAScript defines it, on UTF-16 code units; `none` is a URIError.
use grpc_web.Prelude.{ℕ, zero, suc, ◌+◌, ◌-◌, ◌*◌, ◌/◌, ◌%◌, ◌≡◌, refl, ap, Bool, false, not, ◌&&◌}
use grpc_web.Prelude.{
  [], ◌∷◌, ◌++◌, leb, ltb, ◌==◌, if◌then◌else◌, Text, text, Option, none, some, All,
}

hex_value : ℕ → Option ℕ
hex_value c =
    if leb b'0' c && leb c b'9'
    then some (c - b'0')
    else if leb b'a' c && leb c b'f'
    then some (c - b'a' + 10)
    else if leb b'A' c && leb c b'F'
    then some (c - b'A' + 10)
    else none

-- The code units of a code point.
utf16 : ℕ → Text
utf16 cp =
    if ltb cp 0x10000
    then cp ∷ []
    else (0xd800 + (cp - 0x10000) / 0x400) ∷ (0xdc00 + (cp - 0x10000) % 0x400) ∷ []

-- The scan stands in plain text; behind `%`; behind `%` and a digit; or before the `%` of an octet
-- that continues a character. It keeps the value of the octets so far, how many are to come, and the
-- least value that a character of that length may have.
pub data Scan : Type 0 where
  plain : Scan
  percent : (value left least : ℕ) → Scan
  half : (value left least high : ℕ) → Scan
  between : (value left least : ℕ) → Scan

-- What is left to do, and what is put out.
abbrev Next : Type 0
Next = Option (Scan × Text)

-- The first octet of a character.
first_octet : ℕ → Next
first_octet b =
    if ltb b 0x80
    then some (plain, b ∷ [])
    else if leb 0xc0 b && ltb b 0xe0
    then some (between (b - 0xc0) 1 0x80, [])
    else if leb 0xe0 b && ltb b 0xf0
    then some (between (b - 0xe0) 2 0x800, [])
    else if leb 0xf0 b && ltb b 0xf8
    then some (between (b - 0xf0) 3 0x10000, [])
    else none

is_code_point : ℕ → ℕ → Bool
is_code_point least cp = leb least cp && leb cp 0x10ffff && not (leb 0xd800 cp && leb cp 0xdfff)

-- A later octet; `left` counts it.
later_octet : (value left least b : ℕ) → Next
unfolding is_code_point utf16
later_octet value left least b =
    let cp = value * 64 + (b - 0x80) in
    if leb 0x80 b && ltb b 0xc0
    then (if left == 1
        then (if is_code_point least cp then some (plain, utf16 cp) else none)
        else some (between cp (left - 1) least, []))
    else none

octet : (value left least b : ℕ) → Next
unfolding first_octet later_octet
octet value zero least b = first_octet b
octet value (suc left) least b = later_octet value (suc left) least b

next : Scan → ℕ → Next
unfolding hex_value octet
next plain c = if c == b'%' then some (percent 0 0 0, []) else some (plain, c ∷ [])
next (percent value left least) c = elim (hex_value c) [
  | none ↦ none
  | some h ↦ some (half value left least h, [])
]
next (half value left least high) c = elim (hex_value c) [
  | none ↦ none
  | some l ↦ octet value left least (high * 16 + l)
]
next (between value left least) c = if c == b'%' then some (percent value left least, []) else none

abbrev put_out : Text → Option Text → Option Text
put_out out none = none
put_out out (some s) = some (out ++ s)

scan : Scan → Text → Option Text
scan plain [] = some []
scan _ [] = none
scan st (c ∷ s) = elim (next st c) [ none ↦ none | some (st', out) ↦ put_out out (scan st' s) ]

unfoldable pub decode_uri_component : Text → Option Text
unfolding scan next
decode_uri_component s = scan plain s

next_plain : (c : ℕ) → (c == b'%') ≡ false → next plain c ≡ some (plain, c ∷ [])
unfolding next
next_plain c h = rw h

scan_plain : (s : Text) → All (λ c. (c == b'%') ≡ false) s → scan plain s ≡ some s
unfolding scan
scan_plain [] h = refl
scan_plain (c ∷ s) h = rw (next_plain c h.0, scan) (ap (put_out (c ∷ [])) (scan_plain s h.1))

-- Text without `%` stays as it is.
decode_uri_component_plain :
    (s : Text) → All (λ c. (c == b'%') ≡ false) s → decode_uri_component s ≡ some s
unfolding decode_uri_component
decode_uri_component_plain s h = scan_plain s h

decode_uri_component_tests :
    (decode_uri_component (text "a%20b") ≡ some (text "a b"))
    × (decode_uri_component (text "%e2%82%AC") ≡ some (0x20ac ∷ []))
    × (decode_uri_component (text "%F0%9F%98%80") ≡ some (0xd83d ∷ 0xde00 ∷ []))
    × (decode_uri_component (text "%c0%80") ≡ none)
    × (decode_uri_component (text "50%") ≡ none)
unfolding decode_uri_component
decode_uri_component_tests = (refl, refl, refl, refl, refl)
