-- ===== src/ReactNative/Text.antt =====
-- client/grpc-web-react-native-transport/src/index.ts: `stringToArrayBuffer` and its polyfill.
use grpc_web.Prelude.{
  ℕ, zero, suc, ◌+◌, ◌-◌, ◌*◌, ◌^◌, ◌%◌, ◌≡◌, refl, arith, ap, ◌∙◌, ◌&&◌, Option, none, some, [],
  ◌∷◌,
}
use grpc_web.Prelude.{leb, if◌then◌else◌, length, get_or, Text, Bytes}
use grpc_web.Xhr
use grpc_web.Xhr.{code_point_at}

-- `charCodeAt(index)`, which is NaN behind the end.
abbrev pub char_code_at : Text → ℕ → Option ℕ
char_code_at [] index = none
char_code_at (c ∷ str) zero = some c
char_code_at (c ∷ str) (suc index) = char_code_at str index

-- The first half of a pair and, if it is one, the second half; NaN is none.
unfoldable pub with_second : ℕ → Option ℕ → ℕ
with_second code none = code
with_second code (some surr) =
    if leb 0xdc00 surr && leb surr 0xdfff
    then 0x10000 + (code - 0xd800) * 2 ^ 10 + (surr - 0xdc00)
    else code

unfoldable pub code_point_at_polyfill : Text → ℕ → ℕ
code_point_at_polyfill str index =
    let code = get_or str index 0 in
    if leb 0xd800 code && leb code 0xdbff
    then with_second code (char_code_at str (index + 1))
    else code

-- The loop over the indices, by the rounds left; `& 0xFF` keeps the lowest eight bits. The method
-- `codePointAt` of strings, where there is one, returns what the polyfill computes.
unfoldable pub array_loop : Text → ℕ → ℕ → Bytes
array_loop str i zero = []
array_loop str i (suc rounds) = code_point_at_polyfill str i % 256 ∷ array_loop str (i + 1) rounds

unfoldable pub string_to_array_buffer : Text → Bytes
string_to_array_buffer str = array_loop str 0 (length str)

polyfill-suc :
    (c : ℕ) (str : Text) (i : ℕ)
    → code_point_at_polyfill (c ∷ str) (suc i) ≡ code_point_at_polyfill str i
unfolding code_point_at_polyfill
polyfill-suc c str i =
    let code = get_or str i 0 in
    ap
      (λ k.
        if leb 0xd800 code && leb code 0xdbff
        then with_second code (char_code_at (c ∷ str) k)
        else code)
      {y = suc (i + 1)} (omega arith)

array_loop-suc :
    (c : ℕ) (str : Text) (i rounds : ℕ)
    → array_loop (c ∷ str) (suc i) rounds ≡ array_loop str i rounds
unfolding array_loop
array_loop-suc c str i zero = refl
array_loop-suc c str i (suc rounds) =
    let behind =
      ap (λ k. array_loop (c ∷ str) k rounds) {x = suc i + 1} {y = suc (i + 1)} (omega arith) in
    rw (polyfill-suc c str i, behind, array_loop-suc c str (i + 1) rounds) refl

polyfill-zero : (c : ℕ) (str : Text) → code_point_at_polyfill (c ∷ str) 0 ≡ code_point_at c str
unfolding code_point_at_polyfill code_point_at with_second
polyfill-zero c [] = ground arith
polyfill-zero c (d ∷ str) = ground arith

-- The loop over the indices reads what the recursion over the string reads, on every string: the
-- copy of the function in this package agrees with the one of xhr.ts.
string_to_array_buffer-eq :
    (str : Text) → string_to_array_buffer str ≡ Xhr.string_to_array_buffer str
unfolding string_to_array_buffer array_loop Xhr.string_to_array_buffer
string_to_array_buffer-eq [] = refl
string_to_array_buffer-eq (c ∷ str) =
    let behind = array_loop-suc c str 0 (length str) ∙ string_to_array_buffer-eq str in
    rw (polyfill-zero c str, behind) refl
