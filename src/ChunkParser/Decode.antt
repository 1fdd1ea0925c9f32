-- ===== src/ChunkParser/Decode.antt =====
-- ChunkParser.ts: what the bytes still to be read decode to, and that `parse` computes it whatever
-- its buffer, its position and the platform's arrays.
use grpc_web.Prelude.{ℕ, zero, suc, ◌+◌, ◌≤◌, ◌<◌, ◌≡◌, refl, arith, ap, ◌∙◌, sym}
use grpc_web.Prelude.{Bool, true, false, ◌&&◌, Option, none, some, List, [], ◌∷◌, ◌++◌, inl, inr}
use grpc_web.Prelude.{◌==◌, length, drop, Bytes, Text, Result, ok, thrown, map_ok}
use grpc_web.Prelude.{
  Bool-cases, drop-drop, drop-all, length-drop, ==_iff, append_assoc, append-nil,
}
use grpc_web.ChunkParser.{
  Chunk, message, trailers, Parser, Turn, wait, fail, last, more, joined, Closer, turn, turn-more,
  loop, loop_step, parse,
}
use grpc_web.ChunkParser.View.{Within, shift, seen, seen-Within, turn-seen, slice_none}
use mathlib.Core.WellFounded.{Acc}

-- The bytes that the parser holds back.
abbrev pub pending_in : Option Bytes → ℕ → Bytes
pending_in none position = []
pending_in (some buffer) position = drop position buffer

abbrev pub pending : Parser → Bytes
pending p = pending_in p.buffer p.position

-- The position never passes the end of the buffer.
abbrev pub Fits : Option Bytes → ℕ → Type 0
Fits none position = Unit
Fits (some buffer) position = position ≤ length buffer

abbrev pub IsValid : Parser → Type 0
IsValid p = Fits p.buffer p.position

pub data Decoded (Md : Type 0) : Type 0 where
  decoded : Bytes → Result (List (Chunk Md)) → Decoded Md

abbrev pub rest_of : {Md : Type 0} → Decoded Md → Bytes
rest_of (decoded rest r) = rest

abbrev pub result_of : {Md : Type 0} → Decoded Md → Result (List (Chunk Md))
result_of (decoded rest r) = r

abbrev pub prepend : {Md : Type 0} → List (Chunk Md) → Decoded Md → Decoded Md
prepend cs (decoded rest r) = decoded rest (map_ok (λ ds. cs ++ ds) r)

module _ {Md : Type 0} (from_text : Text → Result Md) where
  -- What is read from a front of the stream, frame by frame, up to a trailer.
  unfoldable pub decode_turn : (ℕ → Decoded Md) → Bytes → Turn Md → Decoded Md
  decode_turn go_on bs wait = decoded bs (ok [])
  decode_turn go_on bs (fail e k) = decoded (drop k bs) (thrown e)
  decode_turn go_on bs (last md k) = decoded (drop k bs) (ok (trailers md ∷ []))
  decode_turn go_on bs (more m k) = prepend (message m ∷ []) (go_on k)

  unfoldable pub decode : ℕ → Bytes → Decoded Md
  unfolding decode_turn
  decode zero bs = decoded bs (ok [])
  decode (suc fuel) bs = decode_turn (λ k. decode fuel (drop k bs)) bs (seen from_text bs)

  -- With more fuel than bytes the fuel does not matter.
  decode_turn_fuel :
      (f g : ℕ) (bs : Bytes) (t : Turn Md)
      → ((j : ℕ) → 5 ≤ j → j ≤ length bs → decode f (drop j bs) ≡ decode g (drop j bs))
      → Within (length bs) t
      → decode_turn (λ j. decode f (drop j bs)) bs t ≡ decode_turn (λ j. decode g (drop j bs)) bs t
  unfolding decode_turn
  decode_turn_fuel f g bs wait same w = refl
  decode_turn_fuel f g bs (fail e j) same w = refl
  decode_turn_fuel f g bs (last md j) same w = refl
  decode_turn_fuel f g bs (more m j) same w = ap (prepend (message m ∷ [])) (same j w.0 w.1)

  pub decode_fuel :
      (f g : ℕ) (bs : Bytes) → length bs < f → length bs < g → decode f bs ≡ decode g bs
  unfolding decode
  decode_fuel zero g bs h k = absurd (omega arith)
  decode_fuel (suc f) zero bs h k = absurd (omega arith)
  decode_fuel (suc f) (suc g) bs h k =
      decode_turn_fuel f g bs (seen from_text bs)
        (λ j l m.
          decode_fuel f g (drop j bs) (omega (arith, length-drop j bs))
            (omega (arith, length-drop j bs)))
        (seen-Within from_text bs)

  -- All that the bytes decode to.
  unfoldable pub decode_all : Bytes → Decoded Md
  decode_all bs = decode (suc (length bs)) bs

-- What the parser holds back, and what it gives out, is what the bytes decode to.
pub record Agrees {Md : Type 0} (out : Parser × Result (List (Chunk Md))) (d : Decoded Md)
    : Type 0 where
  pub valid : IsValid out.0
  pub rest : pending out.0 ≡ rest_of d
  pub result : out.1 ≡ result_of d

pub prepend-prepend :
    {Md : Type 0} (cs ds : List (Chunk Md)) (d : Decoded Md)
    → prepend cs (prepend ds d) ≡ prepend (cs ++ ds) d
prepend-prepend cs ds (decoded rest (ok es)) =
    ap (λ t. decoded rest (ok t)) (sym (append_assoc cs ds es))
prepend-prepend cs ds (decoded rest (thrown e)) = refl

pub prepend-nil : {Md : Type 0} (d : Decoded Md) → prepend [] d ≡ d
prepend-nil (decoded rest (ok cs)) = refl
prepend-nil (decoded rest (thrown e)) = refl

and_false : (b : Bool) → (b && false) ≡ false
and_false true = refl
and_false false = refl

module _ {Md : Type 0} (has_slice : Bool) (from_text : Text → Result Md) where
  shift-wait : (p : ℕ) (s : Turn Md) → shift p s ≡ wait → s ≡ wait
  shift-wait p wait e = refl
  shift-wait p (fail msg k) e = cc
  shift-wait p (last md k) e = cc
  shift-wait p (more m k) e = cc

  shift-fail :
      (p : ℕ) (s : Turn Md) {msg : Text} {q : ℕ}
      → shift p s ≡ fail msg q
      → (k : ℕ) × (s ≡ fail msg k) × (q ≡ p + k)
  shift-fail p wait e = cc
  shift-fail p (fail msg k) e = (k, ground arith, ground arith)
  shift-fail p (last md k) e = cc
  shift-fail p (more m k) e = cc

  shift-last :
      (p : ℕ) (s : Turn Md) {md : Md} {q : ℕ}
      → shift p s ≡ last md q
      → (k : ℕ) × (s ≡ last md k) × (q ≡ p + k)
  shift-last p wait e = cc
  shift-last p (fail msg k) e = cc
  shift-last p (last md k) e = (k, ground arith, ground arith)
  shift-last p (more m k) e = cc

  shift-more :
      (p : ℕ) (s : Turn Md) {m : Bytes} {q : ℕ}
      → shift p s ≡ more m q
      → (k : ℕ) × (s ≡ more m k) × (q ≡ p + k)
  shift-more p wait e = cc
  shift-more p (fail msg k) e = cc
  shift-more p (last md k) e = cc
  shift-more p (more m k) e = (k, ground arith, ground arith)

  in_reach :
      (buffer : Bytes) (position k q : ℕ)
      → q ≡ position + k
      → position ≤ length buffer
      → (5 ≤ k) × (k ≤ length (drop position buffer))
      → q ≤ length buffer
  in_reach buffer position k q eq h w = omega (arith, length-drop position buffer)

  loop_step-Agrees :
      (buffer : Bytes) (position f : ℕ) (cs : List (Chunk Md))
      (go_on : (q : ℕ)
        → Closer buffer q position
        → List (Chunk Md)
        → Parser × Result (List (Chunk Md)))
      → position ≤ length buffer
      → ((q : ℕ) (c : Closer buffer q position) (ds : List (Chunk Md))
          → q ≤ length buffer
          → Agrees (go_on q c ds) (prepend ds (decode from_text f (drop q buffer))))
      → (t : Turn Md) (e : turn has_slice from_text buffer position ≡ t)
      → Agrees
          (loop_step has_slice from_text buffer position cs go_on t e)
          (prepend cs (decode from_text (suc f) (drop position buffer)))
  unfolding loop_step decode decode_turn
  loop_step-Agrees buffer position f cs go_on h ih wait e =
      let s = shift-wait position _ (sym (turn-seen has_slice from_text buffer position h) ∙ e) in
      rw s (record { valid = h; rest = refl; result = ap ok (sym (append-nil cs)) })
  loop_step-Agrees buffer position f cs go_on h ih (fail msg q) e =
      let (k, s, eq) =
        shift-fail position _ (sym (turn-seen has_slice from_text buffer position h) ∙ e) in
      rw s (record {
        valid =
            in_reach buffer position _ q eq h
              (rw s at (seen-Within from_text (drop position buffer)));
        rest = ap (λ j. drop j buffer) eq ∙ sym (drop-drop k position buffer);
        result = refl;
      })
  loop_step-Agrees buffer position f cs go_on h ih (last md q) e =
      let (k, s, eq) =
        shift-last position _ (sym (turn-seen has_slice from_text buffer position h) ∙ e) in
      rw s (record {
        valid =
            in_reach buffer position _ q eq h
              (rw s at (seen-Within from_text (drop position buffer)));
        rest = ap (λ j. drop j buffer) eq ∙ sym (drop-drop k position buffer);
        result = refl;
      })
  loop_step-Agrees buffer position f cs go_on h ih (more m q) e =
      let (k, s, eq) =
        shift-more position _ (sym (turn-seen has_slice from_text buffer position h) ∙ e) in
      let w =
        in_reach buffer position _ q eq h
          (rw s at (seen-Within from_text (drop position buffer))) in
      rw (s, prepend-prepend cs (message m ∷ []) _, drop-drop k position buffer, ← eq)
        (ih q (turn-more has_slice from_text buffer position e) (cs ++ message m ∷ []) w)

  loop-Agrees :
      (buffer : Bytes) (f position : ℕ) (w : Acc (Closer buffer) position) (cs : List (Chunk Md))
      → position ≤ length buffer
      → length (drop position buffer) < f
      → Agrees
          (loop has_slice from_text buffer position w cs)
          (prepend cs (decode from_text f (drop position buffer)))
  unfolding loop
  loop-Agrees buffer zero position w cs h l = absurd (omega arith)
  loop-Agrees buffer (suc f) position (Acc.intro _ closer) cs h l =
      loop_step-Agrees buffer position f cs _ h
        (λ q c ds hq.
          loop-Agrees buffer f q (closer q c) ds hq
            (omega (arith, length-drop q buffer, length-drop position buffer)))
        (turn has_slice from_text buffer position) refl

  joined-pending :
      (b : Option Bytes) (position : ℕ) (bytes : Bytes)
      → Fits b position
      → joined has_slice b position bytes ≡ pending_in b position ++ bytes
  unfolding joined
  joined-pending none position bytes h = refl
  joined-pending (some buffer) position bytes h = elim (Bool-cases (position == length buffer)) [
    | inl e ↦ rw (e, drop-all position buffer (omega (arith, (==_iff _ _).0 e)))
    | inr e ↦ rw (e, slice_none has_slice buffer position h)
  ]

  -- The parser holds no state but the bytes that are still to be read: on a valid parser a call
  -- without `flush` gives out what the held back bytes with the new ones behind them decode to,
  -- chunks or exception, holds back the bytes behind that, and stays valid.
  pub parse-decode :
      (p : Parser) (bytes : Bytes)
      → IsValid p
      → Agrees (parse has_slice from_text p bytes false) (decode_all from_text (pending p ++ bytes))
  unfolding parse decode_all
  parse-decode p bytes h =
      rw (and_false (length bytes == 0), joined-pending p.buffer p.position bytes h)
        (rw (← prepend-nil (decode from_text _ _))
          (loop-Agrees (pending p ++ bytes) _ 0 _ [] (omega arith) (omega arith)))
