-- ===== src/ChunkParser/Drained.antt =====
-- ChunkParser.ts: what is held back behind messages holds no whole frame.
use grpc_web.Prelude.{ℕ, zero, suc, ◌≤◌, ◌<◌, ◌≡◌, refl, arith}
use grpc_web.Prelude.{false, [], ◌∷◌}
use grpc_web.Prelude.{length, drop, Bytes, Text, Result, ok, thrown}
use grpc_web.Prelude.{length-drop}
use grpc_web.ChunkParser.{message, Turn, wait, fail, last, more}
use grpc_web.ChunkParser.View.{Within, seen, seen-Within}
use grpc_web.ChunkParser.Decode.{Decoded, decoded, prepend, decode_turn, decode, decode_all}
use grpc_web.ChunkParser.Append.{has_trailers}

-- No whole frame is held back.
abbrev pub IsDrained : {Md : Type 0} → (Text → Result Md) → Bytes → Type 0
IsDrained {Md} from_text bs = seen from_text bs ≡ wait

abbrev pub LeavesNone : {Md : Type 0} → (Text → Result Md) → Decoded Md → Type 0
LeavesNone from_text (decoded rest (ok cs)) = has_trailers cs ≡ false → IsDrained from_text rest
LeavesNone from_text (decoded rest (thrown e)) = Unit

module _ {Md : Type 0} (from_text : Text → Result Md) where
  LeavesNone-prepend :
      (m : Bytes) (d : Decoded Md)
      → LeavesNone from_text d
      → LeavesNone from_text (prepend (message m ∷ []) d)
  LeavesNone-prepend m (decoded rest (ok cs)) h = h
  LeavesNone-prepend m (decoded rest (thrown e)) h = tt

  decode_turn-LeavesNone :
      (f : ℕ) (bs : Bytes) (t : Turn Md)
      → seen from_text bs ≡ t
      → Within (length bs) t
      → ((k : ℕ) → 5 ≤ k → k ≤ length bs → LeavesNone from_text (decode from_text f (drop k bs)))
      → LeavesNone from_text (decode_turn from_text (λ k. decode from_text f (drop k bs)) bs t)
  unfolding decode_turn
  decode_turn-LeavesNone f bs wait e w ih = λ _. e
  decode_turn-LeavesNone f bs (fail msg k) e w ih = tt
  decode_turn-LeavesNone f bs (last md k) e w ih = λ t. cc
  decode_turn-LeavesNone f bs (more m k) e w ih = LeavesNone-prepend m _ (ih k w.0 w.1)

  decode-LeavesNone :
      (f : ℕ) (bs : Bytes) → length bs < f → LeavesNone from_text (decode from_text f bs)
  unfolding decode
  decode-LeavesNone zero bs h = absurd (omega arith)
  decode-LeavesNone (suc f) bs h =
      decode_turn-LeavesNone f bs (seen from_text bs) refl (seen-Within from_text bs)
        (λ k l u. decode-LeavesNone f (drop k bs) (omega (arith, length-drop k bs)))

  -- What is held back behind messages holds no whole frame.
  pub decode_all-LeavesNone : (bs : Bytes) → LeavesNone from_text (decode_all from_text bs)
  unfolding decode_all
  decode_all-LeavesNone bs = decode-LeavesNone (suc (length bs)) bs (omega arith)

  pub decode_all_of_IsDrained :
      (bs : Bytes) → IsDrained from_text bs → decode_all from_text bs ≡ decoded bs (ok [])
  unfolding decode_all decode decode_turn
  decode_all_of_IsDrained bs h = rw h
