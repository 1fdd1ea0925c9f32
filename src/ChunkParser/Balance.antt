-- ===== src/ChunkParser/Balance.antt =====
-- ChunkParser.ts: the bytes that go in are the bytes that come out and those that are held back.
use grpc_web.Prelude.{ℕ, zero, suc, ◌+◌, ◌-◌, ◌≤◌, ◌≡◌, arith, ◌∙◌, sym}
use grpc_web.Prelude.{
  Bool, false, List, [], ◌∷◌, ◌++◌, length, drop, length-take, length-drop, length-append,
}
use grpc_web.Prelude.{Bytes, Text, Result, ok, thrown}
use grpc_web.ChunkParser.{
  Chunk, message, trailers, Parser, Turn, wait, fail, last, more, trailer_turn,
  read_length_from_header, parse,
}
use grpc_web.ChunkParser.View.{seen, seen_frame}
use grpc_web.ChunkParser.Decode.{
  pending, IsValid, Decoded, decoded, prepend, decode, decode_turn, decode_all, Agrees,
  parse-decode,
}
use grpc_web.ChunkParser.Append.{has_trailers}

-- The bytes that a chunk was read from: its header and its payload. A trailer counts by its header.
abbrev pub cost : {Md : Type 0} → Chunk Md → ℕ
cost (message m) = 5 + length m
cost (trailers md) = 5

abbrev pub costs : {Md : Type 0} → List (Chunk Md) → ℕ
costs [] = 0
costs (c ∷ cs) = cost c + costs cs

-- How many of n bytes a turn takes.
abbrev Takes : {Md : Type 0} → ℕ → Turn Md → Type 0
Takes n wait = Unit
Takes n (fail e k) = (5 ≤ k) × (k ≤ n)
Takes n (last md k) = (5 ≤ k) × (k ≤ n)
Takes n (more m k) = (k ≡ 5 + length m) × (k ≤ n)

-- n bytes are spent on the chunks and the rest: all of them, if there is no trailer.
abbrev pub Balances : {Md : Type 0} → ℕ → Decoded Md → Type 0
Balances n (decoded rest (ok cs)) =
    (costs cs + length rest ≤ n) × (has_trailers cs ≡ false → costs cs + length rest ≡ n)
Balances n (decoded rest (thrown e)) = 5 + length rest ≤ n

module _ {Md : Type 0} (from_text : Text → Result Md) where
  seen-Takes : (bs : Bytes) → Takes (length bs) (seen from_text bs)
  unfolding seen seen_frame trailer_turn
  seen-Takes bs =
      ground (arith, length-take (read_length_from_header bs) (drop 5 bs), length-drop 5 bs)

  prepend-Balances :
      (m : Bytes) (n k : ℕ) (d : Decoded Md)
      → k ≡ 5 + length m
      → k ≤ n
      → Balances (n - k) d
      → Balances n (prepend (message m ∷ []) d)
  prepend-Balances m n k (decoded rest (ok cs)) e h b =
      (omega (arith, e, h, b.0), λ t. omega (arith, e, h, b.1 t))
  prepend-Balances m n k (decoded rest (thrown msg)) e h b = omega (arith, e, h, b)

  decode_turn-Balances :
      (fuel : ℕ) (bs : Bytes) (t : Turn Md)
      → ((k : ℕ) → Balances (length (drop k bs)) (decode from_text fuel (drop k bs)))
      → Takes (length bs) t
      → Balances (length bs) (decode_turn from_text (λ k. decode from_text fuel (drop k bs)) bs t)
  unfolding decode_turn
  decode_turn-Balances fuel bs wait later w = (omega arith, λ t. omega arith)
  decode_turn-Balances fuel bs (fail e k) later w = omega (arith, length-drop k bs, w.0, w.1)
  decode_turn-Balances fuel bs (last md k) later w =
      (omega (arith, length-drop k bs, w.0, w.1), λ t. cc)
  decode_turn-Balances fuel bs (more m k) later w =
      prepend-Balances m (length bs) k _ w.0 w.1 (rw (← length-drop k bs) (later k))

  decode-Balances : (fuel : ℕ) (bs : Bytes) → Balances (length bs) (decode from_text fuel bs)
  unfolding decode
  decode-Balances zero bs = (omega arith, λ t. omega arith)
  decode-Balances (suc fuel) bs =
      decode_turn-Balances fuel bs (seen from_text bs) (λ k. decode-Balances fuel (drop k bs))
        (seen-Takes bs)

  decode_all-Balances : (bs : Bytes) → Balances (length bs) (decode_all from_text bs)
  unfolding decode_all
  decode_all-Balances bs = decode-Balances (suc (length bs)) bs

  balance :
      (n : ℕ) (d : Decoded Md) (out : Parser × Result (List (Chunk Md))) (cs : List (Chunk Md))
      → Agrees out d
      → out.1 ≡ ok cs
      → Balances n d
      → (costs cs + length (pending out.0) ≤ n)
        × (has_trailers cs ≡ false → costs cs + length (pending out.0) ≡ n)
  balance n (decoded rest (ok ds)) out cs a e b =
      let same : cs ≡ ds = cc (sym e ∙ a.result) in rw (a.rest, same) b
  balance n (decoded rest (thrown msg)) out cs a e b = cc (sym e ∙ a.result)

  -- A call of `parse` without `flush` on a valid parser that returns chunks: the five bytes of each
  -- header, the payloads of the messages and what is held back are not more than what was held back
  -- before and the new bytes, in length; and exactly as long, if there is no trailer among the chunks.
  -- So what is kept between two calls is not longer than what was kept before and what came in.
  pub parse-balance :
      (has_slice : Bool) (p : Parser) (bytes : Bytes) (cs : List (Chunk Md))
      → IsValid p
      → (parse has_slice from_text p bytes false).1 ≡ ok cs
      → let kept = length (pending (parse has_slice from_text p bytes false).0) in
        (costs cs + kept ≤ length (pending p) + length bytes)
        × (has_trailers cs ≡ false → costs cs + kept ≡ length (pending p) + length bytes)
  parse-balance has_slice p bytes cs v e = rw (← length-append (pending p) bytes) (
      balance _ (decode_all from_text (pending p ++ bytes))
        (parse has_slice from_text p bytes false) cs (parse-decode has_slice from_text p bytes v) e
        (decode_all-Balances (pending p ++ bytes)))
