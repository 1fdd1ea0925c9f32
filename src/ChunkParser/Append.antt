-- ===== src/ChunkParser/Append.antt =====
-- ChunkParser.ts: decoding can stop behind any first piece of a stream and be taken up again.
use grpc_web.Prelude.{
  ℕ, zero, suc, ◌+◌, ◌≤◌, ◌<◌, ◌≡◌, refl, arith, ap, ◌∙◌, sym, ◌⊎◌, inl, inr, ◌≢◌,
}
use grpc_web.Prelude.{Bool, true, false, List, [], ◌∷◌, ◌++◌}
use grpc_web.Prelude.{if◌then◌else◌, length, drop, Bytes, Text, Result, ok, thrown}
use grpc_web.Prelude.{
  Bool-cases, length-append, length-drop, take-append_le, drop-append_le, get_or-append,
}
use grpc_web.ChunkParser.{
  Chunk, message, trailers, Turn, wait, fail, last, more, read_length_from_header,
  is_trailer_header,
}
use grpc_web.ChunkParser.View.{Within, seen, seen_frame, seen-Within}
use grpc_web.ChunkParser.Decode.{
  prepend-prepend, prepend-nil, Decoded, decoded, prepend, decode_turn, decode, decode_fuel,
  decode_all,
}

abbrev pub has_trailers : {Md : Type 0} → List (Chunk Md) → Bool
has_trailers [] = false
has_trailers (message m ∷ cs) = has_trailers cs
has_trailers (trailers md ∷ cs) = true

read_length_append :
    (xs ys : Bytes)
    → 5 ≤ length xs
    → read_length_from_header (xs ++ ys) ≡ read_length_from_header xs
unfolding read_length_from_header
read_length_append xs ys h = rw (
  get_or-append xs ys 1 0 (omega arith),
  get_or-append xs ys 2 0 (omega arith),
  get_or-append xs ys 3 0 (omega arith),
  get_or-append xs ys 4 0 (omega arith),
)

is_trailer_append :
    (xs ys : Bytes) → 5 ≤ length xs → is_trailer_header (xs ++ ys) ≡ is_trailer_header xs
unfolding is_trailer_header
is_trailer_append xs ys h = rw (get_or-append xs ys 0 0 (omega arith))

module _ {Md : Type 0} (from_text : Text → Result Md) where
  seen_frame-append :
      (xs ys : Bytes) (n : ℕ)
      → 5 + n ≤ length xs
      → seen_frame from_text (xs ++ ys) n ≡ seen_frame from_text xs n
  unfolding seen_frame
  seen_frame-append xs ys n h = rw (
    is_trailer_append xs ys (omega arith),
    drop-append_le 5 xs ys (omega arith),
    take-append_le n (drop 5 xs) ys (omega (arith, length-drop 5 xs)),
  )

  -- A frame that is all there is read the same way whatever follows.
  seen-append :
      (xs ys : Bytes) → (seen from_text xs ≡ wait) ⊎ (seen from_text (xs ++ ys) ≡ seen from_text xs)
  unfolding seen
  seen-append xs ys = ground (
    arith,
    length-append xs ys,
    read_length_append xs ys,
    seen_frame-append xs ys (read_length_from_header xs),
  )

  Turn-cases : (t : Turn Md) → (t ≡ wait) ⊎ (t ≢ wait)
  Turn-cases wait = inl refl
  Turn-cases (fail e k) = inr (λ p. cc)
  Turn-cases (last md k) = inr (λ p. cc)
  Turn-cases (more m k) = inr (λ p. cc)

  -- What the bytes behind a first piece add to what that piece decodes to.
  unfoldable pub resume : Decoded Md → Bytes → Decoded Md
  resume (decoded rest (thrown e)) ys = decoded (rest ++ ys) (thrown e)
  resume (decoded rest (ok cs)) ys =
      let d = prepend cs (decode_all from_text (rest ++ ys)) in
      if has_trailers cs then decoded (rest ++ ys) (ok cs) else d

  resume-prepend :
      (m : Bytes) (d : Decoded Md) (ys : Bytes)
      → resume (prepend (message m ∷ []) d) ys ≡ prepend (message m ∷ []) (resume d ys)
  unfolding resume
  resume-prepend m (decoded rest (thrown e)) ys = refl
  resume-prepend m (decoded rest (ok cs)) ys = elim (Bool-cases (has_trailers cs)) [
    | inl e ↦ rw e
    | inr e ↦ rw e (sym (prepend-prepend (message m ∷ []) cs _))
  ]

  shorter :
      (xs ys : Bytes) (k : ℕ)
      → (5 ≤ k) × (k ≤ length xs)
      → length (drop k xs ++ ys) < length (xs ++ ys)
  shorter xs ys k w =
      omega (arith, length-append (drop k xs) ys, length-append xs ys, length-drop k xs)

  decode_turn-append :
      (f : ℕ) (xs ys : Bytes) (t : Turn Md)
      → Within (length xs) t
      → t ≢ wait
      → ((k : ℕ)
          → 5 ≤ k
          → k ≤ length xs
          → decode_all from_text (drop k xs ++ ys) ≡ resume (decode from_text f (drop k xs)) ys)
      → decode_turn from_text
          (λ k. decode from_text (length (xs ++ ys)) (drop k (xs ++ ys)))
          (xs ++ ys)
          t
        ≡ resume (decode_turn from_text (λ k. decode from_text f (drop k xs)) xs t) ys
  unfolding decode_turn resume decode_all
  decode_turn-append f xs ys wait w n ih = absurd (n refl)
  decode_turn-append f xs ys (fail e k) w n ih =
      ap (λ r. decoded r (thrown e)) (drop-append_le k xs ys w.1)
  decode_turn-append f xs ys (last md k) w n ih =
      ap (λ r. decoded r (ok (trailers md ∷ []))) (drop-append_le k xs ys w.1)
  decode_turn-append f xs ys (more m k) w n ih =
      ap (λ bs. prepend (message m ∷ []) (decode from_text (length (xs ++ ys)) bs))
        (drop-append_le k xs ys w.1)
      ∙ ap (prepend (message m ∷ [])) (
          decode_fuel from_text _ _ (drop k xs ++ ys) (shorter xs ys k w) (omega arith)
          ∙ ih k w.0 w.1)
      ∙ sym (resume-prepend m (decode from_text f (drop k xs)) ys)

  decode-append_step :
      (f : ℕ) (xs ys : Bytes)
      → ((k : ℕ)
          → 5 ≤ k
          → k ≤ length xs
          → decode_all from_text (drop k xs ++ ys) ≡ resume (decode from_text f (drop k xs)) ys)
      → decode_all from_text (xs ++ ys) ≡ resume (decode from_text (suc f) xs) ys
  decode-append_step f xs ys ih = elim (Turn-cases (seen from_text xs)) [
    | inl e ↦ unfold decode resume decode_turn in rw e (sym (prepend-nil _))
    | inr n ↦ elim (seen-append xs ys) [
      | inl e ↦ absurd (n e)
      | inr e ↦
          unfold decode_all decode in
          rw e (decode_turn-append f xs ys (seen from_text xs) (seen-Within from_text xs) n ih)
    ]
  ]

  -- Decoding can stop after any first piece and be taken up again.
  decode-append :
      (f : ℕ) (xs ys : Bytes)
      → length xs < f
      → decode_all from_text (xs ++ ys) ≡ resume (decode from_text f xs) ys
  decode-append zero xs ys h = absurd (omega arith)
  decode-append (suc f) xs ys h =
      decode-append_step f xs ys
        (λ k l u. decode-append f (drop k xs) ys (omega (arith, length-drop k xs)))

  pub decode_all-append :
      (xs ys : Bytes) → decode_all from_text (xs ++ ys) ≡ resume (decode_all from_text xs) ys
  unfolding decode_all
  decode_all-append xs ys = decode-append (suc (length xs)) xs ys (omega arith)

  pub seen-nil : seen from_text [] ≡ wait
  unfolding seen
  seen-nil = refl

  pub decode_all-nil : decode_all from_text [] ≡ decoded [] (ok [])
  unfolding decode_all decode decode_turn seen
  decode_all-nil = refl
