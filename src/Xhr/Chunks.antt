-- ===== src/Xhr/Chunks.antt =====
-- xhr.ts: the progress events give the client the bytes of the body, each byte once and in order.
use grpc_web.Prelude.{ℕ, ◌%◌, ◌<◌, ◌≡◌, refl, arith, ap, ◌∙◌, sym, ◌⊎◌, List, [], ◌∷◌, ◌++◌}
use grpc_web.Prelude.{map, All, IsByte, length, drop, Text, Bytes, append_assoc, append-nil}
use grpc_web.Xhr.{
  Action, open_post, set_response_type, override_mime_type, set_request_header,
  set_with_credentials, send, abort, on_headers, on_chunk, on_end, Xhr, code_point_at,
  string_to_array_buffer, index_or_start, on_progress_event,
}

-- The chunks that the client was given, the oldest first.
abbrev pub chunks_given : {Md : Type 0} → List (Action Md) → List Bytes
chunks_given [] = []
chunks_given (on_chunk bytes ∷ log) = chunks_given log ++ bytes ∷ []
chunks_given (open_post url ∷ log) = chunks_given log
chunks_given (set_response_type t ∷ log) = chunks_given log
chunks_given (override_mime_type t ∷ log) = chunks_given log
chunks_given (set_request_header key value ∷ log) = chunks_given log
chunks_given (set_with_credentials b ∷ log) = chunks_given log
chunks_given (send bytes ∷ log) = chunks_given log
chunks_given (abort ∷ log) = chunks_given log
chunks_given (on_headers md status ∷ log) = chunks_given log
chunks_given (on_end ∷ log) = chunks_given log

-- A progress event for each piece: the response is all the text so far.
abbrev pub report : {Md : Type 0} → Text → List Text → Xhr Md → Xhr Md
report so_far [] x = x
report so_far (piece ∷ pieces) x =
    report (so_far ++ piece) pieces (on_progress_event (so_far ++ piece) x)

-- What the charset x-user-defined makes of a byte: a code that is no first half of a pair, and that
-- has the byte in its lowest eight bits.
abbrev pub KeepsBytes : (ℕ → ℕ) → Type 0
KeepsBytes to_code =
    (b : ℕ) → IsByte b → (to_code b % 256 ≡ b) × ((to_code b < 0xd800) ⊎ (0xdbff < to_code b))

drop-length : (xs ys : List ℕ) → drop (length xs) (xs ++ ys) ≡ ys
drop-length [] ys = refl
drop-length (x ∷ xs) ys = drop-length xs ys

code_point_at-alone :
    (code : ℕ) (rest : Text) → (code < 0xd800) ⊎ (0xdbff < code) → code_point_at code rest ≡ code
unfolding code_point_at
code_point_at-alone code [] h = refl
code_point_at-alone code (surr ∷ rest) h = ground arith

module _ (to_code : ℕ → ℕ) (keeps : KeepsBytes to_code) where
  -- The text of a body is turned back into the bytes of the body, none of them taken for a surrogate.
  string_to_array_buffer-map :
      (bytes : Bytes) → All IsByte bytes → string_to_array_buffer (map to_code bytes) ≡ bytes
  unfolding string_to_array_buffer
  string_to_array_buffer-map [] h = refl
  string_to_array_buffer-map (b ∷ bytes) (h, hs) = rw (
    code_point_at-alone (to_code b) (map to_code bytes) (keeps b h).1,
    (keeps b h).0,
    string_to_array_buffer-map bytes hs,
  )

  -- What a progress event gives behind the text so far.
  pub chunk_of :
      {Md : Type 0} (so_far : Text) (piece : Bytes) (x : Xhr Md)
      → index_or_start x.index ≡ length so_far
      → All IsByte piece
      → string_to_array_buffer (drop (index_or_start x.index) (so_far ++ map to_code piece)) ≡ piece
  chunk_of so_far piece x e h =
      let code = map to_code piece in
      ap (λ k. string_to_array_buffer (drop k (so_far ++ code))) e
      ∙ ap string_to_array_buffer (drop-length so_far code)
      ∙ string_to_array_buffer-map piece h

  -- Take a transport that has read the text so far, and a body of bytes that arrives in pieces, a
  -- progress event behind each with all the text so far, in a charset that keeps the bytes. Then
  -- each event gives the client exactly the bytes of its piece.
  chunks_given-report :
      {Md : Type 0} (so_far : Text) (pieces : List Bytes) (x : Xhr Md)
      → index_or_start x.index ≡ length so_far
      → All (All IsByte) pieces
      → chunks_given (report so_far (map (map to_code) pieces) x).log ≡ chunks_given x.log ++ pieces
  unfolding on_progress_event
  chunks_given-report so_far [] x e h = sym (append-nil _)
  chunks_given-report so_far (piece ∷ pieces) x e (h, hs) =
      let code = map to_code piece in
      chunks_given-report (so_far ++ code) pieces (on_progress_event (so_far ++ code) x) refl hs
      ∙ ap (λ b. (chunks_given x.log ++ b ∷ []) ++ pieces) (chunk_of so_far piece x e h)
      ∙ append_assoc (chunks_given x.log) (piece ∷ []) pieces
