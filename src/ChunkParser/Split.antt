-- ===== src/ChunkParser/Split.antt =====
-- ChunkParser.ts: how the network cuts the stream into calls of `parse` does not matter.
use grpc_web.Prelude.{◌≡◌, refl, ap, ◌∙◌, sym, inl, inr}
use grpc_web.Prelude.{Bool, true, false, List, [], ◌∷◌, ◌++◌, append_assoc, append-nil}
use grpc_web.Prelude.{concat, Bytes, Text, Result, ok, thrown, map_ok}
use grpc_web.Prelude.{Bool-cases}
use grpc_web.Prelude.{append-eq_nil}
use grpc_web.ChunkParser.{Chunk, message, trailers, Parser, parse}
use grpc_web.ChunkParser.Decode.{
  pending, IsValid, Decoded, decoded, rest_of, result_of, prepend, decode_all, Agrees, parse-decode,
}
use grpc_web.ChunkParser.Append.{has_trailers, resume, decode_all-append, seen-nil, decode_all-nil}
use grpc_web.ChunkParser.Drained.{
  IsDrained, LeavesNone, decode_all-LeavesNone, decode_all_of_IsDrained,
}

-- The calls behind one that returned chunks add theirs; an exception ends the sequence.
abbrev pub after :
    {Md : Type 0}
    → Result (List (Chunk Md))
    → Parser
    → Parser × Result (List (Chunk Md))
    → Parser × Result (List (Chunk Md))
after (ok cs) p later = (later.0, map_ok (λ ds. cs ++ ds) later.1)
after (thrown e) p later = (p, thrown e)

-- A sequence of calls, as a transport makes them for the pieces of a body.
module _ {Md : Type 0} (has_slice : Bool) (from_text : Text → Result Md) where
  abbrev pub feed : Parser → List Bytes → Parser × Result (List (Chunk Md))
  feed p [] = (p, ok [])
  feed p (b ∷ bs) =
      let out = parse has_slice from_text p b false in after out.1 out.0 (feed out.0 bs)

-- No byte stands behind a trailer.
abbrev pub EndsWell : {Md : Type 0} → Result (List (Chunk Md)) → Bytes → Type 0
EndsWell (ok cs) rest = has_trailers cs ≡ true → rest ≡ []
EndsWell (thrown e) rest = Unit

abbrev pub is_ok : {A : Type 0} → Result A → Bool
is_ok (ok a) = true
is_ok (thrown e) = false

-- What pieces give, against what the whole gives: the same result, and without an exception the
-- same bytes held back.
record Follows {Md : Type 0} (out : Parser × Result (List (Chunk Md))) (d : Decoded Md)
    : Type 0 where
  valid : IsValid out.0
  result : out.1 ≡ result_of d
  rest : is_ok (result_of d) ≡ true → pending out.0 ≡ rest_of d

has_trailers-append :
    {Md : Type 0} (cs ds : List (Chunk Md))
    → has_trailers cs ≡ false
    → has_trailers (cs ++ ds) ≡ has_trailers ds
has_trailers-append [] ds h = refl
has_trailers-append (message m ∷ cs) ds h = has_trailers-append cs ds h
has_trailers-append (trailers md ∷ cs) ds h = cc

EndsWell-of_prepend :
    {Md : Type 0} (cs : List (Chunk Md)) (d : Decoded Md)
    → has_trailers cs ≡ false
    → EndsWell (result_of (prepend cs d)) (rest_of (prepend cs d))
    → EndsWell (result_of d) (rest_of d)
EndsWell-of_prepend cs (decoded rest (ok ds)) h w = λ t. w (has_trailers-append cs ds h ∙ t)
EndsWell-of_prepend cs (decoded rest (thrown e)) h w = tt

Follows-prepend :
    {Md : Type 0} (cs : List (Chunk Md)) (p : Parser) (r : Result (List (Chunk Md)))
    (d : Decoded Md)
    → Follows (p, r) d
    → Follows (p, map_ok (λ ds. cs ++ ds) r) (prepend cs d)
Follows-prepend cs p r (decoded rest (ok ds)) f = record {
  valid = f.valid;
  result = ap (map_ok (λ es. cs ++ es)) f.result;
  rest = f.rest;
}
Follows-prepend cs p r (decoded rest (thrown e)) f = record {
  valid = f.valid;
  result = ap (map_ok (λ es. cs ++ es)) f.result;
  rest = f.rest;
}

module _ {Md : Type 0} (has_slice : Bool) (from_text : Text → Result Md) where
  abbrev Resumed : Parser → List Bytes → Type 0
  Resumed q bs =
      let d = decode_all from_text (pending q ++ concat bs) in
      IsValid q
      → IsDrained from_text (pending q)
      → EndsWell (result_of d) (rest_of d)
      → Follows (feed has_slice from_text q bs) d

  -- Behind a trailer that ends the stream there are only empty pieces.
  feed-step_last :
      (p : Parser) (rest : Bytes) (cs : List (Chunk Md)) (bs : List Bytes)
      → IsValid p
      → pending p ≡ rest
      → rest ++ concat bs ≡ []
      → Resumed p bs
      → Follows
          (after (ok cs) p (feed has_slice from_text p bs))
          (decoded (rest ++ concat bs) (ok cs))
  feed-step_last p rest cs bs v e nothing ih =
      let same : decode_all from_text (pending p ++ concat bs) ≡ decoded [] (ok []) =
        ap (λ t. decode_all from_text (t ++ concat bs)) e
        ∙ ap (decode_all from_text) nothing
        ∙ decode_all-nil from_text in
      let drained : IsDrained from_text (pending p) =
        rw (e, (append-eq_nil rest (concat bs) nothing).0) (seen-nil from_text) in
      let f : Follows (feed has_slice from_text p bs) (decoded [] (ok [])) =
        rw same at (ih v drained (rw same (λ t. refl))) in
      record {
        valid = f.valid;
        result = ap (map_ok (λ ds. cs ++ ds)) f.result ∙ ap ok (append-nil cs);
        rest = λ t. f.rest refl ∙ sym nothing;
      }

  feed-step :
      (p : Parser) (rest : Bytes) (r : Result (List (Chunk Md))) (bs : List Bytes)
      → IsValid p
      → pending p ≡ rest
      → EndsWell
          (result_of (resume from_text (decoded rest r) (concat bs)))
          (rest_of (resume from_text (decoded rest r) (concat bs)))
      → LeavesNone from_text (decoded rest r)
      → Resumed p bs
      → Follows
          (after r p (feed has_slice from_text p bs))
          (resume from_text (decoded rest r) (concat bs))
  unfolding resume
  feed-step p rest (thrown e) bs v eq w l ih = record { valid = v; result = refl; rest = λ t. cc }
  feed-step p rest (ok cs) bs v eq w l ih = elim (Bool-cases (has_trailers cs)) [
    | inl e ↦ rw e (feed-step_last p rest cs bs v eq ((rw e at w) e) ih)
    | inr e ↦
        rw (e, ← eq)
          (Follows-prepend cs _ _ _
            (ih v (rw eq (l e)) (EndsWell-of_prepend cs _ e (rw (e, ← eq) at w))))
  ]

  feed-piece :
      (out : Parser × Result (List (Chunk Md))) (d : Decoded Md) (bs : List Bytes)
      → Agrees out d
      → LeavesNone from_text d
      → EndsWell
          (result_of (resume from_text d (concat bs)))
          (rest_of (resume from_text d (concat bs)))
      → Resumed out.0 bs
      → Follows
          (after out.1 out.0 (feed has_slice from_text out.0 bs))
          (resume from_text d (concat bs))
  feed-piece out (decoded rest r) bs a l w ih =
      rw a.result (feed-step out.0 rest r bs a.valid a.rest w l ih)

  feed-Follows : (p : Parser) (bs : List Bytes) → Resumed p bs
  feed-Follows p [] v q w =
      rw (append-nil, decode_all_of_IsDrained from_text (pending p) q)
        (record { valid = v; result = refl; rest = λ t. refl })
  feed-Follows p (b ∷ bs) v q w =
      let a = parse-decode has_slice from_text p b v in
      let d = decode_all from_text (pending p ++ b) in
      let e : decode_all from_text (pending p ++ (b ++ concat bs))
          ≡ resume from_text d (concat bs) =
        ap (decode_all from_text) (sym (append_assoc (pending p) b (concat bs)))
        ∙ decode_all-append from_text (pending p ++ b) (concat bs) in
      rw e (
        feed-piece (parse has_slice from_text p b false) d bs a (decode_all-LeavesNone from_text _)
          (rw e at w) (feed-Follows (parse has_slice from_text p b false).0 bs))

  -- What the whole stream decodes to is what the pieces give.
  pub feed-decode :
      (p : Parser) (bs : List Bytes) {rest : Bytes} {r : Result (List (Chunk Md))}
      → IsValid p
      → IsDrained from_text (pending p)
      → decode_all from_text (pending p ++ concat bs) ≡ decoded rest r
      → EndsWell r rest
      → ((feed has_slice from_text p bs).1 ≡ r)
        × (is_ok r ≡ true → pending (feed has_slice from_text p bs).0 ≡ rest)
  feed-decode p bs v q e w = let f = rw e at (feed-Follows p bs v q (rw e w)) in (f.result, f.rest)

  -- Take a valid parser that holds back no whole frame, and a stream that one call of `parse` reads
  -- without an exception, with no byte behind a trailer. Then any way to cut the stream into
  -- pieces, empty ones too, gives the same chunks and holds back the same bytes.
  pub feed-concat :
      (p : Parser) (bs : List Bytes) (cs : List (Chunk Md))
      → IsValid p
      → IsDrained from_text (pending p)
      → (parse has_slice from_text p (concat bs) false).1 ≡ ok cs
      → (has_trailers cs ≡ true → pending (parse has_slice from_text p (concat bs) false).0 ≡ [])
      → ((feed has_slice from_text p bs).1 ≡ ok cs)
        × (pending (feed has_slice from_text p bs).0
            ≡ pending (parse has_slice from_text p (concat bs) false).0)
  feed-concat p bs cs v q e w =
      let a = parse-decode has_slice from_text p (concat bs) v in
      let r = sym a.result ∙ e in
      let f = feed-Follows p bs v q (rw r (λ t. sym a.rest ∙ w t)) in
      (f.result ∙ r, f.rest (rw r refl) ∙ sym a.rest)

  -- On a valid parser that holds back no whole frame, a stream on which one call of `parse` throws
  -- throws the same error however it is cut into pieces.
  pub feed-concat_thrown :
      (p : Parser) (bs : List Bytes) (msg : Text)
      → IsValid p
      → IsDrained from_text (pending p)
      → (parse has_slice from_text p (concat bs) false).1 ≡ thrown msg
      → (feed has_slice from_text p bs).1 ≡ thrown msg
  feed-concat_thrown p bs msg v q e =
      let a = parse-decode has_slice from_text p (concat bs) v in
      let r = sym a.result ∙ e in (feed-Follows p bs v q (rw r tt)).result ∙ r
