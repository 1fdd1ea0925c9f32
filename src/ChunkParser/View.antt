-- ===== src/ChunkParser/View.antt =====
-- ChunkParser.ts seen without its buffer and position: a turn of the loop as a function of the
-- bytes that are still to be read.
use grpc_web.Prelude.{ℕ, zero, suc, ◌+◌, ◌-◌, ◌≤◌, ◌≡◌, refl, arith, ap, ◌∙◌}
use grpc_web.Prelude.{Bool, true, false, none, some, ◌∷◌, inl, inr}
use grpc_web.Prelude.{leb, if◌then◌else◌, length, get_or, take, drop, Bytes, Text, Result}
use grpc_web.Prelude.{
  leb→le, Bool-cases, drop-get_or, get_or-take, drop-drop, take-all, length-drop,
}
use grpc_web.ChunkParser.{
  Turn, wait, fail, last, more, trailer_turn, is_trailer_header, read_length_from_header,
  has_enough_bytes, parse_trailer_data, frame_turn, header_turn, turn,
}
use grpc_web.ChunkParser.Slice.{slice, copy_loop, slice_uint8_array}

copy_loop_lem :
    (buffer : Bytes) (i n : ℕ)
    → i + n ≤ length buffer
    → copy_loop buffer i n ≡ take n (drop i buffer)
unfolding copy_loop
copy_loop_lem buffer i zero h = refl
copy_loop_lem buffer i (suc n) h = rw (drop-get_or buffer i 0 (omega arith)) (
    ap (λ t. get_or buffer i 0 ∷ t)
      (copy_loop_lem buffer (i + 1) n (omega arith)
        ∙ ap (λ k. take n (drop k buffer)) {y = suc i} (omega arith)))

-- Within the array both ways to cut give the same bytes.
slice_some :
    (has_slice : Bool) (buffer : Bytes) (from n : ℕ)
    → from + n ≤ length buffer
    → slice_uint8_array has_slice buffer from (some (from + n)) ≡ take n (drop from buffer)
unfolding slice_uint8_array slice
slice_some true buffer from n h = ap (λ k. take k (drop from buffer)) (omega arith)
slice_some false buffer from n h =
    ap (copy_loop buffer from) (omega arith) ∙ copy_loop_lem buffer from n h

pub slice_none :
    (has_slice : Bool) (buffer : Bytes) (from : ℕ)
    → from ≤ length buffer
    → slice_uint8_array has_slice buffer from none ≡ drop from buffer
unfolding slice_uint8_array slice
slice_none true buffer from h = take-all _ _ (omega (arith, length-drop from buffer))
slice_none false buffer from h =
    copy_loop_lem buffer from (length buffer - from) (omega arith)
    ∙ take-all _ _ (omega (arith, length-drop from buffer))

-- The header's fields do not look past its five bytes.
read_length_take : (bs : Bytes) → read_length_from_header (take 5 bs) ≡ read_length_from_header bs
unfolding read_length_from_header
read_length_take bs = rw (
  get_or-take 5 bs 1 0 (omega arith),
  get_or-take 5 bs 2 0 (omega arith),
  get_or-take 5 bs 3 0 (omega arith),
  get_or-take 5 bs 4 0 (omega arith),
)

is_trailer_take : (bs : Bytes) → is_trailer_header (take 5 bs) ≡ is_trailer_header bs
unfolding is_trailer_header
is_trailer_take bs = rw (get_or-take 5 bs 0 0 (omega arith))

-- A turn found `position` bytes further on.
abbrev pub shift : {Md : Type 0} → ℕ → Turn Md → Turn Md
shift position wait = wait
shift position (fail e k) = fail e (position + k)
shift position (last md k) = last md (position + k)
shift position (more m k) = more m (position + k)

-- How many bytes a turn takes: at least the header, and no more than there are.
abbrev pub Within : {Md : Type 0} → ℕ → Turn Md → Type 0
Within n wait = Unit
Within n (fail e k) = (5 ≤ k) × (k ≤ n)
Within n (last md k) = (5 ≤ k) × (k ≤ n)
Within n (more m k) = (5 ≤ k) × (k ≤ n)

module _ {Md : Type 0} (from_text : Text → Result Md) where
  unfoldable pub seen_frame : Bytes → ℕ → Turn Md
  seen_frame bs n =
      if is_trailer_header bs
      then trailer_turn (parse_trailer_data from_text (take n (drop 5 bs))) (5 + n)
      else more (take n (drop 5 bs)) (5 + n)

  -- The frame at the front of the bytes, with the number of bytes that it takes.
  unfoldable pub seen : Bytes → Turn Md
  unfolding seen_frame
  seen bs =
      if leb 5 (length bs)
      then (if leb (5 + read_length_from_header bs) (length bs)
          then seen_frame bs (read_length_from_header bs)
          else wait)
      else wait

  pub seen-Within : (bs : Bytes) → Within (length bs) (seen bs)
  unfolding seen seen_frame trailer_turn
  seen-Within bs = ground arith

-- Looking at the pending bytes is looking at the buffer from the position on.
module _ {Md : Type 0} (has_slice : Bool) (from_text : Text → Result Md) where
  frame_turn-seen :
      (buffer : Bytes) (position n : ℕ)
      → position + (5 + n) ≤ length buffer
      → frame_turn has_slice from_text buffer position (take 5 (drop position buffer)) n
        ≡ shift position (seen_frame from_text (drop position buffer) n)
  unfolding frame_turn seen_frame trailer_turn
  frame_turn-seen buffer position n h =
      rw
        (
          is_trailer_take (drop position buffer),
          slice_some has_slice buffer (position + 5) n (omega arith),
          drop-drop 5 position buffer,
        )
        (ground arith)

  header_turn-seen :
      (buffer : Bytes) (position : ℕ)
      → position + 5 ≤ length buffer
      → header_turn has_slice from_text buffer position (take 5 (drop position buffer))
        ≡ shift position (seen from_text (drop position buffer))
  unfolding header_turn seen has_enough_bytes
  header_turn-seen buffer position h =
      let n = read_length_from_header (drop position buffer) in
      rw (read_length_take (drop position buffer))
        (ground (arith, length-drop position buffer, frame_turn-seen buffer position n))

  pub turn-seen :
      (buffer : Bytes) (position : ℕ)
      → position ≤ length buffer
      → turn has_slice from_text buffer position
        ≡ shift position (seen from_text (drop position buffer))
  unfolding turn has_enough_bytes
  turn-seen buffer position h = elim (Bool-cases (leb (position + 5) (length buffer))) [
    | inl e ↦
        rw (e, slice_some has_slice buffer position 5 (leb→le _ _ e))
          (header_turn-seen buffer position (leb→le _ _ e))
    | inr e ↦ rw e (unfold seen in ground (arith, length-drop position buffer))
  ]
