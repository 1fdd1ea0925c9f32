-- ===== src/ChunkParser/Slice.antt =====
-- ChunkParser.ts: `sliceUint8Array`, by the method `slice` or, where it is missing, by a loop.
use grpc_web.Prelude.{ℕ, zero, suc, ◌+◌, ◌-◌, Bool, Option, none, some, [], ◌∷◌}
use grpc_web.Prelude.{if◌then◌else◌, length, get_or, take, drop, Bytes}

-- Uint8Array.prototype.slice: both ends are cut down to the length.
unfoldable pub slice : Bytes → ℕ → ℕ → Bytes
slice buffer from to = take (to - from) (drop from buffer)

-- The loop `for (let i = from; i < end; i++)`, by the rounds left. An index out of range reads
-- undefined, which a Uint8Array stores as 0.
unfoldable pub copy_loop : Bytes → ℕ → ℕ → Bytes
copy_loop buffer i zero = []
copy_loop buffer i (suc rounds) = get_or buffer i 0 ∷ copy_loop buffer (i + 1) rounds

abbrev end_of : Bytes → Option ℕ → ℕ
end_of buffer none = length buffer
end_of buffer (some to) = to

-- `has_slice` says whether the platform's arrays have the method.
unfoldable pub slice_uint8_array : Bool → Bytes → ℕ → Option ℕ → Bytes
slice_uint8_array has_slice buffer from to =
    if has_slice
    then slice buffer from (end_of buffer to)
    else copy_loop buffer from (end_of buffer to - from)
