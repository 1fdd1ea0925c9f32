-- ===== src/NodeHttp/Copies.antt =====
-- node-http-transport/src/index.ts: the copies between Buffer and Uint8Array.
use grpc_web.Prelude.{ℕ, zero, suc, ◌+◌, ◌%◌, ◌≡◌, refl, arith, ap, ◌∙◌, [], ◌∷◌}
use grpc_web.Prelude.{length, get_or, length-replicate, All, IsByte, Bytes}
use grpc_web.Framing.{array_buffer}
use grpc_web.NodeHttp.{set_at, copy_from, to_array_buffer, to_buffer}

copy_from-suc :
    (s t : ℕ) (source target : Bytes) (i rounds : ℕ)
    → copy_from (s ∷ source) (t ∷ target) (suc i) rounds ≡ t ∷ copy_from source target i rounds
unfolding copy_from set_at
copy_from-suc s t source target i zero = refl
copy_from-suc s t source target i (suc rounds) =
    ap (λ k. copy_from (s ∷ source) (t ∷ set_at target i (get_or source i 0)) k rounds)
      {x = suc i + 1} {y = suc (i + 1)} (omega arith)
    ∙ copy_from-suc s t source (set_at target i (get_or source i 0)) (i + 1) rounds

-- Copying a whole array over an array of its length.
copy_from_lem :
    (source target : Bytes)
    → All IsByte source
    → length target ≡ length source
    → copy_from source target 0 (length source) ≡ source
unfolding copy_from set_at
copy_from_lem [] [] h e = refl
copy_from_lem [] (t ∷ target) h e = absurd (omega (arith, e))
copy_from_lem (s ∷ source) [] h e = absurd (omega (arith, e))
copy_from_lem (s ∷ source) (t ∷ target) (b, h) e =
    copy_from-suc s (s % 256) source target 0 (length source)
    ∙ ap (λ rest. s % 256 ∷ rest) (copy_from_lem source target h (omega (arith, e)))
    ∙ ap (λ v. v ∷ source) (omega (arith, b))

-- Both copies keep every byte and the length.
pub copies_same :
    (bytes : Bytes) → All IsByte bytes → (to_buffer bytes ≡ bytes) × (to_array_buffer bytes ≡ bytes)
unfolding to_buffer to_array_buffer
copies_same bytes h =
    let e =
      copy_from_lem bytes (array_buffer (length bytes)) h
        (length-replicate {A = ℕ} (length bytes) 0) in
    (e, e)
