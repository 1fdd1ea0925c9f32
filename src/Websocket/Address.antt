-- ===== src/Websocket/Address.antt =====
-- websocket.ts: the address of the socket.
use grpc_web.Prelude.{
  ℕ, zero, suc, ◌≡◌, refl, ap, ◌∙◌, sym, [], ◌∷◌, ◌++◌, Bool-cases, inl, inr, ◌⊎◌,
}
use grpc_web.Prelude.{take, drop, text_eq, text_eq_sound, Text, text, ok}
use grpc_web.Websocket.{construct_websocket_address}

-- https:// becomes wss:// and http:// becomes ws://, whatever stands behind, which is kept.
construct_websocket_address_scheme :
    (rest : Text)
    → (construct_websocket_address (text "https://" ++ rest) ≡ ok (text "wss://" ++ rest))
      × (construct_websocket_address (text "http://" ++ rest) ≡ ok (text "ws://" ++ rest))
unfolding construct_websocket_address
construct_websocket_address_scheme rest = (refl, refl)

ok-injective : {a b : Text} → ok a ≡ ok b → a ≡ b
ok-injective e = cc

take-append-drop : (n : ℕ) (s : Text) → take n s ++ drop n s ≡ s
take-append-drop zero s = refl
take-append-drop (suc n) [] = refl
take-append-drop (suc n) (c ∷ s) = ap (λ t. c ∷ t) (take-append-drop n s)

-- An address is returned only for a URL that begins with https:// or http://, and it is that URL
-- with wss:// or ws:// in place of its scheme.
construct_websocket_address_inv :
    (url address : Text)
    → construct_websocket_address url ≡ ok address
    → ((rest : Text) × (url ≡ text "https://" ++ rest) × (address ≡ text "wss://" ++ rest))
      ⊎ ((rest : Text) × (url ≡ text "http://" ++ rest) × (address ≡ text "ws://" ++ rest))
unfolding construct_websocket_address
construct_websocket_address_inv url address e =
    elim (Bool-cases (text_eq (take 8 url) (text "https://"))) [
      | inl h ↦ inl (
        drop 8 url,
        sym (ap (λ t. t ++ drop 8 url) (sym (text_eq_sound _ _ h)) ∙ take-append-drop 8 url),
        ok-injective (sym (rw h at e)),
      )
      | inr h ↦ elim (Bool-cases (text_eq (take 7 url) (text "http://"))) [
        | inl k ↦ inr (
          drop 7 url,
          sym (ap (λ t. t ++ drop 7 url) (sym (text_eq_sound _ _ k)) ∙ take-append-drop 7 url),
          ok-injective (sym (rw (h, k) at e)),
        )
        | inr k ↦ cc (rw (h, k) at e)
      ]
    ]
