-- ===== src/Code.antt =====
-- client/grpc-web/src/Code.ts: the status codes, and the code of an HTTP status.
use grpc_web.Prelude.{ℕ, ◌≡◌, ◌↔◌, arith, if◌then◌else◌, ◌==◌}

pub data Code : Type 0 where
  ok canceled unknown invalid_argument deadline_exceeded not_found already_exists : Code
  permission_denied resource_exhausted failed_precondition aborted out_of_range : Code
  unimplemented internal unavailable data_loss unauthenticated : Code

-- The number that the enum gives to a code.
abbrev pub to_number : Code → ℕ
to_number ok = 0
to_number canceled = 1
to_number unknown = 2
to_number invalid_argument = 3
to_number deadline_exceeded = 4
to_number not_found = 5
to_number already_exists = 6
to_number permission_denied = 7
to_number resource_exhausted = 8
to_number failed_precondition = 9
to_number aborted = 10
to_number out_of_range = 11
to_number unimplemented = 12
to_number internal = 13
to_number unavailable = 14
to_number data_loss = 15
to_number unauthenticated = 16

unfoldable pub http_status_to_code : ℕ → Code
http_status_to_code http_status =
    if http_status == 0
    then internal
    else if http_status == 200
    then ok
    else if http_status == 400
    then invalid_argument
    else if http_status == 401
    then unauthenticated
    else if http_status == 403
    then permission_denied
    else if http_status == 404
    then not_found
    else if http_status == 409
    then aborted
    else if http_status == 412
    then failed_precondition
    else if http_status == 429
    then resource_exhausted
    else if http_status == 499
    then canceled
    else if http_status == 500
    then unknown
    else if http_status == 501
    then unimplemented
    else if http_status == 503
    then unavailable
    else if http_status == 504
    then deadline_exceeded
    else unknown

-- The codes of different names have different numbers.
to_number_injective : (a b : Code) → to_number a ≡ to_number b → a ≡ b
to_number_injective a b e = ground arith

-- The HTTP status 200, and no other number, has the code OK.
http_status_to_code_ok : (status : ℕ) → (http_status_to_code status ≡ ok) ↔ (status ≡ 200)
unfolding http_status_to_code
http_status_to_code_ok status = (λ e. ground arith, λ e. ground arith)
