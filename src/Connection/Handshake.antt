-- ===== src/Connection/Handshake.antt =====
-- The handshakes of src/server/mobile/mobile_handler.cpp and src/server/desktop/desktop_handler.cpp.
use smarty.Base.{
  ℕ, ◌≤◌, ◌%◌, ◌≡◌, refl, arith, Bool, true, false, ◌&&◌, [], ◌∷◌, Option, none, some,
  if◌then◌else◌, Text, text_eq,
}
use smarty.Connection.{
  adjust_heartbeat_period, heartbeat_period, accepted, invalid_password, server_password,
  mobile_response, make_handshake, make_desktop_handshake,
}

-- The client knows the password of the configuration, which is not empty.
abbrev pub knows : Option Text → Text → Bool
knows none password = false
knows (some []) password = false
knows (some (c ∷ cs)) password = text_eq (c ∷ cs) password

-- The configuration has a password.
abbrev pub is_set : Option Text → Bool
is_set none = false
is_set (some []) = false
is_set (some (c ∷ cs)) = true

-- Both handshakes succeed exactly for a client that knows the server's password, which must be set,
-- and whose socket takes the response. If the password is set there is one response: with the lights,
-- the modes and the heartbeat period for such a client, and a refusal for another. If not, none.
pub make_handshake_lem :
    (sends : Bool) (configured : Option Text) (period : Option ℕ) (lights modes : ℕ)
    (password : Text)
    → (make_handshake sends configured period lights modes password ≡ (
      (if is_set configured
          then (if knows configured password
              then accepted (lights % 256) (heartbeat_period period) modes
              else invalid_password)
            ∷ []
          else []),
      sends && knows configured password,
    ))
      × (make_desktop_handshake sends configured password ≡ (
        (if is_set configured then knows configured password ∷ [] else []),
        sends && knows configured password,
      ))
unfolding make_handshake make_desktop_handshake server_password mobile_response
make_handshake_lem true none period lights modes password = (refl, refl)
make_handshake_lem false none period lights modes password = (refl, refl)
make_handshake_lem true (some []) period lights modes password = (refl, refl)
make_handshake_lem false (some []) period lights modes password = (refl, refl)
make_handshake_lem true (some (c ∷ cs)) period lights modes password = (refl, refl)
make_handshake_lem false (some (c ∷ cs)) period lights modes password = (refl, refl)

-- Whatever the configuration has, the period is from 5 to 600 seconds; a value in these bounds is
-- the period.
pub heartbeat_period_lem :
    (configured : Option ℕ) (value : ℕ)
    → 5 ≤ value
    → value ≤ 600
    → (5 ≤ heartbeat_period configured)
      × (heartbeat_period configured ≤ 600)
      × (heartbeat_period (some value) ≡ value)
unfolding heartbeat_period adjust_heartbeat_period
heartbeat_period_lem none value low high = (omega arith, omega arith, ground arith)
heartbeat_period_lem (some v) value low high = (ground arith, ground arith, ground arith)
