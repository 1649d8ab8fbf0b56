-- ===== src/Client/AuthHandler/Tests.antt =====
-- Witness of a login.
use chat_terminal.Common.{◌≡◌, refl, String, true, some, [], ◌∷◌, ◌++◌, string_eq}
use chat_terminal.Common.Dict.{lookup}
use chat_terminal.Common.Exec.{ok}
use chat_terminal.Shared.Protocol.{bool, text, Packet, truthy}
use chat_terminal.Server.Ws.Fields.{get_or_null}
use chat_terminal.Client.Keygen.{Vault, encrypt_private_key}
use chat_terminal.Client.AuthHandler.{registered, logged_in}
use chat_terminal.Client.AuthHandler.Unlock.{logged_in-registered}
use chat_terminal.Client.Samples.{
  zeros, plain_aead, plain-GoodAead, tally, from_tally, from_tally-tally,
}
use chat_terminal.Client.Fixtures.{user, empty}

abbrev vault : Vault
vault = record {
  aead = plain_aead;
  derive_key = λ password salt. zeros 32;
  b64encode = tally;
  b64decode = from_tally;
}

abbrev success : Packet
success = ("success", bool true) ∷ ("token", text "t") ∷ []

-- What is stored
abbrev kept : String
kept = tally (zeros 16 ++ (zeros 12 ++ (zeros 32 ++ zeros 16)))

logged_in-registered_example :
    let w = (registered (user "alice") "ws://" "alice" (zeros 32) kept "" success empty).1 in
    (logged_in (user "alice") vault "ws://" "alice" "pw" success w).0 ≡ ok (some (zeros 32))
unfolding lookup encrypt_private_key truthy get_or_null
logged_in-registered_example =
    logged_in-registered (user "alice") vault "ws://" "alice" "pw" kept "" "t" "t" (zeros 32)
      (zeros 16) (zeros 12) success success empty plain-GoodAead from_tally-tally refl refl refl
      refl refl refl refl refl refl
