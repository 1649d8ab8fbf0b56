-- ===== src/Server/Auth/Tests.antt =====
-- Witnesses of accounts and passwords.
use chat_terminal.Common.{◌+◌, ◌≡◌, refl, true, false, none, some, ltb, string_eq, if◌then◌else◌}
use chat_terminal.Shared.Protocol.{session_ttl}
use chat_terminal.Server.World.{User, Session}
use chat_terminal.Server.World.Samples.{env, later, alice, world}
use chat_terminal.Server.Exec.{ok}
use chat_terminal.Server.Auth.{
  success, login, validate_token, verify_password, hash_password, get_by_username,
}
use chat_terminal.Server.Auth.Passwords.{Encodes, verify-hash}
use chat_terminal.Server.Auth.Accounts.{login_token}

salt_Encodes : Encodes env "salt"
salt_Encodes = record { decode-encode = refl; no_dollar = (refl, (refl, (refl, (refl, tt)))) }

key_Encodes : Encodes env "key"
key_Encodes = record { decode-encode = refl; no_dollar = (refl, (refl, (refl, tt))) }

verify-hash_example : verify_password env "key" (hash_password env "salt" "key") ≡ true
verify-hash_example = verify-hash env "salt" "key" salt_Encodes key_Encodes refl

alice_found : get_by_username "alice" world ≡ some alice
unfolding get_by_username
alice_found = refl

right_password : verify_password env "secret" alice.password ≡ true
unfolding verify_password
right_password = refl

nobody_found :
    (u : User)
    → get_by_username "mallory" world ≡ some u
    → verify_password env "x" u.password ≡ false
unfolding get_by_username
nobody_found u h = cc

abbrev opened : Session
opened = record {
  token = "id0";
  user_id = "ua";
  username = "alice";
  created_at = 1000;
  expires_at = 1000 + session_ttl;
}

login_token_example :
    ((login env "alice" "secret" world).0 ≡ ok (success "id0" "alice"))
    × ((validate_token later "id0" (login env "alice" "secret" world).1).0
        ≡ ok (if ltb 605801 (1000 + session_ttl) then some opened else none))
login_token_example =
    login_token env later "alice" "secret" alice world alice_found right_password refl
