-- ===== src/Client/AuthHandler.antt =====
-- client/handlers/auth.py: registration and login. A request, and what is done with the response that the
-- wait returns, are two functions; the result is the private key of the `crypto_ctx`, if there is one.
pub mod Unlock
pub mod Tests
use chat_terminal.Common.{
  ℕ, String, Bool, true, false, ◌&&◌, not, Option, none, some, List, [], ◌∷◌, string_eq, ◌==◌,
  if◌then◌else◌,
}
use chat_terminal.Common.Dict.{lookup}
use chat_terminal.Common.Exec.{pure, raise, gets, or_raise, modify, ◌>>=◌, ◌>>◌, skip}
use chat_terminal.Shared.Protocol.{text, Packet, auth_register, auth_login, truthy}
use chat_terminal.Shared.Text.{is_empty}
use chat_terminal.Server.Ws.Fields.{get_or_null}
use chat_terminal.Client.World.{World, Env, Exec, Account, draw, emit, as_text}
use chat_terminal.Client.FileCrypto.{Bytes}
use chat_terminal.Client.Keygen.{Vault, encrypt_private_key, decrypt_private_key}
use chat_terminal.Client.Db.Contacts.{get_account, save_account, update_token, get_my_keys}

abbrev pub is_success : Packet → Bool
is_success result = truthy (get_or_null "success" result)

-- `result["token"]`
unfoldable pub token_of : Packet → Exec String
unfolding as_text
token_of result = or_raise (lookup "token" result) >>= as_text

-- `register` up to the wait, with the private key, salt and nonce that it draws: the stored key, and the
-- public key in base64
unfoldable pub register_request :
    Env → Vault → Bytes → Bytes → Bytes → String → String → Exec (String × String)
unfolding emit
register_request env vault private_key salt nonce username password = do
  stored ← or_raise (encrypt_private_key vault salt nonce private_key password)
  let public = env.suite.b64encode (env.suite.public_key private_key)
  emit env auth_register
      (("username", text username) ∷ ("password", text password) ∷ ("public_key", text public) ∷ [])
  pure (stored, public)

abbrev pub account : String → String → String → String → Option String → Option String → Account
account id username server_url token private_key public_key = record {
  id = id;
  username = username;
  private_key = private_key;
  public_key = public_key;
  server_url = server_url;
  session_token = some token;
}

-- `await save_account(new_id(), username, SERVER_URL, result["token"], …)`
unfoldable pub store_account :
    Env → String → String → Packet → Option String → Option String → Exec (Unit {0})
unfolding draw token_of
store_account env server_url username result private_key public_key = do
  id ← draw env.uuid
  token ← token_of result
  modify (λ w. record w {
    account = save_account (account id username server_url token private_key public_key) w.account;
  })

-- `register` after the wait
unfoldable pub registered :
    Env → String → String → Bytes → String → String → Packet → Exec (Option Bytes)
unfolding truthy get_or_null store_account
registered env server_url username private_key stored public result =
    if is_success result
    then store_account env server_url username result (some stored) (some public)
      >> pure (some private_key)
    else pure none

unfoldable pub login_request : Env → String → String → Exec (Unit {0})
unfolding emit
login_request env username password =
    emit env auth_login (("username", text username) ∷ ("password", text password) ∷ [])

-- The stored key of the account that logs in again, if there is one
unfoldable pub own_key : String → World → Option String
unfolding get_account get_my_keys
own_key username w = elim (get_account w.account) [
  | none ↦ none
  | some a ↦ elim (get_my_keys w.account).0 [
    | none ↦ none
    | some k ↦ if a.username == username && not (is_empty k) then some k else none
  ]
]

-- `login` after the wait: the keys of another account are not kept.
unfoldable pub logged_in : Env → Vault → String → String → String → Packet → Exec (Option Bytes)
unfolding truthy get_or_null own_key store_account get_my_keys
logged_in env vault server_url username password result =
    if is_success result
    then (do
      found ← gets (own_key username)
      keys ← gets (λ w. get_my_keys w.account)
      elim found [
        | none ↦ store_account env server_url username result none none >> pure none
        | some k ↦
            store_account env server_url username result (some k) keys.1
            >> pure (decrypt_private_key vault k password)
      ])
    else pure none

unfoldable pub reauth_request : Env → String → Exec (Unit {0})
unfolding emit
reauth_request env token = emit env auth_login (("token", text token) ∷ [])

-- `reauth` after the wait
unfoldable pub reauthenticated : Packet → Exec (Unit {0})
unfolding truthy get_or_null token_of
reauthenticated result =
    if is_success result
    then (token_of result >>= λ token.
        modify (λ w. record w { account = update_token token w.account }))
    else skip
