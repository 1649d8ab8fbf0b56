-- ===== src/Client/App/Login.antt =====
-- client/app.py: the login, after the connection and before the first key.
use chat_terminal.Common.{
  String, Bool, true, false, Option, none, some, [], ◌∷◌, string_eq, if◌then◌else◌,
}
use chat_terminal.Common.Dict.{lookup}
use chat_terminal.Common.Exec.{gets, modify, or_raise, ◌>>=◌, ◌>>◌}
use chat_terminal.Shared.Protocol.{Packet, status, truthy}
use chat_terminal.Shared.Text.{is_empty}
use chat_terminal.Server.Ws.Fields.{get_or_null}
use chat_terminal.Client.FileCrypto.{Bytes}
use chat_terminal.Client.Keygen.{Vault, decrypt_private_key}
use chat_terminal.Client.Db.Contacts.{get_my_keys}
use chat_terminal.Client.AuthHandler.{
  is_success, register_request, registered, login_request, logged_in, reauth_request,
  reauthenticated,
}
use chat_terminal.Client.World.{CallState, as_text}
use chat_terminal.Client.App.{App, Act, Host, on_world, notify, formatted, send_pkt}

-- `creds`: a token, or a name and a password and whether they are to be registered
pub data Creds : Type 0 where
  saved : String → Creds
  entered : Bool → String → String → Creds

-- The screens of the login, the vault of the private key, and what a registration draws
pub record Prompt : Type 0 where
  -- `show_auth`: a name and a password, and whether they are to be registered
  pub asked : Option (Bool × (String × String))
  -- `show_unlock`
  pub unlocked : Option String
  pub vault : Vault
  pub server_url : String
  pub private_key : Bytes
  pub salt : Bytes
  pub nonce : Bytes

-- `AuthHandler._wait`: nothing, if it times out
unfoldable pub wait : Host → Act (Option Packet)
wait host = do
  modify (λ a. record a { auth_result = none })
  modify (host.meanwhile "auth")
  gets (λ a. a.auth_result)

-- The rest of a login that waits for its response
abbrev answered : Host → (Packet → Act (Unit {0})) → Act (Unit {0})
answered host then_do = do
  result ← wait host
  elim result [
    | none ↦ notify host ("Auth timed out. Is the server running?" ∷ [])
    | some pkt ↦ then_do pkt
  ]

unfoldable pub take_name : Packet → Host → Act (Unit {0})
unfolding on_world as_text
take_name result host = do
  name ← on_world host (λ _. or_raise (lookup "username" result) >>= as_text)
  modify (λ a. record a { username = name })

abbrev take_key : Option Bytes → App → App
take_key key a = record a { crypto_ctx = key }

-- A new `CallHandler`; the streams of an old one still run.
abbrev pub new_call : CallState → CallState
new_call old = record {
  active_session = none;
  call_start_ts = 0;
  muted = false;
  ptt_enabled = false;
  audio_stream = none;
  local_port = 0;
  peer_ip = "127.0.0.1";
  peer_port = 0;
  ephemeral_private = none;
  call_key = none;
  running = old.running;
}

-- The handlers are made, without a call and without pending requests.
abbrev pub with_handlers : App → App
with_handlers a = record a {
  conn_status = "online";
  logged_in = true;
  world = record a.world { call = new_call a.world.call; pending = [] };
}

unfoldable pub go_online : Host → Act (Unit {0})
unfolding send_pkt
go_online host = do
  modify with_handlers
  send_pkt host status []
  me ← gets (λ a. a.username)
  notify host ("Logged in as " ∷ me ∷ [])

abbrev refused : Host → String → Packet → Act (Unit {0})
refused host failure result =
    formatted host "None" "error" result >>= λ reason. notify host (failure ∷ reason ∷ [])

-- A registration or a login with a password
unfoldable pub with_password : Host → Prompt → Bool → String → String → Act (Unit {0})
unfolding on_world register_request registered login_request logged_in wait take_name formatted
    go_online truthy get_or_null
with_password host p registering username password =
    if registering
    then (do
      keys ←
          on_world host
            (λ e. register_request e p.vault p.private_key p.salt p.nonce username password)
      answered host (λ result. do
        key ←
            on_world host
              (λ e. registered e p.server_url username p.private_key keys.0 keys.1 result)
        if is_success result
            then take_name result host >> modify (take_key key) >> go_online host
            else refused host "Register failed: " result))
    else (do
      on_world host (λ e. login_request e username password)
      answered host (λ result. do
        key ← on_world host (λ e. logged_in e p.vault p.server_url username password result)
        if is_success result
            then take_name result host >> modify (take_key key) >> go_online host
            else refused host "Login failed: " result))

-- Another account is asked for, and the client stops if there is none.
unfoldable pub ask_again : Host → Prompt → Act (Unit {0})
unfolding with_password
ask_again host p = elim p.asked [
  | none ↦ modify (λ a. record a { running = false })
  | some (registering, (username, password)) ↦ with_password host p registering username password
]

-- The stored key that is still locked
unfoldable pub locked_key : App → Option String
unfolding get_my_keys
locked_key a = elim a.crypto_ctx [
  | some _ ↦ none
  | none ↦ elim (get_my_keys a.world.account).0 [
    | none ↦ none
    | some k ↦ if is_empty k then none else some k
  ]
]

-- The stored key and a password for it: a wrong one leaves the key locked.
unfoldable pub unlock : Host → Prompt → String → String → Act (Unit {0})
unfolding decrypt_private_key go_online
unlock host p stored password = do
  (if is_empty password
      then notify host ("E2E encryption skipped. Messages will be plaintext." ∷ [])
      else elim (decrypt_private_key p.vault stored password) [
        | none ↦ notify host ("Wrong password — key locked. Press S to skip or retry." ∷ [])
        | some private_key ↦ modify (take_key (some private_key))
      ])
  go_online host

-- A renewal by the token
unfoldable pub with_token : Host → Prompt → String → Act (Unit {0})
unfolding on_world reauth_request reauthenticated wait take_name ask_again locked_key unlock
    go_online truthy get_or_null
with_token host p token = do
  on_world host (λ e. reauth_request e token)
  answered host (λ result. do
    on_world host (λ _. reauthenticated result)
    if is_success result
        then (do
          take_name result host
          locked ← gets locked_key
          elim locked [
            | none ↦ go_online host
            | some stored ↦ elim p.unlocked [
              | none ↦ ask_again host p
              | some password ↦ unlock host p stored password
            ]
          ])
        else ask_again host p)

-- `_do_auth`
unfoldable pub do_auth : Host → Prompt → Creds → Act (Unit {0})
unfolding with_token with_password
do_auth host p (saved token) = with_token host p token
do_auth host p (entered registering username password) =
    with_password host p registering username password
