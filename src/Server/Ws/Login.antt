-- ===== src/Server/Ws/Login.antt =====
-- server/ws_server.py: presence, registration, login and logout.
use chat_terminal.Common.{
  String, true, false, not, ◌||◌, Option, none, some, List, [], ◌∷◌, string_eq, ◌==◌, if◌then◌else◌,
}
use chat_terminal.Common.Dict.{lookup}
use chat_terminal.Shared.Protocol.{
  Json, null, bool, text, Packet, status, sync_response, auth_response, truthy, texts, make_packet,
}
use chat_terminal.Shared.Text.{is_empty}
use chat_terminal.Server.World.{Env, Ws}
use chat_terminal.Server.Exec.{
  Exec, ◌>>=◌, ◌>>◌, pure, raise, gets, modify, skip, try_else, new_id, send, reply,
}
use chat_terminal.Server.Router
use chat_terminal.Server.Offline
use chat_terminal.Server.Auth
use chat_terminal.Server.Auth.{AuthResult, success, failure}
use chat_terminal.Server.Ws.Fields.{get_or_null, get_default, strip_field, text_field, as_text}

-- The loop of `_broadcast_status`, over a copy of the registry
unfoldable pub broadcast : Env → String → String → List (String × Ws) → Exec (Unit {0})
unfolding send Router.unregister
broadcast env username pkt [] = skip
broadcast env username pkt ((uname, ws) ∷ rest) = do
  if uname == username then skip else try_else (send env ws pkt) (modify (Router.unregister uname))
  broadcast env username pkt rest

unfoldable pub broadcast_status : Env → String → String → Exec (Unit {0})
unfolding new_id
broadcast_status env username state = do
  id ← new_id env
  let pkt =
      env.dumps
        (make_packet status id env.now (("user", text username) ∷ ("status", text state) ∷ []))
  peers ← gets (λ w. w.connections)
  broadcast env username pkt peers

send_queued : Env → Ws → List String → Exec (Unit {0})
unfolding reply
send_queued env ws [] = skip
send_queued env ws (q ∷ qs) = reply env ws sync_response (("messages", texts (q ∷ qs)) ∷ [])

unfoldable pub flush_offline : Env → Ws → String → Exec (Unit {0})
unfolding send_queued Offline.flush Offline.clear
flush_offline env ws username = do
  queued ← Offline.flush username 0
  send_queued env ws queued
  Offline.clear username

unfoldable pub result_fields : AuthResult → Packet
result_fields (success token username) =
    ("success", bool true) ∷ ("token", text token) ∷ ("username", text username) ∷ []
result_fields (failure error) = ("success", bool false) ∷ ("error", text error) ∷ []

unfoldable pub on_auth_success : Env → Ws → String → String → Exec String
unfolding Router.register reply result_fields
on_auth_success env ws token username = do
  modify (Router.register username ws)
  reply env ws auth_response (result_fields (success token username))
  flush_offline env ws username
  broadcast_status env username "online"
  pure username

-- `if result["success"]: … else: …`, with the connection's user afterwards
unfoldable pub answer : Env → Ws → Option String → AuthResult → Exec (Option String)
unfolding reply result_fields
answer env ws user (success token username) = do
  name ← on_auth_success env ws token username
  pure (some name)
answer env ws user (failure error) = do
  reply env ws auth_response (result_fields (failure error))
  pure user

-- `pkt.get("public_key")`
unfoldable pub key_of : Json → Exec (Option String)
key_of null = pure none
key_of (text s) = pure (some s)
key_of _ = raise

unfoldable pub on_register : Env → Ws → Option String → Packet → Exec (Option String)
unfolding strip_field Auth.register key_of as_text reply
on_register env ws user pkt = do
  uname ← strip_field "username" pkt
  let pw = get_default "password" (text "") pkt
  if is_empty uname || not (truthy pw)
      then (do
        reply env ws auth_response (("success", bool false) ∷ ("error", text "AUTH_FAILED") ∷ [])
        pure user)
      else (do
        password ← as_text pw
        key ← key_of (get_or_null "public_key" pkt)
        result ← Auth.register env uname password key
        answer env ws user result)

-- The token branch of AUTH_LOGIN; a null token finds no session.
unfoldable pub login_by_token : Env → Json → Exec AuthResult
unfolding Auth.validate_token as_text
login_by_token env null = pure (failure "INVALID_TOKEN")
login_by_token env v = do
  token ← as_text v
  session ← Auth.validate_token env token
  elim session [ none ↦ pure (failure "INVALID_TOKEN") | some s ↦ pure (success token s.username) ]

login_by_password : Env → Packet → Exec AuthResult
unfolding text_field Auth.login
login_by_password env pkt = do
  username ← text_field "username" pkt
  password ← text_field "password" pkt
  Auth.login env username password

unfoldable pub on_login : Env → Ws → Option String → Packet → Exec (Option String)
unfolding login_by_password
on_login env ws user pkt = do
  result ← elim (lookup "token" pkt) [
    | some v ↦ login_by_token env v
    | none ↦ login_by_password env pkt
  ]
  answer env ws user result

unfoldable pub on_logout : Packet → Exec (Unit {0})
unfolding Auth.delete_session as_text
on_logout pkt = elim (lookup "token" pkt) [
  | none ↦ skip
  | some v ↦ do token ← as_text v; Auth.delete_session token
]
