-- ===== src/Server/Ws/Transfers.antt =====
-- server/ws_server.py: key lookup, file transfer metadata and call signalling.
use chat_terminal.Common.{
  ℕ, ◌+◌, String, true, false, not, ◌||◌, Option, none, some, [], ◌∷◌, string_eq, if◌then◌else◌,
}
use chat_terminal.Common.Dict.{insert}
use chat_terminal.Shared.Protocol.{
  Json, bool, num, text, Packet, MsgType, key_response, error, file_ack, call_decline, value,
  truthy,
}
use chat_terminal.Shared.Text.{str_append, is_empty}
use chat_terminal.Server.World.{Env, Ws, PeerInfo}
use chat_terminal.Server.Exec.{Exec, ◌>>=◌, ◌>>◌, pure, raise, gets, skip, reply}
use chat_terminal.Server.Auth
use chat_terminal.Server.Files
use chat_terminal.Server.Calls
use chat_terminal.Server.Ws.Fields.{
  get_or_null, get_default, strip_field, text_field, as_text, truthy_text, formatted, field_or_id,
  int_value, stamp,
}
use chat_terminal.Server.Ws.Messages.{deliver}

-- `if public_key:` after the lookup
key_answer : String → Option String → Packet
key_answer target found =
    let missing : Packet =
      ("success", bool false) ∷ ("username", text target) ∷ ("error", text "KEY_NOT_FOUND") ∷ [] in
    elim found [
      | none ↦ missing
      | some key ↦
          if is_empty key
          then missing
          else ("success", bool true) ∷ ("username", text target) ∷ ("public_key", text key) ∷ []
    ]

unfoldable pub on_key_request : Env → Ws → Packet → Exec (Unit {0})
unfolding strip_field key_answer Auth.get_public_key reply
on_key_request env ws pkt = do
  target ← strip_field "username" pkt
  if is_empty target
      then reply env ws key_response
          (("success", bool false) ∷ ("error", text "MISSING_USERNAME") ∷ [])
      else (do
        public_key ← gets (Auth.get_public_key target)
        reply env ws key_response (key_answer target public_key))

-- `created_at + FILE_TTL` wants a number.
as_time : Json → Exec ℕ
as_time (num n) = pure n
as_time _ = raise

-- The body of FILE_INIT once the recipient and the id are there
init_file : Env → Ws → String → Packet → String → String → Exec (Unit {0})
unfolding stamp int_value get_or_null get_default as_time Files.register_file deliver reply
init_file env ws username pkt to_user file_id = do
  let stamped = insert "file_id" (text file_id) (stamp username pkt)
  size ← int_value env (get_default "size" (num 0) stamped)
  total_chunks ← int_value env (get_default "total_chunks" (num 1) stamped)
  created_at ← as_time (get_default "timestamp" (num env.now) stamped)
  Files.register_file (record {
    id = file_id;
    name = get_default "name" (text "unknown") stamped;
    size = size;
    total_chunks = total_chunks;
    uploader = username;
    recipient = to_user;
    encrypted_key = some (env.dumps_value (get_or_null "encrypted_key" stamped));
    created_at = created_at;
    expires_at = some (created_at + Files.file_ttl);
  })
  deliver env (pure (str_append file_id (str_append ":" (str_append to_user ":init")))) to_user
      (env.dumps stamped)
  reply env ws file_ack (("file_id", text file_id) ∷ [])

unfoldable pub on_file_init : Env → Ws → String → Packet → Exec (Unit {0})
unfolding strip_field field_or_id init_file as_text reply truthy
on_file_init env ws username pkt = do
  to_user ← strip_field "to" pkt
  let file_id = field_or_id "file_id" pkt
  if is_empty to_user || not (truthy file_id)
      then reply env ws error (("error", text "INVALID_FILE_INIT") ∷ [])
      else (do id ← as_text file_id; init_file env ws username pkt to_user id)

-- FILE_ACK, FILE_DONE and FILE_CANCEL are passed on.
unfoldable pub on_file_event : Env → String → MsgType → Packet → Exec (Unit {0})
unfolding truthy_text get_or_null field_or_id formatted stamp deliver value
on_file_event env username t pkt = do
  target ← truthy_text (get_or_null "to" pkt)
  elim target [
    | none ↦ skip
    | some to_user ↦ do
      deliver env
          (do
            file_id ← formatted (field_or_id "file_id" pkt)
            pure (
                str_append file_id
                  (str_append ":" (str_append to_user (str_append ":" (value t))))))
          to_user (env.dumps (stamp username pkt))
      skip
  ]

-- What the packet and the connection say of the sender's end of a call
unfoldable pub peer_info : Option String → Packet → PeerInfo
unfolding get_or_null
peer_info remote pkt = record {
  ip = elim remote [ none ↦ "" | some ip ↦ ip ];
  udp_port = get_or_null "local_port" pkt;
  pubkey = get_or_null "ephemeral_pubkey" pkt;
}

unfoldable pub on_call_invite : Env → Ws → Option String → String → Packet → Exec (Unit {0})
unfolding strip_field field_or_id truthy as_text peer_info Calls.invite reply
on_call_invite env ws remote username pkt = do
  callee ← strip_field "to" pkt
  let session_id = field_or_id "session_id" pkt
  if is_empty callee || not (truthy session_id)
      then reply env ws error (("error", text "INVALID_CALL_INVITE") ∷ [])
      else (do
        id ← as_text session_id
        sent ← Calls.invite env id username callee (peer_info remote pkt)
        if sent
            then skip
            else reply env ws call_decline
                (("session_id", text id) ∷ ("reason", text "unavailable") ∷ []))

unfoldable pub on_call_accept : Env → Option String → Packet → Exec (Unit {0})
unfolding text_field peer_info Calls.accept
on_call_accept env remote pkt = do
  session_id ← text_field "session_id" pkt
  Calls.accept env session_id (peer_info remote pkt)
  skip

unfoldable pub on_call_decline : Env → Packet → Exec (Unit {0})
unfolding text_field Calls.decline
on_call_decline env pkt = do session_id ← text_field "session_id" pkt; Calls.decline env session_id

unfoldable pub on_call_end : Env → String → Packet → Exec (Unit {0})
unfolding text_field Calls.end_call
on_call_end env username pkt = do
  session_id ← text_field "session_id" pkt
  Calls.end_call env session_id username

unfoldable pub on_call_relay : Env → String → Packet → Exec (Unit {0})
unfolding text_field get_default Calls.relay_audio
on_call_relay env username pkt = do
  session_id ← text_field "session_id" pkt
  Calls.relay_audio env session_id username (get_default "data" (text "") pkt)
