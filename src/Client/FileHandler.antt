-- ===== src/Client/FileHandler.antt =====
-- client/handlers/file.py: what a transfer reads and writes around its chunks. `_active` is only
-- written there, and left out. The callback for offers is set.
pub mod Offers
pub mod Tests
use chat_terminal.Common.{
  ℕ, String, Bool, true, false, Option, none, some, List, [], ◌∷◌, ◌++◌, length, string_eq,
  if◌then◌else◌,
}
use chat_terminal.Common.Dict.{Dict, lookup, insert}
use chat_terminal.Common.Exec.{ok, raised, pure, raise, gets, or_raise, modify, ◌>>=◌, ◌>>◌, skip}
use chat_terminal.Shared.Protocol.{
  Json, null, bool, text, num, obj, Packet, file_init, file_ack, file_done, file_cancel, truthy,
  msg_type,
}
use chat_terminal.Shared.Text.{is_empty}
use chat_terminal.Server.Ws.Fields.{to_packet, get_or_null}
use chat_terminal.Client.World.{World, Env, Exec, draw, emit, show, text_or, timestamp_or_now}
use chat_terminal.Client.FileCrypto.{Bytes}
use chat_terminal.Client.Envelope
use chat_terminal.Client.FileTable.{
  FileRow, Direction, Completion, pending, done, cancelled, save_file, update_file, get_file,
  mark_complete,
}
use chat_terminal.Client.FileTransfer.{Suite, chunk_size, chunks_of, receive_chunks, reassemble}
use chat_terminal.Client.FileTransfer.Uploads.{Upload, upload_chunks}
use chat_terminal.Client.MessageHandler.{to_fields}
use chat_terminal.Client.Db.Contacts.{get_public_key}

-- The server's TCP port: the connections of an upload, and the bytes of a download
pub record Relay : Type 0 where
  pub suite : Suite
  pub connections : List (Option (List Bytes))
  pub download : Bytes

abbrev set_files : (List FileRow → List FileRow) → Exec (Unit {0})
set_files f = modify (λ w. record w { files = f w.files })

-- `await self._upload_chunks(…)`, in three attempts at most
unfoldable pub upload : Relay → String → Bytes → List Bytes → ℕ → Exec (Unit {0})
unfolding upload_chunks
upload relay file_id key chunks total w =
    let (returned, u) =
      upload_chunks relay.suite file_id key chunks total 3 relay.connections
        (record { sent = 0; drawn = w.drawn; files = w.files; progress = []; written = [] }) in
    (if returned then ok tt else raised, record w { files = u.files; drawn = u.drawn })

-- `encrypt_message(file_key_b64, base64.b64decode(recipient_pubkey_b64))`, or the ValueError without a key
unfoldable pub wrapped_key : Env → Option String → String → Exec Packet
unfolding draw
wrapped_key env none file_key = raise
wrapped_key env (some pubkey_b64) file_key = if is_empty pubkey_b64 then raise else (do
  recipient ← or_raise (env.suite.b64decode pubkey_b64)
  ephemeral ← draw env.ephemeral
  nonce ← draw env.nonce
  or_raise (Envelope.encrypt_message env.suite ephemeral nonce file_key recipient))

abbrev new_file :
    String → String → ℕ → ℕ → String → String → String → ℕ → Direction → String → FileRow
new_file id name size total_chunks from_user to_user local_path timestamp direction file_key =
    record {
      id = id;
      name = name;
      size = size;
      total_chunks = total_chunks;
      from_user = from_user;
      to_user = to_user;
      local_path = local_path;
      timestamp = timestamp;
      direction = direction;
      received_chunks = 0;
      complete = pending;
      file_key = some file_key;
    }

-- `send` of the file with this path, name and content
unfoldable pub send : Env → Relay → String → String → String → Bytes → Exec String
unfolding draw wrapped_key save_file emit upload update_file
send env relay to_user path name raw = do
  file_id ← draw env.uuid
  key ← draw env.random_key
  let chunks = chunks_of chunk_size raw
  let key64 = env.suite.b64encode key
  pubkey ← gets (λ w. get_public_key to_user w.contacts)
  encrypted_key ← wrapped_key env pubkey key64
  set_files (
      save_file (
        new_file file_id name (length raw) (length chunks) env.me to_user path env.now
          Direction.send key64))
  emit env file_init (
      ("file_id", text file_id)
      ∷ ("from", text env.me)
      ∷ ("to", text to_user)
      ∷ ("name", text name)
      ∷ ("size", num (length raw))
      ∷ ("total_chunks", num (length chunks))
      ∷ ("encrypted_key", obj (to_fields encrypted_key))
      ∷ ("timestamp", num env.now)
      ∷ [])
  upload relay file_id key chunks (length chunks)
  emit env file_done (
      ("file_id", text file_id)
      ∷ ("from", text env.me)
      ∷ ("to", text to_user)
      ∷ ("timestamp", num env.now)
      ∷ [])
  set_files (update_file file_id (λ r. record r { complete = done }))
  pure file_id

abbrev sendable : Option FileRow → Option FileRow
sendable none = none
sendable (some r) = elim r.direction [ Direction.send ↦ some r | Direction.recv ↦ none ]

-- `resume_send`, with what the file at a path holds now
unfoldable pub resume_send : Env → Relay → (String → Option Bytes) → String → Exec (Unit {0})
unfolding get_file upload update_file
resume_send env relay read_file file_id = do
  found ← gets (λ w. sendable (get_file file_id w.files))
  row ← or_raise found
  raw ← or_raise (read_file row.local_path)
  key64 ← or_raise row.file_key
  key ← (if is_empty key64 then raise else or_raise (env.suite.b64decode key64))
  upload relay file_id key (chunks_of chunk_size raw) row.total_chunks
  set_files (update_file file_id (λ r. record r { complete = done }))

-- What `receive` reads of the offer
pub record Meta : Type 0 where
  pub name : String
  pub total_chunks : ℕ
  pub from_user : String
  pub file_key : String

abbrev stored_key : Option FileRow → String
stored_key none = ""
stored_key (some r) = elim r.file_key [ none ↦ "" | some k ↦ k ]

abbrev file_key_of : String → Meta → World → String
file_key_of file_id m w =
    if is_empty m.file_key then stored_key (get_file file_id w.files) else m.file_key

-- The loop of `receive`, with its effect on the table
unfoldable pub downloaded : Relay → String → Bytes → ℕ → Exec (Dict ℕ Bytes)
unfolding receive_chunks
downloaded relay file_id key total w =
    let (got, files) = receive_chunks relay.suite file_id key total [] relay.download w.files in
    (elim got [ none ↦ raised | some chunks ↦ ok chunks ], record w { files = files })

-- `dest_path`
abbrev pub destination : Env → Meta → String
destination env m = env.join_path (env.download_dir m.from_user) m.name

unfoldable pub receive : Env → Relay → String → Meta → Exec String
unfolding downloaded reassemble mark_complete
receive env relay file_id m = do
  key64 ← gets (file_key_of file_id m)
  key ← or_raise (env.suite.b64decode key64)
  chunks ← downloaded relay file_id key m.total_chunks
  modify (λ w. record w { downloads = insert (destination env m) (reassemble chunks) w.downloads })
  set_files (mark_complete file_id (destination env m))
  pure (destination env m)

unfoldable pub cancel : Env → String → Exec (Unit {0})
unfolding emit update_file
cancel env file_id = do
  emit env file_cancel
      (("file_id", text file_id) ∷ ("from", text env.me) ∷ ("timestamp", num env.now) ∷ [])
  set_files (update_file file_id (λ r. record r { complete = cancelled }))

-- `int(pkt.get(k, default))`
unfoldable pub int_or : Env → ℕ → String → Packet → Exec ℕ
int_or env default k pkt = elim (lookup k pkt) [
  | none ↦ pure default
  | some v ↦ elim v [
    | num n ↦ pure n
    | bool b ↦ pure (if b then 1 else 0)
    | text s ↦ or_raise (env.int_of s)
    | _ ↦ raise
  ]
]

-- The key of an offer, decrypted where the packet does not hold it
unfoldable pub offered_key : Env → Packet → Exec String
unfolding text_or truthy get_or_null
offered_key env pkt = do
  plain ← text_or "" "file_key" pkt
  let sealed = get_or_null "encrypted_key" pkt
  if is_empty plain
      then (if truthy sealed
          then elim env.private_key [
            | none ↦ raise
            | some private_key ↦ elim sealed [
              | obj fs ↦ or_raise (Envelope.decrypt_message env.suite (to_packet fs) private_key)
              | _ ↦ raise
            ]
          ]
          else pure "")
      else pure plain

-- `_handle_file_init`
unfoldable pub handle_file_init : Env → Packet → Exec (Unit {0})
unfolding text_or draw int_or timestamp_or_now offered_key save_file show emit
handle_file_init env pkt = do
  fresh ← draw env.uuid
  file_id ← text_or fresh "file_id" pkt
  from_user ← text_or "" "from" pkt
  name ← text_or "unknown" "name" pkt
  size ← int_or env 0 "size" pkt
  total_chunks ← int_or env 1 "total_chunks" pkt
  ts ← timestamp_or_now env pkt
  key ← offered_key env pkt
  set_files (
      save_file (new_file file_id name size total_chunks from_user env.me "" ts Direction.recv key))
  (if is_empty key then skip else (or_raise (env.suite.b64decode key) >> skip))
  show (
      ("file_id", text file_id)
      ∷ ("name", text name)
      ∷ ("size", num size)
      ∷ ("total_chunks", num total_chunks)
      ∷ ("from_user", text from_user)
      ∷ ("file_key", text key)
      ∷ ("timestamp", num ts)
      ∷ [])
  emit env file_ack (
      ("file_id", text file_id)
      ∷ ("to", text from_user)
      ∷ ("from", text env.me)
      ∷ ("timestamp", num env.now)
      ∷ [])

-- `handle_incoming`
unfoldable pub handle_incoming : Env → Packet → Exec (Unit {0})
unfolding handle_file_init text_or update_file
handle_incoming env pkt = elim (msg_type pkt) [
  | some file_init ↦ handle_file_init env pkt
  | some file_cancel ↦ do
    file_id ← text_or "" "file_id" pkt
    set_files (update_file file_id (λ r. record r { complete = cancelled }))
  | _ ↦ skip
]
