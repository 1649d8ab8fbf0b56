-- ===== src/Client/World.antt =====
-- What the client's handlers read and write: the tables of client/db/schema.py, what has been given
-- to the connection of client/connection/ws_client.py, and what the application has been told.
use chat_terminal.Common.{
  ℕ, suc, String, Bool, Option, none, some, List, [], ◌∷◌, ◌++◌, string_eq, if◌then◌else◌, ◌≡◌,
  refl, ◌⊎◌, inl, inr,
}
use chat_terminal.Common.Exec.{ok, Coroutine, pure, raise, ◌>>=◌, modify}
use chat_terminal.Shared.Protocol.{Json, text, num, Packet, MsgType, make_packet, truthy}
use chat_terminal.Client.FileCrypto.{Bytes}
use chat_terminal.Client.Envelope.{Suite}
use chat_terminal.Client.FileTable.{FileRow}
use chat_terminal.Common.Dict.{Dict, lookup}

pub record Account : Type 0 where
  pub id : String
  pub username : String
  pub private_key : Option String
  pub public_key : Option String
  pub server_url : String
  pub session_token : Option String

pub record Contact : Type 0 where
  pub username : String
  pub public_key : Option String
  pub fingerprint : Option String
  pub verified : Bool
  pub added_at : ℕ
  pub status : String

pub record Message : Type 0 where
  pub id : String
  pub from_user : String
  pub to_user : String
  pub plaintext : String
  pub timestamp : ℕ
  pub delivered : Bool
  pub read_status : Bool
  pub edited : Bool
  pub deleted : Bool

pub record RoomRow : Type 0 where
  pub id : String
  pub name : String
  pub last_message : Option String

pub record CallRow : Type 0 where
  pub id : String
  pub from_user : String
  pub to_user : String
  pub started_at : ℕ
  pub ended_at : Option ℕ
  pub duration : Option ℕ
  pub status : String
  pub relay_used : Bool

-- An AudioStream of client/audio/stream.py, as its owner sees it
pub record Stream : Type 0 where
  pub number : ℕ
  pub key : Bytes
  pub muted : Bool
  -- the payloads that it has been fed, oldest first
  pub fed : List Bytes

-- The attributes of `CallHandler`, and the numbers of the streams that have been started and not stopped
pub record CallState : Type 0 where
  pub active_session : Option String
  pub call_start_ts : ℕ
  pub muted : Bool
  pub ptt_enabled : Bool
  pub audio_stream : Option Stream
  pub local_port : ℕ
  pub peer_ip : String
  pub peer_port : ℕ
  pub ephemeral_private : Option Bytes
  pub call_key : Option Bytes
  pub running : List ℕ

pub record World : Type 0 where
  pub account : List Account
  pub contacts : List Contact
  pub messages : List Message
  pub rooms : List RoomRow
  pub files : List FileRow
  pub calls : List CallRow
  pub call : CallState
  -- `RoomHandler._pending`: the responses to the requests that are waited for; an event is set when there is one
  pub pending : Dict String (List Packet)
  -- the files that have been written under the downloads directory, by path
  pub downloads : Dict String Bytes
  -- the packets in the queue of `WSClient.send`, oldest first, before `json.dumps`
  pub outbox : List Packet
  -- the packets and events that the application's callbacks have been given, oldest first
  pub shown : List Packet
  -- how many identities, keys and nonces have been drawn
  pub drawn : ℕ

-- Whether client/audio/stream.py can be imported, and a stream made and started
pub data Audio : Type 0 where
  no_audio : Audio
  audio_fails : Audio
  audio_works : Audio

pub Audio-cases : (a : Audio) → (a ≡ no_audio) ⊎ ((a ≡ audio_fails) ⊎ (a ≡ audio_works))
Audio-cases no_audio = inl refl
Audio-cases audio_fails = inr (inl refl)
Audio-cases audio_works = inr (inr refl)

-- The user, the clock, and what is drawn: the n-th identity, private key, nonce, key and port
pub record Env : Type 0 where
  pub me : String
  -- the private key of `crypto_ctx`, if there is one
  pub private_key : Option Bytes
  -- `int(time.time())`
  pub now : ℕ
  pub uuid : ℕ → String
  pub suite : Suite
  pub ephemeral : ℕ → Bytes
  pub nonce : ℕ → Bytes
  pub random_key : ℕ → Bytes
  pub free_port : ℕ → ℕ
  -- `str.encode("utf-8")`
  pub utf8 : String → Bytes
  -- `pubkey_fingerprint`
  pub fingerprint : Bytes → String
  -- `int(s)`
  pub int_of : String → Option ℕ
  -- `os.path.join(DOWNLOADS_DIR, user)`, and `os.path.join(directory, name)`
  pub download_dir : String → String
  pub join_path : String → String → String
  -- whether an AudioStream can be made and started: PyAudio is there and the port is free
  pub audio : Audio

abbrev pub Exec : Type 0 → Type 0
Exec A = Coroutine World A

-- One draw of the random source
unfoldable pub draw : {A : Type 0} → (ℕ → A) → Exec A
draw source w = (ok (source w.drawn), record w { drawn = suc w.drawn })

-- `await ws.send(make_packet(type, **kwargs))`: the queue takes everything.
unfoldable pub emit : Env → MsgType → Packet → Exec (Unit {0})
unfolding draw
emit env t kwargs = do
  id ← draw env.uuid
  modify (λ w. record w { outbox = w.outbox ++ make_packet t id env.now kwargs ∷ [] })

-- A callback of the application, which does not raise
unfoldable pub show : Packet → Exec (Unit {0})
show event = modify (λ w. record w { shown = w.shown ++ event ∷ [] })

-- A value that the code uses as a text, and that is none, raises.
unfoldable pub as_text : Json → Exec String
as_text (text s) = pure s
as_text _ = raise

-- `pkt.get(k, default)` as a text
unfoldable pub text_or : String → String → Packet → Exec String
unfolding as_text
text_or default k pkt = elim (lookup k pkt) [ none ↦ pure default | some v ↦ as_text v ]

-- `x = pkt.get(k)`, and `none` where `x` is false
unfoldable pub truthy_text : String → Packet → Exec (Option String)
unfolding as_text truthy
truthy_text k pkt = elim (lookup k pkt) [
  | none ↦ pure none
  | some v ↦ if truthy v then (as_text v >>= λ s. pure (some s)) else pure none
]

-- `pkt.get("timestamp") or now()`
unfoldable pub timestamp_or_now : Env → Packet → Exec ℕ
unfolding truthy
timestamp_or_now env pkt = elim (lookup "timestamp" pkt) [
  | none ↦ pure env.now
  | some v ↦ if truthy v then (elim v [ num n ↦ pure n | _ ↦ raise ]) else pure env.now
]
