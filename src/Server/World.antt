-- ===== src/Server/World.antt =====
-- What the server's handlers read and write: the tables of server/db/schema.py, the dictionaries
-- that live in memory, the files on disk, and what has been sent.
pub mod Samples
use chat_terminal.Common.{
  ℕ, String, Bool, true, false, ◌||◌, Option, none, some, List, [], ◌∷◌, ◌++◌, exists_row,
  if◌then◌else◌,
}
use chat_terminal.Common.Dict.{Dict}
use chat_terminal.Shared.Protocol.{Json, Packet}
use chat_terminal.Server.RateLimiter.{RateLimiter}

-- A websocket object. Two connections are two numbers.
abbrev pub Ws : Type 0
Ws = ℕ

pub record User : Type 0 where
  pub id : String
  pub username : String
  pub password : String
  pub public_key : Option String
  pub created_at : ℕ
  pub last_seen : Option ℕ

pub record Session : Type 0 where
  pub token : String
  pub user_id : String
  pub username : String
  pub created_at : ℕ
  pub expires_at : ℕ

pub record Queued : Type 0 where
  pub id : String
  pub to_user : String
  pub packet : String
  pub created_at : ℕ

pub record Room : Type 0 where
  pub id : String
  pub name : String
  pub created_by : String
  pub created_at : ℕ

pub record Member : Type 0 where
  pub room_id : String
  pub username : String
  pub joined_at : ℕ

pub record File : Type 0 where
  pub id : String
  pub name : Json
  pub size : ℕ
  pub total_chunks : ℕ
  pub uploader : String
  pub recipient : String
  pub encrypted_key : Option String
  pub created_at : ℕ
  pub expires_at : Option ℕ

pub record Chunk : Type 0 where
  pub id : String
  pub file_id : String
  pub chunk_index : ℕ
  pub checksum : String
  pub delivered : Bool

pub data CallStatus : Type 0 where
  pending active ended : CallStatus

pub record CallRow : Type 0 where
  pub id : String
  pub caller : String
  pub callee : String
  pub started_at : ℕ
  pub ended_at : Option ℕ
  pub relay_used : Bool
  pub status : CallStatus

-- `caller_info` and `callee_info`
pub record PeerInfo : Type 0 where
  pub ip : String
  pub udp_port : Json
  pub pubkey : Json

-- An entry of `CallManager._sessions`
pub record Call : Type 0 where
  pub id : String
  pub caller : String
  pub callee : String
  pub status : CallStatus
  pub caller_info : PeerInfo
  pub callee_info : Option PeerInfo
  pub created_at : ℕ

pub record World : Type 0 where
  pub connections : Dict String Ws
  pub limiter : RateLimiter
  pub calls : Dict String Call
  pub users : List User
  pub sessions : List Session
  pub offline_queue : List Queued
  pub rooms : List Room
  pub room_members : List Member
  pub files : List File
  pub chunks : List Chunk
  pub call_sessions : List CallRow
  -- the chunk files, by file and index
  pub disk : Dict String (Dict ℕ (List ℕ))
  -- what has been sent, oldest first
  pub wire : List (Ws × String)
  -- how many UUIDs and salts have been drawn
  pub drawn : ℕ

-- What the source takes from elsewhere while one packet is handled: the clocks, the random
-- source, the network, JSON and the cryptographic libraries.
pub record Env : Type 0 where
  -- `int(time.time())`
  pub now : ℕ
  -- `time.monotonic()`, in ticks
  pub clock : ℕ
  -- `str(uuid.uuid4())`, the n-th that is drawn
  pub uuid : ℕ → String
  -- `os.urandom(16)`, the n-th draw
  pub salt : ℕ → String
  -- whether a send on the socket succeeds, or else raises
  pub up : Ws → Bool
  pub dumps : Packet → String
  pub loads : String → Option Json
  -- `json.dumps` of one value
  pub dumps_value : Json → String
  pub pbkdf2 : String → String → ℕ → String
  pub b64encode : String → String
  pub b64decode : String → Option String
  -- `int(s)`
  pub int_of : String → Option ℕ
  -- `bcrypt.checkpw(password, stored)`
  pub checkpw : String → String → Option Bool

-- `INSERT OR IGNORE`: a row that conflicts with a key is dropped.
abbrev pub insert_or_ignore {ℓ} : {A : Type ℓ} → (A → Bool) → A → List A → List A
insert_or_ignore conflict row rows = if exists_row conflict rows then rows else rows ++ row ∷ []

-- `SELECT … WHERE`, the first row
abbrev pub find_row {ℓ} : {A : Type ℓ} → (A → Bool) → List A → Option A
find_row p [] = none
find_row p (x ∷ xs) = if p x then some x else find_row p xs

-- `UPDATE … WHERE`
abbrev pub update_rows {ℓ} : {A : Type ℓ} → (A → Bool) → (A → A) → List A → List A
update_rows p f [] = []
update_rows p f (x ∷ xs) = (if p x then f x else x) ∷ update_rows p f xs
