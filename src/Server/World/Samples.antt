-- ===== src/Server/World/Samples.antt =====
-- A small world and an environment for the runs and witnesses of the server's modules.
use chat_terminal.Common.{
  ℕ, zero, suc, String, true, not, none, some, [], ◌∷◌, string_eq, nat_beq, ◌==◌, if◌then◌else◌,
}
use chat_terminal.Shared.Protocol.{obj, text, Fields, field}
use chat_terminal.Server.World.{World, Env, User, Queued, File, Chunk}

abbrev pub ids : ℕ → String
ids zero = "id0"
ids (suc n) = "id1"

-- Socket 9 is closed. "ping" is the text of a packet of type PING.
abbrev pub env : Env
env = record {
  now = 1000;
  clock = 50;
  uuid = ids;
  salt = λ n. "salt";
  up = λ ws. not (nat_beq ws 9);
  dumps = λ p. "packet";
  loads = λ s. if s == "ping" then some (obj (field "type" (text "PING") Fields.end)) else none;
  dumps_value = λ j. "value";
  pbkdf2 = λ password salt n. password;
  b64encode = λ s. s;
  b64decode = λ s. some s;
  int_of = λ s. if s == "310000" then some 310000 else none;
  checkpw = λ password stored. none;
}

-- A week and a second later
abbrev pub later : Env
later = record env { now = 605801 }

abbrev pub alice : User
alice = record {
  id = "ua";
  username = "alice";
  password = "pbkdf2_sha256$310000$salt$secret";
  public_key = none;
  created_at = 10;
  last_seen = none;
}

abbrev pub waiting : Queued
waiting = record { id = "m1"; to_user = "bob"; packet = "hello"; created_at = 500 }

abbrev pub report : File
report = record {
  id = "f1";
  name = text "report.pdf";
  size = 3;
  total_chunks = 2;
  uploader = "alice";
  recipient = "bob";
  encrypted_key = none;
  created_at = 100;
  expires_at = some 900;
}

abbrev pub first_chunk : Chunk
first_chunk = record {
  id = "c1";
  file_id = "f1";
  chunk_index = 0;
  checksum = "old";
  delivered = true;
}

-- Alice is online on socket 1, Carol on the closed socket 9; Bob is away with one packet waiting.
abbrev pub world : World
world = record {
  connections = ("alice", 1) ∷ ("carol", 9) ∷ [];
  limiter = record { rate = 30; per = 60; buckets = [] };
  calls = [];
  users = alice ∷ [];
  sessions = [];
  offline_queue = waiting ∷ [];
  rooms = record { id = "r1"; name = "den"; created_by = "alice"; created_at = 20 } ∷ [];
  room_members = record { room_id = "r1"; username = "alice"; joined_at = 20 } ∷ [];
  files = report ∷ [];
  chunks = first_chunk ∷ [];
  call_sessions = [];
  disk = ("f1", (0, 7 ∷ []) ∷ []) ∷ [];
  wire = [];
  drawn = 0;
}
