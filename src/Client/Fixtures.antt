-- ===== src/Client/Fixtures.antt =====
-- A suite, a user and a client without any rows, for witnesses.
use chat_terminal.Common.{◌+◌, ◌≡◌, refl, ap, arith, String, true, false, none, some, [], ◌∷◌}
use chat_terminal.Client.FileCrypto.{Bytes}
use chat_terminal.Client.Envelope.{Suite}
use chat_terminal.Client.Envelope.RoundTrip.{GoodSuite}
use chat_terminal.Client.Samples.{
  zeros, plain_aead, plain-GoodAead, tally, from_tally, from_tally-tally,
}
use chat_terminal.Client.World.{audio_works, World, Env, CallState, Stream}

-- Keys of one number, and their sum as the shared secret
abbrev pub added : Bytes → Bytes → Bytes
added (a ∷ _) (b ∷ _) = (a + b) ∷ []
added _ _ = []

abbrev pub suite : Suite
suite = record {
  aead = plain_aead;
  public_key = λ raw. raw;
  exchange = λ a b. some (added a b);
  hkdf = λ salt info secret. secret;
  b64encode = tally;
  b64decode = from_tally;
  utf8_encode = λ s. 104 ∷ 105 ∷ [];
  utf8_decode = λ b. some "hi";
}

pub suite-GoodSuite : GoodSuite suite
suite-GoodSuite = record { good_aead = plain-GoodAead; b64 = from_tally-tally; agree = agree }
  where
    agree : (a b : Bytes) → some (added a b) ≡ some (added b a)
    agree [] [] = refl
    agree [] (_ ∷ _) = refl
    agree (_ ∷ _) [] = refl
    agree (a ∷ _) (b ∷ _) = ap (λ n. some (n ∷ [])) (omega arith)

abbrev pub user : String → Env
user name = record {
  me = name;
  private_key = some (4 ∷ []);
  now = 1000;
  uuid = λ n. "id";
  suite = suite;
  ephemeral = λ n. (n + 3) ∷ [];
  nonce = λ n. zeros 12;
  random_key = λ n. zeros 32;
  free_port = λ n. 40000;
  utf8 = λ s. [];
  fingerprint = λ b. "";
  int_of = λ s. none;
  download_dir = λ u. u;
  join_path = λ d n. n;
  audio = audio_works;
}

abbrev pub no_call : CallState
no_call = record {
  active_session = none;
  call_start_ts = 0;
  muted = false;
  ptt_enabled = false;
  audio_stream = none;
  local_port = 0;
  peer_ip = "127.0.0.1";
  peer_port = 0;
  ephemeral_private = none;
  call_key = none;
  running = [];
}

abbrev pub empty : World
empty = record {
  account = [];
  contacts = [];
  messages = [];
  rooms = [];
  files = [];
  calls = [];
  call = no_call;
  pending = [];
  downloads = [];
  outbox = [];
  shown = [];
  drawn = 5;
}

abbrev pub stream : Stream
stream = record { number = 2; key = zeros 32; muted = false; fed = [] }

-- A call under way
abbrev pub calling : World
calling = record empty {
  call = record no_call {
    active_session = some "s";
    audio_stream = some stream;
    running = 2 ∷ [];
    muted = true;
  };
}
