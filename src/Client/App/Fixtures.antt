-- ===== src/Client/App/Fixtures.antt =====
-- An application and what it is given, for witnesses.
use chat_terminal.Common.{true, false, none, some, [], ◌∷◌}
use chat_terminal.Client.Samples.{zeros, plain_aead}
use chat_terminal.Client.Fixtures.{user, empty}
use chat_terminal.Client.MessageHandler.Fixtures.{knowing}
use chat_terminal.Client.App.{App, Host}

abbrev pub host : Host
host = record {
  base = user "alice";
  relay = record {
    suite = record {
      aead = plain_aead;
      sha256_hex = λ b. zeros 64;
      nonce = λ n. zeros 12;
      decode = λ b. none;
      int_of = λ s. none;
    };
    connections = [];
    download = [];
  };
  read_file = λ path. none;
  meanwhile = λ req_id a. a;
  confirms = λ name number. true;
  lower = λ s. s;
  decimal = λ n. "";
  exc = "";
  sha256 = λ b. [];
  from_codes = λ cs. "";
  percent = λ done total. 0;
  tenths = λ n. 0;
}

abbrev pub app : App
app = record {
  world = empty;
  logged_in = true;
  username = "alice";
  crypto_ctx = none;
  current_chat = some "bob";
  messages = [];
  contacts = [];
  rooms = [];
  unread = [];
  file_offers = [];
  file_progress = [];
  pending_calls = [];
  auth_result = none;
  buf = "ac";
  cursor = 1;
  conn_status = "online";
  reconnect_att = 0;
  notice = "";
  notice_ts = 0;
  dirty = false;
  running = true;
}

-- alice, who knows bob's key and has typed a greeting, and bob, who has the chat with alice open
abbrev pub alice_app : App
alice_app = record app { world = knowing; crypto_ctx = some (4 ∷ []); buf = " hi" }

abbrev pub bob_app : App
bob_app = record app { username = "bob"; crypto_ctx = some (4 ∷ []); current_chat = some "alice" }
