-- ===== src/Client/MessageHandler/Fixtures.antt =====
-- Two users, of whom the one knows the other's key, for witnesses.
use chat_terminal.Common.{refl, false, none, some, [], ◌∷◌, string_eq}
use chat_terminal.Client.World.{World}
use chat_terminal.Client.Db.Contacts.{get_public_key}
use chat_terminal.Client.MessageHandler.Delivery.{Exchange}
use chat_terminal.Client.Samples.{tally}
use chat_terminal.Client.Fixtures.{suite-GoodSuite, user, empty}

-- A client that knows bob's key
abbrev pub knowing : World
knowing = record empty {
  contacts =
      record {
        username = "bob";
        public_key = some (tally (4 ∷ []));
        fingerprint = none;
        verified = false;
        added_at = 1;
        status = "online";
      }
      ∷ [];
}

-- What alice and bob rely on for a greeting
pub exchange : Exchange (user "alice") (user "bob") knowing "hi" (tally (4 ∷ [])) (4 ∷ []) (13 ∷ [])
unfolding get_public_key
exchange = record {
  good = suite-GoodSuite;
  same_suite = refl;
  unlocked = refl;
  known = refl;
  there = refl;
  decoded = refl;
  nonce_12 = refl;
  shared = refl;
  utf8 = refl;
  encoded = refl;
  named = refl;
  identified = refl;
  late = refl;
}
