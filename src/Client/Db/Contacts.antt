-- ===== src/Client/Db/Contacts.antt =====
-- client/db/contacts.py: the account, the contacts and their keys.
use chat_terminal.Common.{
  ℕ, String, Bool, false, Option, none, some, List, [], ◌∷◌, string_eq, ◌==◌, map, ◌&&◌, ◌||◌,
  if◌then◌else◌,
}
use chat_terminal.Server.World.{insert_or_ignore, find_row, update_rows}
use chat_terminal.Shared.Text.{precedes}
use chat_terminal.Client.World.{Env, Account, Contact}

unfoldable pub get_account : List Account → Option Account
get_account [] = none
get_account (a ∷ rows) = some a

-- `save_account`: the old row goes.
unfoldable pub save_account : Account → List Account → List Account
save_account account rows = account ∷ []

unfoldable pub update_token : String → List Account → List Account
update_token token rows = map {A = Account} (λ a. record a { session_token = some token }) rows

unfoldable pub clear_session_token : List Account → List Account
clear_session_token rows = map {A = Account} (λ a. record a { session_token = none }) rows

abbrev pub new_contact : ℕ → String → Option String → Contact
new_contact now username public_key = record {
  username = username;
  public_key = public_key;
  fingerprint = none;
  verified = false;
  added_at = now;
  status = "offline";
}

unfoldable pub add_contact : ℕ → String → Option String → List Contact → List Contact
add_contact now username public_key rows =
    insert_or_ignore (λ c. c.username == username) (new_contact now username public_key) rows

unfoldable pub set_status : String → String → List Contact → List Contact
set_status username status rows =
    update_rows (λ c. c.username == username) (λ c. record c { status = status }) rows

-- `store_public_key`, with the fingerprint of what the key decodes to
unfoldable pub store_public_key : Env → String → String → List Contact → List Contact
unfolding add_contact
store_public_key env username public_key_b64 rows =
    let fingerprint : Option String = elim (env.suite.b64decode public_key_b64) [
      | none ↦ none
      | some k ↦ some (env.fingerprint k)
    ] in
    update_rows (λ c. c.username == username)
      (λ c. record c { public_key = some public_key_b64; fingerprint = fingerprint })
      (add_contact env.now username none rows)

unfoldable pub get_public_key : String → List Contact → Option String
get_public_key username rows = elim (find_row (λ c. c.username == username) rows) [
  | none ↦ none
  | some c ↦ c.public_key
]

unfoldable pub set_verified : String → Bool → List Contact → List Contact
set_verified username verified rows =
    update_rows (λ c. c.username == username) (λ c. record c { verified = verified }) rows

unfoldable pub store_my_keys : String → String → List Account → List Account
store_my_keys private_key_encrypted public_key_b64 rows =
    map {A = Account}
      (λ a. record a { private_key = some private_key_encrypted; public_key = some public_key_b64 })
      rows

unfoldable pub get_my_keys : List Account → Option String × Option String
get_my_keys [] = (none, none)
get_my_keys (a ∷ rows) = (a.private_key, a.public_key)

-- Whether a row comes before another: `ORDER BY status DESC, username ASC`
listed_before : Contact → Contact → Bool
listed_before c d =
    precedes d.status c.status || (c.status == d.status && precedes c.username d.username)

insert_listed : Contact → List Contact → List Contact
unfolding listed_before
insert_listed c [] = c ∷ []
insert_listed c (d ∷ rows) =
    let rest = insert_listed c rows in if listed_before d c then d ∷ rest else c ∷ d ∷ rows

unfoldable pub all_contacts : List Contact → List Contact
unfolding insert_listed
all_contacts [] = []
all_contacts (c ∷ rows) = insert_listed c (all_contacts rows)
