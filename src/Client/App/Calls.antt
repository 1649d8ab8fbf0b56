-- ===== src/Client/App/Calls.antt =====
-- client/app.py: /call and /verify.
use chat_terminal.Common.{
  String, Bool, true, false, not, ◌||◌, ◌&&◌, Option, none, some, List, [], ◌∷◌, string_eq, ◌==◌,
  if◌then◌else◌, leb, length, take, map,
}
use chat_terminal.Common.Dict.{Dict, lookup, erase}
use chat_terminal.Common.Exec.{gets, modify, ◌>>=◌, ◌>>◌, try_else}
use chat_terminal.Shared.Text.{is_empty}
use chat_terminal.Shared.Words.{concat, join, part, lstrip_at, str_take}
use chat_terminal.Client.World.{CallRow, CallState}
use chat_terminal.Client.Fingerprint.{safety_number}
use chat_terminal.Client.Db.Calls
use chat_terminal.Client.Db.Contacts.{get_my_keys, get_public_key, set_verified}
use chat_terminal.Client.CallHandler as Call
use chat_terminal.Client.App.{
  App, Act, Host, on_world, notify, request_public_key, refresh_contacts,
}
use chat_terminal.Client.App.Rooms.{with_argument}

abbrev usage : String
usage = "Usage: /call start|accept|decline|end|mute|unmute|ptt|talk|history"

unfoldable pub start : Host → String → Act (Unit {0})
unfolding on_world Call.invite str_take
start host target =
    try_else
      (do
        session_id ← on_world host (λ e. Call.invite e target)
        notify host ("Calling " ∷ target ∷ ": " ∷ str_take 8 session_id ∷ []))
      (notify host ("Call failed: " ∷ host.exc ∷ []))

abbrev first_key : Dict String (String × Option String) → String
first_key [] = ""
first_key ((k, _) ∷ _) = k

-- The session that is named, or else the first call that waits
unfoldable pub pending_session : List String → App → String
unfolding part
pending_session parts a = if leb 3 (length parts) then part 2 parts else first_key a.pending_calls

abbrev answered : String → App → App
answered session_id a = record a { pending_calls = erase session_id a.pending_calls }

unfoldable pub accept : Host → String → Act (Unit {0})
unfolding on_world Call.accept str_take
accept host session_id = do
  call ← gets (λ a. lookup session_id a.pending_calls)
  elim call [
    | none ↦ notify host ("No pending call." ∷ [])
    | some found ↦ if is_empty session_id then notify host ("No pending call." ∷ []) else (do
      on_world host (λ e. Call.accept e session_id found.1)
      modify (answered session_id)
      notify host ("Call accepted: " ∷ str_take 8 session_id ∷ []))
  ]

unfoldable pub decline : Host → String → Act (Unit {0})
unfolding on_world Call.decline str_take
decline host session_id = if is_empty session_id then notify host ("No pending call." ∷ []) else (do
  on_world host (λ e. Call.decline e session_id)
  modify (answered session_id)
  notify host ("Call declined: " ∷ str_take 8 session_id ∷ []))

-- The session that is named, or else the active one
unfoldable pub active_or_named : List String → App → String
unfolding part
active_or_named parts a =
    if leb 3 (length parts)
    then part 2 parts
    else elim a.world.call.active_session [ none ↦ "" | some s ↦ s ]

unfoldable pub end_call : Host → String → Act (Unit {0})
unfolding on_world Call.end str_take
end_call host session_id = if is_empty session_id then notify host ("No active call." ∷ []) else (do
  on_world host (λ e. Call.end e session_id)
  notify host ("Call ended: " ∷ str_take 8 session_id ∷ []))

-- A method of the call handler that only sets its state
abbrev pub adjust : (CallState → CallState) → App → App
adjust f a = record a { world = record a.world { call = f a.world.call } }

-- `not (len(parts) >= 3 and parts[2].lower() in ("off", "0", "false"))`
unfoldable pub is_on : Host → List String → Bool
unfolding part
is_on host parts =
    let word = host.lower (part 2 parts) in
    not (leb 3 (length parts) && (word == "off" || word == "0" || word == "false"))

label : String → CallRow → String
unfolding str_take
label me row =
    let peer = if row.from_user == me then row.to_user else row.from_user in
    concat (str_take 8 row.id ∷ " " ∷ peer ∷ " " ∷ row.status ∷ [])

unfoldable pub history : Host → Act (Unit {0})
unfolding Calls.get_history label join
history host = do
  me ← gets (λ a. a.username)
  rows ← gets (λ a. Calls.get_history me 20 a.world.calls)
  elim rows [
    | [] ↦ notify host ("No call history." ∷ [])
    | row ∷ rest ↦ notify host (join " | " (map (label me) (take 3 (row ∷ rest))) ∷ [])
  ]

unfoldable pub call_action : Host → String → List String → Act (Unit {0})
unfolding start pending_session accept decline active_or_named end_call Call.mute is_on
    Call.push_to_talk Call.set_talking history lstrip_at part
call_action host action parts =
    if action == "start" || action == "invite"
    then with_argument host 3 "Usage: /call start @user" parts
        (start host (lstrip_at (part 2 parts)))
    else if action == "accept"
    then gets (pending_session parts) >>= accept host
    else if action == "decline"
    then gets (pending_session parts) >>= decline host
    else if action == "end"
    then gets (active_or_named parts) >>= end_call host
    else if action == "mute"
    then modify (adjust (Call.mute true)) >> notify host ("Call muted" ∷ [])
    else if action == "unmute"
    then modify (adjust (Call.mute false)) >> notify host ("Call unmuted" ∷ [])
    else if action == "ptt"
    then modify (adjust (Call.push_to_talk (is_on host parts)))
      >> notify host ((if is_on host parts then "Push-to-talk on" else "Push-to-talk off") ∷ [])
    else if action == "talk"
    then modify (adjust (Call.set_talking (is_on host parts)))
      >> notify host ((if is_on host parts then "Talking" else "Push-to-talk muted") ∷ [])
    else if action == "history"
    then history host
    else notify host (usage ∷ [])

-- `_call_command`
unfoldable pub call_command : Host → List String → Act (Unit {0})
unfolding call_action
call_command host parts = do
  ready ← gets (λ a. a.logged_in)
  if not ready || not (leb 2 (length parts))
      then notify host (usage ∷ [])
      else call_action host (host.lower (part 1 parts)) parts

-- A key that is there and is not empty
abbrev there : Option String → Option String
there none = none
there (some k) = if is_empty k then none else some k

-- The safety number of two keys, if both decode
unfoldable pub number_of : Host → String → String → Option String
unfolding safety_number
number_of host mine theirs = elim (host.base.suite.b64decode mine) [
  | none ↦ none
  | some a ↦ elim (host.base.suite.b64decode theirs) [
    | none ↦ none
    | some b ↦ some (host.from_codes (safety_number host.sha256 a b))
  ]
]

abbrev verified : String → App → App
verified username a = record a {
  world = record a.world { contacts = set_verified username true a.world.contacts };
}

-- The overlay with the number, and what is done with its answer
unfoldable pub confirm : Host → String → String → Act (Unit {0})
unfolding set_verified refresh_contacts
confirm host username number =
    if host.confirms username number
    then (do
      modify (verified username)
      modify refresh_contacts
      notify host (username ∷ " verified" ∷ []))
    else notify host ("Verification cancelled" ∷ [])

unfoldable pub verify_user : Host → String → Act (Unit {0})
unfolding get_my_keys get_public_key request_public_key number_of confirm
verify_user host username = do
  keys ← gets (λ a. get_my_keys a.world.account)
  theirs ← gets (λ a. get_public_key username a.world.contacts)
  elim (there keys.1) [
    | none ↦ notify host ("No local public key found. Register/login with keys first." ∷ [])
    | some mine ↦ elim (there theirs) [
      | none ↦ do
        request_public_key host username
        notify host ("Fetching public key for " ∷ username ∷ ". Try /verify again." ∷ [])
      | some key ↦ elim (number_of host mine key) [
        | none ↦ notify host ("Could not compute safety number: " ∷ host.exc ∷ [])
        | some number ↦ confirm host username number
      ]
    ]
  ]

-- `_verify_command`
unfoldable pub verify_command : Host → List String → Act (Unit {0})
unfolding verify_user lstrip_at part
verify_command host parts =
    with_argument host 2 "Usage: /verify @username" parts
      (verify_user host (lstrip_at (part 1 parts)))
