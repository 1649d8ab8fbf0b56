-- ===== src/Client/App/Files.antt =====
-- client/app.py: /file. A transfer runs to its end within the command.
use chat_terminal.Common.{
  ℕ, String, not, ◌||◌, Option, none, some, List, [], ◌∷◌, string_eq, ◌==◌, if◌then◌else◌, leb,
  length, take, map,
}
use chat_terminal.Common.Dict.{lookup}
use chat_terminal.Common.Exec.{gets, or_raise, ◌>>=◌, ◌>>◌, try_else}
use chat_terminal.Shared.Words.{concat, join, part, lstrip_at, after_words, str_take}
use chat_terminal.Client.FileTable.{FileRow, Direction, Completion, get_file, get_recent_files}
use chat_terminal.Client.FileHandler.{Meta}
use chat_terminal.Client.FileHandler as File
use chat_terminal.Client.App.{App, Act, Host, on_world, notify}
use chat_terminal.Client.App.Rooms.{with_argument}

abbrev usage : String
usage = "Usage: /file send|accept|resume|cancel|list"

-- A transfer with the notice of its success, or the notice that it has failed
abbrev attempt : Host → String → Act (Unit {0}) → Act (Unit {0})
attempt host failure action = try_else action (notify host (failure ∷ host.exc ∷ []))

unfoldable pub send : Host → String → String → Act (Unit {0})
unfolding on_world File.send str_take
send host to_user path = attempt host "File send failed: " (do
  found ← or_raise (host.read_file path)
  let (name, raw) = found
  file_id ← on_world host (λ e. File.send e host.relay to_user path name raw)
  notify host ("File sent: " ∷ str_take 8 file_id ∷ []))

-- The offer that a row of the table stands for
abbrev recorded : Option FileRow → Option Meta
recorded none = none
recorded (some r) = some (record {
  name = r.name;
  total_chunks = r.total_chunks;
  from_user = r.from_user;
  file_key = elim r.file_key as (λ _. String) [ none ↦ "" | some k ↦ k ];
})

-- The offer of a file, as it was announced or else as it is stored
unfoldable pub offer : String → App → Option Meta
unfolding get_file
offer file_id a = elim (lookup file_id a.file_offers) [
  | some meta ↦ some meta
  | none ↦ recorded (get_file file_id a.world.files)
]

unfoldable pub accept : Host → String → Act (Unit {0})
unfolding offer on_world File.receive str_take
accept host file_id = do
  found ← gets (offer file_id)
  elim found [
    | none ↦ notify host ("Unknown file: " ∷ str_take 8 file_id ∷ [])
    | some meta ↦ attempt host "Download failed: " (do
      dest ← on_world host (λ e. File.receive e host.relay file_id meta)
      notify host ("Saved file: " ∷ dest ∷ []))
  ]

abbrev content_at : Host → String → Option (List ℕ)
content_at host path = elim (host.read_file path) [ none ↦ none | some found ↦ some found.1 ]

unfoldable pub resume : Host → String → Act (Unit {0})
unfolding on_world File.resume_send str_take
resume host file_id = attempt host "Resume failed: " (do
  on_world host (λ e. File.resume_send e host.relay (content_at host) file_id)
  notify host ("Resumed file: " ∷ str_take 8 file_id ∷ []))

unfoldable pub cancel : Host → String → Act (Unit {0})
unfolding on_world File.cancel str_take
cancel host file_id = do
  on_world host (λ e. File.cancel e file_id)
  notify host ("Cancelled file: " ∷ str_take 8 file_id ∷ [])

direction_of : FileRow → String
direction_of r = elim r.direction [ Direction.send ↦ "send" | Direction.recv ↦ "recv" ]

state_of : FileRow → String
state_of r = elim r.complete [ Completion.done ↦ "done" | _ ↦ "pending" ]

unfoldable label : FileRow → String
unfolding direction_of state_of str_take
label r = concat (str_take 8 r.id ∷ " " ∷ direction_of r ∷ " " ∷ state_of r ∷ " " ∷ r.name ∷ [])

unfoldable pub list : Host → Act (Unit {0})
unfolding get_recent_files label join
list host = do
  files ← gets (λ a. get_recent_files 20 a.world.files)
  elim files [
    | [] ↦ notify host ("No file transfers." ∷ [])
    | f ∷ rest ↦ notify host (join " | " (map label (take 3 (f ∷ rest))) ∷ [])
  ]

unfoldable pub file_action : Host → String → List String → String → Act (Unit {0})
unfolding send accept resume cancel list lstrip_at after_words part
file_action host action parts line =
    if action == "send"
    then with_argument host 4 "Usage: /file send @user <path>" parts
        (send host (lstrip_at (part 2 parts)) (after_words 3 line))
    else if action == "accept" || action == "download"
    then with_argument host 3 "Usage: /file accept <file_id>" parts (accept host (part 2 parts))
    else if action == "resume"
    then with_argument host 3 "Usage: /file resume <file_id>" parts (resume host (part 2 parts))
    else if action == "cancel"
    then with_argument host 3 "Usage: /file cancel <file_id>" parts (cancel host (part 2 parts))
    else if action == "list"
    then list host
    else notify host (usage ∷ [])

-- `_file_command`
unfoldable pub file_command : Host → List String → String → Act (Unit {0})
unfolding file_action
file_command host parts line = do
  ready ← gets (λ a. a.logged_in)
  if not ready || not (leb 2 (length parts))
      then notify host (usage ∷ [])
      else file_action host (host.lower (part 1 parts)) parts line
