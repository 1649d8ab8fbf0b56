-- ===== src/Client/Db/Messages/Tests.antt =====
-- A witness of histories.
use mathlib.Core.List.{Perm}
use chat_terminal.Common.{◌++◌, ◌≡◌, min, true, List, [], ◌∷◌, length, where_rows}
use chat_terminal.Client.World.{Message}
use chat_terminal.Client.Db.Messages.{new_message, between, get_history}
use chat_terminal.Client.Db.Messages.History.{
  Every, IsAscending, NewerThan, get_history-IsAscending,
}

-- Four messages, of which one is another's, in the order in which they were stored
abbrev rows : List Message
rows =
    new_message "1" "alice" "bob" "a" 5 true
    ∷ new_message "2" "bob" "alice" "b" 3 true
    ∷ new_message "3" "carol" "bob" "c" 9 true
    ∷ new_message "4" "bob" "alice" "d" 8 true
    ∷ []

get_history-IsAscending_example :
    let history = get_history "bob" "alice" 2 rows in
    let stored = where_rows (between "alice" "bob") rows in
    (left_out : List Message) × Perm (history ++ left_out) stored
    × (length history ≡ min 2 (length stored))
    × IsAscending history
    × Every (NewerThan left_out) history
get_history-IsAscending_example = get_history-IsAscending "bob" "alice" 2 rows
