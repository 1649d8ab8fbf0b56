-- ===== src/Client/FileTable.antt =====
-- client/db/files.py and its table of client/db/schema.py. `none` in `complete` and `local_path` does
-- not occur; a cancelled transfer has `cancelled` for the -1 of the column.
use chat_terminal.Common.{
  ℕ, String, Bool, true, false, ◌&&◌, Option, none, some, List, [], ◌∷◌, string_eq, ◌==◌, leb, take,
  where_rows, if◌then◌else◌,
}
use chat_terminal.Server.World.{find_row, update_rows}

pub data Direction : Type 0 where
  send recv : Direction

pub data Completion : Type 0 where
  pending done cancelled : Completion

pub record FileRow : Type 0 where
  pub id : String
  pub name : String
  pub size : ℕ
  pub total_chunks : ℕ
  pub from_user : String
  pub to_user : String
  pub local_path : String
  pub timestamp : ℕ
  pub direction : Direction
  pub received_chunks : ℕ
  pub complete : Completion
  pub file_key : Option String

abbrev pub has_id : String → FileRow → Bool
has_id id r = r.id == id

-- `DO UPDATE SET …, file_key=COALESCE(excluded.file_key, files.file_key)`
abbrev pub overwrite : FileRow → FileRow → FileRow
overwrite new old = record new {
  received_chunks = old.received_chunks;
  complete = old.complete;
  file_key = elim new.file_key [ none ↦ old.file_key | some k ↦ some k ];
}

-- `save_file`
unfoldable pub save_file : FileRow → List FileRow → List FileRow
save_file row [] = record row { received_chunks = 0; complete = pending } ∷ []
save_file row (r ∷ rows) =
    let rest = save_file row rows in if has_id row.id r then overwrite row r ∷ rows else r ∷ rest

-- `update_file`, with the columns' new values as a function
unfoldable pub update_file : String → (FileRow → FileRow) → List FileRow → List FileRow
update_file id set rows = update_rows (has_id id) set rows

unfoldable pub get_file : String → List FileRow → Option FileRow
get_file id rows = find_row (has_id id) rows

unfoldable pub mark_complete : String → String → List FileRow → List FileRow
mark_complete id local_path rows =
    update_rows (has_id id) (λ r. record r { complete = done; local_path = local_path }) rows

abbrev is_recv : Direction → Bool
is_recv send = false
is_recv recv = true

abbrev is_pending : Completion → Bool
is_pending pending = true
is_pending _ = false

insert_by_time : FileRow → List FileRow → List FileRow
insert_by_time r [] = r ∷ []
insert_by_time r (s ∷ rows) =
    let rest = insert_by_time r rows in
    if leb r.timestamp s.timestamp then r ∷ s ∷ rows else s ∷ rest

-- `ORDER BY timestamp ASC`
unfoldable pub by_time : List FileRow → List FileRow
unfolding insert_by_time
by_time [] = []
by_time (r ∷ rows) = insert_by_time r (by_time rows)

unfoldable pub get_pending_receives : String → List FileRow → List FileRow
unfolding by_time
get_pending_receives self_user rows =
    by_time (
      where_rows (λ r. r.to_user == self_user && is_recv r.direction && is_pending r.complete) rows)

insert_latest : FileRow → List FileRow → List FileRow
insert_latest r [] = r ∷ []
insert_latest r (s ∷ rows) =
    let rest = insert_latest r rows in
    if leb s.timestamp r.timestamp then r ∷ s ∷ rows else s ∷ rest

latest_first : List FileRow → List FileRow
unfolding insert_latest
latest_first [] = []
latest_first (r ∷ rows) = insert_latest r (latest_first rows)

-- `get_recent_files`
unfoldable pub get_recent_files : ℕ → List FileRow → List FileRow
unfolding latest_first
get_recent_files limit rows = take limit (latest_first rows)
