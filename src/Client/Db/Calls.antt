-- ===== src/Client/Db/Calls.antt =====
-- client/db/calls.py.
use chat_terminal.Common.{
  ℕ, String, Bool, false, ◌||◌, none, some, List, [], ◌∷◌, string_eq, ◌==◌, leb, take, where_rows,
  if◌then◌else◌,
}
use chat_terminal.Server.World.{insert_or_ignore, update_rows}
use chat_terminal.Client.World.{CallRow}

abbrev pub new_call : String → String → String → ℕ → String → CallRow
new_call id from_user to_user started_at status = record {
  id = id;
  from_user = from_user;
  to_user = to_user;
  started_at = started_at;
  ended_at = none;
  duration = none;
  status = status;
  relay_used = false;
}

unfoldable pub save_call : String → String → String → ℕ → String → List CallRow → List CallRow
save_call id from_user to_user started_at status rows =
    insert_or_ignore (λ r. r.id == id) (new_call id from_user to_user started_at status) rows

unfoldable pub end_call : String → ℕ → ℕ → String → Bool → List CallRow → List CallRow
end_call id ended_at duration status relay_used rows =
    update_rows (λ r. r.id == id)
      (λ r. record r {
        ended_at = some ended_at;
        duration = some duration;
        status = status;
        relay_used = relay_used;
      })
      rows

insert_newest : CallRow → List CallRow → List CallRow
insert_newest c [] = c ∷ []
insert_newest c (d ∷ rows) =
    let rest = insert_newest c rows in
    if leb d.started_at c.started_at then c ∷ d ∷ rows else d ∷ rest

newest_first : List CallRow → List CallRow
unfolding insert_newest
newest_first [] = []
newest_first (c ∷ rows) = insert_newest c (newest_first rows)

-- `get_history`; rows of one time may come in any order.
unfoldable pub get_history : String → ℕ → List CallRow → List CallRow
unfolding newest_first
get_history self_user limit rows =
    take limit
      (newest_first (where_rows (λ c. c.from_user == self_user || c.to_user == self_user) rows))
