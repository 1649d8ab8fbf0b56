-- ===== src/Server/Offline.antt =====
-- server/offline.py and server/db/messages.py: packets that wait for a user who is away. Rows with
-- one `created_at` are read in the order of insertion.
pub mod Tests
pub mod Queue
use mathlib.Core.List.{map}
use chat_terminal.Common.{
  ℕ, String, Bool, not, ◌&&◌, List, [], ◌∷◌, string_eq, ◌==◌, ltb, leb, where_rows, if◌then◌else◌,
}
use chat_terminal.Server.World.{World, Env, Queued, insert_or_ignore}
use chat_terminal.Server.Exec.{Exec, modify, gets}

-- `INSERT OR IGNORE INTO offline_queue`: a row with the id of another row is dropped.
unfoldable pub enqueue_row : Queued → List Queued → List Queued
enqueue_row row rows = insert_or_ignore (λ q. q.id == row.id) row rows

unfoldable pub enqueue : Env → String → String → String → Exec (Unit {0})
unfolding enqueue_row
enqueue env msg_id to_user packet = modify λ w. record w {
  offline_queue =
      enqueue_row (record { id = msg_id; to_user = to_user; packet = packet; created_at = env.now })
        w.offline_queue;
}

-- `ORDER BY created_at ASC`
unfoldable pub insert_by_time : Queued → List Queued → List Queued
insert_by_time q [] = q ∷ []
insert_by_time q (r ∷ rs) =
    if leb q.created_at r.created_at then q ∷ r ∷ rs else r ∷ insert_by_time q rs

unfoldable pub sort_by_time : List Queued → List Queued
unfolding insert_by_time
sort_by_time [] = []
sort_by_time (q ∷ qs) = insert_by_time q (sort_by_time qs)

unfoldable pub get_queued : String → ℕ → List Queued → List Queued
unfolding sort_by_time
get_queued to_user since rows =
    sort_by_time (where_rows (λ q. q.to_user == to_user && ltb since q.created_at) rows)

unfoldable pub clear_queue : String → List Queued → List Queued
clear_queue to_user rows = where_rows (λ q. not (q.to_user == to_user)) rows

unfoldable pub flush : String → ℕ → Exec (List String)
unfolding get_queued
flush to_user since = gets λ w. map (λ q. q.packet) (get_queued to_user since w.offline_queue)

unfoldable pub clear : String → Exec (Unit {0})
unfolding clear_queue
clear to_user = modify λ w. record w { offline_queue = clear_queue to_user w.offline_queue }
