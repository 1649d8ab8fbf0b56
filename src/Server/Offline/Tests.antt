-- ===== src/Server/Offline/Tests.antt =====
-- Witnesses of the offline queue.
use mathlib.Core.List.{Perm}
use chat_terminal.Common.{String, ◌≡◌, ◌≢◌, refl, List, [], ◌∷◌, string_eq, arith}
use chat_terminal.Server.World.{Queued}
use chat_terminal.Server.World.Samples.{waiting}
use chat_terminal.Server.Offline.{get_queued, enqueue_row}
use chat_terminal.Server.Offline.Queue.{enqueue_row_queued}

abbrev older : Queued
older = record { id = "m0"; to_user = "bob"; packet = "first"; created_at = 400 }

abbrev rows : List Queued
rows = waiting ∷ older ∷ []

oldest_first : get_queued "bob" 0 rows ≡ older ∷ waiting ∷ []
unfolding get_queued
oldest_first = refl

enqueue_row_queued_example :
    (◌≡◌ {A = String} "bob" "bob"
      → Perm
          (get_queued "bob" 0 (enqueue_row waiting (older ∷ [])))
          (waiting ∷ get_queued "bob" 0 (older ∷ [])))
    × (◌≢◌ {A = String} "bob" "bob"
        → get_queued "bob" 0 (enqueue_row waiting (older ∷ [])) ≡ get_queued "bob" 0 (older ∷ []))
enqueue_row_queued_example = enqueue_row_queued (older ∷ []) waiting "bob" 0 refl (omega arith)
