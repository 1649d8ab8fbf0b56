-- ===== src/Server/Rooms/Membership.antt =====
-- Who is a member of a room of server/rooms.py, by the test that server/ws_server.py makes.
use mathlib.Core.List.{map}
use chat_terminal.Common.{
  ℕ, String, ◌≡◌, refl, sym, ◌∙◌, ap, Bool, true, false, not, ◌&&◌, ◌||◌, List, [], ◌∷◌, ◌++◌,
  arith, string_eq, eq_iff, ◌==◌, exists_row, where_rows, Bool-cases, inl, inr,
}
use chat_terminal.Server.World.{World, Env, Member}
use chat_terminal.Server.Exec.{ok}
use chat_terminal.Server.Rooms.{room_exists, join_room, leave_room, get_members, add_member}

-- `username in await rooms.get_members(room_id)`
abbrev pub is_member : String → String → World → Bool
is_member room_id username w = exists_row (λ m. m == username) (get_members room_id w)

-- Membership read off the rows
abbrev in_rows : String → String → List Member → Bool
in_rows r u rows =
    exists_row (λ m. m == u) (map (λ m. m.username) (where_rows (λ m. m.room_id == r) rows))

in_rows-exists :
    (r u : String) (rows : List Member)
    → in_rows r u rows ≡ exists_row (λ m. m.room_id == r && m.username == u) rows
in_rows-exists r u [] = refl
in_rows-exists r u (m ∷ ms) = ground (arith, in_rows-exists r u ms)

exists-append :
    (p : Member → Bool) (rows : List Member) (row : Member)
    → exists_row p (rows ++ row ∷ []) ≡ (exists_row p rows || p row)
exists-append p [] row = ground arith
exists-append p (m ∷ ms) row = ground (arith, exists-append p ms row)

in_rows-remove :
    (r u r' u' : String) (rows : List Member)
    → exists_row
        (λ m. m.room_id == r' && m.username == u')
        (where_rows (λ m. not (m.room_id == r && m.username == u)) rows)
      ≡ (not (r == r' && u == u') && exists_row (λ m. m.room_id == r' && m.username == u') rows)
in_rows-remove r u r' u' [] = ground arith
in_rows-remove r u r' u' (m ∷ ms) = ground (
  arith,
  in_rows-remove r u r' u' ms,
  eq_iff m.room_id r,
  eq_iff m.room_id r',
  eq_iff r r',
  eq_iff m.username u,
  eq_iff m.username u',
  eq_iff u u',
)

same-member :
    (r u r' u' : String) (rows : List Member)
    → exists_row (λ m. m.room_id == r && m.username == u) rows ≡ true
    → (r == r' && u == u') ≡ true
    → exists_row (λ m. m.room_id == r' && m.username == u') rows ≡ true
same-member r u r' u' rows h e = ground (arith, h, e, eq_iff r r', eq_iff u u')

in_rows-add :
    (r u : String) (now : ℕ) (r' u' : String) (rows : List Member)
    → in_rows r' u' (add_member r u now rows) ≡ (in_rows r' u' rows || (r == r' && u == u'))
unfolding add_member
in_rows-add r u now r' u' rows =
    let row : Member = record { room_id = r; username = u; joined_at = now } in
    elim (Bool-cases (exists_row (λ m. m.room_id == r && m.username == u) rows)) [
      | inl e ↦ rw e (
          in_rows-exists r' u' rows
          ∙ ground (arith, same-member r u r' u' rows e)
          ∙ ap (λ b. b || (r == r' && u == u')) (sym (in_rows-exists r' u' rows)))
      | inr e ↦ rw e (
          in_rows-exists r' u' (rows ++ row ∷ [])
          ∙ exists-append (λ m. m.room_id == r' && m.username == u') rows row
          ∙ ap (λ b. b || (r == r' && u == u')) (sym (in_rows-exists r' u' rows)))
    ]

module _ (env : Env) (room_id username : String) (w : World) (r u : String) where
  -- After a join of a room that exists the user is a member of it, and nobody's membership of any
  -- room is lost or added otherwise; a join of a room that does not exist is refused and changes nothing.
  pub is_member-join_room :
      (room_exists room_id w ≡ true
        → ((join_room env room_id username w).0 ≡ ok true)
          × (is_member r u (join_room env room_id username w).1
              ≡ (is_member r u w || (room_id == r && username == u))))
      × (room_exists room_id w ≡ false → join_room env room_id username w ≡ (ok false, w))
  unfolding join_room get_members add_member
  is_member-join_room =
      ((λ e. rw e (refl, in_rows-add room_id username env.now r u w.room_members)), λ e. rw e refl)

  -- After a leave the user is no member of the room, and every other membership is as before.
  pub is_member-leave_room :
      is_member r u (leave_room room_id username w).1
      ≡ (not (room_id == r && username == u) && is_member r u w)
  unfolding leave_room get_members
  is_member-leave_room =
      in_rows-exists r u
        (where_rows (λ m. not (m.room_id == room_id && m.username == username)) w.room_members)
      ∙ in_rows-remove room_id username r u w.room_members
      ∙ ap (λ b. not (room_id == r && username == u) && b) (sym (in_rows-exists r u w.room_members))
