-- ===== src/Server/Offline/Queue.antt =====
-- The offline queue as its users see it: what is queued comes back in order, once, to its user.
use mathlib.Core.List.{Perm, perm_middle}
use mathlib.Core.List.Perm
use chat_terminal.Common.{
  ℕ, ◌≤◌, ◌<◌, String, ◌≡◌, ◌≢◌, refl, Bool, true, false, ◌&&◌, List, [], ◌∷◌, ◌++◌, arith,
  string_eq, eq_iff, ◌==◌, ltb, leb, where_rows, exists_row, Bool-cases, inl, inr, if◌then◌else◌,
  beq_ne, sym, ap, append-nil, lt→ltb,
}
use chat_terminal.Server.World.{Queued}
use chat_terminal.Server.Offline.{enqueue_row, insert_by_time, sort_by_time, get_queued}

-- Oldest first.
abbrev pub InOrder : ℕ → List Queued → Type 0
InOrder low [] = Unit
InOrder low (q ∷ qs) = (low ≤ q.created_at) × InOrder q.created_at qs

InOrder-mono : (low low' : ℕ) (qs : List Queued) → low ≤ low' → InOrder low' qs → InOrder low qs
InOrder-mono low low' [] h o = tt
InOrder-mono low low' (q ∷ qs) h o = (omega arith, o.1)

insert-InOrder :
    (low : ℕ) (q : Queued) (qs : List Queued)
    → low ≤ q.created_at
    → InOrder low qs
    → InOrder low (insert_by_time q qs)
unfolding insert_by_time
insert-InOrder low q [] h o = (h, tt)
insert-InOrder low q (r ∷ rs) h o = ground (arith, insert-InOrder r.created_at q rs)

sort-InOrder : (qs : List Queued) → InOrder 0 (sort_by_time qs)
unfolding sort_by_time
sort-InOrder [] = tt
sort-InOrder (q ∷ qs) = insert-InOrder 0 q (sort_by_time qs) (omega arith) (sort-InOrder qs)

insert-perm : (q : Queued) (qs : List Queued) → Perm (insert_by_time q qs) (q ∷ qs)
unfolding insert_by_time
insert-perm q [] = Perm.refl (q ∷ [])
insert-perm q (r ∷ rs) = elim (Bool-cases (leb q.created_at r.created_at)) [
  | inl e ↦ rw e (Perm.refl (q ∷ r ∷ rs))
  | inr e ↦ rw e (Perm.trans (Perm.cons r (insert-perm q rs)) (Perm.swap q r rs))
]

sort-perm : (qs : List Queued) → Perm (sort_by_time qs) qs
unfolding sort_by_time
sort-perm [] = Perm.refl []
sort-perm (q ∷ qs) = Perm.trans (insert-perm q (sort_by_time qs)) (Perm.cons q (sort-perm qs))

-- A flush returns exactly the user's rows that are newer than `since`, each as often as it is
-- stored, and the oldest first.
pub get_queued_lem :
    (u : String) (since : ℕ) (rows : List Queued)
    → Perm
        (get_queued u since rows)
        (where_rows (λ q. q.to_user == u && ltb since q.created_at) rows)
      × InOrder 0 (get_queued u since rows)
unfolding get_queued
get_queued_lem u since rows =
    let found = where_rows (λ q. q.to_user == u && ltb since q.created_at) rows in
    (sort-perm found, sort-InOrder found)

-- No two rows share an id.
abbrev pub DistinctIds : List Queued → Type 0
DistinctIds [] = Unit
DistinctIds (q ∷ qs) = (exists_row (λ r. r.id == q.id) qs ≡ false) × DistinctIds qs

exists-append :
    (p : Queued → Bool) (rows : List Queued) (row : Queued)
    → exists_row p rows ≡ false
    → p row ≡ false
    → exists_row p (rows ++ row ∷ []) ≡ false
exists-append p [] row h k = ground arith
exists-append p (q ∷ qs) row h k = ground (arith, exists-append p qs row)

append-DistinctIds :
    (rows : List Queued) (row : Queued)
    → exists_row (λ r. r.id == row.id) rows ≡ false
    → DistinctIds rows
    → DistinctIds (rows ++ row ∷ [])
append-DistinctIds [] row h d = (refl, tt)
append-DistinctIds (q ∷ qs) row h d = ground (
  arith,
  append-DistinctIds qs row,
  exists-append (λ r. r.id == q.id) qs row,
  eq_iff q.id row.id,
  eq_iff row.id q.id,
)

where-append :
    (p : Queued → Bool) (rows : List Queued) (row : Queued)
    → where_rows p (rows ++ row ∷ []) ≡ where_rows p rows ++ (if p row then row ∷ [] else [])
where-append p [] row = ground arith
where-append p (q ∷ qs) row = ground (arith, where-append p qs row)

sort-append-perm :
    (rows : List Queued) (row : Queued)
    → Perm (sort_by_time (rows ++ row ∷ [])) (row ∷ sort_by_time rows)
sort-append-perm rows row =
    Perm.trans (sort-perm (rows ++ row ∷ [])) (
      Perm.trans (perm_middle rows []) (rw append-nil (Perm.cons row (Perm.symm (sort-perm rows)))))

module _ (rows : List Queued) (row : Queued) where
  -- A row with a new id joins the queue at its end; a row whose id is there is dropped. So no two
  -- rows ever share an id.
  pub enqueue_row-DistinctIds : DistinctIds rows → DistinctIds (enqueue_row row rows)
  unfolding enqueue_row
  enqueue_row-DistinctIds h = elim (Bool-cases (exists_row (λ r. r.id == row.id) rows)) [
    | inl e ↦ rw e h
    | inr e ↦ rw e (append-DistinctIds rows row e h)
  ]

  -- The packet of a dropped row is lost: a flush of its recipient is the same without it.
  pub enqueue_row_dropped :
      (u : String) (since : ℕ)
      → exists_row (λ r. r.id == row.id) rows ≡ true
      → get_queued u since (enqueue_row row rows) ≡ get_queued u since rows
  unfolding enqueue_row
  enqueue_row_dropped u since e = rw e refl

  -- The packet of a row with a new id, and a time after `since`, is in the next flush of its
  -- recipient, along with the rows that were in it before, and in no other user's flush.
  pub enqueue_row_queued :
      (u : String) (since : ℕ)
      → exists_row (λ r. r.id == row.id) rows ≡ false
      → since < row.created_at
      → (u ≡ row.to_user
          → Perm (get_queued u since (enqueue_row row rows)) (row ∷ get_queued u since rows))
        × (u ≢ row.to_user → get_queued u since (enqueue_row row rows) ≡ get_queued u since rows)
  unfolding enqueue_row get_queued
  enqueue_row_queued u since e late =
      let found = where_rows (λ q. q.to_user == u && ltb since q.created_at) rows in
      (
        λ p.
            rw (e, where-append, (eq_iff row.to_user u).1 (sym p), lt→ltb since row.created_at late)
              (sort-append-perm found row),
        λ n.
            rw (e, where-append, beq_ne row.to_user u (λ p. n (sym p)))
              (ap sort_by_time (append-nil found)),
      )
