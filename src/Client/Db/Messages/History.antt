-- ===== src/Client/Db/Messages/History.antt =====
-- client/db/messages.py: which messages a history has, and in which order.
use mathlib.Core.List.{Perm, perm_middle}
use mathlib.Core.List.Perm
use chat_terminal.Common.{
  append_assoc, ℕ, zero, suc, ◌≤◌, String, List, [], ◌∷◌, ◌++◌, ◌≡◌, refl, ap, ◌∙◌, inl, inr, arith,
  ltb, length, length-append, min, take, drop, where_rows, Bool-cases,
}
use chat_terminal.Client.World.{Message}
use chat_terminal.Client.Db.Messages.{insert_newest, newest_first, reversed, between, get_history}

module _ {A : Type 0} (P : A → Type 0) where
  pub Every : List A → Type 0
  Every [] = Unit
  Every (x ∷ xs) = P x × Every xs

-- A message that is not newer than t, and one that is not older
abbrev pub Until : ℕ → Message → Type 0
Until t m = m.timestamp ≤ t

abbrev pub Since : ℕ → Message → Type 0
Since t m = t ≤ m.timestamp

pub IsDescending : List Message → Type 0
unfolding Every
IsDescending [] = Unit
IsDescending (m ∷ rows) = Every (Until m.timestamp) rows × IsDescending rows

pub IsAscending : List Message → Type 0
unfolding Every
IsAscending [] = Unit
IsAscending (m ∷ rows) = Every (Since m.timestamp) rows × IsAscending rows

module _ {A : Type 0} {P Q : A → Type 0} where
  Every-weaken : (xs : List A) → ((x : A) → P x → Q x) → Every P xs → Every Q xs
  unfolding Every
  Every-weaken [] f e = tt
  Every-weaken (x ∷ xs) f e = (f x e.0, Every-weaken xs f e.1)

module _ {A : Type 0} (P : A → Type 0) where
  Every-append : (xs ys : List A) → Every P xs → Every P ys → Every P (xs ++ ys)
  unfolding Every
  Every-append [] ys e f = f
  Every-append (x ∷ xs) ys e f = (e.0, Every-append xs ys e.1 f)

  Every-take : (n : ℕ) (xs : List A) → Every P xs → Every P (take n xs)
  unfolding Every
  Every-take zero xs e = tt
  Every-take (suc n) [] e = tt
  Every-take (suc n) (x ∷ xs) e = (e.0, Every-take n xs e.1)

module _ (P : Message → Type 0) where
  Every-insert :
      (m : Message) (rows : List Message) → P m → Every P rows → Every P (insert_newest m rows)
  unfolding Every insert_newest
  Every-insert m [] h e = (h, tt)
  Every-insert m (n ∷ rows) h e = elim (Bool-cases (ltb n.timestamp m.timestamp)) [
    | inl newer ↦ rw (newer) (h, e)
    | inr older ↦ rw (older) (e.0, Every-insert m rows h e.1)
  ]

  Every-reversed : (rows : List Message) → Every P rows → Every P (reversed rows)
  unfolding Every reversed
  Every-reversed [] e = tt
  Every-reversed (m ∷ rows) e =
      Every-append P (reversed rows) (m ∷ []) (Every-reversed rows e.1) (e.0, tt)

insert_newest-IsDescending :
    (m : Message) (rows : List Message) → IsDescending rows → IsDescending (insert_newest m rows)
unfolding IsDescending insert_newest Every
insert_newest-IsDescending m [] d = (tt, tt)
insert_newest-IsDescending m (n ∷ rows) d = elim (Bool-cases (ltb n.timestamp m.timestamp)) [
  | inl newer ↦ rw (newer) (
    (
      ground (arith, newer),
      Every-weaken {P = Until n.timestamp} {Q = Until m.timestamp} rows
          (λ x h. ground (arith, newer, h)) d.0,
    ),
    d,
  )
  | inr older ↦ rw (older) (
    Every-insert (Until n.timestamp) m rows (ground (arith, older)) d.0,
    insert_newest-IsDescending m rows d.1,
  )
]

newest_first-IsDescending : (rows : List Message) → IsDescending (newest_first rows)
unfolding IsDescending newest_first
newest_first-IsDescending [] = tt
newest_first-IsDescending (m ∷ rows) =
    insert_newest-IsDescending m (newest_first rows) (newest_first-IsDescending rows)

take-IsDescending : (n : ℕ) (rows : List Message) → IsDescending rows → IsDescending (take n rows)
unfolding IsDescending
take-IsDescending zero rows d = tt
take-IsDescending (suc n) [] d = tt
take-IsDescending (suc n) (m ∷ rows) d =
    (Every-take (Until m.timestamp) n rows d.0, take-IsDescending n rows d.1)

-- An ascending list goes on with a message that is not older than any of it.
append-IsAscending :
    (rows : List Message) (m : Message)
    → IsAscending rows
    → Every (Until m.timestamp) rows
    → IsAscending (rows ++ m ∷ [])
unfolding IsAscending Every
append-IsAscending [] m a e = (tt, tt)
append-IsAscending (n ∷ rows) m a e = (
  Every-append (Since n.timestamp) rows (m ∷ []) a.0 (e.0, tt),
  append-IsAscending rows m a.1 e.1,
)

reversed-IsAscending : (rows : List Message) → IsDescending rows → IsAscending (reversed rows)
unfolding IsDescending IsAscending reversed
reversed-IsAscending [] d = tt
reversed-IsAscending (m ∷ rows) d =
    append-IsAscending (reversed rows) m (reversed-IsAscending rows d.1)
      (Every-reversed (Until m.timestamp) rows d.0)

length-reversed : (rows : List Message) → length (reversed rows) ≡ length rows
unfolding reversed
length-reversed [] = refl
length-reversed (m ∷ rows) =
    length-append (reversed rows) (m ∷ []) ∙ ground (arith, length-reversed rows)

length-take : (n : ℕ) (rows : List Message) → length (take n rows) ≡ min n (length rows)
length-take zero rows = ground arith
length-take (suc n) [] = ground arith
length-take (suc n) (m ∷ rows) = ground (arith, length-take n rows)

length-insert :
    (m : Message) (rows : List Message) → length (insert_newest m rows) ≡ suc (length rows)
unfolding insert_newest
length-insert m [] = refl
length-insert m (n ∷ rows) = ground (arith, length-insert m rows)

length-newest_first : (rows : List Message) → length (newest_first rows) ≡ length rows
unfolding newest_first
length-newest_first [] = refl
length-newest_first (m ∷ rows) =
    length-insert m (newest_first rows) ∙ ap suc (length-newest_first rows)

Every-drop :
    (P : Message → Type 0) (n : ℕ) (rows : List Message) → Every P rows → Every P (drop n rows)
unfolding Every
Every-drop P zero rows e = e
Every-drop P (suc n) [] e = tt
Every-drop P (suc n) (m ∷ rows) e = Every-drop P n rows e.1

insert_newest-Perm : (m : Message) (rows : List Message) → Perm (insert_newest m rows) (m ∷ rows)
unfolding insert_newest
insert_newest-Perm m [] = Perm.refl (m ∷ [])
insert_newest-Perm m (n ∷ rows) = elim (Bool-cases (ltb n.timestamp m.timestamp)) [
  | inl newer ↦ rw (newer) (Perm.refl (m ∷ n ∷ rows))
  | inr older ↦
      rw (older) (Perm.trans (Perm.cons n (insert_newest-Perm m rows)) (Perm.swap m n rows))
]

newest_first-Perm : (rows : List Message) → Perm (newest_first rows) rows
unfolding newest_first
newest_first-Perm [] = Perm.refl []
newest_first-Perm (m ∷ rows) =
    Perm.trans (insert_newest-Perm m (newest_first rows)) (Perm.cons m (newest_first-Perm rows))

-- The messages that a limit leaves out, behind those that it keeps, are all of them.
reversed-take-Perm :
    (n : ℕ) (rows : List Message) → Perm (reversed (take n rows) ++ drop n rows) rows
unfolding reversed
reversed-take-Perm zero rows = Perm.refl rows
reversed-take-Perm (suc n) [] = Perm.refl []
reversed-take-Perm (suc n) (m ∷ rows) = rw (append_assoc) (
    Perm.trans (perm_middle (reversed (take n rows)) (drop n rows))
      (Perm.cons m (reversed-take-Perm n rows)))

-- A message that is not newer than any of these
abbrev pub NewerThan : List Message → Message → Type 0
NewerThan rows m = Every (Until m.timestamp) rows

take-newest :
    (n : ℕ) (rows : List Message)
    → IsDescending rows
    → Every (NewerThan (drop n rows)) (take n rows)
unfolding IsDescending Every
take-newest zero rows d = tt
take-newest (suc n) [] d = tt
take-newest (suc n) (m ∷ rows) d =
    (Every-drop (Until m.timestamp) n rows d.0, take-newest n rows d.1)

-- A history and the messages that it leaves out are together the stored messages between the two users,
-- each as often as it is stored. The history is in the order of time, the oldest first, it has as many
-- messages as the limit says or all of them, and none of it is older than one that is left out.
pub get_history-IsAscending :
    (peer self_user : String) (limit : ℕ) (rows : List Message)
    → let history = get_history peer self_user limit rows in
      let stored = where_rows (between self_user peer) rows in
      (left_out : List Message) × Perm (history ++ left_out) stored
      × (length history ≡ min limit (length stored))
      × IsAscending history
      × Every (NewerThan left_out) history
unfolding get_history
get_history-IsAscending peer self_user limit rows =
    let stored = where_rows (between self_user peer) rows in
    let sorted = newest_first stored in
    let ordered = newest_first-IsDescending stored in
    (
      drop limit sorted,
      Perm.trans (reversed-take-Perm limit sorted) (newest_first-Perm stored),
      length-reversed (take limit sorted)
          ∙ length-take limit sorted
          ∙ ap (min limit) (length-newest_first stored),
      reversed-IsAscending (take limit sorted) (take-IsDescending limit sorted ordered),
      Every-reversed (NewerThan (drop limit sorted)) (take limit sorted)
          (take-newest limit sorted ordered),
    )
