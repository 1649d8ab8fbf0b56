-- ===== src/Client/App/Editor.antt =====
-- client/app.py: the line that is typed, as two stacks of characters with the cursor between them.
use Prim.Native.String.{count}
use Prim.Native.String.append
use Prim.Native.String.count as counting
use chat_terminal.Common.{
  ℕ, suc, ◌+◌, ◌-◌, min, String, Bool, true, false, Option, none, some, ◌≡◌, refl, sym, ap, ◌∙◌,
  arith, if◌then◌else◌, nat_beq,
}
use chat_terminal.Shared.Text.{str_append}
use chat_terminal.Shared.Words.{str_take, str_drop, chr}
use chat_terminal.Client.App.{App, Act, Host, open_chat}
use chat_terminal.Client.App.Keys.{
  key_left, key_right, key_home, key_end, is_enter, is_backspace, is_printable, backspace, typed,
  move_to, show_typing, indicate, handle_key,
}

-- What is before the cursor, nearest first, and what is after it
pub record Zipper : Type 0 where
  pub before : String
  pub after : String

unfoldable pub onto : String → String → String
onto String.[] s = s
onto (String.◌∷◌ c b) s = onto b (String.◌∷◌ c s)

abbrev erase_one : String → String
erase_one String.[] = String.[]
erase_one (String.◌∷◌ c b) = b

abbrev step_left : String → String → Zipper
step_left String.[] s = record { before = String.[]; after = s }
step_left (String.◌∷◌ c b) s = record { before = b; after = String.◌∷◌ c s }

abbrev step_right : String → String → Zipper
step_right b String.[] = record { before = b; after = String.[] }
step_right b (String.◌∷◌ c s) = record { before = String.◌∷◌ c b; after = s }

-- What an editing key is to do
unfoldable pub press : ℕ → Zipper → Zipper
unfolding onto
press key z =
    if is_backspace key
    then record z { before = erase_one z.before }
    else if nat_beq key key_left
    then step_left z.before z.after
    else if nat_beq key key_right
    then step_right z.before z.after
    else if nat_beq key key_home
    then record { before = String.[]; after = onto z.before z.after }
    else if nat_beq key key_end
    then record { before = onto z.after z.before; after = String.[] }
    else if is_printable key
    then record z { before = String.◌∷◌ (chr key) z.before }
    else z

pub record Shows (z : Zipper) (a : App) : Type 0 where
  pub line : a.buf ≡ onto z.before z.after
  pub place : a.cursor ≡ count z.before

onto-append : (b s t : String) → onto b (str_append s t) ≡ str_append (onto b s) t
unfolding onto
onto-append String.[] s t = refl
onto-append (String.◌∷◌ c b) s t =
    ap (onto b) (sym (append.cons c s t)) ∙ onto-append b (String.◌∷◌ c s) t

count-onto : (b s : String) → count (onto b s) ≡ count b + count s
unfolding onto
count-onto String.[] s = ground arith
count-onto (String.◌∷◌ c b) s =
    ground (arith, count-onto b (String.◌∷◌ c s), counting.cons c s, counting.cons c b)

take-append : (s t : String) → str_take (count s) (str_append s t) ≡ s
unfolding str_take
take-append String.[] t = refl
take-append (String.◌∷◌ c s) t = rw (counting.cons c s, append.cons c s t, take-append s t) refl

drop-append : (s t : String) → str_drop (count s) (str_append s t) ≡ t
unfolding str_drop
drop-append String.[] t = append.nil t
drop-append (String.◌∷◌ c s) t = rw (counting.cons c s, append.cons c s t, drop-append s t) refl

onto_lem : (b t : String) → onto b t ≡ str_append (onto b "") t
onto_lem b t = ap (onto b) (sym (append.nil t)) ∙ onto-append b "" t

-- The parts of a line that is cut at the cursor
module _ (b t : String) where
  count-reversed : count (onto b "") ≡ count b
  count-reversed = ground (arith, count-onto b "", counting.nil)

  take-onto : str_take (count b) (onto b t) ≡ onto b ""
  take-onto =
      ap (str_take (count b)) (onto_lem b t)
      ∙ ap (λ n. str_take n (str_append (onto b "") t)) (sym count-reversed)
      ∙ take-append (onto b "") t

  drop-onto : str_drop (count b) (onto b t) ≡ t
  drop-onto =
      ap (str_drop (count b)) (onto_lem b t)
      ∙ ap (λ n. str_drop n (str_append (onto b "") t)) (sym count-reversed)
      ∙ drop-append (onto b "") t

-- The typing indicator leaves the line alone.
show_typing-line :
    (host : Host) (me : String) (chat : Option String) (ready : Bool) (a : App)
    → ((show_typing host me chat ready a).1.buf ≡ a.buf)
      × ((show_typing host me chat ready a).1.cursor ≡ a.cursor)
unfolding show_typing
show_typing-line host me (some chat) true a = (refl, refl)
show_typing-line host me (some chat) false a = (refl, refl)
show_typing-line host me none true a = (refl, refl)
show_typing-line host me none false a = (refl, refl)

abbrev at : String → String → Zipper
at b s = record { before = b; after = s }

backspace_lem :
    (b s : String) (a : App) → Shows (at b s) a → Shows (at (erase_one b) s) (backspace a)
unfolding backspace onto
backspace_lem String.[] s a shows = record {
  line = rw (shows.place) shows.line;
  place = rw (shows.place) refl;
}
backspace_lem (String.◌∷◌ c b) s a shows =
    let here : a.cursor ≡ suc (count b) = shows.place ∙ counting.cons c b in
    let some_before : nat_beq (suc (count b)) 0 ≡ false = ground arith in
    let one_less : suc (count b) - 1 ≡ count b = omega arith in
    let rest : str_drop (suc (count b)) (onto b (String.◌∷◌ c s)) ≡ s =
      ap (λ n. str_drop n (onto b (String.◌∷◌ c s))) (sym (counting.cons c b))
      ∙ drop-onto (String.◌∷◌ c b) s in
    record {
      line =
          rw (here, some_before, one_less, shows.line, take-onto b (String.◌∷◌ c s), rest)
            (sym (onto_lem b s));
      place = rw (here, some_before) one_less;
    }

typed_lem :
    (key : ℕ) (b s : String) (a : App)
    → Shows (at b s) a
    → Shows (at (String.◌∷◌ (chr key) b) s) (typed key a)
unfolding typed onto
typed_lem key b s a shows = record {
  line =
      rw (shows.place, shows.line, take-onto b s, drop-onto b s)
        (sym (onto_lem b (String.◌∷◌ (chr key) s)));
  place = rw (shows.place, counting.cons (chr key) b) omega arith;
}

left_lem :
    (b s : String) (a : App) → Shows (at b s) a → Shows (step_left b s) (move_to (a.cursor - 1) a)
unfolding onto
left_lem String.[] s a shows = record { line = shows.line; place = rw (shows.place) refl }
left_lem (String.◌∷◌ c b) s a shows = record {
  line = shows.line;
  place = rw (shows.place, counting.cons c b) omega arith;
}

right_lem :
    (b s : String) (a : App)
    → Shows (at b s) a
    → Shows (step_right b s) (move_to (min (count a.buf) (a.cursor + 1)) a)
unfolding onto
right_lem b String.[] a shows = record {
  line = shows.line;
  place = rw (shows.line, shows.place, count-onto b "", counting.nil) ground arith;
}
right_lem b (String.◌∷◌ c s) a shows = record {
  line = shows.line;
  place =
      rw
        (
          shows.line,
          shows.place,
          count-onto b (String.◌∷◌ c s),
          counting.cons c s,
          counting.cons c b,
        )
        ground arith;
}

append-empty : (s : String) → str_append s "" ≡ s
append-empty String.[] = append.nil ""
append-empty (String.◌∷◌ c s) = append.cons c s "" ∙ ap (String.◌∷◌ c) (append-empty s)

onto-onto : (b s t : String) → onto (onto s b) t ≡ onto b (str_append s t)
unfolding onto
onto-onto b String.[] t = ap (onto b) (sym (append.nil t))
onto-onto b (String.◌∷◌ c s) t =
    onto-onto (String.◌∷◌ c b) s t ∙ ap (onto b) (sym (append.cons c s t))

end_lem :
    (b s : String) (a : App)
    → Shows (at b s) a
    → Shows (at (onto s b) String.[]) (move_to (count a.buf) a)
unfolding onto
end_lem b s a shows = record {
  line = shows.line ∙ sym (ap (onto b) (append-empty s)) ∙ sym (onto-onto b s "");
  place = rw (shows.line, count-onto b s, count-onto s b) omega arith;
}

indicated :
    (host : Host) (key : ℕ) (b s : String) (a : App)
    → Shows (at b s) a
    → Shows (at (String.◌∷◌ (chr key) b) s) (indicate host (typed key a)).1
indicated host key b s a shows =
    let t = typed key a in
    let same = show_typing-line host t.username (open_chat t) t.logged_in t in
    let there = typed_lem key b s a shows in
    record { line = same.0 ∙ there.line; place = same.1 ∙ there.place }

-- Two choices by one test are related where their parts are.
if_related :
    {A B : Type 0} (R : A → B → Type 0) (b : Bool) {x y : A} {x' y' : B}
    → R x x'
    → R y y'
    → R (if b then x else y) (if b then x' else y')
if_related R true h k = h
if_related R false h k = k

-- A key other than Ctrl-C and Enter does to the line and the cursor what it does to the two stacks.
pub handle_key-press :
    (host : Host) (key : ℕ) (z : Zipper) (a : App)
    → nat_beq key 3 ≡ false
    → is_enter key ≡ false
    → Shows z a
    → Shows (press key z) (handle_key host key a).1
unfolding handle_key press onto
handle_key-press host key z a other goes_on shows =
    let R : Zipper → Act (Unit {0}) → Type 0 = λ y m. Shows y (m a).1 in
    let b = z.before in
    let s = z.after in
    rw (other, goes_on)
      (if_related R (is_backspace key) (backspace_lem b s a shows) (
        if_related R (nat_beq key key_left) (left_lem b s a shows) (
          if_related R (nat_beq key key_right) (right_lem b s a shows) (
            if_related R (nat_beq key key_home) (record { line = shows.line; place = refl })
              (if_related R (nat_beq key key_end) (end_lem b s a shows)
                (if_related R (is_printable key) (indicated host key b s a shows) shows))))))
