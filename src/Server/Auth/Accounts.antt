-- ===== src/Server/Auth/Accounts.antt =====
-- Accounts and sessions: registration, login and the life of a token.
use chat_terminal.Common.{
  ◌+◌, String, ◌≡◌, refl, Bool, true, false, not, ◌&&◌, Option, none, some, List, [], ◌∷◌, ◌++◌,
  arith, string_eq, ◌==◌, beq_refl, ltb, exists_row, where_rows, Option-cases, inl, inr, ap, ◌∙◌,
  if◌then◌else◌,
}
use chat_terminal.Shared.Protocol.{session_ttl}
use chat_terminal.Server.World.{World, Env, User, Session, find_row}
use chat_terminal.Server.Exec.{ok, new_id}
use chat_terminal.Server.Auth.{
  register, login, validate_token, get_session, delete_session, success, failure, get_by_username,
  verify_password, create_session, update_last_seen,
}

-- A name that is taken is refused, and nothing changes.
pub register_taken :
    (env : Env) (username password : String) (key : Option String) (w : World) (u : User)
    → get_by_username username w ≡ some u
    → register env username password key w ≡ (ok (failure "USER_EXISTS"), w)
unfolding register
register_taken env username password key w u e = ground arith

-- A login that fails, for want of the user or because of the password, changes nothing and says
-- the same in both cases.
pub login_refused :
    (env : Env) (username password : String) (w : World)
    → ((u : User)
        → get_by_username username w ≡ some u
        → verify_password env password u.password ≡ false)
    → login env username password w ≡ (ok (failure "AUTH_FAILED"), w)
unfolding login
login_refused env username password w wrong = elim (Option-cases (get_by_username username w)) [
  | inl e ↦ ground arith
  | inr (u, e) ↦ ground (arith, wrong u e)
]

-- The row of a token that is used once is found as long as it has not expired.
find-append :
    {A : Type 0} (p : A → Bool) (xs : List A) (x : A)
    → exists_row p xs ≡ false
    → find_row p (xs ++ x ∷ []) ≡ (if p x then some x else none)
find-append p [] x h = refl
find-append p (y ∷ ys) x h = ground (arith, find-append p ys x)

exists_weaken :
    {A : Type 0} (p q : A → Bool) (xs : List A)
    → exists_row p xs ≡ false
    → exists_row (λ x. p x && q x) xs ≡ false
exists_weaken p q [] h = refl
exists_weaken p q (x ∷ xs) h = ground (arith, exists_weaken p q xs)

-- A login with the right password, when the token that is drawn is unused, returns that token,
-- which is valid for the user until `session_ttl` seconds later, and from then on is not.
pub login_token :
    (env later : Env) (username password : String) (u : User) (w : World)
    → get_by_username username w ≡ some u
    → verify_password env password u.password ≡ true
    → exists_row (λ s. s.token == env.uuid w.drawn) w.sessions ≡ false
    → ((login env username password w).0 ≡ ok (success (env.uuid w.drawn) username))
      × ((validate_token later (env.uuid w.drawn) (login env username password w).1).0
          ≡ ok (
              if ltb later.now (env.now + session_ttl)
              then some (record {
                token = env.uuid w.drawn;
                user_id = u.id;
                username = username;
                created_at = env.now;
                expires_at = env.now + session_ttl;
              })
              else none))
unfolding login validate_token get_session create_session update_last_seen new_id
login_token env later username password u w found right fresh =
    let token = env.uuid w.drawn in
    let session : Session = record {
      token = token;
      user_id = u.id;
      username = username;
      created_at = env.now;
      expires_at = env.now + session_ttl;
    } in
    rw (found, right, fresh)
      (
        refl,
        ap ok (
            find-append (λ s. s.token == token && ltb later.now s.expires_at) w.sessions session
              (exists_weaken (λ s. s.token == token) (λ s. ltb later.now s.expires_at) w.sessions
                fresh)
            ∙ rw (beq_refl token) refl),
      )

find-deleted :
    (token : String) (q : Session → Bool) (rows : List Session)
    → find_row (λ s. s.token == token && q s) (where_rows (λ s. not (s.token == token)) rows) ≡ none
find-deleted token q [] = refl
find-deleted token q (s ∷ ss) = ground (arith, find-deleted token q ss)

-- After `delete_session` the token is not valid, at no time.
pub validate_token-delete_session :
    (later : Env) (token : String) (w : World)
    → (validate_token later token (delete_session token w).1).0 ≡ ok none
unfolding validate_token get_session delete_session
validate_token-delete_session later token w =
    ap ok (find-deleted token (λ s. ltb later.now s.expires_at) w.sessions)
