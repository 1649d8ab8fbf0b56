-- ===== src/Server/Auth.antt =====
-- server/auth.py and server/db/users.py: accounts, passwords and session tokens. Digests and salts
-- are texts; PBKDF2, base64, bcrypt and `int` are the environment's.
pub mod Tests
pub mod Passwords
pub mod Accounts
use Prim.Native.Char.{code}
use chat_terminal.Common.{
  ℕ, suc, ◌+◌, String, Bool, true, false, not, ◌&&◌, ◌||◌, Option, none, some, List, [], ◌∷◌, ◌++◌,
  string_eq, ◌==◌, ltb, nat_beq, exists_row, where_rows, if◌then◌else◌,
}
use chat_terminal.Shared.Protocol.{Packet, session_ttl}
use chat_terminal.Shared.Text.{str_append}
use chat_terminal.Server.World.{World, Env, User, Session, find_row, update_rows}
use chat_terminal.Server.Exec.{Exec, ◌>>=◌, ◌>>◌, pure, raise, gets, modify, skip, new_id, ok}

abbrev pub pbkdf2_alg : String
pbkdf2_alg = "pbkdf2_sha256"

abbrev pub pbkdf2_iterations : ℕ
pbkdf2_iterations = 310000

-- `"$".join(parts)`
abbrev pub join4 : String → String → String → String → String
join4 a b c d =
    str_append a (str_append "$" (str_append b (str_append "$" (str_append c (str_append "$" d)))))

unfoldable pub hash_password : Env → String → String → String
hash_password env salt password =
    join4 pbkdf2_alg "310000" (env.b64encode salt)
      (env.b64encode (env.pbkdf2 password salt pbkdf2_iterations))

-- `s.split("$", 1)`: the text before the first "$" and the text after it, if there is a "$".
unfoldable pub split_once : String → Option (String × String)
split_once String.[] = none
split_once (String.◌∷◌ c s) =
    let rest = split_once s in
    if nat_beq (code c) b'$'
    then some (String.[], s)
    else elim rest [ none ↦ none | some (before, after) ↦ some (String.◌∷◌ c before, after) ]

-- `_, iter_s, salt_b64, digest_b64 = stored.split("$", 3)`; fewer parts raise.
unfoldable pub split4 : String → Option (String × String × String × String)
unfolding split_once
split4 s = elim (split_once s) [
  | none ↦ none
  | some (a, s') ↦ elim (split_once s') [
    | none ↦ none
    | some (b, s'') ↦ elim (split_once s'') [ none ↦ none | some (c, d) ↦ some (a, b, c, d) ]
  ]
]

-- `stored.startswith(prefix + "$")`: the part before the first "$" is the prefix, which has none.
unfoldable pub starts_with_alg : String → Bool
unfolding split_once
starts_with_alg stored = elim (split_once stored) [
  | none ↦ false
  | some (alg, _) ↦ alg == pbkdf2_alg
]

-- The unpacking, `b64decode`, `int` and `pbkdf2_hmac` with no iterations raise inside the `try`.
verify_pbkdf2 : Env → String → String → Bool
unfolding split4
verify_pbkdf2 env password stored = elim (split4 stored) [
  | none ↦ false
  | some (_, iter_s, salt_b64, digest_b64) ↦ elim (env.b64decode salt_b64) [
    | none ↦ false
    | some salt ↦ elim (env.int_of iter_s) [
      | none ↦ false
      | some iterations ↦ elim (env.b64decode digest_b64) [
        | none ↦ false
        | some digest ↦
            if nat_beq iterations 0 then false else env.pbkdf2 password salt iterations == digest
      ]
    ]
  ]
]

unfoldable pub verify_password : Env → String → String → Bool
unfolding verify_pbkdf2 starts_with_alg
verify_password env password stored =
    if starts_with_alg stored
    then verify_pbkdf2 env password stored
    else elim (env.checkpw password stored) [ none ↦ false | some same ↦ same ]

unfoldable pub get_by_username : String → World → Option User
get_by_username username w = find_row (λ u. u.username == username) w.users

-- `INSERT INTO users`: an id or a name that is there raises.
unfoldable pub create_user : User → Exec (Unit {0})
create_user user = do
  taken ← gets (λ w. exists_row (λ u. u.id == user.id || u.username == user.username) w.users)
  if taken then raise else modify (λ w. record w { users = w.users ++ user ∷ [] })

unfoldable pub create_session : Session → Exec (Unit {0})
create_session session = do
  taken ← gets (λ w. exists_row (λ s. s.token == session.token) w.sessions)
  if taken then raise else modify (λ w. record w { sessions = w.sessions ++ session ∷ [] })

unfoldable pub update_last_seen : String → ℕ → Exec (Unit {0})
update_last_seen username ts = modify λ w. record w {
  users = update_rows (λ u. u.username == username) (λ u. record u { last_seen = some ts }) w.users;
}

unfoldable pub get_public_key : String → World → Option String
unfolding get_by_username
get_public_key username w = elim (get_by_username username w) [
  | none ↦ none
  | some user ↦ user.public_key
]

-- `SELECT … WHERE token=? AND expires_at > strftime('%s','now')`. `strftime` gives a text, and the
-- column's INTEGER affinity makes a number of it before the comparison.
unfoldable pub get_session : Env → String → World → Option Session
get_session env token w = find_row (λ s. s.token == token && ltb env.now s.expires_at) w.sessions

unfoldable pub delete_session : String → Exec (Unit {0})
delete_session token =
    modify λ w. record w { sessions = where_rows (λ s. not (s.token == token)) w.sessions }

-- The dict that `register`, `login` and the token branch return
pub data AuthResult : Type 0 where
  success : String → String → AuthResult
  failure : String → AuthResult

-- One draw of `os.urandom(16)`
draw_salt : Env → Exec String
draw_salt env w = (ok (env.salt w.drawn), record w { drawn = suc w.drawn })

unfoldable pub register : Env → String → String → Option String → Exec AuthResult
unfolding draw_salt new_id create_user create_session get_by_username
register env username password public_key = do
  existing ← gets (get_by_username username)
  elim existing [
    | some _ ↦ pure (failure "USER_EXISTS")
    | none ↦ do
      salt ← draw_salt env
      uid ← new_id env
      create_user (record {
        id = uid;
        username = username;
        password = hash_password env salt password;
        public_key = public_key;
        created_at = env.now;
        last_seen = none;
      })
      token ← new_id env
      create_session (record {
        token = token;
        user_id = uid;
        username = username;
        created_at = env.now;
        expires_at = env.now + session_ttl;
      })
      pure (success token username)
  ]

unfoldable pub login : Env → String → String → Exec AuthResult
unfolding new_id create_session get_by_username update_last_seen
login env username password = do
  found ← gets (get_by_username username)
  elim found [
    | none ↦ pure (failure "AUTH_FAILED")
    | some user ↦
        if verify_password env password user.password
        then (do
          token ← new_id env
          create_session (record {
            token = token;
            user_id = user.id;
            username = username;
            created_at = env.now;
            expires_at = env.now + session_ttl;
          })
          update_last_seen username env.now
          pure (success token username))
        else pure (failure "AUTH_FAILED")
  ]

unfoldable pub validate_token : Env → String → Exec (Option Session)
unfolding get_session
validate_token env token = gets (get_session env token)
