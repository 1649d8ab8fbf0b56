-- ===== src/Client/App/Locked.antt =====
-- client/app.py and client/ui/auth_screen.py: a private key that stays locked.
use Prim.Native.Char.{Char, code}
use Prim.Native.String.{count}
use Prim.Native.String.append
use chat_terminal.Common.{
  ℕ, zero, suc, ◌-◌, String, Bool, true, false, not, ◌&&◌, Option, none, some, List, [], ◌∷◌, ◌≡◌,
  refl, subst, ap, ◌∙◌, arith, if◌then◌else◌,
}
use chat_terminal.Common.Exec.{ok}
use chat_terminal.Shared.Protocol.{text}
use chat_terminal.Shared.Text.{is_empty, str_append}
use chat_terminal.Shared.Words.{concat, str_take, chr, code-chr}
use chat_terminal.Client.World.{World}
use chat_terminal.Client.MessageHandler.{payload_for}
use chat_terminal.Client.Keygen.{decrypt_private_key}
use chat_terminal.Client.App.{App, Host, env, set_notice}
use chat_terminal.Client.App.Login.{Prompt}
use chat_terminal.Client.App.Login
use chat_terminal.Client.App.Keys.{is_enter, is_backspace, is_printable}
use chat_terminal.Client.Screens.{Step, ends, goes_on, unlock, unlock_key, read_keys, is_one_of}

-- After a password that does not open the stored key, the client is logged in with the key locked, the
-- notice about it is gone, and whatever is written to a user is put in the clear.
pub unlock-wrong :
    (host : Host) (p : Prompt) (stored password : String) (a : App) (to_user plaintext : String)
    (w : World)
    → a.crypto_ctx ≡ none
    → is_empty password ≡ false
    → decrypt_private_key p.vault stored password ≡ none
    → let a' = (Login.unlock host p stored password a).1 in
      (a'.logged_in ≡ true)
      × (a'.notice ≡ concat ("Logged in as " ∷ a.username ∷ []))
      × (payload_for (env host a') to_user plaintext w ≡ (ok (("text", text plaintext) ∷ []), w))
unfolding Login.unlock payload_for set_notice
unlock-wrong host p stored password a to_user plaintext w locked typed wrong =
    rw (typed, wrong, locked) (refl, refl, refl)

-- The letters that end the entry of the password: s, S, n, N, q and Q
abbrev pub stops : ℕ → Bool
stops key = is_one_of key (115 ∷ 83 ∷ 110 ∷ 78 ∷ 113 ∷ 81 ∷ [])

abbrev pub has_none : String → Bool
has_none String.[] = true
has_none (String.◌∷◌ c s) = not (stops (code c)) && has_none s

has_none-take : (n : ℕ) (s : String) → has_none s ≡ true → has_none (str_take n s) ≡ true
unfolding str_take
has_none-take zero s h = refl
has_none-take (suc n) String.[] h = refl
has_none-take (suc n) (String.◌∷◌ c s) h = ground (arith, h, has_none-take n s)

has_none-add :
    (c : Char) (s : String)
    → has_none s ≡ true
    → stops (code c) ≡ false
    → has_none (str_append s (String.◌∷◌ c String.[])) ≡ true
has_none-add c String.[] h other = rw (append.nil (String.◌∷◌ c String.[]), other) refl
has_none-add c (String.◌∷◌ d s) h other =
    rw (append.cons d s (String.◌∷◌ c String.[])) ground (arith, h, other, has_none-add c s)

-- What a key leaves of an input without those letters has none of them.
abbrev Clean : Step → Type 0
Clean (ends none) = Unit
Clean (ends (some pw)) = has_none pw ≡ true
Clean (goes_on buf) = has_none buf ≡ true

Clean-if :
    (b : Bool) (x y : Step)
    → (b ≡ true → Clean x)
    → (b ≡ false → Clean y)
    → Clean (if b then x else y)
Clean-if true x y h k = h refl
Clean-if false x y h k = k refl

unlock_key-Clean : (buf : String) (key : ℕ) → has_none buf ≡ true → Clean (unlock_key buf key)
unfolding unlock_key
unlock_key-Clean buf key h =
    Clean-if (is_one_of key (27 ∷ 113 ∷ 81 ∷ 3 ∷ [])) _ _ (λ _. tt)
      (λ no_q.
        Clean-if (is_one_of key (115 ∷ 83 ∷ [])) _ _ (λ _. refl)
          (λ no_s.
            Clean-if (is_one_of key (110 ∷ 78 ∷ [])) _ _ (λ _. tt)
              (λ no_n.
                Clean-if (is_enter key) _ _ (λ _. h)
                  (λ _.
                    Clean-if (is_backspace key) _ _ (λ _. has_none-take (count buf - 1) buf h)
                      (λ _.
                        Clean-if (is_printable key) _ _
                          (λ printable. has_none-add (chr key) buf h (
                            ap stops (code-chr key (ground (arith, printable)))
                            ∙ ground (arith, no_q, no_s, no_n)))
                          (λ _. h))))))

after_step :
    (step : Step) (keys rest : List ℕ) (pw : String)
    → Clean step
    → ((buf : String)
        → has_none buf ≡ true
        → read_keys unlock_key buf keys ≡ some (some pw, rest)
        → has_none pw ≡ true)
    → (elim step as (λ _. Option (Option String × List ℕ)) [
      | ends answer ↦ some (answer, keys)
      | goes_on longer ↦ read_keys unlock_key longer keys
    ])
      ≡ some (some pw, rest)
    → has_none pw ≡ true
after_step (ends none) keys rest pw clean more entered = cc
after_step (ends (some p)) keys rest pw clean more entered =
    let same : p ≡ pw = cc in subst (λ q. has_none q ≡ true) same clean
after_step (goes_on buf) keys rest pw clean more entered = more buf clean entered

-- A password that is entered has none of these letters.
read_keys-Clean :
    (keys rest : List ℕ) (buf pw : String)
    → has_none buf ≡ true
    → read_keys unlock_key buf keys ≡ some (some pw, rest)
    → has_none pw ≡ true
unfolding read_keys
read_keys-Clean [] rest buf pw clean entered = cc
read_keys-Clean (key ∷ keys) rest buf pw clean entered =
    after_step (unlock_key buf key) keys rest pw (unlock_key-Clean buf key clean)
      (λ b h. read_keys-Clean keys rest b pw h) entered

-- Whatever is typed at the prompt that unlocks the private key, no password is entered with a letter s, n
-- or q in it, in upper or lower case.
pub unlock-letters :
    (keys rest : List ℕ) (pw : String) → unlock keys ≡ some (some pw, rest) → has_none pw ≡ true
unfolding unlock
unlock-letters keys rest pw entered = read_keys-Clean keys rest "" pw refl entered
