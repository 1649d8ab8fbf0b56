-- ===== src/Server/Auth/Passwords.antt =====
-- Passwords: what `_hash_password` stores, `_verify_password` accepts.
use Prim.Native.Char.{code}
use text.Mathlib.TextLemmas.{nil-append, cons-append}
use chat_terminal.Common.{
  String, ◌≡◌, refl, true, false, some, arith, string_eq, ◌==◌, beq_refl, nat_beq,
}
use chat_terminal.Shared.Text.{str_append}
use chat_terminal.Server.World.{Env}
use chat_terminal.Server.Auth.{
  hash_password, verify_password, starts_with_alg, split_once, split4, join4, pbkdf2_alg,
}

-- The text has no "$".
abbrev pub NoDollar : String → Type 0
NoDollar String.[] = Unit
NoDollar (String.◌∷◌ c s) = (nat_beq (code c) b'$' ≡ false) × NoDollar s

-- What the code relies on in base64, for one text: decoding undoes encoding, and the encoded text
-- has no "$".
pub record Encodes (env : Env) (s : String) : Type 0 where
  pub decode-encode : env.b64decode (env.b64encode s) ≡ some s
  pub no_dollar : NoDollar (env.b64encode s)

split_once-append :
    (s t : String) → NoDollar s → split_once (str_append s (str_append "$" t)) ≡ some (s, t)
unfolding split_once
split_once-append String.[] t h = rw (nil-append, cons-append) (rw nil-append refl)
split_once-append (String.◌∷◌ c s) t (h, hs) =
    rw (cons-append, split_once, h, split_once-append s t hs) refl

module _ (a b c d : String) (ha : NoDollar a) (hb : NoDollar b) (hc : NoDollar c) where
  split4-join : split4 (join4 a b c d) ≡ some (a, b, c, d)
  unfolding split4
  split4-join = ground (
    arith,
    split_once-append a (str_append b (str_append "$" (str_append c (str_append "$" d)))) ha,
    split_once-append b (str_append c (str_append "$" d)) hb,
    split_once-append c d hc,
  )

  starts_with-join : starts_with_alg (join4 a b c d) ≡ (a == pbkdf2_alg)
  unfolding starts_with_alg
  starts_with-join = ground (
    arith,
    split_once-append a (str_append b (str_append "$" (str_append c (str_append "$" d)))) ha,
  )

-- A password is accepted against the text that `_hash_password` makes of it, whatever the salt, if
-- base64 encodes the salt and the digest as it should, and `int` reads "310000".
pub verify-hash :
    (env : Env) (salt password : String)
    → Encodes env salt
    → Encodes env (env.pbkdf2 password salt 310000)
    → env.int_of "310000" ≡ some 310000
    → verify_password env password (hash_password env salt password) ≡ true
unfolding verify_password hash_password
verify-hash env salt password good good' iterations =
    let digest = env.pbkdf2 password salt 310000 in
    let b = env.b64encode salt in
    let d = env.b64encode digest in
    let n : NoDollar "310000" = (refl, (refl, (refl, (refl, (refl, (refl, tt)))))) in
    let alg : NoDollar pbkdf2_alg = ground arith in
    ground (
      arith,
      starts_with-join pbkdf2_alg "310000" b d alg n good.no_dollar,
      split4-join pbkdf2_alg "310000" b d alg n good.no_dollar,
      good.decode-encode,
      good'.decode-encode,
      iterations,
      beq_refl digest,
    )
