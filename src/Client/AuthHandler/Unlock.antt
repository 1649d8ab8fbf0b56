-- ===== src/Client/AuthHandler/Unlock.antt =====
-- Who registers in client/handlers/auth.py can log in and unlock the private key.
use chat_terminal.Common.{
  suc, ◌≡◌, refl, sym, ap, ◌∙◌, String, true, false, Option, some, [], ◌∷◌, string_eq, beq_refl,
  length,
}
use chat_terminal.Common.Dict.{lookup}
use chat_terminal.Common.Exec.{ok}
use chat_terminal.Shared.Protocol.{text, Packet}
use chat_terminal.Shared.Text.{is_empty}
use chat_terminal.Client.World.{World, Env, draw, as_text}
use chat_terminal.Client.FileCrypto.{Bytes}
use chat_terminal.Client.Keygen.{Vault, encrypt_private_key, decrypt_private_key}
use chat_terminal.Client.Keygen.Storage.{decrypt_private_key-encrypt_private_key}
use chat_terminal.Client.FileCrypto.Chunks.{GoodAead}
use chat_terminal.Client.Db.Contacts.{get_account, save_account, get_my_keys}
use chat_terminal.Client.AuthHandler.{
  account, is_success, token_of, store_account, registered, own_key, logged_in,
}

store_account_lem :
    (env : Env) (server_url username token : String) (result : Packet)
    (private_key public_key : Option String) (w : World)
    → lookup "token" result ≡ some (text token)
    → store_account env server_url username result private_key public_key w ≡ (
      ok tt,
      record w {
        drawn = suc w.drawn;
        account = account (env.uuid w.drawn) username server_url token private_key public_key ∷ [];
      },
    )
unfolding store_account draw token_of as_text save_account
store_account_lem env server_url username token result private_key public_key w h =
    rw (h, token_of) refl

module _ (env : Env) (server_url username : String) where
  registered_account :
      (private_key : Bytes) (stored public token : String) (result : Packet) (w : World)
      → is_success result ≡ true
      → lookup "token" result ≡ some (text token)
      → (registered env server_url username private_key stored public result w).1.account
        ≡ account (env.uuid w.drawn) username server_url token (some stored) (some public) ∷ []
  unfolding registered
  registered_account private_key stored public token result w good told =
      rw
        (
          good,
          store_account_lem env server_url username token result (some stored) (some public) w told,
          registered,
        )
        refl

  logged_in_lem :
      (vault : Vault) (password token stored : String) (result : Packet) (w : World)
      → is_success result ≡ true
      → lookup "token" result ≡ some (text token)
      → own_key username w ≡ some stored
      → (logged_in env vault server_url username password result w).0
        ≡ ok (decrypt_private_key vault stored password)
  unfolding logged_in
  logged_in_lem vault password token stored result w good told own =
      rw
        (
          good,
          own,
          store_account_lem env server_url username token result (some stored)
              (get_my_keys w.account).1 w told,
          logged_in,
        )
        refl

  own_key_lem :
      (id token stored public : String) (w : World)
      → w.account ≡ account id username server_url token (some stored) (some public) ∷ []
      → is_empty stored ≡ false
      → own_key username w ≡ some stored
  unfolding own_key get_account get_my_keys
  own_key_lem id token stored public w rows there = rw (rows, beq_refl username, there) refl

-- A user registers, which stores the private key encrypted under the password, and then logs in with
-- the same name and password, both with a success that carries a token: the login unlocks the private key
-- of the registration. The private key has 32 bytes, the salt 16 and the nonce 12, the stored text is not
-- empty, base64 reads it back, and decryption undoes encryption.
pub logged_in-registered :
    (env : Env) (vault : Vault) (server_url username password stored public token token' : String)
    → (private_key salt nonce : Bytes) (r r' : Packet) (w : World) → GoodAead vault.aead
    → ((b : Bytes) → vault.b64decode (vault.b64encode b) ≡ some b)
    → length salt ≡ 16
    → length nonce ≡ 12
    → length private_key ≡ 32
    → encrypt_private_key vault salt nonce private_key password ≡ some stored
    → is_empty stored ≡ false
    → is_success r ≡ true
    → lookup "token" r ≡ some (text token)
    → is_success r' ≡ true
    → lookup "token" r' ≡ some (text token')
    → let w' = (registered env server_url username private_key stored public r w).1 in
      (logged_in env vault server_url username password r' w').0 ≡ ok (some private_key)
logged_in-registered env vault server_url username password stored public token token' private_key
      salt nonce r r' w good b64 ls ln lk enc there s t s' t' =
    let w' = (registered env server_url username private_key stored public r w).1 in
    let (kept, e, d) =
      decrypt_private_key-encrypt_private_key vault salt nonce private_key password good b64 ls ln
        lk in
    let same : kept ≡ stored = cc (e, enc) in
    let rows = registered_account env server_url username private_key stored public token r w s t in
    logged_in_lem env server_url username vault password token' stored r' w' s' t'
      (own_key_lem env server_url username (env.uuid w.drawn) token stored public w' rows there)
    ∙ ap ok (ap (λ k. decrypt_private_key vault k password) (sym same) ∙ d)
