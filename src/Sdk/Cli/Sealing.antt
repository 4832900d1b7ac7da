-- ===== src/Sdk/Cli/Sealing.antt =====
-- Encrypting by one script and decrypting by the other.
use kong_coco.Prelude.{
  ◌≡◌, ◌≢◌, sym, ap, ◌∙◌, true, false, inl, inr, List, [], ◌∷◌, Text, list_eq, nat_eq, ◌==◌,
  list_beq_iff, if◌then◌else◌, Bool-cases,
}
use kong_coco.Prelude.Spaces.{strip}
use kong_coco.Result.{Error, Result, ok, err}
use kong_coco.Sdk.Script.{reported, request-print}
use kong_coco.Sdk.Script.{Service, Event, encrypt, decrypt}
use kong_coco.Sdk.Cli.{
  challenge, encrypt_arguments, encrypt_script, decrypt_arguments, decrypt_script,
}
use kong_coco.Sdk.Cli.Account.{IsAccount, logged_in, encrypt_script-run, decrypt_script-run}

-- An account under which sealing binds the additional data: what is sealed opens under the under_challenge
-- data only.
pub record IsSealing (service : Service) (events : List Event) (keyid : Text) : Type 0 where
  pub seal : Text → Text → Text
  pub unseal : Text → Text → Result Text
  pub denied : Error
  pub encrypts :
      (aad plaintext : Text)
      → service.answer events (encrypt aad keyid plaintext) ≡ ok (seal aad plaintext)
  pub decrypts :
      (aad ciphertext : Text)
      → service.answer events (decrypt aad keyid ciphertext) ≡ unseal aad ciphertext
  pub opens : (aad plaintext : Text) → unseal aad (seal aad plaintext) ≡ ok plaintext
  pub binds :
      (aad other plaintext : Text) → aad ≢ other → unseal other (seal aad plaintext) ≡ err denied

module _ (service : Service) (login keyid_file : Text)
    (account : IsAccount service login keyid_file)
    (sealing : IsSealing service (logged_in login) (strip keyid_file)) where
  encrypt_answer :
      (script aad plaintext : Text) (more : List Text)
      → encrypt_script service (script ∷ aad ∷ plaintext ∷ more) []
        ≡ reported service
            (encrypt aad (strip keyid_file) plaintext)
            (logged_in login)
            (ok (sealing.seal aad plaintext))
  encrypt_answer script aad plaintext more =
      encrypt_script-run service login keyid_file account (script ∷ aad ∷ plaintext ∷ more)
      ∙ unfold encrypt_arguments in
        request-print service (encrypt aad (strip keyid_file) plaintext) (logged_in login)
        ∙ ap (reported service (encrypt aad (strip keyid_file) plaintext) (logged_in login))
            (sealing.encrypts aad plaintext)

  decrypt_answer :
      (script given ciphertext : Text) (more : List Text)
      → decrypt_script service (script ∷ given ∷ ciphertext ∷ more) []
        ≡ reported service
            (decrypt challenge (strip keyid_file) ciphertext)
            (logged_in login)
            (sealing.unseal challenge ciphertext)
  decrypt_answer script given ciphertext more =
      decrypt_script-run service login keyid_file account (script ∷ given ∷ ciphertext ∷ more)
      ∙ unfold decrypt_arguments in
        request-print service (decrypt challenge (strip keyid_file) ciphertext) (logged_in login)
        ∙ ap (reported service (decrypt challenge (strip keyid_file) ciphertext) (logged_in login))
            (sealing.decrypts challenge ciphertext)

  unsealed :
      (aad plaintext : Text)
      → sealing.unseal challenge (sealing.seal aad plaintext)
        ≡ (if aad == challenge then ok plaintext else err sealing.denied)
  unsealed aad plaintext = elim (Bool-cases (aad == challenge)) [
    | inl t ↦ rw t (under_challenge aad ((list_beq_iff aad challenge).0 t))
    | inr t ↦ rw t (sealing.binds aad challenge plaintext (λ e. differ aad t e))
  ]
    where
      under_challenge :
          (aad : Text)
          → aad ≡ challenge
          → sealing.unseal challenge (sealing.seal aad plaintext) ≡ ok plaintext
      under_challenge aad e =
          ap (λ a. sealing.unseal challenge (sealing.seal a plaintext)) e
          ∙ sealing.opens challenge plaintext

      false_true : false ≡ true → ⊥
      false_true h = cc

      differ : (aad : Text) → (aad == challenge) ≡ false → aad ≡ challenge → ⊥
      differ aad t e = false_true (sym t ∙ (list_beq_iff aad challenge).1 e)

  -- If the key service binds the additional data, the encrypt script prints the text sealed under
  -- its first argument, and the decrypt script gives the plaintext back just where that argument
  -- was the constant challenge and is denied otherwise, whatever additional data it is given
  -- itself.
  pub decrypt-encrypt :
      (script aad plaintext other given : Text)
      → (encrypt_script service (script ∷ aad ∷ plaintext ∷ []) []
          ≡ reported service
              (encrypt aad (strip keyid_file) plaintext)
              (logged_in login)
              (ok (sealing.seal aad plaintext)))
        × (decrypt_script service (other ∷ given ∷ sealing.seal aad plaintext ∷ []) []
            ≡ reported service
                (decrypt challenge (strip keyid_file) (sealing.seal aad plaintext))
                (logged_in login)
                (if aad == challenge then ok plaintext else err sealing.denied))
  decrypt-encrypt script aad plaintext other given = (
    encrypt_answer script aad plaintext [],
    decrypt_answer other given (sealing.seal aad plaintext) []
        ∙ ap
            (reported service (decrypt challenge (strip keyid_file) (sealing.seal aad plaintext))
              (logged_in login))
            (unsealed aad plaintext),
  )
