-- ===== src/Sdk/Cli/Account.antt =====
-- The scripts on a machine that has an account with the key service.
use kong_coco.Prelude.{◌<◌, ◌≡◌, refl, ◌∙◌, List, [], ◌∷◌, Text, length, list_eq, nat_eq, arith}
use kong_coco.Prelude.Spaces.{strip}
use kong_coco.Result.{ok}
use kong_coco.Sdk.Script.{>>=-finished, request-finished, read_file-finished}
use kong_coco.Sdk.Script.{
  Service, Script, Event, requested, printed, finished, exited, ◌>>=◌, ◌>>◌, returns, request,
  read_file, readlines, credentials, connect, set_appid, set_apikey,
}
use kong_coco.Sdk.Cli.{
  base_url, appid_apikey_path, keyid_path, usage, give_credentials, log_in, read_keyid,
  encrypt_arguments, encrypt_script, decrypt_arguments, decrypt_script,
}

abbrev pub connecting : List Event
connecting = requested (connect base_url) ∷ []

abbrev pub naming : Text → List Event
naming login = requested (set_appid (credentials (readlines login)).0) ∷ connecting

-- What happened when the credentials of a file were given to the client.
abbrev pub logged_in : Text → List Event
logged_in login = requested (set_apikey (credentials (readlines login)).1) ∷ naming login

-- Both files can be read, and the client takes what the first one holds.
pub record IsAccount (service : Service) (login keyid_file : Text) : Type 0 where
  pub login_read : service.contents appid_apikey_path ≡ ok login
  pub keyid_read : service.contents keyid_path ≡ ok keyid_file
  pub reply : Text
  pub connects : service.answer [] (connect base_url) ≡ ok reply
  pub takes_appid :
      service.answer connecting (set_appid (credentials (readlines login)).0) ≡ ok reply
  pub takes_apikey :
      service.answer (naming login) (set_apikey (credentials (readlines login)).1) ≡ ok reply

module _ (service : Service) (login keyid_file : Text)
    (account : IsAccount service login keyid_file) where
  credentials_given :
      give_credentials service (credentials (readlines login)) connecting
      ≡ (finished tt, logged_in login)
  unfolding give_credentials
  credentials_given =
      >>=-finished (request service (set_appid (credentials (readlines login)).0))
        (λ _. request service (set_apikey (credentials (readlines login)).1) >> returns tt)
        connecting (naming login) account.reply
        (request-finished service (set_appid (credentials (readlines login)).0) connecting
          account.reply account.takes_appid)
      ∙ >>=-finished (request service (set_apikey (credentials (readlines login)).1))
          (λ _. returns tt) (naming login) (logged_in login) account.reply
          (request-finished service (set_apikey (credentials (readlines login)).1) (naming login)
            account.reply account.takes_apikey)

  log_in-run : log_in service appid_apikey_path [] ≡ (finished tt, logged_in login)
  unfolding log_in
  log_in-run =
      >>=-finished (request service (connect base_url))
        (λ _. read_file service appid_apikey_path >>= λ contents.
          give_credentials service (credentials (readlines contents)))
        [] connecting account.reply
        (request-finished service (connect base_url) [] account.reply account.connects)
      ∙ >>=-finished (read_file service appid_apikey_path)
          (λ contents. give_credentials service (credentials (readlines contents))) connecting
          connecting login
          (read_file-finished service appid_apikey_path connecting login account.login_read)
      ∙ credentials_given

  read_keyid-run :
      (events : List Event) → read_keyid service events ≡ (finished (strip keyid_file), events)
  unfolding read_keyid
  read_keyid-run events =
      >>=-finished (read_file service keyid_path) (λ contents. returns (strip contents)) events
        events keyid_file
        (read_file-finished service keyid_path events keyid_file account.keyid_read)

  -- What stands behind the credentials and the key.
  prologue :
      (body : Text → Script (Unit {0}))
      → (log_in service appid_apikey_path >> (read_keyid service >>= body)) []
        ≡ body (strip keyid_file) (logged_in login)
  prologue body =
      >>=-finished (log_in service appid_apikey_path) (λ _. read_keyid service >>= body) []
        (logged_in login) tt log_in-run
      ∙ >>=-finished (read_keyid service) body (logged_in login) (logged_in login)
          (strip keyid_file) (read_keyid-run (logged_in login))

  pub encrypt_script-run :
      (argv : List Text)
      → encrypt_script service argv []
        ≡ encrypt_arguments service (strip keyid_file) argv (logged_in login)
  unfolding encrypt_script
  encrypt_script-run argv = prologue (λ keyid. encrypt_arguments service keyid argv)

  pub decrypt_script-run :
      (argv : List Text)
      → decrypt_script service argv []
        ≡ decrypt_arguments service (strip keyid_file) argv (logged_in login)
  unfolding decrypt_script
  decrypt_script-run argv = prologue (λ keyid. decrypt_arguments service keyid argv)

  too_few :
      (keyid : Text) (argv : List Text) (events : List Event)
      → length argv < 3
      → (encrypt_arguments service keyid argv events ≡ (exited 1, printed usage ∷ events))
        × (decrypt_arguments service keyid argv events ≡ (exited 1, printed usage ∷ events))
  unfolding encrypt_arguments decrypt_arguments
  too_few keyid [] events h = (refl, refl)
  too_few keyid (script ∷ []) events h = (refl, refl)
  too_few keyid (script ∷ aad ∷ []) events h = (refl, refl)
  too_few keyid (script ∷ aad ∷ content ∷ more) events h = absurd (omega arith)

  -- With fewer than three arguments the encrypt and the decrypt script log in, print the usage and
  -- exit with status 1, and request nothing of the key service, if their files can be read and the
  -- client takes the credentials.
  pub scripts-usage :
      (argv : List Text)
      → length argv < 3
      → (encrypt_script service argv [] ≡ (exited 1, printed usage ∷ logged_in login))
        × (decrypt_script service argv [] ≡ (exited 1, printed usage ∷ logged_in login))
  scripts-usage argv h =
      let (e, d) = too_few (strip keyid_file) argv (logged_in login) h in
      (encrypt_script-run argv ∙ e, decrypt_script-run argv ∙ d)
