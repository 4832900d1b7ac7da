-- ===== src/Sdk/Cli.antt =====
-- The command-line scripts: each gives its credentials to the client, and makes one request.
pub mod Account
pub mod Sealing
pub mod Silent
use kong_coco.Prelude.{ℕ, Option, none, some, List, [], ◌∷◌, ◌++◌, Text, codes}
use kong_coco.Prelude.Spaces.{strip}
use kong_coco.Sdk.Script.{
  Service, Script, ◌>>=◌, ◌>>◌, returns, print, sys_exit, request, read_file, getcwd, readlines,
  credentials, connect, enroll, list_key, set_appid, set_apikey, create_key, encrypt, decrypt,
  generate_quote,
}

abbrev pub base_url : Text
base_url = codes "https://8.212.3.169:9000/ehsm"

abbrev pub challenge : Text
challenge = codes "Y2hhbGxlbmdl"

abbrev pub appid_apikey_path : Text
appid_apikey_path = codes "/home/wydx/kong/kong/plugins/api-version/data/appid_apikey.txt"

-- The scripts that make keys and quotes read another copy of the repository.
abbrev pub coco_appid_apikey_path : Text
coco_appid_apikey_path = codes "/home/wydx/kong_coco/kong/plugins/api-version/data/appid_apikey.txt"

abbrev pub keyid_path : Text
keyid_path = codes "/home/wydx/kong/kong/plugins/api-version/data/keyid.txt"

abbrev pub usage : Text
usage = codes "Usage: script_name.py <arg1> <arg2>"

module _ (service : Service) where
  unfoldable pub give_credentials : Option Text × Option Text → Script (Unit {0})
  give_credentials (appid, apikey) = do
    request service (set_appid appid)
    request service (set_apikey apikey)
    returns tt

  -- The client under the credentials of a file.
  unfoldable pub log_in : Text → Script (Unit {0})
  unfolding readlines credentials give_credentials
  log_in path = do
    request service (connect base_url)
    contents ← read_file service path
    give_credentials (credentials (readlines contents))

  unfoldable pub read_keyid : Script Text
  unfolding strip
  read_keyid = do contents ← read_file service keyid_path; returns (strip contents)

  -- ehsm_CLI_encrypt.py, from the check of its arguments on
  unfoldable pub encrypt_arguments : Text → List Text → Script (Unit {0})
  encrypt_arguments keyid (script ∷ aad ∷ plaintext ∷ more) = do
    ciphertext ← request service (encrypt aad keyid plaintext)
    print ciphertext
  encrypt_arguments keyid _ = do print usage; sys_exit 1

  unfoldable pub encrypt_script : List Text → Script (Unit {0})
  unfolding log_in read_keyid encrypt_arguments
  encrypt_script argv = do
    log_in appid_apikey_path
    keyid ← read_keyid
    encrypt_arguments keyid argv

  -- ehsm_CLI_decrypt.py, from the check of its arguments on
  unfoldable pub decrypt_arguments : Text → List Text → Script (Unit {0})
  decrypt_arguments keyid (script ∷ aad ∷ ciphertext ∷ more) = do
    plaintext ← request service (decrypt challenge keyid ciphertext)
    print plaintext
  decrypt_arguments keyid _ = do print usage; sys_exit 1

  unfoldable pub decrypt_script : List Text → Script (Unit {0})
  unfolding log_in read_keyid decrypt_arguments
  decrypt_script argv = do
    log_in appid_apikey_path
    keyid ← read_keyid
    decrypt_arguments keyid argv

  unfoldable pub create_key_script : Script (Unit {0})
  unfolding log_in
  create_key_script = do
    log_in coco_appid_apikey_path
    keyid ← request service (
        create_key (codes "EH_AES_GCM_128") (codes "EH_INTERNAL_KEY")
          (codes "EH_KEYUSAGE_ENCRYPT_DECRYPT"))
    print keyid
    current_path ← getcwd service
    print (codes "当前运行路径: " ++ current_path)

  -- ehsm_CLI_generatequote.py
  unfoldable pub generate_quote_script : Script (Unit {0})
  unfolding log_in
  generate_quote_script = do
    log_in coco_appid_apikey_path
    quote ← request service (generate_quote challenge)
    print quote

  -- ehsn_CLI_verifyquote.py, which has the same lines.
  unfoldable pub verify_quote_script : Script (Unit {0})
  unfolding log_in
  verify_quote_script = do
    log_in coco_appid_apikey_path
    quote ← request service (generate_quote challenge)
    print quote

  unfoldable pub list_key_script : Script (Unit {0})
  unfolding log_in
  list_key_script = do log_in appid_apikey_path; keys ← request service list_key; print keys

  -- encrypt.py
  unfoldable pub enroll_script : Script (Unit {0})
  unfolding read_keyid
  enroll_script = do
    request service (connect base_url)
    request service enroll
    keyid ← read_keyid
    ciphertext ← request service (encrypt challenge keyid (codes "wydx"))
    print ciphertext
