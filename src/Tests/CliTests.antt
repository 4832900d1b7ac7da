-- ===== src/Tests/CliTests.antt =====
-- The command-line scripts on a concrete service.
use kong_coco.Prelude.{
  ℕ, ◌≡◌, ◌≢◌, refl, inl, inr, Option, none, some, List, [], ◌∷◌, ◌++◌, Text, codes, length,
  list_eq, nat_eq, ◌==◌, list_beq, arith, if◌then◌else◌, Bool-cases, nat_beq_iff,
}
use kong_coco.Prelude.Spaces.{strip}
use kong_coco.Result.{Error, Result, ok, err, raised, os_error}
use kong_coco.Explain.Nginx.{after_prefix}
use kong_coco.Sdk.Cli.{log_in, base_url}
use kong_coco.Sdk.Script.{failed, requested, connect}
use kong_coco.Sdk.Script.{
  Service, Request, Event, printed, exited, reported, readlines, credentials, encrypt, decrypt,
}
use kong_coco.Sdk.Cli.{
  challenge, appid_apikey_path, keyid_path, usage, encrypt_script, decrypt_script,
}
use kong_coco.Sdk.Cli.Account.{IsAccount, logged_in, scripts-usage}
use kong_coco.Sdk.Cli.Sealing.{IsSealing, decrypt-encrypt}

abbrev login : Text
login = codes "id \n" ++ codes "key\n"

abbrev keyid_file : Text
keyid_file = codes "k1\n"

credentials_read : credentials (readlines login) ≡ (some (codes "id"), some (codes "key"))
unfolding credentials readlines
credentials_read = refl

one_line : credentials (readlines (codes "id")) ≡ (none, none)
unfolding credentials readlines
one_line = refl

abbrev denied : Error
denied = raised (codes "ServerExceptionError")

-- A sealed text: how long the additional data are, the data, and the text.
abbrev seal : Text → Text → Text
seal aad plaintext = length aad ∷ (aad ++ plaintext)

abbrev plain_or_denied : Option Text → Result Text
plain_or_denied none = err denied
plain_or_denied (some s) = ok s

abbrev unseal : Text → Text → Result Text
unseal aad [] = err denied
unseal aad (n ∷ s) = if n == length aad then plain_or_denied (after_prefix aad s) else err denied

prefix_read : (aad s : Text) → after_prefix aad (aad ++ s) ≡ some s
unfolding after_prefix
prefix_read [] s = refl
prefix_read (c ∷ aad) s = ground (arith, prefix_read aad s)

tails_differ : (b c : ℕ) (s t : Text) → b ≡ c → b ∷ s ≢ c ∷ t → s ≢ t
tails_differ b c s t e h k = h (cc (e, k))

other_prefix :
    (aad other s : Text)
    → length aad ≡ length other
    → aad ≢ other
    → after_prefix other (aad ++ s) ≡ none
unfolding after_prefix
other_prefix [] [] s l h = absurd (h refl)
other_prefix [] (c ∷ other) s l h = absurd (omega arith)
other_prefix (b ∷ aad) [] s l h = absurd (omega arith)
other_prefix (b ∷ aad) (c ∷ other) s l h = elim (Bool-cases (c == b)) [
  | inl t ↦
      rw t (other_prefix aad other s (omega arith) (tails_differ b c aad other (ground arith) h))
  | inr t ↦ rw t refl
]

abbrev answer : List Event → Request → Result Text
answer events (encrypt aad keyid plaintext) = ok (seal aad plaintext)
answer events (decrypt aad keyid ciphertext) = unseal aad ciphertext
answer events r = ok (codes "done")

abbrev service : Service
service = record {
  contents = λ path.
      if list_beq path appid_apikey_path
      then ok login
      else if list_beq path keyid_path
      then ok keyid_file
      else err os_error;
  answer = answer;
  working_directory = ok (codes "/tmp");
}

account : IsAccount service login keyid_file
account =
    unfold list_beq in
    record {
      login_read = refl;
      keyid_read = refl;
      reply = codes "done";
      connects = refl;
      takes_appid = refl;
      takes_apikey = refl;
    }

binds : (aad other plaintext : Text) → aad ≢ other → unseal other (seal aad plaintext) ≡ err denied
binds aad other plaintext h = elim (Bool-cases (length aad == length other)) [
  | inl t ↦
      rw (t, other_prefix aad other plaintext ((nat_beq_iff (length aad) (length other)).0 t) h)
        refl
  | inr t ↦ rw t refl
]

opens : (aad plaintext : Text) → unseal aad (seal aad plaintext) ≡ ok plaintext
opens aad plaintext =
    rw ((nat_beq_iff (length aad) (length aad)).1 refl, prefix_read aad plaintext) refl

abbrev sealing : IsSealing service (logged_in login) (strip keyid_file)
sealing = record {
  seal = seal;
  unseal = unseal;
  denied = denied;
  encrypts = λ aad plaintext. refl;
  decrypts = λ aad ciphertext. refl;
  opens = opens;
  binds = binds;
}

scripts-usage_example :
    (encrypt_script service (codes "a" ∷ []) [] ≡ (exited 1, printed usage ∷ logged_in login))
    × (decrypt_script service (codes "a" ∷ []) [] ≡ (exited 1, printed usage ∷ logged_in login))
scripts-usage_example =
    scripts-usage service login keyid_file account (codes "a" ∷ []) (omega arith)

decrypt-encrypt_example :
    (encrypt_script service (codes "e" ∷ codes "d" ∷ codes "hi" ∷ []) []
      ≡ reported service
          (encrypt (codes "d") (strip keyid_file) (codes "hi"))
          (logged_in login)
          (ok (seal (codes "d") (codes "hi"))))
    × (decrypt_script service (codes "x" ∷ codes "d" ∷ seal (codes "d") (codes "hi") ∷ []) []
        ≡ reported service
            (decrypt challenge (strip keyid_file) (seal (codes "d") (codes "hi")))
            (logged_in login)
            (if codes "d" == challenge then ok (codes "hi") else err denied))
decrypt-encrypt_example =
    decrypt-encrypt service login keyid_file account sealing (codes "e") (codes "d") (codes "hi")
      (codes "x") (codes "d")

-- No file can be read: the encrypt script ends behind its first request.
abbrev no_files : Service
no_files = record service { contents = λ path. err os_error }

-- There is no working directory: the script that creates a key ends behind the id of it.
abbrev no_directory : Service
no_directory = record service { contents = λ path. ok login; working_directory = err os_error }

ends_early :
    encrypt_script no_files (codes "e" ∷ []) []
    ≡ (failed os_error, requested (connect base_url) ∷ [])
unfolding encrypt_script log_in
ends_early = refl
