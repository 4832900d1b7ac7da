-- ===== src/Sdk/Cli/Silent.antt =====
-- What the scripts have printed when they end by an exception.
use kong_coco.Prelude.{◌≡◌, ◌⊎◌, List, ◌∷◌, ◌++◌, Text, codes, All}
use kong_coco.Result.{Error, Result, err}
use kong_coco.Sdk.Script.{Service, Script, Request, Event, printed, print, create_key}
use kong_coco.Sdk.Script.Silent.{IsRequest, NothingPrinted}
use kong_coco.Sdk.Cli.{
  encrypt_script, decrypt_script, create_key_script, generate_quote_script, verify_quote_script,
  list_key_script, enroll_script,
}

-- Every script that calls the key service by the ehsm client, by what it does.
pub data Name : Type 0 where
  encrypting decrypting creating_key generating_quote verifying_quote listing_keys enrolling : Name

module _ (service : Service) where
  abbrev making : Request
  making =
      create_key (codes "EH_AES_GCM_128") (codes "EH_INTERNAL_KEY")
        (codes "EH_KEYUSAGE_ENCRYPT_DECRYPT")

  -- What create_key leaves: nothing printed, or the id of its key where there is no working
  -- directory.
  abbrev pub KeyShown : Error → List Event → Type 0
  KeyShown e events =
      (keyid : Text) × (before : List Event) × (events ≡ printed keyid ∷ before)
      × All IsRequest before
      × (service.working_directory ≡ err e)

  abbrev KeyMaking : Error → List Event → Type 0
  KeyMaking e events = NothingPrinted e events ⊎ KeyShown e events

  abbrev print_place : Text → Script (Unit {0})
  print_place path = print (codes "当前运行路径: " ++ path)

  -- The script of a name, under its arguments.
  unfoldable pub script_of : Name → List Text → Script (Unit {0})
  unfolding encrypt_script decrypt_script create_key_script generate_quote_script
      verify_quote_script list_key_script enroll_script
  script_of encrypting argv = encrypt_script service argv
  script_of decrypting argv = decrypt_script service argv
  script_of creating_key argv = create_key_script service
  script_of generating_quote argv = generate_quote_script service
  script_of verifying_quote argv = verify_quote_script service
  script_of listing_keys argv = list_key_script service
  script_of enrolling argv = enroll_script service

  -- What a script of a name leaves.
  abbrev pub Left : Name → Error → List Event → Type 0
  Left creating_key e events = NothingPrinted e events ⊎ KeyShown e events
  Left name e events = NothingPrinted e events
