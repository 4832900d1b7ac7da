-- ===== src/Sdk/Params.antt =====
-- decrypt.py: the text that is signed for parameters, and the parameters of a request.
pub mod Order
pub mod Listing
pub mod Signed
pub mod Signature
pub mod Request
use kong_coco.Prelude.{
  ℕ, suc, Bool, true, false, ◌&&◌, Option, none, some, List, [], ◌∷◌, ◌++◌, map, Text, codes,
  text_lt, list_eq, nat_eq, keep, insert, list_beq,
}
use kong_coco.Prelude.Digits.{show}
use kong_coco.Prelude.Sorting.{sorted}
use kong_coco.Result.{Result, ok, err, ◌>>=◌}
use kong_coco.Utf8.Encoding.{encode}
use kong_coco.Utf8.Decoding.{decode_strict}
use kong_coco.Url.Quoting.{urlencode, unquote_plus}
use kong_coco.Json.Dumps.{
  JsonValue, null, boolean, whole, negative, text, array, dict, Fields, no_fields, field,
}
use kong_coco.Attest.Base64.{b64encode}

-- A dictionary, in the order of its keys' insertion: no key stands twice.
abbrev pub Params : Type 0
Params = List (Text × JsonValue)

abbrev pub is_given : Text × JsonValue → Bool
is_given (k, null) = false
is_given (k, v) = true

abbrev pub key_lt : Text × JsonValue → Text × JsonValue → Bool
key_lt a b = text_lt a.0 b.0

unfoldable pub fields_of : Params → Fields
fields_of [] = no_fields
fields_of ((k, v) ∷ params) = field k v (fields_of params)

-- `repr` prints lists and dictionaries.
module _ (repr : JsonValue → Text) where
  -- `str(v)`
  unfoldable pub str_of : JsonValue → Text
  unfolding show
  str_of null = codes "None"
  str_of (boolean true) = codes "True"
  str_of (boolean false) = codes "False"
  str_of (whole n) = show n
  str_of (negative n) = b'-' ∷ show (suc n)
  str_of (text s) = s
  str_of v = repr v

  abbrev pub as_text : Text × JsonValue → Text × Text
  as_text (k, v) = (k, str_of v)

  -- What is sorted and encoded.
  unfoldable pub sorted_items : Params → List (Text × Text)
  unfolding str_of keep sorted text_lt
  sorted_items params = map as_text (sorted key_lt (keep is_given params))

  unfoldable pub params_sort_str : Params → Result Text
  unfolding sorted_items urlencode unquote_plus
  params_sort_str params = urlencode (sorted_items params) >>= λ s. ok (unquote_plus s)

  -- `hmac` is HMAC with SHA-256, over a key and a message; `now` is the time in milliseconds.
  module _ (hmac : List ℕ → List ℕ → List ℕ) (now : ℕ) where
    unfoldable pub signature_of : Text → Text → Result Text
    unfolding encode b64encode decode_strict
    signature_of apikey params_str = do
      key ← encode apikey
      message ← encode params_str
      decode_strict (b64encode (hmac key message))

    unfoldable pub unsigned : Text → Params
    unfolding insert list_beq show
    unsigned appid =
        insert (codes "timestamp") (text (show now)) (insert (codes "appid") (text appid) [])

    unfoldable pub with_payload : Params → Option Params → Result Params
    unfolding insert list_beq params_sort_str
    with_payload params none = ok params
    with_payload params (some payload) = do
      payload_str ← params_sort_str payload
      ok (insert (codes "payload") (text payload_str) params)

    unfoldable pub whole_payload : Option Params → Params → Params
    unfolding insert list_beq fields_of
    whole_payload none params = params
    whole_payload (some payload) params = insert (codes "payload") (dict (fields_of payload)) params

    unfoldable pub signed : Option Params → Text → Params → Result Params
    unfolding signature_of whole_payload insert list_beq params_sort_str
    signed payload apikey params = do
      params_str ← params_sort_str params
      signature ← signature_of apikey params_str
      ok (whole_payload payload (insert (codes "sign") (text signature) params))

    unfoldable pub prepare_params : Option Params → Text → Text → Result Params
    unfolding unsigned with_payload signed
    prepare_params payload appid apikey =
        with_payload (unsigned appid) payload >>= λ params. signed payload apikey params
