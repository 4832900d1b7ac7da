-- ===== src/Sdk/Decrypt.antt =====
-- decrypt.py, from the payload on: a signed request, and what is printed of the response.
pub mod Posts
use kong_coco.Prelude.{
  ℕ, Bool, true, false, Option, none, some, List, [], ◌∷◌, ◌++◌, map, Text, codes, is_substring,
  list_beq, insert, list_eq, nat_eq, if◌then◌else◌,
}
use kong_coco.Prelude.Digits.{show}
use kong_coco.Result.{Error, Result, ok, err, ◌>>=◌}
use kong_coco.Json.Dumps.{JsonValue, text, dict, dumps}
use kong_coco.Sdk.Params.{Params, fields_of, prepare_params}

abbrev pub url : Text
url = codes "https://8.212.3.169:9000/ehsm?Action=Decrypt"

abbrev pub script_payload : Params
script_payload =
    (codes "aad", text (codes "Y2hhbGxlbmdl"))
    ∷ (codes "keyid", text (codes "c0cb2847-9fa9-4d0e-80e5-3ea65b952bb5"))
    ∷ (codes "ciphertext", text (codes "284"))
    ∷ []

abbrev pub script_appid : Text
script_appid = codes "5c6af423-0cf0-4f0e-82d2-1f175bec91cb"

abbrev pub script_apikey : Text
script_apikey = codes "Fkb9N5zTgnJyzRiejKgKcsaAcyPGLCiZ"

-- The arguments of `requests.post`, of which `body` is `data`.
pub record Post : Type 0 where
  pub url : Text
  pub body : Text
  pub headers : List (Text × Text)
  pub verify : Bool
  pub stream : Bool

-- A response of requests: `content_type` is what its headers say, whatever the case of the name.
pub record Response : Type 0 where
  pub status_code : ℕ
  pub headers : List (Text × Text)
  pub content_type : Option Text
  pub text_of : Text
  pub content : List ℕ

-- `f"{key}: {value}"`
unfoldable pub header_line : Text × Text → Text
header_line (k, v) = k ++ (codes ": " ++ v)

unfoldable pub is_text : Option Text → Bool
unfolding is_substring list_beq
is_text none = false
is_text (some t) = is_substring (codes "text") t

-- `loads` gives what `print` shows of the dictionary in a JSON text.
module _ (loads : List ℕ → Result Text) where
  unfoldable pub body_line : Response → Result Text
  unfolding is_text
  body_line response =
      if is_text response.content_type then ok response.text_of else loads response.content

  abbrev pub head_lines : Response → List Text
  head_lines response =
      (codes "Response Status Code: " ++ show response.status_code)
      ∷ codes "Headers:"
      ∷ (map header_line response.headers ++ (codes "Response Body:" ∷ []))

  -- What is printed, and the exception that ends it, if there is one.
  unfoldable pub print_response : Response → List Text × Option Error
  unfolding body_line header_line show
  print_response response = elim (body_line response) [
    | ok s ↦ (head_lines response ++ (s ∷ []), none)
    | err e ↦ (head_lines response, some e)
  ]

  module _ (repr : JsonValue → Text) (hmac : List ℕ → List ℕ → List ℕ) (now : ℕ)
      (post : Post → Result Response) where
    -- The request that is posted.
    unfoldable pub posted : Params → Post
    unfolding dumps fields_of
    posted params = record {
      url = url;
      body = dumps (dict (fields_of params));
      headers = (codes "Content-Type", codes "application/json") ∷ [];
      verify = false;
      stream = true;
    }

    unfoldable pub decrypt_main : Result (List Text × Option Error)
    unfolding posted print_response prepare_params
    decrypt_main = do
      params ← prepare_params repr hmac now (some script_payload) script_appid script_apikey
      response ← post (posted params)
      ok (print_response response)
