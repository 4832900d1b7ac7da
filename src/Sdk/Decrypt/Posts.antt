-- ===== src/Sdk/Decrypt/Posts.antt =====
-- The script gets to post its request.
use kong_coco.Prelude.{
  ℕ, ◌≡◌, refl, ap, ◌∙◌, true, false, some, List, [], ◌∷◌, ◌++◌, Text, codes, all, All,
}
use kong_coco.Prelude.Digits.{show}
use kong_coco.Result.{Result, ok, ◌>>=◌}
use kong_coco.Utf8.Encoding.{is_scalar, utf8}
use kong_coco.Utf8.Ascii.{ascii-scalar}
use kong_coco.Attest.Base64.{b64encode}
use kong_coco.Attest.Base64.Json.{b64encode-IsAscii}
use kong_coco.Json.Dumps.{JsonValue, text, dict, field, no_fields, dumps}
use kong_coco.Json.Printable.{IsPrintable, dumps-IsPrintable}
use kong_coco.Json.Reader.{read_json}
use kong_coco.Json.Reader.RoundTrip.{is_scalar_value}
use kong_coco.Json.Reader.Whole.{read_json-dumps}
use kong_coco.Sdk.Params.{Params, fields_of, sorted_items, prepare_params}
use kong_coco.Url.RoundTrip.{query}
use kong_coco.Sdk.Params.Signed.{message, can_sign, request, signed_text, show-scalar}
use kong_coco.Sdk.Params.Request.{prepare_params-known}
use kong_coco.Sdk.Decrypt.{
  script_payload, script_appid, script_apikey, Post, Response, print_response, posted, decrypt_main,
}

-- The text that the script signs.
abbrev pub plain_request : ℕ → Text
plain_request now =
    codes "appid=5c6af423-0cf0-4f0e-82d2-1f175bec91cb"
    ++ (codes "&payload=aad=Y2hhbGxlbmdl&ciphertext=284"
        ++ (codes "&keyid=c0cb2847-9fa9-4d0e-80e5-3ea65b952bb5"
            ++ (codes "&timestamp=" ++ show now)))

-- The signature, for a given HMAC.
abbrev pub script_sign : (List ℕ → List ℕ → List ℕ) → ℕ → Text
script_sign hmac now =
    b64encode (hmac (utf8 (codes "Fkb9N5zTgnJyzRiejKgKcsaAcyPGLCiZ")) (utf8 (plain_request now)))

-- The request, with the payload as an object.
abbrev pub signed_request : ℕ → Text → JsonValue
signed_request now sign = dict (
    field (codes "appid") (text (codes "5c6af423-0cf0-4f0e-82d2-1f175bec91cb")) (
      field (codes "timestamp") (text (show now)) (
        field (codes "payload")
          (dict (
            field (codes "aad") (text (codes "Y2hhbGxlbmdl")) (
              field (codes "keyid") (text (codes "c0cb2847-9fa9-4d0e-80e5-3ea65b952bb5"))
                (field (codes "ciphertext") (text (codes "284")) no_fields))))
          (field (codes "sign") (text sign) no_fields))))

-- The call of requests.post with a body.
abbrev pub posting : Text → Post
posting body = record {
  url = codes "https://8.212.3.169:9000/ehsm?Action=Decrypt";
  body = body;
  headers = (codes "Content-Type", codes "application/json") ∷ [];
  verify = false;
  stream = true;
}

script_can_sign :
    (repr : JsonValue → Text)
    → can_sign repr (some script_payload) script_appid script_apikey ≡ true
unfolding all sorted_items is_scalar
script_can_sign repr = refl

script_text :
    (repr : JsonValue → Text) (now : ℕ)
    → signed_text repr (some script_payload) script_appid now ≡ plain_request now
unfolding sorted_items message query
script_text repr now = refl

signed_request-scalar :
    (now : ℕ) (sign : Text)
    → all is_scalar (show now) ≡ true
    → all is_scalar sign ≡ true
    → is_scalar_value (signed_request now sign) ≡ true
unfolding is_scalar_value all is_scalar
signed_request-scalar now sign h k = rw (h, k) refl

script_fields :
    (repr : JsonValue → Text) (now : ℕ) (sign : Text)
    → dict (fields_of (request repr (some script_payload) script_appid now sign))
      ≡ signed_request now sign
unfolding fields_of request
script_fields repr now sign = refl

module _ (loads : List ℕ → Result Text) (repr : JsonValue → Text) (hmac : List ℕ → List ℕ → List ℕ)
    (now : ℕ) (post : Post → Result Response) where
  abbrev script_request : Params
  script_request = request repr (some script_payload) script_appid now (script_sign hmac now)

  script_params :
      prepare_params repr hmac now (some script_payload) script_appid script_apikey
      ≡ ok script_request
  script_params =
      prepare_params-known repr hmac now (some script_payload) script_appid script_apikey
      ∙ rw (script_can_sign repr, script_text repr now) refl

  script_posted :
      posted loads repr hmac now post script_request
      ≡ posting (dumps (signed_request now (script_sign hmac now)))
  unfolding posted
  script_posted = ap (λ v. posting (dumps v)) (script_fields repr now (script_sign hmac now))

  -- Whatever the service, the time and HMAC are, the script of decrypt.py gets to post to its URL,
  -- as JSON, a body from which a reader of JSON gets the appid, the time, the payload as an object
  -- and the signature of these in plain words and in the order of their keys under the script's
  -- apikey; the body is printable ASCII, and the script then goes on to print_response, or raises
  -- what posting raises.
  pub decrypt_main-posts :
      (body : Text) × (decrypt_main loads repr hmac now post
        ≡ (post (posting body) >>= λ response. ok (print_response loads response)))
      × (read_json body ≡ some (signed_request now (script_sign hmac now)))
      × All IsPrintable body
  decrypt_main-posts =
      let v = signed_request now (script_sign hmac now) in
      (
        dumps v,
        unfold decrypt_main in
            ap
              (λ r. r >>= λ params. post (posted loads repr hmac now post params) >>= λ response.
                ok (print_response loads response))
              script_params
            ∙ ap (λ p. post p >>= λ response. ok (print_response loads response)) script_posted,
        read_json-dumps v (
            signed_request-scalar now (script_sign hmac now) (show-scalar repr now)
              (ascii-scalar (script_sign hmac now) (b64encode-IsAscii _))),
        dumps-IsPrintable v,
      )
