-- ===== src/Tests/SdkTests.antt =====
-- The scripts of the key service's SDK: runs, and the theorems at a concrete service.
use mathlib.Core.HLevel.{¬_prop}
use mathlib.Core.List.{Pairwise, Pairwise-pair}
use mathlib.Core.List.Perm
use kong_coco.Prelude.{
  ℕ, ◌≡◌, refl, Option, none, some, List, [], ◌∷◌, ◌++◌, Text, codes, text_lt, All, list_eq, nat_eq,
  if◌then◌else◌,
}
use kong_coco.Result.{Result, ok, err, raised, encode_error, ◌>>=◌}
use kong_coco.Json.Dumps.{JsonValue, null, whole, text}
use kong_coco.Json.Printable.{IsPrintable}
use kong_coco.Sdk.Params.{Params, params_sort_str, prepare_params}
use kong_coco.Sdk.Params.Signed.{are_scalar, request, signature, message}
use kong_coco.Sdk.Params.Listing.{Items, Lists}
use kong_coco.Json.Reader.{read_json}
use kong_coco.Sdk.Params.Request.{prepare_params-eq}
use kong_coco.Sdk.Params.Order.{Differ}
use kong_coco.Sdk.Params.Signature.{sign_of, joined, apart, sign_of-perm, sign_of-joined}
use kong_coco.Sdk.Decrypt.{Post, Response, decrypt_main, print_response}
use kong_coco.Sdk.Decrypt.Posts.{posting, signed_request, script_sign, decrypt_main-posts}

abbrev no_repr : JsonValue → Text
no_repr v = codes "{}"

-- Stands for HMAC: the key, and behind it the message.
abbrev keyed : List ℕ → List ℕ → List ℕ
keyed key message = key ++ message

abbrev two_params : Params
two_params = (codes "b", text (codes "x y")) ∷ (codes "c", null) ∷ (codes "a", whole 7) ∷ []

sort_two : params_sort_str no_repr two_params ≡ ok (codes "a=7&b=x y")
unfolding params_sort_str
sort_two = refl

abbrev app : Text
app = codes "id"

abbrev api : Text
api = codes "k"

prepare_none :
    prepare_params no_repr keyed 12 none app api
    ≡ ok (
        (codes "appid", text app)
        ∷ (codes "timestamp", text (codes "12"))
        ∷ (codes "sign", text (codes "a2FwcGlkPWlkJnRpbWVzdGFtcD0xMg=="))
        ∷ [])
unfolding prepare_params
prepare_none = refl

prepare_params-eq_example :
    (items : Option Items) × Lists no_repr (some two_params) items
    × (prepare_params no_repr keyed 12 (some two_params) app api ≡ (
        if are_scalar items app api
        then ok (
            request no_repr
              (some two_params)
              app
              12
              (signature no_repr keyed api (message items app 12)))
        else err encode_error))
prepare_params-eq_example = prepare_params-eq no_repr keyed 12 (some two_params) app api

abbrev given : Text × JsonValue
given = (codes "aad", text (codes "x"))

abbrev other : Text × JsonValue
other = (codes "keyid", text (codes "y"))

keys-Differ : Differ given other
keys-Differ e = absurd (cc e)

all-Differ : Pairwise Differ (given ∷ other ∷ [])
all-Differ = (Pairwise-pair {R = Differ} (λ a b. ¬_prop)).1 keys-Differ

sign_of-perm_example :
    sign_of no_repr keyed 12 app api (given ∷ other ∷ [])
    ≡ sign_of no_repr keyed 12 app api (other ∷ given ∷ [])
sign_of-perm_example =
    sign_of-perm no_repr keyed 12 app api (given ∷ other ∷ []) (other ∷ given ∷ []) all-Differ
      (Perm.swap other given [])

sign_of-joined_example :
    sign_of no_repr keyed 12 app api (joined (codes "aad") (codes "keyid") (codes "x") (codes "y"))
    ≡ sign_of no_repr keyed 12 app api (apart (codes "aad") (codes "keyid") (codes "x") (codes "y"))
sign_of-joined_example =
    sign_of-joined no_repr keyed 12 app api (codes "aad") (codes "keyid") (codes "x") (codes "y")
      (unfold text_lt in refl)

-- A response in JSON, and one in plain text.
abbrev json_response : Response
json_response = record {
  status_code = 200;
  headers = (codes "Content-Type", codes "application/json") ∷ [];
  content_type = some (codes "application/json");
  text_of = codes "[1]";
  content = codes "[1]";
}

abbrev refuse : List ℕ → Result Text
refuse bytes = err (raised (codes "JSONDecodeError"))

print_json : print_response refuse json_response ≡ (
  codes "Response Status Code: 200"
      ∷ codes "Headers:"
      ∷ codes "Content-Type: application/json"
      ∷ codes "Response Body:"
      ∷ [],
  some (raised (codes "JSONDecodeError")),
)
unfolding print_response
print_json = refl

print_text :
    (print_response refuse (record json_response { content_type = some (codes "text/html") })).1
    ≡ none
unfolding print_response
print_text = refl

abbrev respond : Post → Result Response
respond request = ok json_response

decrypt_main-posts_example :
    (body : Text) × (decrypt_main refuse no_repr keyed 12 respond
      ≡ (respond (posting body) >>= λ response. ok (print_response refuse response)))
    × (read_json body ≡ some (signed_request 12 (script_sign keyed 12)))
    × All IsPrintable body
decrypt_main-posts_example = decrypt_main-posts refuse no_repr keyed 12 respond
