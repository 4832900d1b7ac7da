-- ===== src/Sdk/Params/Signed.antt =====
-- What is signed: the parameters in plain words.
use kong_coco.Prelude.{
  ℕ, ◌≡◌, refl, sym, ap, ◌∙◌, inl, inr, Bool, true, ◌&&◌, Option, none, some, List, [], ◌∷◌, ◌++◌,
  Text, codes, all, All, arith, if◌then◌else◌, Bool-cases,
}
use kong_coco.Prelude.Digits.{show, IsDigit, show-IsDigit}
use kong_coco.Result.{ok, err, encode_error}
use kong_coco.Utf8.Encoding.{is_scalar, utf8, encode}
use kong_coco.Utf8.Ascii.{IsAscii, decode_strict-ascii, ascii-scalar}
use kong_coco.Url.RoundTrip.{is_scalar_item, query}
use kong_coco.Url.Query.{query-scalar, unquote_plus-urlencode}
use kong_coco.Json.Dumps.{JsonValue, text, dict}
use kong_coco.Attest.Base64.{b64encode}
use kong_coco.Attest.Base64.Json.{b64encode-IsAscii}
use kong_coco.Sdk.Params.{Params, sorted_items, params_sort_str, fields_of, signature_of}

-- The text that a request is signed by, over the items of its payload, if there is one.
unfoldable pub message : Option (List (Text × Text)) → Text → ℕ → Text
message none appid now = codes "appid=" ++ (appid ++ (codes "&timestamp=" ++ show now))
message (some items) appid now =
    codes "appid="
    ++ (appid ++ (codes "&payload=" ++ (query items ++ (codes "&timestamp=" ++ show now))))

-- No surrogate stands in the items, the appid and the apikey.
abbrev pub are_scalar : Option (List (Text × Text)) → Text → Text → Bool
are_scalar none appid apikey = all is_scalar appid && all is_scalar apikey
are_scalar (some items) appid apikey =
    all is_scalar_item items && (all is_scalar appid && all is_scalar apikey)

module _ (repr : JsonValue → Text) where
  -- The given items in the order of their keys, each as `key=value`, with `&` between them.
  abbrev pub canonical : Params → Text
  canonical params = query (sorted_items repr params)

  -- Parameters that can be encoded: no surrogate stands in them.
  abbrev pub is_encodable : Params → Bool
  is_encodable params = all is_scalar_item (sorted_items repr params)

  pub params_sort_str-eq :
      (params : Params)
      → params_sort_str repr params
        ≡ (if is_encodable params then ok (canonical params) else err encode_error)
  unfolding params_sort_str
  params_sort_str-eq params = unquote_plus-urlencode (sorted_items repr params)

  -- The text that a request is signed by.
  abbrev pub signed_text : Option Params → Text → ℕ → Text
  signed_text none = message none
  signed_text (some payload) = message (some (sorted_items repr payload))

  abbrev pub can_sign : Option Params → Text → Text → Bool
  can_sign none = are_scalar none
  can_sign (some payload) = are_scalar (some (sorted_items repr payload))

  -- A request under a signature.
  unfoldable pub request : Option Params → Text → ℕ → Text → Params
  request none appid now signature =
      (codes "appid", text appid)
      ∷ (codes "timestamp", text (show now))
      ∷ (codes "sign", text signature)
      ∷ []
  request (some payload) appid now signature =
      (codes "appid", text appid)
      ∷ (codes "timestamp", text (show now))
      ∷ (codes "payload", dict (fields_of payload))
      ∷ (codes "sign", text signature)
      ∷ []

  pub show-scalar : (n : ℕ) → all is_scalar (show n) ≡ true
  show-scalar n = ascii-scalar (show n) (weaken (show n) (show-IsDigit n))
    where
      weaken : (s : Text) → All IsDigit s → All IsAscii s
      weaken [] h = tt
      weaken (c ∷ s) ((low, high), h) = (omega arith, weaken s h)

  unfoldable pub two : Text → Text → Params
  two appid time = (codes "appid", text appid) ∷ (codes "timestamp", text time) ∷ []

  unfoldable pub three : Text → Text → Text → Params
  three appid time payload =
      (codes "appid", text appid)
      ∷ (codes "timestamp", text time)
      ∷ (codes "payload", text payload)
      ∷ []

  two_items :
      (appid time : Text)
      → sorted_items repr (two appid time) ≡ (codes "appid", appid) ∷ (codes "timestamp", time) ∷ []
  unfolding sorted_items two
  two_items appid time = refl

  three_items :
      (appid time payload : Text)
      → sorted_items repr (three appid time payload)
        ≡ (codes "appid", appid) ∷ (codes "payload", payload) ∷ (codes "timestamp", time) ∷ []
  unfolding sorted_items three
  three_items appid time payload = refl

  two_text :
      (appid time : Text)
      → query ((codes "appid", appid) ∷ (codes "timestamp", time) ∷ [])
        ≡ codes "appid=" ++ (appid ++ (codes "&timestamp=" ++ time))
  unfolding query
  two_text appid time = refl

  three_text :
      (appid time payload : Text)
      → query ((codes "appid", appid) ∷ (codes "payload", payload) ∷ (codes "timestamp", time) ∷ [])
        ≡ codes "appid="
          ++ (appid ++ (codes "&payload=" ++ (payload ++ (codes "&timestamp=" ++ time))))
  unfolding query
  three_text appid time payload = refl

  two_scalar :
      (appid time : Text)
      → all is_scalar time ≡ true
      → all is_scalar_item ((codes "appid", appid) ∷ (codes "timestamp", time) ∷ [])
        ≡ all is_scalar appid
  unfolding all is_scalar
  two_scalar appid time h = ground (arith, h)

  three_scalar :
      (appid time payload : Text)
      → all is_scalar time ≡ true
      → all is_scalar payload ≡ true
      → all is_scalar_item
          ((codes "appid", appid) ∷ (codes "payload", payload) ∷ (codes "timestamp", time) ∷ [])
        ≡ all is_scalar appid
  unfolding all is_scalar
  three_scalar appid time payload h k = ground (arith, h, k)

  pub two_str :
      (appid : Text) (now : ℕ)
      → params_sort_str repr (two appid (show now))
        ≡ (if all is_scalar appid then ok (signed_text none appid now) else err encode_error)
  unfolding message
  two_str appid now =
      params_sort_str-eq (two appid (show now))
      ∙ rw
          (
            two_items appid (show now),
            two_scalar appid (show now) (show-scalar now),
            two_text appid (show now),
          )
          refl

  pub three_str :
      (payload : Params) (appid : Text) (now : ℕ)
      → is_encodable payload ≡ true
      → params_sort_str repr (three appid (show now) (canonical payload)) ≡ (
          if all is_scalar appid
          then ok (signed_text (some payload) appid now)
          else err encode_error)
  unfolding message
  three_str payload appid now h =
      params_sort_str-eq (three appid (show now) (canonical payload))
      ∙ rw
          (
            three_items appid (show now) (canonical payload),
            three_scalar appid (show now) (canonical payload) (show-scalar now)
                (query-scalar (sorted_items repr payload) ∙ h),
            three_text appid (show now) (canonical payload),
          )
          refl

  pub two_signed :
      (appid : Text) (now : ℕ)
      → all is_scalar appid ≡ true
      → all is_scalar (signed_text none appid now) ≡ true
  unfolding message
  two_signed appid now h =
      ap (all is_scalar) (sym (two_text appid (show now)))
      ∙ query-scalar _
      ∙ two_scalar appid (show now) (show-scalar now)
      ∙ h

  pub three_signed :
      (payload : Params) (appid : Text) (now : ℕ)
      → is_encodable payload ≡ true
      → all is_scalar appid ≡ true
      → all is_scalar (signed_text (some payload) appid now) ≡ true
  unfolding message
  three_signed payload appid now k h =
      ap (all is_scalar) (sym (three_text appid (show now) (canonical payload)))
      ∙ query-scalar _
      ∙ three_scalar appid (show now) (canonical payload) (show-scalar now)
          (query-scalar (sorted_items repr payload) ∙ k)
      ∙ h

  module _ (hmac : List ℕ → List ℕ → List ℕ) where
    -- The signature of a text under a key.
    abbrev pub signature : Text → Text → Text
    signature apikey message = b64encode (hmac (utf8 apikey) (utf8 message))

    pub signature_of-eq :
        (now : ℕ) (apikey message : Text)
        → all is_scalar message ≡ true
        → signature_of repr hmac now apikey message
          ≡ (if all is_scalar apikey then ok (signature apikey message) else err encode_error)
    unfolding signature_of encode
    signature_of-eq now apikey message h = elim (Bool-cases (all is_scalar apikey)) [
      | inl t ↦
          rw (t, h)
            (decode_strict-ascii (signature apikey message)
              (b64encode-IsAscii (hmac (utf8 apikey) (utf8 message))))
      | inr t ↦ rw t refl
    ]
