-- ===== src/Sdk/Params/Request.antt =====
-- The request that is prepared, on every branch.
use kong_coco.Prelude.{
  ℕ, ◌≡◌, refl, ap, ◌∙◌, inl, inr, Bool, true, false, ◌&&◌, Option, none, some, List, Text, all,
  insert, list_beq, list_eq, nat_eq, if◌then◌else◌, Bool-cases, codes,
}
use kong_coco.Prelude.Digits.{show}
use kong_coco.Result.{ok, err, encode_error, ◌>>=◌}
use kong_coco.Utf8.Encoding.{is_scalar}
use kong_coco.Json.Dumps.{JsonValue, text}
use kong_coco.Sdk.Params.{
  Params, sorted_items, params_sort_str, unsigned, with_payload, signed, whole_payload,
  prepare_params,
}
use kong_coco.Sdk.Params.Signed.{
  message, are_scalar, canonical, is_encodable, params_sort_str-eq, signed_text, can_sign, request,
  two, three, two_str, three_str, two_signed, three_signed, signature, signature_of-eq,
}
use kong_coco.Sdk.Params.Listing.{Items, Lists, sorted_items-IsListing}

module _ (repr : JsonValue → Text) (hmac : List ℕ → List ℕ → List ℕ) (now : ℕ) where
  unsigned-eq : (appid : Text) → unsigned repr hmac now appid ≡ two repr appid (show now)
  unfolding unsigned two insert list_beq
  unsigned-eq appid = refl

  with_payload-eq :
      (payload : Params) (appid : Text)
      → with_payload repr hmac now (two repr appid (show now)) (some payload) ≡ (
          if is_encodable repr payload
          then ok (three repr appid (show now) (canonical repr payload))
          else err encode_error)
  unfolding with_payload two three insert list_beq
  with_payload-eq payload appid = elim (Bool-cases (is_encodable repr payload)) [
    | inl t ↦ rw (params_sort_str-eq repr payload, t) refl
    | inr t ↦ rw (params_sort_str-eq repr payload, t) refl
  ]

  -- Parameters whose text is known, with the signature of that text.
  signed-eq :
      (payload : Option Params) (apikey message : Text) (params : Params) (fits : Bool)
      → params_sort_str repr params ≡ (if fits then ok message else err encode_error)
      → (fits ≡ true → all is_scalar message ≡ true)
      → signed repr hmac now payload apikey params ≡ (
          if fits && all is_scalar apikey
          then ok (
              whole_payload repr hmac now payload
                (insert (codes "sign") (text (signature repr hmac apikey message)) params))
          else err encode_error)
  unfolding signed
  signed-eq payload apikey message params false e h = rw e refl
  signed-eq payload apikey message params true e h = elim (Bool-cases (all is_scalar apikey)) [
    | inl t ↦ rw (e, signature_of-eq repr hmac now apikey message (h refl), t) refl
    | inr t ↦ rw (e, signature_of-eq repr hmac now apikey message (h refl), t) refl
  ]

  request-none :
      (appid sign : Text)
      → whole_payload repr hmac now none
          (insert (codes "sign") (text sign) (two repr appid (show now)))
        ≡ request repr none appid now sign
  unfolding whole_payload insert list_beq two request
  request-none appid sign = refl

  request-some :
      (payload : Params) (appid message sign : Text)
      → whole_payload repr hmac now
          (some payload)
          (insert (codes "sign") (text sign) (three repr appid (show now) message))
        ≡ request repr (some payload) appid now sign
  unfolding whole_payload insert list_beq three request
  request-some payload appid message sign = refl

  finish_request :
      (payload : Params) (appid apikey : Text)
      → ((if is_encodable repr payload
            then ok (three repr appid (show now) (canonical repr payload))
            else err encode_error)
          >>= signed repr hmac now (some payload) apikey)
        ≡ (if can_sign repr (some payload) appid apikey
            then ok (
                request repr
                  (some payload)
                  appid
                  now
                  (signature repr hmac apikey (signed_text repr (some payload) appid now)))
            else err encode_error)
  finish_request payload appid apikey = elim (Bool-cases (is_encodable repr payload)) [
    | inl t ↦ rw t (
        signed-eq (some payload) apikey (signed_text repr (some payload) appid now)
          (three repr appid (show now) (canonical repr payload)) (all is_scalar appid)
          (three_str repr payload appid now t) (three_signed repr payload appid now t)
        ∙ ap (λ r. if all is_scalar appid && all is_scalar apikey then ok r else err encode_error)
            (request-some payload appid (canonical repr payload)
              (signature repr hmac apikey (signed_text repr (some payload) appid now))))
    | inr t ↦ rw t refl
  ]

  -- The request over the items as they are sorted.
  pub prepare_params-known :
      (payload : Option Params) (appid apikey : Text)
      → prepare_params repr hmac now payload appid apikey ≡ (
          if can_sign repr payload appid apikey
          then ok (
              request repr payload appid now
                (signature repr hmac apikey (signed_text repr payload appid now)))
          else err encode_error)
  unfolding prepare_params
  prepare_params-known none appid apikey =
      ap (signed repr hmac now none apikey) (unsigned-eq appid)
      ∙ signed-eq none apikey (signed_text repr none appid now) (two repr appid (show now))
          (all is_scalar appid) (two_str repr appid now) (two_signed repr appid now)
      ∙ ap (λ r. if can_sign repr none appid apikey then ok r else err encode_error)
          (request-none appid (signature repr hmac apikey (signed_text repr none appid now)))
  prepare_params-known (some payload) appid apikey =
      ap
        (λ params.
          with_payload repr hmac now params (some payload)
          >>= signed repr hmac now (some payload) apikey)
        (unsigned-eq appid)
      ∙ ap (λ r. r >>= signed repr hmac now (some payload) apikey) (with_payload-eq payload appid)
      ∙ finish_request payload appid apikey

  -- There are items that list the payload, which are those that are not None, as texts and in
  -- ascending order of the keys, such that prepare_params returns the appid, the time, the whole
  -- payload and a signature: the base64 text of the HMAC, under the apikey, of the appid, these
  -- items, if there is a payload, and the time in plain words; where a surrogate stands in one of
  -- the texts it raises a UnicodeEncodeError instead.
  pub prepare_params-eq :
      (payload : Option Params) (appid apikey : Text)
      → (items : Option Items) × Lists repr payload items
        × (prepare_params repr hmac now payload appid apikey ≡ (
            if are_scalar items appid apikey
            then ok (
                request repr payload appid now
                  (signature repr hmac apikey (message items appid now)))
            else err encode_error))
  prepare_params-eq none appid apikey = (none, tt, prepare_params-known none appid apikey)
  prepare_params-eq (some payload) appid apikey = (
    some (sorted_items repr payload),
    sorted_items-IsListing repr payload,
    prepare_params-known (some payload) appid apikey,
  )
