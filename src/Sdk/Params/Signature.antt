-- ===== src/Sdk/Params/Signature.antt =====
-- Which payloads have the same signature.
use mathlib.Core.List.{Perm, Pairwise, append_assoc}
use kong_coco.Prelude.{
  ℕ, ◌≡◌, refl, sym, ap, ◌∙◌, Bool, true, false, ◌&&◌, Option, some, List, [], ◌∷◌, ◌++◌, Text,
  codes, text_lt, all, lookup, list_beq, list_eq, nat_eq, if◌then◌else◌, arith,
}
use kong_coco.Prelude.Digits.{show}
use kong_coco.Prelude.Sorting.{sorted}
use kong_coco.Result.{Result, ok, err, encode_error, ◌>>=◌}
use kong_coco.Utf8.Encoding.{is_scalar}
use kong_coco.Url.RoundTrip.{is_scalar_item, query}
use kong_coco.Url.Query.{all-append}
use kong_coco.Json.Dumps.{JsonValue, text}
use kong_coco.Sdk.Params.{Params, sorted_items, prepare_params}
use kong_coco.Sdk.Params.Signed.{
  canonical, is_encodable, can_sign, request, signed_text, message, signature,
}
use kong_coco.Sdk.Params.Order.{Differ, sorted_items-perm}
use kong_coco.Sdk.Params.Request.{prepare_params-known}

-- Two items, and one whose value spells out the second.
abbrev pub apart : (k j v w : Text) → Params
apart k j v w = (k, text v) ∷ (j, text w) ∷ []

abbrev pub joined : (k j v w : Text) → Params
joined k j v w = (k, text (v ++ (b'&' ∷ (j ++ (b'=' ∷ w))))) ∷ []

module _ (repr : JsonValue → Text) (hmac : List ℕ → List ℕ → List ℕ) (now : ℕ)
    (appid apikey : Text) where
  -- The signature in the request for a payload.
  unfoldable pub sign_of : Params → Result (Option JsonValue)
  unfolding lookup list_beq prepare_params
  sign_of payload = prepare_params repr hmac now (some payload) appid apikey >>= λ params.
      ok (lookup (codes "sign") params)

  sign_of-eq :
      (payload : Params)
      → sign_of payload ≡ (
          if is_encodable repr payload && (all is_scalar appid && all is_scalar apikey)
          then ok
              (some (text (signature repr hmac apikey (signed_text repr (some payload) appid now))))
          else err encode_error)
  unfolding sign_of
  sign_of-eq payload =
      ap (λ r. r >>= λ params. ok (lookup (codes "sign") params))
        (prepare_params-known repr hmac now (some payload) appid apikey)
      ∙ read (can_sign repr (some payload) appid apikey) payload _
    where
      read :
          (b : Bool) (payload : Params) (sign : Text)
          → ((if b then ok (request repr (some payload) appid now sign) else err encode_error)
              >>= λ params. ok (lookup (codes "sign") params))
            ≡ (if b then ok (some (text sign)) else err encode_error)
      read true payload sign = unfold request lookup list_beq in refl
      read false payload sign = refl

  same_signed :
      (p q : Params)
      → canonical repr p ≡ canonical repr q
      → signed_text repr (some p) appid now ≡ signed_text repr (some q) appid now
  unfolding message
  same_signed p q h =
      ap
        (λ s.
          codes "appid="
          ++ (appid ++ (codes "&payload=" ++ (s ++ (codes "&timestamp=" ++ show now)))))
        h

  same_sign :
      (p q : Params)
      → is_encodable repr p ≡ is_encodable repr q
      → canonical repr p ≡ canonical repr q
      → sign_of p ≡ sign_of q
  same_sign p q e h = sign_of-eq p ∙ rw (e, same_signed p q h) refl ∙ sym (sign_of-eq q)

  -- Payloads with the same items in another order have the same signature, if no key stands twice.
  pub sign_of-perm : (p q : Params) → Pairwise Differ p → Perm p q → sign_of p ≡ sign_of q
  sign_of-perm p q d π =
      let e = sorted_items-perm repr p q d π in
      same_sign p q (ap (all is_scalar_item) e) (ap query e)

  apart_items :
      (k j v w : Text)
      → text_lt j k ≡ false
      → sorted_items repr (apart k j v w) ≡ (k, v) ∷ (j, w) ∷ []
  unfolding sorted_items sorted
  apart_items k j v w h = rw h refl

  joined_items :
      (k j v w : Text)
      → sorted_items repr (joined k j v w) ≡ (k, v ++ (b'&' ∷ (j ++ (b'=' ∷ w)))) ∷ []
  unfolding sorted_items
  joined_items k j v w = refl

  same_text :
      (k j v w : Text)
      → query ((k, v) ∷ (j, w) ∷ []) ≡ query ((k, v ++ (b'&' ∷ (j ++ (b'=' ∷ w)))) ∷ [])
  unfolding query
  same_text k j v w = rw append_assoc refl

  same_scalar :
      (k j v w : Text)
      → all is_scalar_item ((k, v) ∷ (j, w) ∷ [])
        ≡ all is_scalar_item ((k, v ++ (b'&' ∷ (j ++ (b'=' ∷ w)))) ∷ [])
  unfolding all is_scalar
  same_scalar k j v w =
      rw (all-append is_scalar v (b'&' ∷ (j ++ (b'=' ∷ w))), all-append is_scalar j (b'=' ∷ w))
        (ground arith)

  -- A payload of two items and the payload whose one value spells out the second item behind & and
  -- = have the same signature, so the signature does not tell them apart, if the first key is not
  -- above the second.
  pub sign_of-joined :
      (k j v w : Text) → text_lt j k ≡ false → sign_of (joined k j v w) ≡ sign_of (apart k j v w)
  sign_of-joined k j v w h =
      same_sign (joined k j v w) (apart k j v w)
        (ap (all is_scalar_item) (joined_items k j v w)
          ∙ sym (same_scalar k j v w)
          ∙ sym (ap (all is_scalar_item) (apart_items k j v w h)))
        (ap query (joined_items k j v w)
          ∙ sym (same_text k j v w)
          ∙ sym (ap query (apart_items k j v w h)))
