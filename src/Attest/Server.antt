-- ===== src/Attest/Server.antt =====
-- kong/plugins/attest/sdk/pyserver.py: the one route of the server.
use kong_coco.Prelude.{◌≡◌, refl, true, List, [], ◌∷◌, ◌++◌, ℕ, Text, codes, all}
use kong_coco.Result.{Result, ok, err}
use kong_coco.Utf8.Encoding.{is_scalar, utf8}
use kong_coco.Utf8.Decoding.{decode_strict}
use kong_coco.Utf8.RoundTrip.{decode_strict-utf8}

abbrev answer : Text
answer = codes "hello, im python"

-- What is printed of a request before its body is decoded.
abbrev request_lines : (method path headers : Text) → List Text
request_lines method path headers =
    (codes "Received request: " ++ (method ++ (b' ' ∷ path)))
    ∷ (codes "Request headers: " ++ headers)
    ∷ []

-- The lines that are printed, and the answer.
body_shown : List Text → Result Text → List Text × Result Text
body_shown lines (ok body) = (lines ++ (codes "Request body: " ++ body) ∷ [], ok answer)
body_shown lines (err e) = (lines, err e)

-- `headers` is what `str` makes of the headers.
unfoldable pub catch_all : (method path headers : Text) → List ℕ → List Text × Result Text
unfolding body_shown decode_strict
catch_all method path headers body =
    body_shown (request_lines method path headers) (decode_strict body)

-- A body in UTF-8 is printed as its text, and answered.
pub catch_all-utf8 :
    (method path headers body : Text)
    → all is_scalar body ≡ true
    → catch_all method path headers (utf8 body)
      ≡ (request_lines method path headers ++ (codes "Request body: " ++ body) ∷ [], ok answer)
unfolding catch_all body_shown
catch_all-utf8 method path headers body h = rw (decode_strict-utf8 body h) refl
