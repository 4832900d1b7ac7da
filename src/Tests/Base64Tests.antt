-- ===== src/Tests/Base64Tests.antt =====
-- Base64 without padding on short byte strings.
use kong_coco.Prelude.{◌≡◌, refl, codes}
use kong_coco.Attest.Base64.{bytes_to_base64}

one_byte : bytes_to_base64 (codes "M") ≡ codes "TQ"
unfolding bytes_to_base64
one_byte = refl

four_bytes : bytes_to_base64 (codes "Man!") ≡ codes "TWFuIQ"
unfolding bytes_to_base64
four_bytes = refl
