-- ===== src/Base64/Examples.antt =====
-- Runs of the coder on known texts, and its theorems at concrete bytes.
use kv_store_project.Prelude.{◌≡◌, refl, [], ◌∷◌, arith}
use kv_store_project.Prelude.Text.{codes}
use kv_store_project.Base64.{
  base64_encode, base64_decode, encode_loop, decode_loop, pad_loop, base64_char, sextet_of,
}
use kv_store_project.Base64.RoundTrip.{base64_decode-base64_encode}

encode_hello : base64_encode (codes "hello") ≡ codes "aGVsbG8="
unfolding base64_encode encode_loop base64_char pad_loop
encode_hello = refl

decode_hello : base64_decode (codes "aGVsbG8=") ≡ codes "hello"
unfolding base64_decode decode_loop sextet_of
decode_hello = refl

base64_decode-base64_encode_example :
    base64_decode (base64_encode (255 ∷ 0 ∷ 128 ∷ 7 ∷ [])) ≡ 255 ∷ 0 ∷ 128 ∷ 7 ∷ []
base64_decode-base64_encode_example =
    base64_decode-base64_encode (255 ∷ 0 ∷ 128 ∷ 7 ∷ []) (omega arith)
