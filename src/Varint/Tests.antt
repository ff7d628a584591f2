-- ===== src/Varint/Tests.antt =====
-- mc_varint.c: runs of the code, and the theorems at concrete inputs.
use starrysky_mc_server.Prelude.{◌≡◌, refl, arith, [], ◌∷◌, ◌++◌, none, some, length}
use starrysky_mc_server.Varint.{encode, encode_into, decode}
use starrysky_mc_server.Varint.RoundTrip.{decode-encode}

encode_300 : encode 300 5 ≡ 0xac ∷ 0x02 ∷ []
unfolding encode
encode_300 = refl

encode_minus_one : encode 0xffff_ffff 5 ≡ 0xff ∷ 0xff ∷ 0xff ∷ 0xff ∷ 0x0f ∷ []
unfolding encode
encode_minus_one = refl

encode_no_room : encode_into 300 1 ≡ (0, 0xac ∷ [])
unfolding encode_into
encode_no_room = refl

decode_too_wide : decode (0xff ∷ 0xff ∷ 0xff ∷ 0xff ∷ 0x10 ∷ []) ≡ none
unfolding decode
decode_too_wide = refl

decode-encode_example : decode (encode 25565 5 ++ (7 ∷ [])) ≡ some (25565, length (encode 25565 5))
decode-encode_example = decode-encode 25565 5 (7 ∷ []) (omega arith) (omega arith)
