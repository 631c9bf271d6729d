-- ===== src/Base64/Tests.antt =====
-- Texts that are encoded and decoded.
use project_test_demo.Common.{
  none, some, length, Bytes, [], ◌∷◌, ◌++◌, codes, ◌≡◌, inl, refl, arith,
}
use project_test_demo.Base64.{
  encode_loop, encode_tail, b64encode, decode_loop, decode_tail, b64decode,
}
use project_test_demo.Base64.Blocks.{IsAscii}
use project_test_demo.Base64.RoundTrip.{b64decode-b64encode}
use project_test_demo.Base64.Outside.{b64encode-outside}

encoded_hello : b64encode (codes "Hello") ≡ some (codes "SGVsbG8=")
unfolding encode_tail encode_loop b64encode
encoded_hello = refl

decoded_hello : b64decode (codes "SGVsbG8=" ++ (0 ∷ [])) 8 ≡ some (codes "Hello")
unfolding decode_loop decode_tail b64decode
decoded_hello = refl

-- Of two bytes that are left, the second changes the first when it is 128 or more.
second_spoils_first : b64encode (1 ∷ 200 ∷ []) ≡ some (codes "/8g=")
unfolding encode_tail encode_loop b64encode
second_spoils_first = refl

-- A text of one byte.
one_byte : b64decode (b'Q' ∷ 0 ∷ []) 1 ≡ none
unfolding b64decode
one_byte = refl

IsAscii-ab : IsAscii (b'a' ∷ b'b' ∷ [])
unfolding IsAscii
IsAscii-ab = (omega arith, (omega arith, tt))

b64decode-b64encode_example :
    (e : Bytes) × (b64encode (b'a' ∷ b'b' ∷ []) ≡ some e)
    × (length e ≡ 4)
    × (b64decode (e ++ (0 ∷ [])) (length e) ≡ some (b'a' ∷ b'b' ∷ []))
b64decode-b64encode_example = b64decode-b64encode (b'a' ∷ b'b' ∷ []) IsAscii-ab

b64encode-outside_example : b64encode (1 ∷ 200 ∷ 3 ∷ b'a' ∷ []) ≡ none
b64encode-outside_example =
    b64encode-outside (1 ∷ 200 ∷ 3 ∷ b'a' ∷ []) 1 200 refl (omega arith) (omega arith)
      (inl (omega arith))
