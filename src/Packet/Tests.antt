-- ===== src/Packet/Tests.antt =====
-- Packets, by example.
use project_test_demo.Common.{ℕ, ◌%◌, ◌^◌, some, List, [], ◌∷◌, take, drop, ◌≡◌, refl, arith}
use project_test_demo.Common.Maybe.{◌>>=◌}
use project_test_demo.Packet.{
  body_offset, cmd_offset, header_offset, create, write_header, write_body,
}
use project_test_demo.Packet.Layout.{
  packet, number_of, write_body-write_header, write_header-write_body,
}

abbrev hello : List ℕ
hello = 104 ∷ 105 ∷ 33 ∷ []

run :
    (write_header 258 create >>= write_body hello 3)
    ≡ some (3 ∷ 0 ∷ 0 ∷ 0 ∷ 2 ∷ 1 ∷ 104 ∷ 105 ∷ 33 ∷ [])
run = refl

write_body-write_header_example :
    ((write_body hello 2 create >>= write_header 7) ≡ some (packet 7 2 hello))
    × ((write_header 7 create >>= write_body hello 2) ≡ some (packet 7 2 hello))
write_body-write_header_example =
    write_body-write_header hello 2 7 create (omega arith) (omega arith) (omega arith)

write_header-write_body_example :
    (p : List ℕ) × ((write_header 258 create >>= write_body hello 3) ≡ some p)
    × (number_of (take 4 (drop body_offset p)) ≡ 3 % 2 ^ 32)
    × (number_of (take 2 (drop cmd_offset p)) ≡ 258)
    × (drop header_offset p ≡ take 3 hello)
write_header-write_body_example =
    write_header-write_body hello 3 258 (omega arith) (omega arith) (omega arith)
