-- ===== src/Packet.antt =====
-- stream_format.hpp and msg.h: the writer of packets.
use project_test_demo.Common.{
  ℕ, zero, suc, ◌+◌, ◌-◌, ◌*◌, ◌/◌, ◌%◌, ◌^◌, ltb, leb, if◌then◌else◌, Option, none, some, List, [],
  ◌∷◌, ◌++◌, length, take, drop,
}
use project_test_demo.Common.Maybe.{◌>>=◌}
pub mod Layout
mod Tests

abbrev pub body_offset : ℕ
body_offset = 0

abbrev pub cmd_offset : ℕ
cmd_offset = 4

abbrev pub header_offset : ℕ
header_offset = 6

-- The first n bytes of a number in memory, the low one first.
abbrev pub bytes_of : ℕ → ℕ → List ℕ
bytes_of zero v = []
bytes_of (suc n) v = v % 256 ∷ bytes_of n (v / 256)

-- `std::vector<char>::resize`, which fills with zeros.
abbrev pub resize : ℕ → List ℕ → List ℕ
resize zero datas = []
resize (suc n) [] = 0 ∷ resize n []
resize (suc n) (x ∷ xs) = x ∷ resize n xs

-- `memcpy` into the vector; none outside of it, or where the source is shorter than the size.
abbrev pub write : List ℕ → List ℕ → ℕ → ℕ → Option (List ℕ)
write datas buffer size write_pos =
    if leb (write_pos + size) (length datas)
    then if leb size (length buffer)
      then some (take write_pos datas ++ (take size buffer ++ drop (write_pos + size) datas))
      else none
    else none

-- The constructor: the vector has the size of a header.
abbrev pub create : List ℕ
create = resize header_offset []

-- `get_send_data` moves the vector out, and leaves an empty one.
abbrev pub get_send_data : List ℕ → List ℕ × List ℕ
get_send_data datas = (datas, [])

abbrev pub write_header : ℕ → List ℕ → Option (List ℕ)
write_header cmd datas = write datas (bytes_of 2 cmd) 2 cmd_offset

abbrev pub write_body : List ℕ → ℕ → List ℕ → Option (List ℕ)
write_body str data_size datas = do
  sized ←
      write (resize ((header_offset + data_size) % 2 ^ 64) datas) (bytes_of 8 data_size) 4
        body_offset
  write sized str data_size header_offset
