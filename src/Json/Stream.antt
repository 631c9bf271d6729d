-- ===== src/Json/Stream.antt =====
-- string_stream.hpp, `basic_string_stream`: the buffer, and how it grows. A pointer into the buffer is
-- its offset from `header_ptr_`, and `none` is a copy or a store outside of an allocation.
use project_test_demo.Common.{
  ℕ, zero, suc, ◌+◌, ◌-◌, ◌*◌, ◌/◌, ◌%◌, ◌^◌, Bool, true, false, Option, none, some, [], ◌∷◌, ◌++◌,
  length, take, drop, ltb, if◌then◌else◌, Bytes,
}
use project_test_demo.Common.Maybe.{◌>>=◌}

pub data Status : Type 0 where
  good read_overflow : Status

-- The allocation that starts at `header_ptr_`, and the offsets of the other pointers.
pub record Stream : Type 0 where
  pub buffer : Bytes
  pub read_ptr : ℕ
  pub write_ptr : ℕ
  pub tail_ptr : ℕ
  pub status : Status
  pub length_ : ℕ

abbrev pub init_buff_size : ℕ
init_buff_size = 1024

abbrev pub zeros : ℕ → Bytes
zeros zero = []
zeros (suc n) = 0 ∷ zeros n

unfoldable pub create : Stream
create = record {
  buffer = zeros init_buff_size;
  read_ptr = 0;
  write_ptr = 0;
  tail_ptr = init_buff_size;
  status = good;
  length_ = init_buff_size;
}

-- `memcpy(mem + pos, bytes, length bytes)`
unfoldable pub store : Bytes → ℕ → Bytes → Option Bytes
store mem pos bytes =
    if ltb (length mem) (pos + length bytes)
    then none
    else some (take pos mem ++ (bytes ++ drop (pos + length bytes) mem))

abbrev pub rounded : ℕ → ℕ
rounded want_size =
    (want_size + init_buff_size - 1) % 2 ^ 64 / init_buff_size * init_buff_size % 2 ^ 64

-- What `alloc_.allocate` returns for a size: bytes that are not initialised.
module _ (allocate : ℕ → Bytes) where
  unfoldable pub growpup : Stream → ℕ → Option Stream
  growpup s want_size = do
    bytes ← store (allocate (rounded want_size)) 0 (take s.length_ s.buffer)
    some (record s { buffer = bytes; length_ = rounded want_size; tail_ptr = rounded want_size })

  -- The test in `put` and `write`.
  unfoldable pub reserve : Stream → ℕ → Option Stream
  reserve s writed_len = if ltb s.length_ writed_len then growpup s writed_len else some s

  -- `put` is this function for one byte: `*write_ptr_ = c; ++write_ptr_`.
  unfoldable pub write : Stream → Bytes → Option Stream
  write s bytes = do
    t ← reserve s ((s.write_ptr + length bytes) % 2 ^ 64)
    mem ← store t.buffer t.write_ptr bytes
    some (record t { buffer = mem; write_ptr = t.write_ptr + length bytes })

  unfoldable pub put : Stream → ℕ → Option Stream
  put s c = write s (c ∷ [])

-- The bytes that `read` copies out, with the stream. The pointer is compared with the end of the
-- buffer, not with that of the bytes written.
unfoldable pub read : Stream → ℕ → Bytes × Stream
read s len =
    if ltb s.tail_ptr (s.read_ptr + len)
    then ([], record s { status = read_overflow })
    else (take len (drop s.read_ptr s.buffer), record s { read_ptr = s.read_ptr + len })

unfoldable pub bad : Stream → Bool
bad s = elim s.status [ good ↦ false | read_overflow ↦ true ]

unfoldable pub str : Stream → Bytes
str s = take s.write_ptr s.buffer

unfoldable pub clear : Stream → Stream
clear s = record s { read_ptr = 0; write_ptr = 0 }
