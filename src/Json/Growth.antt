-- ===== src/Json/Growth.antt =====
-- The buffer of the stream: its invariant, and what it holds after a write.
use project_test_demo.Common.{
  ℕ, zero, suc, ◌+◌, ◌%◌, ◌^◌, ◌≤◌, ◌<◌, some, [], ◌++◌, length, take, drop, ltb, if◌then◌else◌,
  Bytes, ◌≡◌, refl, sym, ap, ◌∙◌, arith, Bool-cases, inl, inr, length-append, length-take,
  length-drop, take-append-left, take-length, append_assoc, append-nil,
}
use project_test_demo.Common.Maybe.{◌>>=◌}
use project_test_demo.Json.Stream.{
  Stream, create, zeros, store, rounded, growpup, reserve, write, str,
}

-- The allocation has the length that is recorded, whole blocks of 1024 bytes, and the pointers lie
-- within it.
pub record IsValid (s : Stream) : Type 0 where
  pub size : length s.buffer ≡ s.length_
  pub tail : s.tail_ptr ≡ s.length_
  pub written : s.write_ptr ≤ s.length_
  pub taken : s.read_ptr ≤ s.length_
  pub blocks : s.length_ % 1024 ≡ 0

pub length-zeros : (n : ℕ) → length (zeros n) ≡ n
length-zeros zero = refl
length-zeros (suc n) = ap suc (length-zeros n)

pub create-IsValid : IsValid create
unfolding create
create-IsValid = record {
  size = refl;
  tail = refl;
  written = omega arith;
  taken = omega arith;
  blocks = refl;
}

length-store :
    (mem bytes : Bytes) (pos : ℕ)
    → pos + length bytes ≤ length mem
    → (after : Bytes) × (store mem pos bytes ≡ some after)
      × (length after ≡ length mem)
      × (take (pos + length bytes) after ≡ take pos mem ++ bytes)
unfolding store
length-store mem bytes pos h =
    let front : length (take pos mem) ≡ pos = length-take pos mem (omega arith) in
    let back = length-drop (pos + length bytes) mem in
    (
      take pos mem ++ (bytes ++ drop (pos + length bytes) mem),
      ground arith,
      omega (
        arith,
        front,
        back,
        length-append (take pos mem) (bytes ++ drop (pos + length bytes) mem),
        length-append bytes (drop (pos + length bytes) mem),
      ),
      ap (take (pos + length bytes))
            (sym (append_assoc (take pos mem) bytes (drop (pos + length bytes) mem)))
          ∙ take-length (pos + length bytes) (take pos mem ++ bytes) (drop (pos + length bytes) mem)
              (omega (arith, front, length-append (take pos mem) bytes)),
    )

rounded-bounds :
    (n : ℕ) → n + 1024 ≤ 2 ^ 64 → (n ≤ rounded n) × (rounded n < n + 1024) × (rounded n % 1024 ≡ 0)
rounded-bounds n h = omega arith

store-front :
    (mem bytes : Bytes)
    → length bytes ≤ length mem
    → store mem 0 bytes ≡ some (bytes ++ drop (length bytes) mem)
unfolding store
store-front mem bytes h =
    let e : 0 + length bytes ≡ length bytes = omega arith in rw e (ground arith)

take_all : (n : ℕ) (xs : Bytes) → length xs ≡ n → take n xs ≡ xs
take_all n xs h = ap (take n) (sym (append-nil xs)) ∙ take-length n xs [] h

module _ (allocate : ℕ → Bytes) (allocates : (n : ℕ) → length (allocate n) ≡ n) where
  -- What `growpup` keeps, for a size above the old one.
  growpup-IsValid :
      (s : Stream) (want : ℕ)
      → IsValid s
      → s.length_ < want
      → want + 1024 ≤ 2 ^ 64
      → (t : Stream) × (growpup allocate s want ≡ some t)
        × IsValid t
        × (t.write_ptr ≡ s.write_ptr)
        × (t.length_ ≡ rounded want)
        × (str t ≡ str s)
  unfolding growpup str
  growpup-IsValid s want v h fits =
      let (enough, near, blocks) = rounded-bounds want fits in
      let old : take s.length_ s.buffer ≡ s.buffer = take_all s.length_ s.buffer v.size in
      let fresh = allocate (rounded want) in
      let mem = s.buffer ++ drop (length s.buffer) fresh in
      let stored : store fresh 0 (take s.length_ s.buffer) ≡ some mem =
        ap (store fresh 0) old
        ∙ store-front fresh s.buffer (omega (arith, allocates (rounded want), v.size)) in
      let t : Stream = record s { buffer = mem; length_ = rounded want; tail_ptr = rounded want } in
      (
        t,
        ap
            (λ o. o >>= λ bytes.
              some (record s { buffer = bytes; length_ = rounded want; tail_ptr = rounded want }))
            stored,
        record {
          size = omega (
            arith,
            length-append s.buffer (drop (length s.buffer) fresh),
            length-drop (length s.buffer) fresh,
            allocates (rounded want),
            v.size,
          );
          tail = refl;
          written = omega (arith, v.written);
          taken = omega (arith, v.taken);
          blocks = blocks;
        },
        refl,
        refl,
        take-append-left s.write_ptr s.buffer (drop (length s.buffer) fresh)
            (omega (arith, v.size, v.written)),
      )

  reserve-IsValid :
      (s : Stream) (want : ℕ)
      → IsValid s
      → s.write_ptr ≤ want
      → want + 1024 ≤ 2 ^ 64
      → (t : Stream) × (reserve allocate s want ≡ some t)
        × IsValid t
        × (t.write_ptr ≡ s.write_ptr)
        × (want ≤ t.length_)
        × (t.length_ ≡ (if ltb s.length_ want then rounded want else s.length_))
        × (str t ≡ str s)
  unfolding reserve
  reserve-IsValid s want v h fits = elim (Bool-cases (ltb s.length_ want)) [
    | inl more ↦
        let (t, grown, valid, same, size, text) = growpup-IsValid s want v (ground arith) fits in
        let (enough, near, blocks) = rounded-bounds want fits in
        (t, rw more grown, valid, same, omega arith, rw more size, text)
    | inr room ↦ (s, rw room refl, v, refl, ground arith, rw room refl, refl)
  ]

  -- A write to a valid stream, of a text with which it stays well below 2 ^ 64 bytes, stores within the
  -- allocation and gives a valid stream that holds the text behind what it held. The buffer grows only
  -- where the text does not fit, and then to the next multiple of 1024.
  pub write-IsValid :
      (s : Stream) (bytes : Bytes)
      → IsValid s
      → s.write_ptr + length bytes + 1024 ≤ 2 ^ 64
      → (t : Stream) × (write allocate s bytes ≡ some t)
        × IsValid t
        × (str t ≡ str s ++ bytes)
        × (t.write_ptr ≡ s.write_ptr + length bytes)
        × (t.length_ ≡ (
            if ltb s.length_ (s.write_ptr + length bytes)
            then rounded (s.write_ptr + length bytes)
            else s.length_))
  unfolding write str
  write-IsValid s bytes v fits =
      let want = s.write_ptr + length bytes in
      let no_wrap : want % 2 ^ 64 ≡ want = omega arith in
      let (t, reserved, valid, same, room, size, text) =
        reserve-IsValid s want v (omega arith) fits in
      let (mem, stored, mem_size, mem_text) =
        length-store t.buffer bytes t.write_ptr (omega (arith, valid.size)) in
      (
        record t { buffer = mem; write_ptr = t.write_ptr + length bytes },
        ap
              (λ w. reserve allocate s w >>= λ q. store q.buffer q.write_ptr bytes >>= λ m.
                some (record q { buffer = m; write_ptr = q.write_ptr + length bytes }))
              no_wrap
            ∙ ap
                (λ o. o >>= λ q. store q.buffer q.write_ptr bytes >>= λ m.
                  some (record q { buffer = m; write_ptr = q.write_ptr + length bytes }))
                reserved
            ∙ ap
                (λ o.
                  o >>= λ m. some (record t { buffer = m; write_ptr = t.write_ptr + length bytes }))
                stored,
        record {
          size = omega (arith, mem_size, valid.size);
          tail = valid.tail;
          written = omega arith;
          taken = valid.taken;
          blocks = valid.blocks;
        },
        mem_text ∙ ap (λ x. x ++ bytes) text,
        ap (λ n. n + length bytes) same,
        size,
      )
