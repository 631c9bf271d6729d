-- ===== src/Json/Written.antt =====
-- What `write_str` leaves in the stream.
use project_test_demo.Common.{
  ℕ, ◌+◌, ◌^◌, ◌≤◌, Option, some, [], ◌∷◌, ◌++◌, length, ◌==◌, if◌then◌else◌, Bytes, ◌≡◌, refl, sym,
  ap, ◌∙◌, arith, Bool-cases, inl, inr, length-append, append_assoc, append-nil,
}
use project_test_demo.Common.Maybe.{◌>>=◌}
use project_test_demo.Json.Stream.{Stream, write, put, str}
use project_test_demo.Json.Growth.{IsValid, write-IsValid}
use project_test_demo.Json.Escape.{
  escape_, hex_byte, write_chars, write_str, piece, escaped, quoted_text,
}

-- The stream stays well below 2 ^ 64 bytes with this text.
abbrev pub Room : Stream → Bytes → Type 0
Room s text = s.write_ptr + length text + 1024 ≤ 2 ^ 64

module _ (allocate : ℕ → Bytes) (allocates : (n : ℕ) → length (allocate n) ≡ n) where
  -- A stream to which this text has been added.
  abbrev pub Added : Stream → Bytes → Option Stream → Type 0
  Added s text o =
      (t : Stream) × (o ≡ some t)
      × IsValid t
      × (str t ≡ str s ++ text)
      × (t.write_ptr ≡ s.write_ptr + length text)

  write-Added :
      (s : Stream) (text : Bytes) → IsValid s → Room s text → Added s text (write allocate s text)
  write-Added s text v h =
      let (t, done, valid, held, end_, size) = write-IsValid allocate allocates s text v h in
      (t, done, valid, held, end_)

  pub put-Added :
      (s : Stream) (c : ℕ) → IsValid s → Room s (c ∷ []) → Added s (c ∷ []) (put allocate s c)
  unfolding put
  put-Added s c v h = write-Added s (c ∷ []) v h

  -- One write behind another.
  pub then-Added :
      (s : Stream) (x y : Bytes) (o : Option Stream) (f : Stream → Option Stream)
      → IsValid s
      → Room s (x ++ y)
      → (Room s x → Added s x o)
      → ((t : Stream) → IsValid t → Room t y → Added t y (f t))
      → Added s (x ++ y) (o >>= f)
  then-Added s x y o f v room first second =
      let (t, done, valid, held, end_) = first (omega (arith, length-append x y)) in
      let (u, done', valid', held', end') = second t valid (omega (arith, length-append x y)) in
      (
        u,
        ap (λ p. p >>= f) done ∙ done',
        valid',
        held' ∙ ap (λ z. z ++ y) held ∙ append_assoc (str s) x y,
        omega (arith, length-append x y),
      )

  same-Added :
      (s : Stream) (x y : Bytes) (o p : Option Stream) → Added s x o → x ≡ y → o ≡ p → Added s y p
  same-Added s x y o p h e f =
      let (t, done, valid, held, end_) = h in
      (
        t,
        sym f ∙ done,
        valid,
        held ∙ ap (λ z. str s ++ z) e,
        end_ ∙ ap (λ z. s.write_ptr + length z) e,
      )

  pub nil-Added : (s : Stream) → IsValid s → Added s [] (some s)
  nil-Added s v = (s, refl, v, sym (append-nil (str s)), omega arith)

  piece-Added :
      (s : Stream) (c : ℕ)
      → IsValid s
      → Room s (piece c)
      → Added s
          (piece c)
          (if escape_ c == 0 then put allocate s c else write allocate s (b'\\' ∷ escape_ c ∷ []))
  unfolding put piece
  piece-Added s c v h =
      same-Added s (piece c) (piece c) (write allocate s (piece c))
        (if escape_ c == 0 then put allocate s c else write allocate s (b'\\' ∷ escape_ c ∷ []))
        (write-Added s (piece c) v h) refl (ground arith)

  write_chars-Added :
      (text : Bytes) (s : Stream)
      → IsValid s
      → Room s (escaped text)
      → Added s (escaped text) (write_chars allocate s text)
  unfolding write_chars escaped piece
  write_chars-Added [] s v h = nil-Added s v
  write_chars-Added (c ∷ []) s v h = elim (Bool-cases (c == 0)) [
    | inl z ↦
        same-Added s [] (escaped (c ∷ [])) (some s) (write_chars allocate s (c ∷ []))
          (nil-Added s v) (ground arith) (ground arith)
    | inr z ↦ elim (Bool-cases (escape_ c == 0)) [
      | inl plain ↦
          let e : piece c ≡ escaped (c ∷ []) = ground arith in
          same-Added s (piece c) (escaped (c ∷ []))
            (if escape_ c == 0 then put allocate s c else write allocate s (b'\\' ∷ escape_ c ∷ []))
            (write_chars allocate s (c ∷ [])) (piece-Added s c v (omega (arith, ap length e))) e
            (ground arith)
      | inr special ↦ elim (Bool-cases (escape_ c == b'u')) [
        | inl control ↦
            let x : Bytes = b'\\' ∷ b'u' ∷ b'0' ∷ b'0' ∷ hex_byte c in
            let e : x ≡ escaped (c ∷ []) = ground arith in
            same-Added s x (escaped (c ∷ [])) (write allocate s x) (write_chars allocate s (c ∷ []))
              (write-Added s x v (omega (arith, ap length e))) e (ground arith)
        | inr short ↦
            let e : piece c ≡ escaped (c ∷ []) = ground arith in
            same-Added s (piece c) (escaped (c ∷ []))
              (if escape_ c == 0
                then put allocate s c
                else write allocate s (b'\\' ∷ escape_ c ∷ []))
              (write_chars allocate s (c ∷ [])) (piece-Added s c v (omega (arith, ap length e))) e
              (ground arith)
      ]
    ]
  ]
  write_chars-Added (c ∷ d ∷ cs) s v h = elim (Bool-cases (c == 0)) [
    | inl z ↦
        same-Added s [] (escaped (c ∷ d ∷ cs)) (some s) (write_chars allocate s (c ∷ d ∷ cs))
          (nil-Added s v) (ground arith) (ground arith)
    | inr z ↦ elim (Bool-cases (escape_ c == b'u')) [
      | inl control ↦
          let x : Bytes = b'\\' ∷ b'u' ∷ (hex_byte c ++ hex_byte d) in
          let e : x ++ escaped cs ≡ escaped (c ∷ d ∷ cs) = ground arith in
          same-Added s (x ++ escaped cs) (escaped (c ∷ d ∷ cs))
            (write allocate s x >>= λ t. write_chars allocate t cs)
            (write_chars allocate s (c ∷ d ∷ cs))
            (then-Added s x (escaped cs) (write allocate s x) (λ t. write_chars allocate t cs) v
              (omega (arith, ap length e)) (write-Added s x v)
              (λ t w r. write_chars-Added cs t w r))
            e (ground arith)
      | inr other ↦
          let o : Option Stream =
            if escape_ c == 0
            then put allocate s c
            else write allocate s (b'\\' ∷ escape_ c ∷ []) in
          let e : piece c ++ escaped (d ∷ cs) ≡ escaped (c ∷ d ∷ cs) = ground arith in
          same-Added s (piece c ++ escaped (d ∷ cs)) (escaped (c ∷ d ∷ cs))
            (o >>= λ t. write_chars allocate t (d ∷ cs)) (write_chars allocate s (c ∷ d ∷ cs))
            (then-Added s (piece c) (escaped (d ∷ cs)) o (λ t. write_chars allocate t (d ∷ cs)) v
              (omega (arith, ap length e)) (piece-Added s c v)
              (λ t w r. write_chars-Added (d ∷ cs) t w r))
            e (ground arith)
    ]
  ]

  -- For a valid stream with room, `write_str` appends the text in quotation marks with its escapes, and
  -- the stream stays valid.
  pub write_str-str :
      (s : Stream) (text : Bytes)
      → IsValid s
      → Room s (quoted_text text)
      → (t : Stream) × (write_str allocate s text ≡ some t)
        × IsValid t
        × (str t ≡ str s ++ quoted_text text)
        × (t.write_ptr ≡ s.write_ptr + length (quoted_text text))
  unfolding write_str
  write_str-str s text v h =
      then-Added s (b'"' ∷ []) (escaped text ++ b'"' ∷ []) (put allocate s b'"')
        (λ t. write_chars allocate t text >>= λ u. put allocate u b'"') v h (put-Added s b'"' v)
        (λ t w r.
          then-Added t (escaped text) (b'"' ∷ []) (write_chars allocate t text)
            (λ u. put allocate u b'"') w r (write_chars-Added text t w)
            (λ u w' r'. put-Added u b'"' w' r'))
