-- ===== src/Packet/Layout.antt =====
-- The bytes of a packet: the size of its body, the command, the body.
use project_test_demo.Common.{
  ℕ, zero, suc, ◌+◌, ◌-◌, ◌*◌, ◌%◌, ◌^◌, ◌≤◌, ◌<◌, none, some, List, [], ◌∷◌, ◌++◌, length, take,
  drop, ◌≡◌, refl, arith, ap, sym, ◌∙◌, append-nil,
}
use project_test_demo.Common.Maybe.{◌>>=◌}
use project_test_demo.Packet.{
  bytes_of, resize, body_offset, header_offset, cmd_offset, write, create, get_send_data,
  write_header, write_body,
}

abbrev pub packet : ℕ → ℕ → List ℕ → List ℕ
packet cmd n str = bytes_of 4 n ++ (bytes_of 2 cmd ++ take n str)

-- A number, from its bytes in memory.
abbrev pub number_of : List ℕ → ℕ
number_of [] = 0
number_of (b ∷ bs) = b + 256 * number_of bs

pub size_field : (v : ℕ) → number_of (bytes_of 4 v) ≡ v % 2 ^ 32
size_field v = omega arith

pub cmd_field : (v : ℕ) → number_of (bytes_of 2 v) ≡ v % 2 ^ 16
cmd_field v = omega arith

length-resize : (n : ℕ) (datas : List ℕ) → length (resize n datas) ≡ n
length-resize zero datas = refl
length-resize (suc n) [] = ap suc (length-resize n [])
length-resize (suc n) (x ∷ xs) = ap suc (length-resize n xs)

take-resize : (k n : ℕ) (datas : List ℕ) → k ≤ n → take k (resize n datas) ≡ resize k datas
take-resize zero n datas h = refl
take-resize (suc k) zero datas h = absurd (omega arith)
take-resize (suc k) (suc n) [] h = ap (◌∷◌ 0) (take-resize k n [] (omega arith))
take-resize (suc k) (suc n) (x ∷ xs) h = ap (◌∷◌ x) (take-resize k n xs (omega arith))

-- A vector of the size of a header and n more.
record Split (n : ℕ) (datas : List ℕ) : Type 0 where
  a : ℕ
  b : ℕ
  c : ℕ
  d : ℕ
  e : ℕ
  f : ℕ
  behind : List ℕ
  whole : datas ≡ a ∷ b ∷ c ∷ d ∷ e ∷ f ∷ behind
  size : length behind ≡ n

split : (n : ℕ) (datas : List ℕ) → length datas ≡ 6 + n → Split n datas
split n (a ∷ b ∷ c ∷ d ∷ e ∷ f ∷ behind) h = record {
  a = a;
  b = b;
  c = c;
  d = d;
  e = e;
  f = f;
  behind = behind;
  whole = refl;
  size = omega arith;
}
split n _ h = absurd (omega arith)

drop-all : (n : ℕ) (xs : List ℕ) → length xs ≡ n → drop n xs ≡ []
drop-all zero [] h = refl
drop-all (suc n) [] h = refl
drop-all zero (x ∷ xs) h = absurd (omega arith)
drop-all (suc n) (x ∷ xs) h = drop-all n xs (omega arith)

sized-write :
    (behind : List ℕ) (n a b c d e f : ℕ)
    → write (a ∷ b ∷ c ∷ d ∷ e ∷ f ∷ behind) (bytes_of 8 n) 4 body_offset
      ≡ some (bytes_of 4 n ++ (e ∷ f ∷ behind))
sized-write behind n a b c d e f = ground arith

body-write :
    (str behind : List ℕ) (n a b c d e f : ℕ)
    → n ≤ length str
    → length behind ≡ n
    → write (a ∷ b ∷ c ∷ d ∷ e ∷ f ∷ behind) str n header_offset
      ≡ some (a ∷ b ∷ c ∷ d ∷ e ∷ f ∷ take n str)
body-write str behind n a b c d e f h size =
    let end : drop (header_offset + n) (a ∷ b ∷ c ∷ d ∷ e ∷ f ∷ behind) ≡ [] =
      drop-all (header_offset + n) (a ∷ b ∷ c ∷ d ∷ e ∷ f ∷ behind) (omega (arith, size)) in
    ground (arith, size, end, h, append-nil (take n str))

written_body :
    (str : List ℕ) (n : ℕ) (datas : List ℕ)
    → n ≤ length str
    → n + header_offset < 2 ^ 64
    → write_body str n datas
      ≡ some (bytes_of 4 n ++ (drop 4 (resize header_offset datas) ++ take n str))
written_body str n datas h small =
    let z = split n (resize (6 + n) datas) (length-resize (6 + n) datas) in
    let kept : z.a ∷ z.b ∷ z.c ∷ z.d ∷ z.e ∷ z.f ∷ [] ≡ resize 6 datas =
      ap (take 6) (sym z.whole) ∙ take-resize 6 (6 + n) datas (omega arith) in
    let wrap : (header_offset + n) % 2 ^ 64 ≡ 6 + n = omega arith in
    let sized = ap (λ k. resize k datas) wrap ∙ z.whole in
    let tail : z.e ∷ z.f ∷ [] ≡ drop 4 (resize 6 datas) = ap (drop 4) kept in
    ap (λ l. write l (bytes_of 8 n) 4 body_offset >>= λ m. write m str n header_offset) sized
    ∙ ap (λ o. o >>= λ m. write m str n header_offset)
        (sized-write z.behind n z.a z.b z.c z.d z.e z.f)
    ∙ body-write str z.behind n _ _ _ _ z.e z.f h z.size
    ∙ ap (λ l. some (bytes_of 4 n ++ (l ++ take n str))) tail

header-write :
    (rest : List ℕ) (cmd a b c d e f : ℕ)
    → write_header cmd (a ∷ b ∷ c ∷ d ∷ e ∷ f ∷ rest)
      ≡ some (a ∷ b ∷ c ∷ d ∷ (bytes_of 2 cmd ++ rest))
header-write rest cmd a b c d e f = ground arith

body_first :
    (str : List ℕ) (n cmd : ℕ) (datas : List ℕ)
    → n ≤ length str
    → n + header_offset < 2 ^ 64
    → (write_body str n datas >>= write_header cmd) ≡ some (packet cmd n str)
body_first str n cmd datas h small =
    let z = split 0 (resize 6 datas) (length-resize 6 datas) in
    let none_left : z.behind ≡ [] = drop-all 0 z.behind z.size in
    let two = ap (drop 4) z.whole ∙ ap (λ l. z.e ∷ z.f ∷ l) none_left in
    ap (λ o. o >>= write_header cmd) (written_body str n datas h small)
    ∙ ap (λ l. write_header cmd (bytes_of 4 n ++ (l ++ take n str))) two
    ∙ header-write (take n str) cmd _ _ _ _ z.e z.f

header_first :
    (str : List ℕ) (n cmd : ℕ) (datas : List ℕ)
    → n ≤ length str
    → n + header_offset < 2 ^ 64
    → header_offset ≤ length datas
    → (write_header cmd datas >>= write_body str n) ≡ some (packet cmd n str)
header_first str n cmd datas h small long =
    let z = split (length datas - 6) datas (omega arith) in
    ap (λ l. write_header cmd l >>= write_body str n) z.whole
    ∙ ap (λ o. o >>= write_body str n) (header-write z.behind cmd z.a z.b z.c z.d z.e z.f)
    ∙ written_body str n _ h small

-- Where the vector has the size of a header at least, `write_body` and `write_header` leave in it, in
-- either order, the size of the body in four bytes, the command in two, and the body, and nothing else
-- of what it held. The pointer has that many bytes, and the sizes fit into a `size_t`.
pub write_body-write_header :
    (str : List ℕ) (n cmd : ℕ) (datas : List ℕ)
    → n ≤ length str
    → n + header_offset < 2 ^ 64
    → header_offset ≤ length datas
    → ((write_body str n datas >>= write_header cmd) ≡ some (packet cmd n str))
      × ((write_header cmd datas >>= write_body str n) ≡ some (packet cmd n str))
write_body-write_header str n cmd datas h small long =
    (body_first str n cmd datas h small, header_first str n cmd datas h small long)

-- A new writer that was given a command and a body holds them, in this place: the size is read back
-- modulo 2 ^ 32, and the command and the body as they were.
pub write_header-write_body :
    (str : List ℕ) (n cmd : ℕ)
    → n ≤ length str
    → n + header_offset < 2 ^ 64
    → cmd < 2 ^ 16
    → (p : List ℕ) × ((write_header cmd create >>= write_body str n) ≡ some p)
      × (number_of (take 4 (drop body_offset p)) ≡ n % 2 ^ 32)
      × (number_of (take 2 (drop cmd_offset p)) ≡ cmd)
      × (drop header_offset p ≡ take n str)
write_header-write_body str n cmd h small fits = (
  packet cmd n str,
  header_first str n cmd create h small (omega arith),
  size_field n,
  omega arith,
  refl,
)

-- After `get_send_data`, whatever the vector held, `write_header` writes outside of it, and `write_body`
-- followed by `write_header` is a packet again.
pub get_send_data-write_header :
    (str : List ℕ) (n cmd : ℕ) (datas : List ℕ)
    → n ≤ length str
    → n + header_offset < 2 ^ 64
    → (write_header cmd ((get_send_data datas).1) ≡ none)
      × ((write_body str n ((get_send_data datas).1) >>= write_header cmd)
          ≡ some (packet cmd n str))
get_send_data-write_header str n cmd datas h small = (refl, body_first str n cmd [] h small)
