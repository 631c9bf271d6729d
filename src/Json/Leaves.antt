-- ===== src/Json/Leaves.antt =====
-- Texts and numbers are read as they were written.
use project_test_demo.Common.{
  ℕ, ◌^◌, ◌%◌, ◌<◌, false, [], ◌∷◌, ◌++◌, length, length-append, append_assoc, ◌==◌, Bytes, ◌≡◌,
  refl, sym, ap, ◌∙◌, subst, arith,
}
use project_test_demo.Json.Growth.{write-IsValid}
use project_test_demo.Json.Written.{write_str-str}
use project_test_demo.Json.Escape.{quoted_text}
use project_test_demo.Json.Token.{Token, ReaderT, ok, ◌>>=◌, byte_at}
use project_test_demo.Json.Next.{next}
use project_test_demo.Json.Skip.{token_byte}
use project_test_demo.Json.Values.{Doubles, read_string, read_unsigned, is_end}
use project_test_demo.Json.Render.{render_unsigned}
use project_test_demo.Json.Serial.{string_serial, unsigned_serial}
use project_test_demo.Json.Cursor.{Starts, Stands, byte_at-Stands}
use project_test_demo.Json.Quote.{AllReadable}
use project_test_demo.Json.RoundTrip.{ReadString, opening, next-quoted_text}
use project_test_demo.Json.Number.{Digit, AllDigits, Stops, number, next-digits}
use project_test_demo.Json.Spoken.{Delimits, Reads, Spoken}

pub Digit-ne-nul : (c : ℕ) → Digit c → (c == 0) ≡ false
Digit-ne-nul c h = ground (arith, h)

Delimits-Stops : (c : ℕ) → Delimits c → Stops c
Delimits-Stops c d = (ground (arith, d), ground (arith, d), ground (arith, d))

module _ (allocate : ℕ → Bytes) (allocates : (n : ℕ) → length (allocate n) ≡ n) where
  pub string_serial-Reads :
      (text : Bytes) (r : ReaderT) (before : Bytes) (stop : ℕ) (rest : Bytes)
      → AllReadable text
      → Stands r before [] (quoted_text text ++ (stop ∷ rest))
      → Delimits stop
      → r.len < 2 ^ 64
      → Reads (string_serial allocate) text (opening text) r stop rest
  unfolding read_string
  string_serial-Reads text r before stop rest a h d small =
      let q : ReadString r text (length (quoted_text text)) stop rest (next r) =
        next-quoted_text r before text stop rest a h small in
      record {
        first = q.last;
        starts = q.runs;
        is_value = ap is_end q.is_string;
        begins = q.begins;
        quiet = q.no_error;
        last = q.last;
        reads =
            ap (λ t. read_string q.last t []) q.is_string
            ∙ ap (λ x. next q.last >>= λ s. ok (x, s)) q.text_read;
        behind = q.behind;
        stands = q.stands (ground (arith, d));
        no_error = q.no_error;
        same_len = q.same_len;
      }

  abbrev pub string_spoken :
      (text : Bytes) → AllReadable text → Spoken allocate (string_serial allocate) text
  string_spoken text a = record {
    text = quoted_text text;
    opening = opening text;
    no_nul = λ rest. refl;
    writes = λ s v room. write_str-str allocate allocates s text v room;
    reads = λ r before stop rest h d small. string_serial-Reads text r before stop rest a h d small;
  }

  -- What `xtoa` writes for a number: digits, of which there is one at least, that stand for it.
  pub record Digits (xtoa : ℕ → Bytes) (v : ℕ) : Type 0 where
    pub head : ℕ
    pub tail : Bytes
    pub written : xtoa v ≡ head ∷ tail
    pub all_digits : AllDigits (head ∷ tail)
    pub value : number 0 (head ∷ tail) ≡ v

  module _ (doubles : Doubles) (strtoull : Bytes → ℕ) (xtoa : ℕ → Bytes) (w v : ℕ) where
    pub unsigned_serial-Reads :
        (ds : Digits xtoa v) (r : ReaderT) (before : Bytes) (stop : ℕ) (rest : Bytes)
        → v < 2 ^ 64
        → v % 2 ^ w ≡ v
        → Stands r before [] (xtoa v ++ (stop ∷ rest))
        → Delimits stop
        → r.len < 2 ^ 64
        → Reads (unsigned_serial allocate doubles strtoull xtoa w) v (ds.head) r stop rest
    unfolding read_unsigned token_byte
    unsigned_serial-Reads ds r before stop rest fits whole h d small =
        let h' : Stands r before [] (ds.head ∷ (ds.tail ++ (stop ∷ rest))) =
          subst (λ x. Stands r before [] (x ++ (stop ∷ rest))) ds.written h in
        let q =
          next-digits r before ds.head ds.tail stop rest ds.all_digits (Delimits-Stops stop d) h'
            (omega (arith, ds.value)) small in
        let read_at = λ (t : Token). read_unsigned doubles strtoull w q.last t.type_ t.value 0 in
        record {
          first = q.last;
          starts = q.runs;
          is_value = ap (λ (t : Token). is_end t.type_) q.token;
          begins =
              ap (λ (t : Token). byte_at q.last.mem t.str) q.token
              ∙ ap (λ m. byte_at m r.cur_offset) q.same_memory
              ∙ byte_at-Stands r before [] ds.head (ds.tail ++ (stop ∷ rest)) h';
          quiet = q.no_error;
          last = q.last;
          reads =
              ap read_at q.token
              ∙ ap (λ k. next q.last >>= λ s. ok (k % 2 ^ w, s)) ds.value
              ∙ ap (λ k. next q.last >>= λ s. ok (k, s)) whole;
          behind = before ++ (ds.head ∷ ds.tail);
          stands = record {
            memory =
                q.same_memory
                ∙ h'.memory
                ∙ sym (append_assoc before (ds.head ∷ ds.tail) (stop ∷ rest));
            place = omega (arith, q.place, h'.place, length-append before (ds.head ∷ ds.tail));
            open_ = q.open_;
            whole = omega (arith, h'.whole, ap length q.same_memory, q.same_len);
          };
          no_error = q.no_error;
          same_len = q.same_len;
        }

    abbrev pub unsigned_spoken :
        Digits xtoa v
        → v < 2 ^ 64
        → v % 2 ^ w ≡ v
        → Spoken allocate (unsigned_serial allocate doubles strtoull xtoa w) v
    unfolding render_unsigned
    unsigned_spoken ds fits whole = record {
      text = xtoa v;
      opening = ds.head;
      no_nul = λ rest.
          subst (λ x. Starts (x ++ rest)) (sym ds.written) (Digit-ne-nul ds.head (ds.all_digits.0));
      writes = λ s valid room.
          let (t, done, valid', held, end_, size) =
            write-IsValid allocate allocates s (xtoa v) valid room in
          (t, done, valid', held, end_);
      reads = λ r before stop rest h d small.
          unsigned_serial-Reads ds r before stop rest fits whole h d small;
    }
