-- ===== src/Json/ContainerFaults.antt =====
-- Sequences that are not read as they were written.
use project_test_demo.Common.{
  ℕ, suc, ◌+◌, ◌^◌, ◌<◌, Bool, true, false, List, [], ◌∷◌, ◌++◌, length, ◌==◌, if◌then◌else◌, Bytes,
  ◌≡◌, refl, sym, ap, ◌∙◌, subst, arith,
}
use project_test_demo.Json.Token.{Token, ReaderT, ok, ◌>>=◌, byte_at, error}
use project_test_demo.Json.Next.{next, create}
use project_test_demo.Json.Escape.{quoted_text}
use project_test_demo.Json.Values.{is_end, read_sequence}
use project_test_demo.Json.Serial.{
  Serial, string_serial, sequence_serial, container_loop, from_json_container,
}
use project_test_demo.Json.Kept.{Goes, Kept, bind-Goes, weaken-Goes}
use project_test_demo.Json.Finish.{next-Kept}
use project_test_demo.Json.Cursor.{Stands}
use project_test_demo.Json.Quote.{AllReadable}
use project_test_demo.Json.RoundTrip.{next-quoted_text}
use project_test_demo.Json.Items.{next-PassedMark, is_ctrl-open, loop, loop-close, expect-byte}

abbrev Reported : ReaderT → Type 0
Reported r = r.has_error ≡ true

next-Reported : (r : ReaderT) → Reported r → Goes Reported (next r)
next-Reported r e = weaken-Goes (Kept r) Reported (next r) (next-Kept r) (λ s k. k.sticky e)

first_byte-Goes :
    (b : Bool) (buf : Bytes) → Goes (λ c. Unit {0}) (if b then ok 0 else byte_at buf 0)
first_byte-Goes true buf = tt
first_byte-Goes false [] = tt
first_byte-Goes false (c ∷ cs) = tt

create-Reported : (buf : Bytes) (len : ℕ) (tok : Token) → Goes Reported (create buf len tok true)
unfolding create
create-Reported buf len tok =
    bind-Goes (λ c. Unit {0}) Reported (if len == 0 then ok 0 else byte_at buf 0) _
      (first_byte-Goes (len == 0) buf) (λ c u. next-Reported _ refl)

module _ {A : Type 0} (j : Serial A) where
  abbrev Refused : Bool × List A × ReaderT → Type 0
  Refused x = (x.0 ≡ false) × (x.1 ≡ [])

  container_loop-Refused :
      (n : ℕ) (r : ReaderT) → r.has_error ≡ true → Goes Refused (container_loop j (suc n) r [])
  unfolding container_loop
  container_loop-Refused n r e =
      let stops : container_loop j (suc n) r [] ≡ ok (false, [], r) = ground (arith, e) in
      subst (Goes Refused) (sym stops) (refl, refl)

  -- Since `g_has_error` is not reset, an error that was reported before makes `from_json_container` return
  -- false and no value, whatever the text and the values are, if it returns.
  pub from_json_container-reported :
      (buf : Bytes) (len : ℕ) (tok : Token) → Goes Refused (from_json_container j buf len tok true)
  unfolding from_json_container
  from_json_container-reported buf len tok =
      bind-Goes Reported Refused (create buf len tok true) _ (create-Reported buf len tok) (λ r e.
        bind-Goes Reported Refused (next r) _ (next-Reported r e) (λ s e'.
          subst (λ n. Goes Refused (container_loop j n s [])) (omega arith)
            (container_loop-Refused (length buf + 1) s e')))

-- A text of a sequence that begins with a closing bracket ends the sequence: where the first text is such a
-- one, `read_json` gives no text at all, reports no error, and the reader stands behind that text, not
-- behind the sequence. The text has no backslash and no control character but those with a letter of their
-- own, a byte that is no NUL stands behind its mark, and the length covers the memory.
pub bracket_text_is_lost :
    (allocate : ℕ → Bytes) (text : Bytes) (r : ReaderT) (before : Bytes) (d : ℕ) (rest : Bytes)
    → AllReadable (b']' ∷ text)
    → (d == 0) ≡ false
    → Stands r before [] (b'[' ∷ (quoted_text (b']' ∷ text) ++ (d ∷ rest)))
    → r.len < 2 ^ 64
    → (first : ReaderT) × (next r ≡ ok first)
      × (last : ReaderT) × ((sequence_serial allocate (string_serial allocate)).read_json first []
          ≡ (next last >>= λ s. ok ([], s)))
      × (behind : Bytes) × Stands last behind [] (d ∷ rest)
      × (last.has_error ≡ r.has_error)
unfolding read_sequence
bracket_text_is_lost allocate text r before d rest a more st small =
    let j = string_serial allocate in
    let m =
      next-PassedMark r before b'[' (quoted_text (b']' ∷ text) ++ (d ∷ rest)) is_ctrl-open st
        refl in
    let q =
      next-quoted_text m.last m.behind (b']' ∷ text) d rest a m.stands
        (omega (arith, m.same_len)) in
    let rounds : length m.last.mem + 2 ≡ suc (length m.last.mem + 1) = omega arith in
    (
      m.last,
      m.runs,
      q.last,
      ap
            (λ o. o >>= λ b. elim b [
              | false ↦ ok ([], error m.last)
              | true ↦ next m.last >>= λ s. loop allocate j (length m.last.mem + 2) s []
            ])
            (expect-byte allocate j m.last b'[' m.here)
          ∙ ap (λ o. o >>= λ s. loop allocate j (length m.last.mem + 2) s []) q.runs
          ∙ ap (λ k. loop allocate j k q.last []) rounds
          ∙ loop-close allocate j (length m.last.mem + 1) q.last [] q.begins
              (ap is_end q.is_string),
      q.behind,
      q.stands more,
      q.no_error ∙ m.no_error,
    )
