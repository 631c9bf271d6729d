-- ===== src/Format/Rounds.antt =====
-- The loop of `format` comes to its end on every text.
use project_test_demo.Common.{
  ℕ, zero, suc, ◌+◌, ◌<◌, Bool-cases, some, List, [], ◌∷◌, ◌++◌, length, length-drop, drop, Bytes,
  ◌≡◌, refl, arith, Option-cases, inl, inr,
}
use project_test_demo.Format.{find, format_item, doubled, format_loop, format}

find-length :
    (c : ℕ) (xs : Bytes) (found : Bytes × Bytes)
    → find c xs ≡ some found
    → length (found.0) + length (found.1) + 1 ≡ length xs
find-length c [] found e = ground arith
find-length c (x ∷ xs) found e = elim (Option-cases (find c xs)) [
  | inl q ↦ ground (arith, q, e)
  | inr (later, q) ↦ ground (arith, q, e, find-length c xs later q)
]

-- With a turn for each byte of the text that is left and one more, the loop comes to its end.
format_loop-ends :
    (n : ℕ) (rest : Bytes) (args : List Bytes) (ss : Bytes)
    → length rest < n
    → (text : Bytes) × (format_loop n rest args ss ≡ some text)
unfolding format_loop
format_loop-ends zero rest args ss h = absurd (omega arith)
format_loop-ends (suc n) rest args ss h = elim (Option-cases (find b'{' rest)) [
  | inl e ↦ (ss ++ rest, ground (arith, e))
  | inr (found, e) ↦
      let size = find-length b'{' rest found e in
      elim (Bool-cases (doubled (found.1))) [
        | inl two ↦
            let short = length-drop 1 (found.1) in
            let (text, ended) =
              format_loop-ends n (drop 1 (found.1)) args ((ss ++ found.0) ++ (b'{' ∷ []))
                (omega (arith, size, short)) in
            (text, ground (arith, e, two, ended))
        | inr one ↦ elim (Option-cases (find b'}' (found.1))) [
          | inl q ↦ ((ss ++ found.0) ++ (b'{' ∷ found.1), ground (arith, e, one, q))
          | inr (item, q) ↦
              let inner = find-length b'}' (found.1) item q in
              let (text, ended) =
                format_loop-ends n (item.1) args ((ss ++ found.0) ++ format_item (item.0) args)
                  (omega (arith, size, inner)) in
              (text, ground (arith, e, one, q, ended))
        ]
      ]
]

-- The loop of `format` comes to its end on every text, whatever its braces and arguments are: a text is
-- returned.
pub format-ends :
    (format_str : Bytes) (args : List Bytes) → (text : Bytes) × (format format_str args ≡ some text)
format-ends format_str [] = ([], refl)
format-ends format_str (a ∷ args) =
    format_loop-ends (suc (length format_str)) format_str (a ∷ args) [] (omega arith)
