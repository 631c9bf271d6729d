-- ===== src/Ipdb/Split.antt =====
-- ipdb.hpp, `split`.
use project_test_demo.Common.{
  ℕ, Bool, true, false, ◌&&◌, List, [], ◌∷◌, ◌++◌, append-nil, append_assoc, ◌==◌, Bytes, ◌≡◌, refl,
  sym, ap, ◌∙◌, arith, Bool-cases, inl, inr,
}

-- `sp` stands at this place of the text.
abbrev pub starts_with : Bytes → Bytes → Bool
starts_with [] s = true
starts_with (d ∷ ds) [] = false
starts_with (d ∷ ds) (c ∷ cs) = c == d && starts_with ds cs

-- The loop, with the bytes between `prev_pos` and `pos`. Where the separator is found, both go on by
-- one byte, whatever its length.
unfoldable pub split_loop : Bytes → Bytes → Bytes → List Bytes
split_loop sp piece [] = piece ∷ []
split_loop sp piece (c ∷ cs) = elim (starts_with sp (c ∷ cs)) [
  | true ↦ piece ∷ split_loop sp [] cs
  | false ↦ split_loop sp (piece ++ c ∷ []) cs
]

-- For a separator that is not empty, as all callers have.
unfoldable pub split : Bytes → Bytes → List Bytes
unfolding split_loop
split s sp = split_loop sp [] s

-- The pieces with a byte between them.
abbrev pub join : ℕ → List Bytes → Bytes
join d [] = []
join d (x ∷ []) = x
join d (x ∷ y ∷ xs) = x ++ d ∷ join d (y ∷ xs)

-- The byte does not occur.
abbrev pub Without : ℕ → Bytes → Type 0
Without d [] = Unit
Without d (c ∷ cs) = ((c == d) ≡ false) × Without d cs

abbrev pub AllWithout : ℕ → List Bytes → Type 0
AllWithout d [] = Unit
AllWithout d (x ∷ xs) = Without d x × AllWithout d xs

module _ (d : ℕ) where
  Without-concat : (xs : Bytes) (c : ℕ) → Without d xs → (c == d) ≡ false → Without d (xs ++ c ∷ [])
  Without-concat [] c h e = (e, tt)
  Without-concat (x ∷ xs) c h e = (h.0, Without-concat xs c h.1 e)

  starts_with-one : (c : ℕ) (cs : Bytes) → starts_with (d ∷ []) (c ∷ cs) ≡ (c == d)
  starts_with-one c cs = ground arith

  split_loop-hit :
      (piece : Bytes) (c : ℕ) (cs : Bytes)
      → (c == d) ≡ true
      → split_loop (d ∷ []) piece (c ∷ cs) ≡ piece ∷ split_loop (d ∷ []) [] cs
  unfolding split_loop
  split_loop-hit piece c cs e = ground arith

  split_loop-miss :
      (piece : Bytes) (c : ℕ) (cs : Bytes)
      → (c == d) ≡ false
      → split_loop (d ∷ []) piece (c ∷ cs) ≡ split_loop (d ∷ []) (piece ++ c ∷ []) cs
  unfolding split_loop
  split_loop-miss piece c cs e = ground arith

  -- The first piece, for a text that begins with bytes other than the separator.
  split_loop-Without :
      (x piece rest : Bytes)
      → Without d x
      → split_loop (d ∷ []) piece (x ++ rest) ≡ split_loop (d ∷ []) (piece ++ x) rest
  split_loop-Without [] piece rest h = rw append-nil
  split_loop-Without (c ∷ cs) piece rest h =
      split_loop-miss piece c (cs ++ rest) h.0
      ∙ split_loop-Without cs (piece ++ c ∷ []) rest h.1
      ∙ ap (λ t. split_loop (d ∷ []) t rest) (append_assoc piece (c ∷ []) cs)

  split_loop-join :
      (x : Bytes) (xs : List Bytes)
      → AllWithout d (x ∷ xs)
      → split_loop (d ∷ []) [] (join d (x ∷ xs)) ≡ x ∷ xs
  unfolding split_loop
  split_loop-join x [] h =
      ap (split_loop (d ∷ []) []) (sym (append-nil x)) ∙ split_loop-Without x [] [] h.0
  split_loop-join x (y ∷ ys) h =
      split_loop-Without x [] (d ∷ join d (y ∷ ys)) h.0
      ∙ split_loop-hit x d (join d (y ∷ ys)) (ground arith)
      ∙ ap (◌∷◌ x) (split_loop-join y ys h.1)

  -- The loop always gives a piece, so a separator stands behind the one before it.
  join-split_loop :
      (x piece s : Bytes)
      → join d (x ∷ split_loop (d ∷ []) piece s) ≡ x ++ d ∷ join d (split_loop (d ∷ []) piece s)
  unfolding split_loop
  join-split_loop x piece [] = refl
  join-split_loop x piece (c ∷ cs) = elim (Bool-cases (c == d)) [
    | inl e ↦ rw (split_loop-hit piece c cs e)
    | inr e ↦ rw (split_loop-miss piece c cs e) (join-split_loop x (piece ++ c ∷ []) cs)
  ]

  -- A piece behind which others may follow, joined to the text that is still to be split.
  split_loop-pieces :
      (s piece : Bytes)
      → Without d piece
      → (join d (split_loop (d ∷ []) piece s) ≡ piece ++ s)
        × AllWithout d (split_loop (d ∷ []) piece s)
  unfolding split_loop
  split_loop-pieces [] piece h = (sym (append-nil piece), (h, tt))
  split_loop-pieces (c ∷ cs) piece h = elim (Bool-cases (c == d)) [
    | inl e ↦
        let (joined, all) = split_loop-pieces cs [] tt in
        let d_c : d ≡ c = ground arith in
        rw (split_loop-hit piece c cs e) (
          join-split_loop piece [] cs
              ∙ ap (λ t. piece ++ d ∷ t) joined
              ∙ ap (λ t. piece ++ t ∷ cs) d_c,
          (h, all),
        )
    | inr e ↦
        let (joined, all) = split_loop-pieces cs (piece ++ c ∷ []) (Without-concat piece c h e) in
        rw (split_loop-miss piece c cs e) (joined ∙ append_assoc piece (c ∷ []) cs, all)
  ]

-- Splitting at a byte gives pieces without that byte that make the text when they are joined by it.
pub join-split :
    (d : ℕ) (s : Bytes) → (join d (split s (d ∷ [])) ≡ s) × AllWithout d (split s (d ∷ []))
unfolding split
join-split d s = split_loop-pieces d s [] tt

-- Splitting a text that was joined from one piece or more, none of which holds the byte, gives the
-- pieces.
pub split-join :
    (d : ℕ) (x : Bytes) (xs : List Bytes)
    → AllWithout d (x ∷ xs)
    → split (join d (x ∷ xs)) (d ∷ []) ≡ x ∷ xs
unfolding split
split-join d x xs h = split_loop-join d x xs h
