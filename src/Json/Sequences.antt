-- ===== src/Json/Sequences.antt =====
-- Sequences of values, written with brackets and commas.
use project_test_demo.Common.{ℕ, false, List, [], ◌∷◌, ◌++◌, length, ◌==◌, Bytes, ◌≡◌}
use project_test_demo.Json.Stream.{Stream, put}
use project_test_demo.Json.Growth.{IsValid}
use project_test_demo.Json.Written.{Room, Added, then-Added, put-Added, nil-Added}
use project_test_demo.Json.Render.{join_rest, join, render_sequence}
use project_test_demo.Json.Serial.{Serial}
use project_test_demo.Json.Spoken.{Spoken}

module _ {A : Type 0} (allocate : ℕ → Bytes) (j : Serial A) where
  abbrev pub AllSpoken : List A → Type 0
  AllSpoken [] = Unit
  AllSpoken (a ∷ xs) = Spoken allocate j a × AllSpoken xs

  -- A comma and a text, for each value.
  abbrev pub rest_text : (xs : List A) → AllSpoken xs → Bytes
  rest_text [] h = []
  rest_text (a ∷ xs) h = b',' ∷ (h.0.text ++ rest_text xs (h.1))

  abbrev pub list_text : (xs : List A) → AllSpoken xs → Bytes
  list_text [] h = []
  list_text (a ∷ xs) h = h.0.text ++ rest_text xs (h.1)

  abbrev pub sequence_text : (xs : List A) → AllSpoken xs → Bytes
  sequence_text xs h = b'[' ∷ (list_text xs h ++ (b']' ∷ []))

  -- No value starts with a closing bracket.
  abbrev pub NoneCloses : (xs : List A) → AllSpoken xs → Type 0
  NoneCloses [] h = Unit
  NoneCloses (a ∷ xs) h = ((h.0.opening == b']') ≡ false) × NoneCloses xs (h.1)

  module _ (allocates : (n : ℕ) → length (allocate n) ≡ n) where
    join_rest-Added :
        (xs : List A) (h : AllSpoken xs) (s : Stream)
        → IsValid s
        → Room s (rest_text xs h)
        → Added allocate allocates s (rest_text xs h) (join_rest allocate j.render b',' s xs)
    unfolding join_rest
    join_rest-Added [] h s v room = nil-Added allocate allocates s v
    join_rest-Added (a ∷ xs) h s v room =
        then-Added allocate allocates s (b',' ∷ []) (h.0.text ++ rest_text xs (h.1))
          (put allocate s b',') _ v room (put-Added allocate allocates s b',' v)
          (λ t w r.
            then-Added allocate allocates t (h.0.text) (rest_text xs (h.1)) (j.render t a) _ w r
              (h.0.writes t w) (λ u w' r'. join_rest-Added xs (h.1) u w' r'))

    join-Added :
        (xs : List A) (h : AllSpoken xs) (s : Stream)
        → IsValid s
        → Room s (list_text xs h)
        → Added allocate allocates s (list_text xs h) (join allocate j.render b',' s xs)
    unfolding join
    join-Added [] h s v room = nil-Added allocate allocates s v
    join-Added (a ∷ xs) h s v room =
        then-Added allocate allocates s (h.0.text) (rest_text xs (h.1)) (j.render s a) _ v room
          (h.0.writes s v) (λ t w r. join_rest-Added xs (h.1) t w r)

    pub render_sequence-Added :
        (xs : List A) (h : AllSpoken xs) (s : Stream)
        → IsValid s
        → Room s (sequence_text xs h)
        → Added allocate allocates s (sequence_text xs h) (render_sequence allocate j.render s xs)
    unfolding render_sequence
    render_sequence-Added xs h s v room =
        then-Added allocate allocates s (b'[' ∷ []) (list_text xs h ++ (b']' ∷ []))
          (put allocate s b'[') _ v room (put-Added allocate allocates s b'[' v)
          (λ t w r.
            then-Added allocate allocates t (list_text xs h) (b']' ∷ [])
              (join allocate j.render b',' t xs) _ w r (join-Added xs h t w)
              (λ u w' r'. put-Added allocate allocates u b']' w' r'))
