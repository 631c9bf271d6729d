-- ===== src/Format/Tests.antt =====
-- Texts, by example.
use project_test_demo.Common.{some, List, [], ◌∷◌, codes, Bytes, ◌≡◌, refl, arith}
use project_test_demo.Format.{format, format_loop}
use project_test_demo.Format.Template.{Piece, text, brace, hole, template, filled, format-template}
use project_test_demo.Format.Rounds.{format-ends}

abbrev greeting : List Piece
greeting = text (codes "to ") ∷ hole b'1' [] ∷ brace ∷ text (codes "x}") ∷ hole b'0' [] ∷ []

abbrev names : List Bytes
names = codes "b" ∷ []

greeting_text : template greeting ≡ codes "to {1}{{x}{0}"
greeting_text = refl

format-template_example :
    format (template greeting) (codes "a" ∷ names) ≡ some (filled (codes "a" ∷ names) greeting)
unfolding format_loop
format-template_example = format-template greeting (codes "a") names (omega arith)

greeting-filled : filled (codes "a" ∷ names) greeting ≡ codes "to b{x}a"
greeting-filled = refl

abbrev unclosed : Bytes
unclosed = codes "{}{{ {2} {1"

format-ends_example : (text : Bytes) × (format unclosed names ≡ some text)
format-ends_example = format-ends unclosed names

-- A number that is missing counts as 0, and an unclosed brace stays.
unclosed_text : format unclosed names ≡ some (codes "b{  {1")
unfolding format_loop
unclosed_text = refl
