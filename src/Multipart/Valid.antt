-- ===== src/Multipart/Valid.antt =====
-- The parser comes to an end and its object stays valid, on every input.
use project_test_demo.Common.{ℕ, ◌≤◌, [], ◌∷◌, length, Bytes, refl, arith}
use project_test_demo.Multipart.Types.{Parser}
use project_test_demo.Multipart.Machine.{Outcome, return_size, returned, parser_data, Returned}
use project_test_demo.Multipart.Bytewise.{Verdict, accept, reject, stuck, byte_step, judge, feed}
use project_test_demo.Multipart.Loop.{parser_data-feed}
use project_test_demo.Multipart.Invariant.{IsValid, Safe}
use project_test_demo.Multipart.SafeSteps.{byte_step-Safe}

abbrev pub EndsValid : Returned → ℕ → Type 0
EndsValid (returned q n) size = IsValid q × (n ≤ size)
EndsValid _ size = ⊥

judge-EndsValid :
    (size : ℕ) (v : Verdict) (from : Bytes) (k : Parser → Outcome)
    → Safe v
    → ((q : Parser) → IsValid q → EndsValid (return_size size (k q)) size)
    → EndsValid (return_size size (judge v from k)) size
judge-EndsValid size (accept q) from k v h = h q v
judge-EndsValid size (reject q) from k v h = (v, omega arith)
judge-EndsValid size stuck from k v h = v

feed-EndsValid :
    (size : ℕ) (bytes : Bytes) (p : Parser)
    → IsValid p
    → EndsValid (return_size size (feed p bytes)) size
unfolding feed
feed-EndsValid size [] p v = (v, omega arith)
feed-EndsValid size (c ∷ cs) p v =
    judge-EndsValid size (byte_step p.state p c) (c ∷ cs) (λ q. feed q cs)
      (byte_step-Safe p.state p c refl v.len v.index_fits v.part_open)
      (λ q w. feed-EndsValid size cs q w)

-- On every input, malformed ones included, the parser comes to an end with no read beyond the boundary
-- and no `back()` of an empty list; it returns at most the size, and its object is valid again.
pub parser_data-IsValid :
    (p : Parser) (bytes : Bytes) → IsValid p → EndsValid (parser_data p bytes) (length bytes)
parser_data-IsValid p bytes v =
    rw (parser_data-feed p bytes) (feed-EndsValid (length bytes) bytes p v)
