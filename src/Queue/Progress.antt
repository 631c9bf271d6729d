-- ===== src/Queue/Progress.antt =====
-- No thread of the queue ever waits for another.
use project_test_demo.Common.{ℕ, ◌<◌, ◌≡◌, ◌⊎◌, refl, arith, Option-cases, inl, inr}
use project_test_demo.Queue.System.{
  Producer, idle, made, swapped, Consumer, resting, got_tail, got_next, took, advanced, System,
  Step, exchange, link, see_none, see_next, take_value, store_tail, free, Reach,
}
use project_test_demo.Queue.Safety.{ConsumerAccess, ProducerAccess, Reach-Access}

-- The steps that are left of `enqueue`.
abbrev pub enqueue_left : {A : Type 0} → Producer A → ℕ
enqueue_left idle = 0
enqueue_left (made b v) = 2
enqueue_left (swapped b a) = 1

-- The steps that are left of `dequeue`, at most.
abbrev pub dequeue_left : {A : Type 0} → Consumer A → ℕ
dequeue_left resting = 0
dequeue_left (advanced t v) = 1
dequeue_left (took t n v) = 2
dequeue_left (got_next t n) = 3
dequeue_left (got_tail t) = 4

module _ {A : Type 0} {s : System A} where
  producer-Step :
      (i : ℕ) (p : Producer A)
      → s.producers i ≡ p
      → ProducerAccess s p
      → (p ≡ idle) ⊎ ((t : System A) × Step s t × (enqueue_left (t.producers i) < enqueue_left p))
  producer-Step i idle e access = inl refl
  producer-Step i (made b v) e access = inr (_, exchange i b v e, ground arith)
  producer-Step i (swapped b a) e (node, found, _) = inr (_, link i b a node e found, ground arith)

  consumer-Step :
      (c : Consumer A)
      → s.consumer ≡ c
      → ConsumerAccess s c
      → (c ≡ resting) ⊎ ((t : System A) × Step s t × (dequeue_left t.consumer < dequeue_left c))
  consumer-Step resting e access = inl refl
  consumer-Step (got_tail t) e access = elim (Option-cases (s.heap t)) [
    | inl q ↦ absurd (access q)
    | inr (node, found) ↦ elim (Option-cases node.next_) [
      | inl q ↦ inr (_, see_none t node e found q, omega arith)
      | inr (n, q) ↦ inr (_, see_next t n node e found q, omega arith)
    ]
  ]
  consumer-Step (got_next t n) e (node, v, found, q) =
      inr (_, take_value t n node v e found q, omega arith)
  consumer-Step (took t n v) e access = inr (_, store_tail t n v e, omega arith)
  consumer-Step (advanced t v) e access = inr (_, free t v e, omega arith)

-- In every reachable state, a producer is not in `enqueue` or has a step of its own there, whatever the
-- other threads have done, and the consumer is not in `dequeue` or has a step of its own there; each of
-- these steps lowers the number of those that are left, which is two at most in `enqueue` once the node is
-- made, and four at most in `dequeue` once the tail is loaded.
pub Reach-Step :
    {A : Type 0} {a : ℕ} {s : System A}
    → Reach a s
    → (i : ℕ)
    → ((s.producers i ≡ idle)
        ⊎ ((t : System A) × Step s t
            × (enqueue_left (t.producers i) < enqueue_left (s.producers i))))
      × ((s.consumer ≡ resting)
          ⊎ ((t : System A) × Step s t × (dequeue_left t.consumer < dequeue_left s.consumer)))
Reach-Step {s} r i =
    let (consumer, producers) = Reach-Access r in
    (producer-Step i (s.producers i) refl (producers i), consumer-Step s.consumer refl consumer)
