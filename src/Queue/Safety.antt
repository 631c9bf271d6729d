-- ===== src/Queue/Safety.antt =====
-- What the chain of nodes says of `enqueue` and `dequeue` in every order of their steps.
use project_test_demo.Common.{
  ℕ, suc, ◌≤◌, none, some, List, ◌++◌, length, take, ◌≡◌, ◌≢◌, ◌⊎◌, refl, arith, inl, inr, ap, sym,
  ◌∙◌, Option-cases, take-all, take-drop, drop, get_elem?-some,
}
use native.Mathlib.Decide.{dec_lt}
use Prim.{Unit, tt}
use project_test_demo.Queue.System.{
  Node, Producer, idle, made, swapped, Consumer, resting, got_tail, got_next, took, advanced,
  System, fresh_node, Step, create_node, exchange, link, load_tail, see_none, see_next, take_value,
  store_tail, free, Reach, start, later,
}
use project_test_demo.Queue.Order.{ConsumerFits, Inv}
use project_test_demo.Queue.Order.Loads.{
  create-Inv, standing, load_tail-Inv, see_none-Inv, see_next-Inv,
}
use project_test_demo.Queue.Order.Writes.{take_value-Inv, store_tail-Inv, free-Inv}
use project_test_demo.Queue.Order.Producers.{create_node-Inv, link-Inv}
use project_test_demo.Queue.Order.Exchange.{exchange-Inv}

-- What the consumer reads or deletes by its next step is there, and the value that it moves out, too.
abbrev pub ConsumerAccess : {A : Type 0} → System A → Consumer A → Type 0
ConsumerAccess s (got_tail t) = s.heap t ≢ none
ConsumerAccess s (got_next t n) =
    (node : Node _) × (v : _) × (s.heap n ≡ some node) × (node.data_ptr ≡ some v)
ConsumerAccess s (advanced t v) = s.heap t ≢ none
ConsumerAccess _ _ = Unit

-- What a producer writes by its next step is there, and nobody has written it before.
abbrev pub ProducerAccess : {A : Type 0} → System A → Producer A → Type 0
ProducerAccess s (made b v) = s.heap b ≡ some (fresh_node v)
ProducerAccess s (swapped b a) = (node : Node _) × (s.heap a ≡ some node) × (node.next_ ≡ none)
ProducerAccess _ _ = Unit

module _ {A : Type 0} where
  Step-Inv : {s t : System A} → Step s t → Inv s → Inv t
  Step-Inv (create_node i b v e q) inv = create_node-Inv inv i b v e q
  Step-Inv (exchange i b v e) inv = exchange-Inv inv i b v e
  Step-Inv (link i b a node e q) inv = link-Inv inv i b a node e q
  Step-Inv (load_tail e) inv = load_tail-Inv inv e
  Step-Inv (see_none t node e q r) inv = see_none-Inv inv t node e q r
  Step-Inv (see_next t n node e q r) inv = see_next-Inv inv t node e q n r
  Step-Inv (take_value t n node v e q r) inv = take_value-Inv inv t n node v e q r
  Step-Inv (store_tail t n v e) inv = store_tail-Inv inv t n v e
  Step-Inv (free t v e) inv = free-Inv inv t v e

  -- In every state that steps lead to from the new queue, the nodes stand in a chain from the tail to the head.
  pub Reach-Inv : {a : ℕ} {s : System A} → Reach a s → Inv s
  Reach-Inv {a} start = create-Inv a
  Reach-Inv (later r step) = Step-Inv step (Reach-Inv r)

  -- In every reachable state, the values that `dequeue` returned so far are the first of those that were put,
  -- in the same order, none twice and none left out.
  pub dequeue-Reach : {a : ℕ} {s : System A} → Reach a s → (rest : List A) × (s.put ≡ s.got ++ rest)
  dequeue-Reach {s} r =
      let inv = Reach-Inv r in
      (
        drop (length s.got) s.put,
        sym (take-drop (length s.got) s.put)
            ∙ ap (λ l. l ++ drop (length s.got) s.put) (sym inv.in_order),
      )

module _ {A : Type 0} {s : System A} (inv : Inv s) where
  open inv use {
    seq, passed, range, live, linked, waiting, value, made_fits, swapped_fits, swapped_open,
  }

  pub node_at :
      (k : ℕ) → passed ≤ k → k ≤ length s.put → (node : Node A) × (s.heap (seq k) ≡ some node)
  node_at k h1 h2 = elim (Option-cases (s.heap (seq k))) [
    | inl q ↦ absurd (live k h1 h2 q)
    | inr found ↦ found
  ]

  consumer-Access :
      (c : Consumer A) → s.consumer ≡ c → ConsumerFits s seq passed c → ConsumerAccess s c
  consumer-Access resting e f = tt
  consumer-Access (got_tail t) e (_, here) =
      λ h. live passed (omega arith) range (sym (ap s.heap here) ∙ h)
  consumer-Access (got_next t n) e f =
      let (node, found) = node_at (suc passed) (omega arith) f.room in
      let (v, at) = get_elem?-some s.put passed f.room in
      (
        node,
        v,
        ap s.heap f.behind ∙ found,
        ground (arith, value passed node (omega arith) f.room found, e, at),
      )
  consumer-Access (took t n v) e f = tt
  consumer-Access (advanced t v) e (_, _, there, _, _) = there

  producer-Access : (i : ℕ) (p : Producer A) → s.producers i ≡ p → ProducerAccess s p
  producer-Access i idle e = tt
  producer-Access i (made b v) e = let (h, _) = made_fits i b v e in h
  producer-Access i (swapped b a) e =
      let (k, r1, r2, r3, _) = swapped_fits i b a e in
      let (node, found) = node_at k r1 (omega arith) in
      let here : s.heap a ≡ some node = ap s.heap r3 ∙ found in
      (node, here, swapped_open i b a node e here)

  -- The tail is the last node, or a producer is still to link it.
  tail-waiting :
      (node : Node A)
      → s.heap (seq passed) ≡ some node
      → node.next_ ≡ none
      → (passed ≡ length s.put) ⊎ ((i b : ℕ) × (s.producers i ≡ swapped b (seq passed)))
  tail-waiting node found q = elim (dec_lt passed (length s.put)) [
    | yes room ↦
        let (i, h) = waiting passed node (omega arith) room found q in inr (i, seq (suc passed), h)
    | no end ↦ inl (omega arith)
  ]

module _ {A : Type 0} {a : ℕ} {s : System A} (r : Reach a s) where
  -- In every reachable state, the next step of any thread reads, writes or deletes only a node that is
  -- allocated, and the consumer finds a value to move out: nothing is used after it was deleted, or deleted
  -- twice.
  pub Reach-Access : ConsumerAccess s s.consumer × ((i : ℕ) → ProducerAccess s (s.producers i))
  Reach-Access =
      let inv = Reach-Inv r in
      (
        consumer-Access inv s.consumer refl inv.consumer_fits,
        λ i. producer-Access inv i (s.producers i) refl,
      )

  -- Where `dequeue` finds no node behind the tail, in a reachable state, either all that was put has been
  -- returned, or a producer has exchanged the head and has still to store the link to the tail.
  pub see_none-Reach :
      (t : ℕ) (node : Node A)
      → s.consumer ≡ got_tail t
      → s.heap t ≡ some node
      → node.next_ ≡ none
      → (s.put ≡ s.got) ⊎ ((i b : ℕ) × (s.producers i ≡ swapped b t))
  see_none-Reach t node e found q =
      let inv = Reach-Inv r in
      let (in_step, here) = standing inv (got_tail t) e in
      elim (tail-waiting inv node (sym (ap s.heap here) ∙ found) q) [
        | inl end ↦
            inl (
              sym (take-all s.put)
              ∙ ap (λ n. take n s.put) (sym (in_step ∙ end))
              ∙ sym inv.in_order)
        | inr (i, b, h) ↦ inr (i, b, h ∙ ap (swapped b) (sym here))
      ]
