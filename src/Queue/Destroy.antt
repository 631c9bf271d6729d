-- ===== src/Queue/Destroy.antt =====
-- While no producer is at work, `dequeue` returns the values one by one, and the destructor frees every node.
use project_test_demo.Common.{
  ℕ, zero, suc, ◌-◌, ◌<◌, none, some, true, false, [], ◌∷◌, ◌++◌, length, length-append, ◌≡◌, ◌≢◌,
  ◌⊎◌, inl, inr, refl, arith, ap, sym, ◌∙◌, Option-cases,
}
use project_test_demo.Queue.System.{
  Node, idle, resting, System, update, load_tail, see_next, take_value, store_tail, free, Reach,
  later,
}
use project_test_demo.Queue.Order.Loads.{standing}
use project_test_demo.Queue.Safety.{Reach-Inv, dequeue-Reach, Reach-Access, see_none-Reach, node_at}
use project_test_demo.Queue.Whole.{empty, dequeue, drain, destroy}

abbrev pub IsQuiet : {A : Type 0} → System A → Type 0
IsQuiet s = (s.consumer ≡ resting) × ((i : ℕ) → s.producers i ≡ idle)

module _ {A : Type 0} where
  -- A `dequeue` that returns: the same steps as in the interleaved model.
  pub record Returned (a : ℕ) (s : System A) : Type 0 where
    pub next : System A
    pub v : A
    pub runs : dequeue s ≡ some (next, some v)
    pub not_empty : empty s ≡ some false
    pub reached : Reach a next
    pub quiet : IsQuiet next
    pub same_put : next.put ≡ s.put
    pub more : next.got ≡ s.got ++ (v ∷ [])

  module _ {a : ℕ} {s : System A} (r : Reach a s) (quiet : IsQuiet s) where
    moves :
        (node : Node A) (n : ℕ) → s.heap s.tail_ ≡ some node → node.next_ ≡ some n → Returned a s
    moves node n found q =
        let (rest, idles) = quiet in
        let seen = later (later r (load_tail rest)) (see_next s.tail_ n node refl found q) in
        let ((below, v, at, holds), _) = Reach-Access seen in
        record {
          next = _;
          v = v;
          runs = ground (arith, found, q, at, holds);
          not_empty = ground (arith, found, q);
          reached =
              later
                (later (later seen (take_value s.tail_ n below v refl at holds))
                  (store_tail s.tail_ n v refl))
                (free s.tail_ v refl);
          quiet = (refl, idles);
          same_put = refl;
          more = refl;
        }

    finished :
        (node : Node A)
        → s.heap s.tail_ ≡ some node
        → node.next_ ≡ none
        → (s.put ≡ s.got) × (dequeue s ≡ some (s, none)) × (empty s ≡ some true)
    finished node found q =
        let (rest, idles) = quiet in
        elim (see_none-Reach (later r (load_tail rest)) s.tail_ node refl found q) [
          | inl same ↦ (same, ground (arith, found, q), ground (arith, found, q))
          | inr (i, b, h) ↦ ground (arith, h, idles i)
        ]

    -- In a reachable state with no producer at work, either all that was put has been returned, and
    -- `dequeue` returns false and changes nothing, and `empty` returns true; or `dequeue` returns a value,
    -- leaves a reachable state with no producer at work that has one more value returned, and `empty`
    -- returns false.
    pub dequeue-IsQuiet :
        ((s.put ≡ s.got) × (dequeue s ≡ some (s, none)) × (empty s ≡ some true)) ⊎ Returned a s
    dequeue-IsQuiet =
        let inv = Reach-Inv r in
        let (node, found) = node_at inv inv.passed (omega arith) inv.range in
        let here = ap s.heap inv.at_tail ∙ found in
        elim (Option-cases node.next_) [
          | inl q ↦ inl (finished node here q)
          | inr (n, q) ↦ inr (moves node n here q)
        ]

    -- Where all was returned, the last node is the only one that is left.
    last_node : s.put ≡ s.got → (b : ℕ) → s.heap b ≢ none → b ≡ s.head_
    last_node same b h =
        let inv = Reach-Inv r in
        let (rest, idles) = quiet in
        let in_step = standing inv resting rest in
        let size = ap length same in
        elim (inv.owned b h) [
          | inl (k, h1, h2, h3) ↦
              let end : k ≡ length s.put = omega arith in h3 ∙ ap inv.seq end ∙ sym inv.at_head
          | inr (inl (i, w, q)) ↦ ground (arith, q, idles i)
          | inr (inr q) ↦ ground (arith, q, rest)
        ]

  abbrev pub Drained : ℕ → ℕ → System A → Type 0
  Drained a n s = (t : System A) × (drain n s ≡ some t) × Reach a t × IsQuiet t × (t.put ≡ t.got)

  drains :
      {a : ℕ} (n : ℕ) (s : System A)
      → Reach a s
      → IsQuiet s
      → length s.put - length s.got < n
      → Drained a n s
  unfolding drain
  drains zero s r quiet h = absurd (omega arith)
  drains (suc n) s r quiet h = elim (dequeue-IsQuiet r quiet) [
    | inl (same, runs, _) ↦ (s, ground (arith, runs), r, quiet, same)
    | inr found ↦
        let size = ap length found.more ∙ length-append s.got (found.v ∷ []) in
        let (rest, split) = dequeue-Reach found.reached in
        let room = ap length split ∙ length-append found.next.got rest in
        let put_size = ap length found.same_put in
        let (t, runs, reached, quiet', same) =
          drains n found.next found.reached found.quiet (omega (arith, room, put_size, size, h)) in
        (t, ground (arith, found.runs, runs), reached, quiet', same)
  ]

  -- In a reachable state with no producer at work, the destructor comes to its end, with one turn of its
  -- loop for each value that is left and one more, and then no address is allocated.
  pub destroy-IsQuiet :
      {a : ℕ} {s : System A}
      → Reach a s
      → IsQuiet s
      → (n : ℕ) → length s.put - length s.got < n
      → (t : System A) × (destroy n s ≡ some t) × ((b : ℕ) → t.heap b ≡ none)
  destroy-IsQuiet {s} r quiet n h =
      let (t, runs, reached, quiet', same) = drains n s r quiet h in
      let inv = Reach-Inv reached in
      let (front, found) = node_at inv (length t.put) inv.range (omega arith) in
      let here = ap t.heap inv.at_head ∙ found in
      (
        record t { heap = update t.heap t.head_ none },
        ground (arith, runs, here),
        λ b. elim (Option-cases (t.heap b)) [
          | inl q ↦ ground (arith, q)
          | inr (x, q) ↦ ground (arith, last_node reached quiet' same b (λ z. ground (arith, z, q)))
        ],
      )
