-- ===== src/Queue/System.antt =====
-- lock_free_queue.hpp: the nodes, and the steps of `enqueue` and `dequeue`, one shared access at a time.
-- All accesses are taken to be sequentially consistent, which the code's acquire and release orders are
-- weaker than. What only one thread can reach, a node before its exchange and the value behind
-- `data_ptr_`, is made or moved out in one step.
use project_test_demo.Common.{ℕ, Option, none, some, List, [], ◌∷◌, ◌++◌, ◌==◌, if◌then◌else◌, ◌≡◌}

-- `buffer_node`. A node that the constructor of the queue makes has no value.
pub record Node (A : Type 0) : Type 0 where
  pub data_ptr : Option A
  pub next_ : Option ℕ

-- Where a producer stands in `enqueue`, with its local variables.
pub data Producer (A : Type 0) : Type 0 where
  idle : Producer A
  made : ℕ → A → Producer A  -- node
  swapped : ℕ → ℕ → Producer A  -- node, prevhead

-- Where the consumer stands in `dequeue`.
pub data Consumer (A : Type 0) : Type 0 where
  resting : Consumer A
  got_tail : ℕ → Consumer A  -- tail
  got_next : ℕ → ℕ → Consumer A  -- tail, next
  took : ℕ → ℕ → A → Consumer A  -- tail, next, output
  advanced : ℕ → A → Consumer A  -- tail, output

-- The memory, by addresses, and the queue. `put` and `got` record the values in the order in which
-- `head_` was exchanged for their nodes and `dequeue` returned them.
pub record System (A : Type 0) : Type 0 where
  pub heap : ℕ → Option (Node A)
  pub head_ : ℕ
  pub tail_ : ℕ
  pub producers : ℕ → Producer A
  pub consumer : Consumer A
  pub put : List A
  pub got : List A

abbrev pub update {ℓ} : {B : Type ℓ} → (ℕ → B) → ℕ → B → ℕ → B
update f i b j = if j == i then b else f j

-- The constructor, with the address that `new` gives.
abbrev pub create : {A : Type 0} → ℕ → System A
create a = record {
  heap = update (λ b. none) a (some (record { data_ptr = none; next_ = none }));
  head_ = a;
  tail_ = a;
  producers = λ i. idle;
  consumer = resting;
  put = [];
  got = [];
}

abbrev pub fresh_node : {A : Type 0} → A → Node A
fresh_node v = record { data_ptr = some v; next_ = none }

-- `new` gives an address where nothing is allocated; a thread that would read a node that is not there
-- has no step.
pub data Step {A : Type 0} (s : System A) : System A → Type 0 where
  create_node :
      (i b : ℕ) (v : A)
      → s.producers i ≡ idle
      → s.heap b ≡ none
      → Step s (record s {
        heap = update s.heap b (some (fresh_node v));
        producers = update s.producers i (made b v);
      })
  exchange :
      (i b : ℕ) (v : A)
      → s.producers i ≡ made b v
      → Step s (record s {
        head_ = b;
        producers = update s.producers i (swapped b s.head_);
        put = s.put ++ (v ∷ []);
      })
  link :
      (i b a : ℕ) (node : Node A)
      → s.producers i ≡ swapped b a
      → s.heap a ≡ some node
      → Step s (record s {
        heap = update s.heap a (some (record node { next_ = some b }));
        producers = update s.producers i idle;
      })
  load_tail : s.consumer ≡ resting → Step s (record s { consumer = got_tail s.tail_ })
  see_none :
      (t : ℕ) (node : Node A)
      → s.consumer ≡ got_tail t
      → s.heap t ≡ some node
      → node.next_ ≡ none
      → Step s (record s { consumer = resting })
  see_next :
      (t n : ℕ) (node : Node A)
      → s.consumer ≡ got_tail t
      → s.heap t ≡ some node
      → node.next_ ≡ some n
      → Step s (record s { consumer = got_next t n })
  take_value :
      (t n : ℕ) (node : Node A) (v : A)
      → s.consumer ≡ got_next t n
      → s.heap n ≡ some node
      → node.data_ptr ≡ some v
      → Step s (record s {
        heap = update s.heap n (some (record node { data_ptr = none }));
        consumer = took t n v;
      })
  store_tail :
      (t n : ℕ) (v : A)
      → s.consumer ≡ took t n v
      → Step s (record s { tail_ = n; consumer = advanced t v })
  free :
      (t : ℕ) (v : A)
      → s.consumer ≡ advanced t v
      → Step s
          (record s { heap = update s.heap t none; consumer = resting; got = s.got ++ (v ∷ []) })

pub data Reach {A : Type 0} (a : ℕ) : System A → Type 0 where
  start : Reach a (create a)
  later : {s t : System A} → Reach a s → Step s t → Reach a t
