-- ===== src/Queue/Order.antt =====
-- What holds in every state: the nodes stand in a chain, in the order of the exchanges.
pub mod Loads
pub mod Writes
pub mod Exchange
pub mod Producers
use project_test_demo.Common.{
  ℕ, zero, suc, ◌+◌, ◌≤◌, ◌<◌, Option, none, some, List, length, get_elem?, take, ◌≡◌, ◌≢◌, ◌⊎◌,
}
use project_test_demo.Queue.System.{
  Node, Producer, idle, made, swapped, Consumer, resting, got_tail, got_next, took, advanced,
  System, fresh_node,
}

-- The value of the node m is on its way out.
abbrev pub Taken : {A : Type 0} → Consumer A → ℕ → Type 0
Taken (took t n v) m = m ≡ n
Taken _ m = ⊥

-- The node m was passed over, and is still to be deleted.
abbrev pub Left : {A : Type 0} → Consumer A → ℕ → Type 0
Left (advanced t v) m = m ≡ t
Left _ m = ⊥

-- `seq` gives the address of the node that was k-th to be put, the first one at 0, and `passed` of them
-- were left behind.
abbrev pub Within : {A : Type 0} → System A → ℕ → ℕ → Type 0
Within s passed k = (passed ≤ k) × (k ≤ length s.put)

-- The consumer has seen the link from the node t to the node n.
pub record Seen {A : Type 0} (s : System A) (seq : ℕ → ℕ) (passed t n : ℕ) : Type 0 where
  pub in_step : length s.got ≡ passed
  pub here : t ≡ seq passed
  pub behind : n ≡ seq (suc passed)
  pub room : passed < length s.put
  pub no_link : (i b : ℕ) → s.producers i ≢ swapped b t

-- Where the consumer stands.
abbrev pub ConsumerFits : {A : Type 0} → System A → (ℕ → ℕ) → ℕ → Consumer A → Type 0
ConsumerFits s seq passed resting = length s.got ≡ passed
ConsumerFits s seq passed (got_tail t) = (length s.got ≡ passed) × (t ≡ seq passed)
ConsumerFits s seq passed (got_next t n) = Seen s seq passed t n
ConsumerFits s seq passed (took t n v) = Seen s seq passed t n × (get_elem? s.put passed ≡ some v)
ConsumerFits s seq passed (advanced t v) =
    (suc (length s.got) ≡ passed)
    × (get_elem? s.put (length s.got) ≡ some v)
    × (s.heap t ≢ none)
    × ((k : ℕ) → passed ≤ k → k ≤ length s.put → seq k ≢ t)
    × ((i b : ℕ) (w : _) → s.producers i ≡ made b w → b ≢ t)

pub record Inv {A : Type 0} (s : System A) : Type 0 where
  pub seq : ℕ → ℕ
  pub passed : ℕ
  pub range : passed ≤ length s.put
  pub at_head : s.head_ ≡ seq (length s.put)
  pub at_tail : s.tail_ ≡ seq passed
  pub distinct :
      (j k : ℕ)
      → passed ≤ j
      → j ≤ length s.put
      → passed ≤ k
      → k ≤ length s.put
      → seq j ≡ seq k
      → j ≡ k
  pub live : (k : ℕ) → passed ≤ k → k ≤ length s.put → s.heap (seq k) ≢ none
  pub linked :
      (k m : ℕ) (node : Node A)
      → passed ≤ k
      → k ≤ length s.put
      → s.heap (seq k) ≡ some node
      → node.next_ ≡ some m
      → (m ≡ seq (suc k)) × (k < length s.put)
  pub waiting :
      (k : ℕ) (node : Node A)
      → passed ≤ k
      → k < length s.put
      → s.heap (seq k) ≡ some node
      → node.next_ ≡ none
      → (i : ℕ) × (s.producers i ≡ swapped (seq (suc k)) (seq k))
  pub value :
      (j : ℕ) (node : Node A)
      → passed ≤ j
      → j < length s.put
      → s.heap (seq (suc j)) ≡ some node
      → (node.data_ptr ≡ get_elem? s.put j) ⊎ Taken s.consumer (seq (suc j))
  pub made_fits :
      (i b : ℕ) (v : A)
      → s.producers i ≡ made b v
      → (s.heap b ≡ some (fresh_node v)) × ((k : ℕ) → passed ≤ k → k ≤ length s.put → seq k ≢ b)
  pub made_apart :
      (i j b : ℕ) (v w : A) → s.producers i ≡ made b v → s.producers j ≡ made b w → i ≡ j
  pub swapped_fits :
      (i b a : ℕ)
      → s.producers i ≡ swapped b a
      → (k : ℕ) × (passed ≤ k) × (k < length s.put) × (a ≡ seq k) × (b ≡ seq (suc k))
  pub swapped_open :
      (i b a : ℕ) (node : Node A)
      → s.producers i ≡ swapped b a
      → s.heap a ≡ some node
      → node.next_ ≡ none
  pub swapped_apart :
      (i j a b c : ℕ) → s.producers i ≡ swapped b a → s.producers j ≡ swapped c a → i ≡ j
  pub owned :
      (b : ℕ)
      → s.heap b ≢ none
      → ((k : ℕ) × (passed ≤ k) × (k ≤ length s.put) × (b ≡ seq k))
        ⊎ ((i : ℕ) × (v : A) × (s.producers i ≡ made b v))
        ⊎ Left s.consumer b
  pub consumer_fits : ConsumerFits s seq passed s.consumer
  pub in_order : s.got ≡ take (length s.got) s.put
