-- ===== src/Queue/Whole.antt =====
-- lock_free_queue.hpp: `dequeue`, `empty` and the destructor as a whole, while no producer is at work.
use project_test_demo.Common.{ℕ, zero, suc, Option, none, some, [], ◌∷◌, ◌++◌, Bool, true, false}
use project_test_demo.Common.Maybe.{◌>>=◌}
use project_test_demo.Queue.System.{resting, System, update}

module _ {A : Type 0} where
  -- `dequeue` from a node and the one behind it; none where it reads what is not there.
  abbrev pub move_out : System A → ℕ → ℕ → Option (System A × Option A)
  move_out s tail next = do
    node ← s.heap next
    v ← node.data_ptr
    some (
      record s {
        heap = update (update s.heap next (some (record node { data_ptr = none }))) tail none;
        tail_ = next;
        consumer = resting;
        got = s.got ++ (v ∷ []);
      },
      some v,
    )

  abbrev pub dequeue : System A → Option (System A × Option A)
  dequeue s = do
    node ← s.heap s.tail_
    elim node.next_ [ none ↦ some (s, none) | some next ↦ move_out s s.tail_ next ]

  abbrev pub empty : System A → Option Bool
  empty s = do node ← s.heap s.tail_; elim node.next_ [ none ↦ some true | some next ↦ some false ]

  -- The loop of the destructor, on fuel.
  unfoldable pub drain : ℕ → System A → Option (System A)
  drain zero s = none
  drain (suc n) s = do (t, output) ← dequeue s; elim output [ none ↦ some t | some v ↦ drain n t ]

  abbrev pub destroy : ℕ → System A → Option (System A)
  destroy n s = do
    t ← drain n s
    front ← t.heap t.head_
    some (record t { heap = update t.heap t.head_ none })
