-- ===== src/Queue/Tests.antt =====
-- Runs of the queue, step by step.
use project_test_demo.Common.{◌<◌, ℕ, none, some, List, [], ◌∷◌, ◌++◌, ◌≡◌, ◌⊎◌, refl, arith, true}
use project_test_demo.Queue.System.{
  Node, idle, made, swapped, got_tail, System, update, fresh_node, create_node, exchange, link,
  load_tail, see_next, take_value, store_tail, free, Reach, start, later, Step, resting,
}
use project_test_demo.Queue.Whole.{dequeue, empty, destroy}
use project_test_demo.Queue.Destroy.{IsQuiet, Returned, dequeue-IsQuiet, destroy-IsQuiet}
use project_test_demo.Queue.Progress.{enqueue_left, dequeue_left, Reach-Step}
use project_test_demo.Queue.Safety.{
  ConsumerAccess, ProducerAccess, dequeue-Reach, Reach-Access, see_none-Reach,
}

-- Producer 0 has put 7 in the node 1, and the consumer has looked at the tail.
abbrev unlinked : System ℕ
unlinked = record {
  heap =
      update (update (λ b. none) 0 (some (record { data_ptr = none; next_ = none }))) 1
        (some (fresh_node 7));
  head_ = 1;
  tail_ = 0;
  producers = update (update (λ i. idle) 0 (made 1 7)) 0 (swapped 1 0);
  consumer = got_tail 0;
  put = 7 ∷ [];
  got = [];
}

abbrev unlinked_reached : Reach 0 unlinked
unlinked_reached =
    later (later (later start (create_node 0 1 7 refl refl)) (exchange 0 1 7 refl)) (load_tail refl)

abbrev first_node : Node ℕ
first_node = record { data_ptr = none; next_ = none }

see_none-Reach_example :
    (unlinked.put ≡ unlinked.got) ⊎ ((i b : ℕ) × (unlinked.producers i ≡ swapped b 0))
see_none-Reach_example = see_none-Reach unlinked_reached 0 first_node refl refl refl

Reach-Access_example :
    ConsumerAccess unlinked unlinked.consumer
    × ((i : ℕ) → ProducerAccess unlinked (unlinked.producers i))
Reach-Access_example = Reach-Access unlinked_reached

-- The link is stored, and the consumer runs to its end: 7 is returned, and the node 0 is deleted.
abbrev returned : (s : System ℕ) × Reach 0 s × (s.got ≡ 7 ∷ [])
returned = (
  _,
  later
      (later
        (later
          (later (later unlinked_reached (link 0 1 0 first_node refl refl))
            (see_next 0 1 _ refl refl refl))
          (take_value 0 1 _ 7 refl refl refl))
        (store_tail 0 1 7 refl))
      (free 0 7 refl),
  refl,
)

dequeue-Reach_example : (rest : List ℕ) × (returned.0.put ≡ returned.0.got ++ rest)
dequeue-Reach_example = dequeue-Reach returned.1

IsQuiet-returned : IsQuiet (returned.0)
IsQuiet-returned = (refl, λ i. ground arith)

destroy-IsQuiet_example :
    (t : System ℕ) × (destroy 1 (returned.0) ≡ some t) × ((b : ℕ) → t.heap b ≡ none)
destroy-IsQuiet_example = destroy-IsQuiet (returned.1) IsQuiet-returned 1 (omega arith)

dequeue-IsQuiet_example :
    ((returned.0.put ≡ returned.0.got)
      × (dequeue (returned.0) ≡ some (returned.0, none))
      × (empty (returned.0) ≡ some true))
    ⊎ Returned 0 (returned.0)
dequeue-IsQuiet_example = dequeue-IsQuiet (returned.1) IsQuiet-returned

Reach-Step_example :
    ((unlinked.producers 0 ≡ idle)
      ⊎ ((t : System ℕ) × Step unlinked t
          × (enqueue_left (t.producers 0) < enqueue_left (unlinked.producers 0))))
    × ((unlinked.consumer ≡ resting)
        ⊎ ((t : System ℕ) × Step unlinked t
            × (dequeue_left t.consumer < dequeue_left unlinked.consumer)))
Reach-Step_example = Reach-Step unlinked_reached 0
