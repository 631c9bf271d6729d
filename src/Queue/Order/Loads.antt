-- ===== src/Queue/Order/Loads.antt =====
-- The steps of the consumer that only read keep the invariant.
use project_test_demo.Common.{ℕ, none, some, ◌≡◌, refl, arith, inl, inr, subst}
use project_test_demo.Queue.System.{Node, Consumer, resting, got_tail, got_next, System, create}
use project_test_demo.Queue.Order.{Taken, Left, ConsumerFits, Inv}

pub create-Inv : {A : Type 0} (a : ℕ) → Inv (create {A = A} a)
create-Inv a = record {
  seq = λ k. a;
  passed = 0;
  range = omega arith;
  at_head = refl;
  at_tail = refl;
  distinct = λ j k h1 h2 h3 h4 e. omega arith;
  live = λ k h1 h2. ground arith;
  linked = λ k m node h1 h2 e q. ground arith;
  waiting = λ k node h1 h2 e q. absurd (omega arith);
  value = λ j node h1 h2 e. absurd (omega arith);
  made_fits = λ i b v e. ground arith;
  made_apart = λ i j b v w e q. ground arith;
  swapped_fits = λ i b a e. ground arith;
  swapped_open = λ i b a node e q. ground arith;
  swapped_apart = λ i j a b c e q. ground arith;
  owned = λ b h. inl (0, omega arith, omega arith, ground (arith, h));
  consumer_fits = refl;
  in_order = refl;
}

module _ {A : Type 0} {s : System A} (inv : Inv s) where
  open inv use {
    seq, passed, range, at_tail, linked, value, swapped_fits, swapped_open, consumer_fits,
  }

  -- Only `took` hides a value, so a consumer that stands elsewhere may be replaced by any other.
  moved :
      (c : Consumer A)
      → ((n : ℕ) → Taken s.consumer n → Taken c n)
      → ((n : ℕ) → Left s.consumer n → Left c n)
      → ConsumerFits (record s { consumer = c }) seq passed c
      → Inv (record s { consumer = c })
  moved c h h' fits = record {
    seq = seq;
    passed = passed;
    range = inv.range;
    at_head = inv.at_head;
    at_tail = inv.at_tail;
    distinct = inv.distinct;
    live = inv.live;
    linked = inv.linked;
    waiting = inv.waiting;
    value = λ j node h1 h2 e. elim (value j node h1 h2 e) [ inl q ↦ inl q | inr q ↦ inr (h _ q) ];
    made_fits = inv.made_fits;
    made_apart = inv.made_apart;
    swapped_fits = inv.swapped_fits;
    swapped_open = inv.swapped_open;
    swapped_apart = inv.swapped_apart;
    owned = λ b q. elim (inv.owned b q) [
      | inl at ↦ inl at
      | inr (inl at) ↦ inr (inl at)
      | inr (inr at) ↦ inr (inr (h' b at))
    ];
    consumer_fits = fits;
    in_order = inv.in_order;
  }

  -- What holds of the consumer, once its place is known.
  pub standing : (c : Consumer A) → s.consumer ≡ c → ConsumerFits s seq passed c
  standing c e = subst (λ c. ConsumerFits s seq passed c) e consumer_fits

  pub load_tail-Inv : s.consumer ≡ resting → Inv (record s { consumer = got_tail s.tail_ })
  load_tail-Inv e =
      moved (got_tail s.tail_) (λ n h. ground (arith, e, h)) (λ n h. ground (arith, e, h))
        (standing resting e, at_tail)

  module _ (t : ℕ) (node : Node A) (e : s.consumer ≡ got_tail t)
      (found : s.heap t ≡ some node) where
    pub see_none-Inv : node.next_ ≡ none → Inv (record s { consumer = resting })
    see_none-Inv q =
        let (in_step, _) = standing (got_tail t) e in
        moved resting (λ n h. ground (arith, e, h)) (λ n h. ground (arith, e, h)) in_step

    pub see_next-Inv : (n : ℕ) → node.next_ ≡ some n → Inv (record s { consumer = got_next t n })
    see_next-Inv n q =
        let (in_step, here) = standing (got_tail t) e in
        let at : s.heap (seq passed) ≡ some node = subst (λ a. s.heap a ≡ some node) here found in
        let (behind, room) = linked passed n node (omega arith) range at q in
        moved (got_next t n) (λ n h. ground (arith, e, h)) (λ n h. ground (arith, e, h))
          (record {
            in_step = in_step;
            here = here;
            behind = behind;
            room = room;
            no_link = λ i b h. ground (arith, swapped_open i b t node h found, q);
          })
