-- ===== src/Queue/Order/Producers.antt =====
-- The steps of the producers keep the invariant.
use project_test_demo.Common.{ℕ, suc, ◌≤◌, Option, none, some, length, ◌≡◌, inl, inr, ◌≢◌, arith}
use native.Mathlib.Decide.{ℕ_discrete}
use project_test_demo.Queue.System.{
  Node, Producer, idle, made, swapped, Consumer, resting, got_tail, got_next, took, advanced,
  System, update, fresh_node,
}
use project_test_demo.Queue.Order.{Seen, ConsumerFits, Inv}

module _ {A : Type 0} {s : System A} (inv : Inv s) where
  open inv use {
    seq, passed, range, at_head, at_tail, distinct, live, linked, waiting, value, made_fits,
    made_apart, swapped_fits, swapped_open, swapped_apart, consumer_fits,
  }

  made_off :
      (i b : ℕ) (v : A) (k : ℕ)
      → s.producers i ≡ made b v
      → passed ≤ k
      → k ≤ length s.put
      → seq k ≢ b
  made_off i b v k e h1 h2 = let (_, apart) = made_fits i b v e in apart k h1 h2

  Seen-still :
      {t n : ℕ} (heap : ℕ → Option (Node A)) (producers : ℕ → Producer A)
      → ((i b : ℕ) → producers i ≢ swapped b t)
      → Seen s seq passed t n
      → Seen (record s { heap = heap; producers = producers }) seq passed t n
  Seen-still heap producers h seen = record {
    in_step = seen.in_step;
    here = seen.here;
    behind = seen.behind;
    room = seen.room;
    no_link = h;
  }

  module _ (i b : ℕ) (v : A) (e : s.producers i ≡ idle) (free : s.heap b ≡ none) where
    abbrev after_create : System A
    after_create = record s {
      heap = update s.heap b (some (fresh_node v));
      producers = update s.producers i (made b v);
    }

    apart_from_new : (k : ℕ) → passed ≤ k → k ≤ length s.put → seq k ≢ b
    apart_from_new k h1 h2 h = ground (arith, live k h1 h2, free, h)

    create_node-ConsumerFits :
        (c : Consumer A) → ConsumerFits s seq passed c → ConsumerFits after_create seq passed c
    create_node-ConsumerFits resting f = f
    create_node-ConsumerFits (got_tail t) f = f
    create_node-ConsumerFits (got_next t n) f =
        Seen-still _ _ (λ j c h. ground (arith, f.no_link j c)) f
    create_node-ConsumerFits (took t n w) (f, at) =
        (Seen-still _ _ (λ j c h. ground (arith, f.no_link j c)) f, at)
    create_node-ConsumerFits (advanced t w) (in_step, at, there, apart, not_made) = (
      in_step,
      at,
      ground (arith, there, free),
      apart,
      λ j c u h h'. ground (arith, not_made j c u, there, free),
    )

    pub create_node-Inv : Inv after_create
    create_node-Inv = record {
      seq = seq;
      passed = passed;
      range = range;
      at_head = at_head;
      at_tail = at_tail;
      distinct = distinct;
      live = λ k h1 h2. ground (arith, live k h1 h2);
      linked = λ k m node h1 h2 e' q. ground (arith, linked k m node h1 h2, live k h1 h2, free);
      waiting = λ k node h1 h2 e' q.
          let old : s.heap (seq k) ≡ some node =
            ground (arith, apart_from_new k h1 (omega arith), e') in
          let (j, h) = waiting k node h1 h2 old q in (j, ground (arith, h, e));
      value = λ j node h1 h2 e'.
          ground (arith, value j node h1 h2, live (suc j) (omega arith) h2, free);
      made_fits = λ j c w h. (
        ground (arith, made_fits j c w, free),
        λ k h1 h2 h'. ground (arith, made_off j c w k, apart_from_new k h1 h2),
      );
      made_apart = λ j k c u w h h'.
          ground (arith, made_apart j k c u w, made_fits j c u, made_fits k c w, free);
      swapped_fits = λ j c a h. ground (arith, swapped_fits j c a);
      swapped_open = λ j c a node h e'.
          let old : s.producers j ≡ swapped c a = ground (arith, h) in
          let (k, h1, h2, h3, _) = swapped_fits j c a old in
          swapped_open j c a node old (ground (arith, apart_from_new k h1 (omega arith), h3, e'));
      swapped_apart = λ j k a c d h h'. ground (arith, swapped_apart j k a c d);
      owned = λ c h. elim (ℕ_discrete c b) [
        | yes new ↦ inr (inl (i, v, ground (arith, new)))
        | no other ↦ elim (inv.owned c (λ h'. ground (arith, h', h, other))) [
          | inl at ↦ inl at
          | inr (inl (j, w, at)) ↦ inr (inl (j, w, ground (arith, at, e)))
          | inr (inr at) ↦ inr (inr at)
        ]
      ];
      consumer_fits = create_node-ConsumerFits s.consumer consumer_fits;
      in_order = inv.in_order;
    }

  module _ (i b a : ℕ) (node : Node A) (e : s.producers i ≡ swapped b a)
      (found : s.heap a ≡ some node) where
    abbrev after_link : System A
    after_link = record s {
      heap = update s.heap a (some (record node { next_ = some b }));
      producers = update s.producers i idle;
    }

    link-ConsumerFits :
        (c : Consumer A) → ConsumerFits s seq passed c → ConsumerFits after_link seq passed c
    link-ConsumerFits resting f = f
    link-ConsumerFits (got_tail t) f = f
    link-ConsumerFits (got_next t n) f = Seen-still _ _ (λ j c h. ground (arith, f.no_link j c)) f
    link-ConsumerFits (took t n w) (f, at) =
        (Seen-still _ _ (λ j c h. ground (arith, f.no_link j c)) f, at)
    link-ConsumerFits (advanced t w) (in_step, at, there, apart, not_made) =
        (in_step, at, ground (arith, there), apart, λ j c u h h'. ground (arith, not_made j c u))

    pub link-Inv : Inv after_link
    link-Inv = record {
      seq = seq;
      passed = passed;
      range = range;
      at_head = at_head;
      at_tail = at_tail;
      distinct = distinct;
      live = λ k h1 h2. ground (arith, live k h1 h2);
      linked = λ k m node' h1 h2 e' q.
          let (k', r1, r2, r3, r4) = swapped_fits i b a e in
          let same = distinct k k' h1 h2 r1 (omega arith) in
          ground (arith, linked k m node' h1 h2, same, r2, r3, r4);
      waiting = λ k node' h1 h2 e' q.
          let off : seq k ≢ a = λ h. ground (arith, h, e', q) in
          let old : s.heap (seq k) ≡ some node' = ground (arith, off, e') in
          let (j, h) = waiting k node' h1 h2 old q in (j, ground (arith, h, e, off));
      value = λ j node' h1 h2 e'. ground (arith, value j node h1 h2, value j node' h1 h2, found);
      made_fits = λ j c w h.
          let old : s.producers j ≡ made c w = ground (arith, h) in
          let (k, r1, r2, r3, _) = swapped_fits i b a e in
          let off = made_off j c w k old r1 (omega arith) in
          let (fresh, apart) = made_fits j c w old in (ground (arith, off, fresh, r3), apart);
      made_apart = λ j k c u w h h'. ground (arith, made_apart j k c u w);
      swapped_fits = λ j c d h. ground (arith, swapped_fits j c d);
      swapped_open = λ j c d node' h e'.
          ground (arith, swapped_open j c d node', swapped_apart i j a b c, e, found);
      swapped_apart = λ j k d c c' h h'. ground (arith, swapped_apart j k d c c');
      owned = λ c h. elim (inv.owned c (λ h'. ground (arith, h', h, found))) [
        | inl at ↦ inl at
        | inr (inl (j, w, at)) ↦ inr (inl (j, w, ground (arith, at, e)))
        | inr (inr at) ↦ inr (inr at)
      ];
      consumer_fits = link-ConsumerFits s.consumer consumer_fits;
      in_order = inv.in_order;
    }
