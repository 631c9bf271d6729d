-- ===== src/Queue/Order/Exchange.antt =====
-- The exchange of `head_` keeps the invariant, with the new node as the last one of the chain.
use project_test_demo.Common.{
  ℕ, suc, ◌≤◌, ◌<◌, none, some, [], ◌∷◌, ◌++◌, length, length-append, take-append-left, get_elem?,
  get_elem?-append, get_elem?-last, ◌≡◌, ◌≢◌, arith, inl, inr, sym, ◌∙◌, Option-cases,
}
use native.Mathlib.Decide.{dec_lt, ℕ_discrete}
use project_test_demo.Queue.System.{
  Node, made, swapped, Consumer, resting, got_tail, got_next, took, advanced, System, update,
  fresh_node,
}
use project_test_demo.Queue.Order.{Seen, ConsumerFits, Inv}

module _ {A : Type 0} {s : System A} (inv : Inv s) (i b : ℕ) (v : A)
    (e : s.producers i ≡ made b v) where
  open inv use {
    seq, passed, range, at_head, at_tail, distinct, live, linked, waiting, value, made_fits,
    made_apart, swapped_fits, swapped_open, swapped_apart, consumer_fits,
  }

  abbrev after : System A
  after = record s {
    head_ = b;
    producers = update s.producers i (swapped b s.head_);
    put = s.put ++ (v ∷ []);
  }

  abbrev last : ℕ
  last = length s.put

  abbrev order : ℕ → ℕ
  order = update seq (suc last) b

  longer : length (s.put ++ (v ∷ [])) ≡ suc last
  longer = omega (arith, length-append s.put (v ∷ []))

  seq_before : (k : ℕ) → k ≤ last → order k ≡ seq k
  seq_before k h = ground arith

  seq_last : order (suc last) ≡ b
  seq_last = ground arith

  fresh : s.heap b ≡ some (fresh_node v)
  fresh = let (h, _) = made_fits i b v e in h

  apart : (k : ℕ) → passed ≤ k → k ≤ last → seq k ≢ b
  apart k h1 h2 = let (_, h) = made_fits i b v e in h k h1 h2

  put_before : (j : ℕ) → j < last → get_elem? (s.put ++ (v ∷ [])) j ≡ get_elem? s.put j
  put_before j h = get_elem?-append s.put (v ∷ []) j h

  consumer-got : (c : Consumer A) → ConsumerFits s seq passed c → length s.got ≤ last
  consumer-got resting f = omega arith
  consumer-got (got_tail t) (f, _) = omega arith
  consumer-got (got_next t n) f = omega (arith, f.in_step)
  consumer-got (took t n w) (f, _) = omega (arith, f.in_step)
  consumer-got (advanced t w) (f, _, _, _, _) = omega arith

  put_last : get_elem? (s.put ++ (v ∷ [])) last ≡ some v
  put_last = get_elem?-last s.put v

  -- No producer waits at the last node, which has no node behind it.
  not_open : (j c : ℕ) → s.producers j ≢ swapped c s.head_
  not_open j c h =
      let (k, r1, r2, r3, _) = swapped_fits j c s.head_ h in
      let same = distinct k last r1 (omega arith) range (omega arith) (sym r3 ∙ at_head) in
      omega arith

  last_open : (node : Node A) → s.heap s.head_ ≡ some node → node.next_ ≡ none
  last_open node h = elim (Option-cases node.next_) [
    | inl q ↦ q
    | inr (m, q) ↦
        let (_, r) = linked last m node range (omega arith) (ground (arith, at_head, h)) q in
        absurd (omega arith)
  ]

  got_le : length s.got ≤ last
  got_le = consumer-got s.consumer consumer_fits

  exchange-Seen : {t n : ℕ} → Seen s seq passed t n → Seen after order passed t n
  exchange-Seen seen = record {
    in_step = seen.in_step;
    here = ground (arith, seen.here, range);
    behind = ground (arith, seen.behind, seen.room);
    room = omega (arith, longer, seen.room);
    no_link = λ j c h. ground (
      arith,
      seen.no_link j c,
      seen.here,
      at_head,
      distinct passed last (omega arith) range range _,
      seen.room,
    );
  }

  exchange-ConsumerFits :
      (c : Consumer A) → ConsumerFits s seq passed c → ConsumerFits after order passed c
  exchange-ConsumerFits resting f = f
  exchange-ConsumerFits (got_tail t) (in_step, here) = (in_step, ground (arith, here, range))
  exchange-ConsumerFits (got_next t n) f = exchange-Seen f
  exchange-ConsumerFits (took t n w) (f, at) = (exchange-Seen f, put_before passed f.room ∙ at)
  exchange-ConsumerFits (advanced t w) (in_step, at, there, off, not_made) = (
    in_step,
    put_before (length s.got) (omega arith) ∙ at,
    there,
    λ k h1 h2 h. ground (arith, longer, off k h1, not_made i b v e),
    λ j c u h h'. ground (arith, not_made j c u),
  )

  pub exchange-Inv : Inv after
  exchange-Inv = record {
    seq = order;
    passed = passed;
    range = omega (arith, longer, range);
    at_head = ground (arith, longer);
    at_tail = at_tail ∙ sym (seq_before passed range);
    distinct =
        λ j k h1 h2 h3 h4 q. ground (arith, longer, distinct j k h1 _ h3 _, apart j h1, apart k h3);
    live = λ k h1 h2. ground (arith, longer, live k h1, fresh);
    linked = λ k m node h1 h2 e' q. ground (arith, longer, linked k m node h1, fresh);
    waiting = λ k node h1 h2 e' q. elim (dec_lt k last) [
      | yes before ↦
          let (j, h) = waiting k node h1 before (ground (arith, e')) q in (j, ground (arith, h, e))
      | no at_end ↦ (i, ground (arith, longer, at_head))
    ];
    value = λ j node h1 h2 e'. elim (dec_lt j last) [
      | yes before ↦ ground (arith, value j node h1 before, put_before j before)
      | no at_end ↦
          let here : j ≡ last = omega (arith, longer) in inl (ground (arith, here, fresh, put_last))
    ];
    made_fits = λ j c w h.
        let old : s.producers j ≡ made c w = ground (arith, h) in
        let (fresh', apart') = made_fits j c w old in
        (fresh', λ k h1 h2 q. ground (arith, longer, apart' k h1, made_apart i j b v w, e, old, h));
    made_apart = λ j k c u w h h'. ground (arith, made_apart j k c u w);
    swapped_fits = λ j c d h. elim (ℕ_discrete j i) [
      | yes same ↦ (last, range, omega (arith, longer), ground (arith, at_head), ground arith)
      | no other ↦
          let (k, r1, r2, r3, r4) = swapped_fits j c d (ground (arith, h)) in
          (k, r1, omega (arith, longer), ground (arith, r3), ground (arith, r4))
    ];
    swapped_open =
        λ j c d node h e'. ground (arith, swapped_open j c d node, last_open node, at_head);
    swapped_apart = λ j k d c c' h h'.
        ground (
          arith,
          swapped_apart j k d c c',
          not_open j c',
          not_open k c,
          not_open j c,
          not_open k c',
        );
    owned = λ c h. elim (inv.owned c h) [
      | inl (k, h1, h2, h3) ↦ inl (k, h1, omega (arith, longer), ground (arith, h3))
      | inr (inl (j, w, at)) ↦ elim (ℕ_discrete j i) [
        | yes same ↦ inl (suc last, omega arith, omega (arith, longer), ground (arith, same, at, e))
        | no other ↦ inr (inl (j, w, ground (arith, at)))
      ]
      | inr (inr at) ↦ inr (inr at)
    ];
    consumer_fits = exchange-ConsumerFits s.consumer consumer_fits;
    in_order = inv.in_order ∙ sym (take-append-left (length s.got) s.put (v ∷ []) got_le);
  }
