-- ===== src/Queue/Order/Writes.antt =====
-- The steps of the consumer that write keep the invariant.
use project_test_demo.Common.{
  ℕ, suc, none, some, [], ◌∷◌, ◌++◌, length, length-append, take-suc, get_elem?, take, ◌≡◌, inl,
  inr, arith, subst, ap, sym, ◌∙◌,
}
use native.Mathlib.Decide.{ℕ_discrete}
use project_test_demo.Queue.System.{Node, resting, got_next, took, advanced, System, update}
use project_test_demo.Queue.Order.{Inv}
use project_test_demo.Queue.Order.Loads.{standing}

module _ {A : Type 0} {s : System A} (inv : Inv s) where
  open inv use {
    seq, passed, range, at_head, at_tail, distinct, live, linked, waiting, value, made_fits,
    swapped_fits, swapped_open,
  }

  module _ (t n : ℕ) (node : Node A) (v : A) (e : s.consumer ≡ got_next t n)
      (found : s.heap n ≡ some node) where
    pub take_value-Inv :
        node.data_ptr ≡ some v
        → Inv (record s {
          heap = update s.heap n (some (record node { data_ptr = none }));
          consumer = took t n v;
        })
    take_value-Inv q =
        let seen = standing inv (got_next t n) e in
        let at : s.heap (seq (suc passed)) ≡ some node =
          subst (λ a. s.heap a ≡ some node) seen.behind found in
        record {
          seq = seq;
          passed = passed;
          range = range;
          at_head = at_head;
          at_tail = at_tail;
          distinct = distinct;
          live = λ k h1 h2. ground (arith, live k h1 h2);
          linked = λ k m node' h1 h2 e' q'.
              ground (arith, linked k m node h1 h2, linked k m node' h1 h2, found);
          waiting = λ k node' h1 h2 e' q'.
              ground (arith, waiting k node h1 h2, waiting k node' h1 h2, found);
          value = λ j node' h1 h2 e'. ground (arith, value j node' h1 h2, e);
          made_fits = λ i b w h.
              let (fresh, apart) = made_fits i b w h in
              let off = apart (suc passed) (omega arith) seen.room in
              (ground (arith, fresh, off, seen.behind), apart);
          made_apart = inv.made_apart;
          swapped_fits = swapped_fits;
          swapped_open = λ i b a node' h e'.
              ground (arith, swapped_open i b a node h, swapped_open i b a node' h, found);
          swapped_apart = inv.swapped_apart;
          owned = λ b h. elim (inv.owned b (λ h'. ground (arith, h', h, found))) [
            | inl at ↦ inl at
            | inr (inl at) ↦ inr (inl at)
            | inr (inr at) ↦ ground (arith, at, e)
          ];
          consumer_fits = (
            record {
              in_step = seen.in_step;
              here = seen.here;
              behind = seen.behind;
              room = seen.room;
              no_link = seen.no_link;
            },
            ground (arith, value passed node (omega arith) seen.room at, e, q),
          );
          in_order = inv.in_order;
        }

  pub store_tail-Inv :
      (t n : ℕ) (v : A)
      → s.consumer ≡ took t n v
      → Inv (record s { tail_ = n; consumer = advanced t v })
  store_tail-Inv t n v e =
      let (seen, at) = standing inv (took t n v) e in
      record {
        seq = seq;
        passed = suc passed;
        range = omega (arith, seen.room);
        at_head = at_head;
        at_tail = seen.behind;
        distinct = λ j k h1 h2 h3 h4. distinct j k (omega arith) h2 (omega arith) h4;
        live = λ k h1. live k (omega arith);
        linked = λ k m node h1. linked k m node (omega arith);
        waiting = λ k node h1. waiting k node (omega arith);
        value = λ j node h1 h2 e'. ground (
          arith,
          value j node (omega arith) h2 e',
          distinct (suc j) (suc passed),
          seen.behind,
          e,
        );
        made_fits = λ i b w h.
            let (fresh, apart) = made_fits i b w h in (fresh, λ k h1. apart k (omega arith));
        made_apart = inv.made_apart;
        swapped_fits = λ i b a h. ground (arith, swapped_fits i b a h, seen.no_link i b, seen.here);
        swapped_open = swapped_open;
        swapped_apart = inv.swapped_apart;
        owned = λ b h. elim (inv.owned b h) [
          | inl (k, h1, h2, h3) ↦ elim (ℕ_discrete passed k) [
            | yes first ↦ inr (inr (ground (arith, h3, first, seen.here)))
            | no later ↦ inl (k, omega arith, h2, h3)
          ]
          | inr (inl at) ↦ inr (inl at)
          | inr (inr at) ↦ ground (arith, at, e)
        ];
        consumer_fits = (
          ap suc seen.in_step,
          subst (λ k. get_elem? s.put k ≡ some v) (sym seen.in_step) at,
          λ h. ground (arith, live passed (omega arith) range, seen.here, h),
          λ k h1 h2 h.
              ground (arith, distinct k passed (omega arith) h2 (omega arith) range, seen.here, h),
          λ i b w h h'.
              let (_, apart) = made_fits i b w h in
              ground (arith, apart passed (omega arith) range, seen.here, h'),
        );
        in_order = inv.in_order;
      }

  pub free-Inv :
      (t : ℕ) (v : A)
      → s.consumer ≡ advanced t v
      → Inv (record s { heap = update s.heap t none; consumer = resting; got = s.got ++ (v ∷ []) })
  free-Inv t v e =
      let (in_step, at, there, apart, not_made) = standing inv (advanced t v) e in
      record {
        seq = seq;
        passed = passed;
        range = range;
        at_head = at_head;
        at_tail = at_tail;
        distinct = distinct;
        live = λ k h1 h2. ground (arith, live k h1 h2, apart k h1 h2);
        linked = λ k m node h1 h2 e' q. ground (arith, linked k m node h1 h2);
        waiting = λ k node h1 h2 e' q. ground (arith, waiting k node h1 h2);
        value = λ j node h1 h2 e'. ground (arith, value j node h1 h2, e);
        made_fits = λ i b w h. ground (arith, made_fits i b w h, not_made i b w h);
        made_apart = inv.made_apart;
        swapped_fits = swapped_fits;
        swapped_open = λ i b a node h e'. ground (arith, swapped_open i b a node h);
        swapped_apart = inv.swapped_apart;
        owned = λ b h. elim (inv.owned b (λ h'. ground (arith, h', h))) [
          | inl at ↦ inl at
          | inr (inl at) ↦ inr (inl at)
          | inr (inr at) ↦ ground (arith, at, e, h)
        ];
        consumer_fits = omega (arith, length-append s.got (v ∷ []));
        in_order =
            ap (λ l. l ++ (v ∷ [])) inv.in_order
            ∙ sym (take-suc (length s.got) s.put v at)
            ∙ ap (λ n. take n s.put) {x = suc (length s.got)}
                (omega (arith, length-append s.got (v ∷ [])));
      }
