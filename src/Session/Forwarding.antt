-- ===== src/Session/Forwarding.antt =====
-- What the session writes, in every order of completions.
use project_test_demo.Common.{
  ℕ, zero, suc, ◌+◌, ◌≤◌, Bool, true, false, not, if◌then◌else◌, none, some, List, [], ◌∷◌, ◌++◌,
  length, length-append, ◌≡◌, ◌⊎◌, inl, inr, refl, ap, sym, subst, ◌∙◌, arith,
}
use project_test_demo.Session.{
  Waiting, reading, connecting, handshaking, sending, receiving, responding, upgraded, over,
  crashed, end_of_stream, read_error, got, HttpSession, on_read, on_client_read, Completion,
  read_done, connect_done, handshake_done, client_write_done, client_read_done, server_write_done,
  client_send_msg, client_send_write_https_msg, Served, begun, served,
}

-- The copies of a response.
abbrev pub copies : {R : Type 0} → ℕ → R → List R
copies zero m = []
copies (suc n) m = m ∷ copies n m

copies-last : {R : Type 0} (n : ℕ) (m : R) → copies n m ++ (m ∷ []) ≡ copies (suc n) m
copies-last zero m = refl
copies-last (suc n) m = ap (λ l. m ∷ l) (copies-last n m)

-- The requests that are sent and not answered.
abbrev pub IsUnanswered : Waiting → ℕ → Type 0
IsUnanswered sending d = d ≡ 1
IsUnanswered receiving d = d ≡ 1
IsUnanswered upgraded d = d ≡ 0
IsUnanswered over d = d ≤ 1
IsUnanswered w d = d ≡ 0

at_most_one : (w : Waiting) (d : ℕ) → IsUnanswered w d → (d ≤ 1) × (¬ (w ≡ reading) ⊎ (d ≡ 0))
at_most_one reading d h = (omega (arith, h), inr h)
at_most_one connecting d h = (omega (arith, h), inr h)
at_most_one handshaking d h = (omega (arith, h), inr h)
at_most_one sending d h = (omega (arith, h), inl (λ e. absurd (ground (arith, e))))
at_most_one receiving d h = (omega (arith, h), inl (λ e. absurd (ground (arith, e))))
at_most_one responding d h = (omega (arith, h), inr h)
at_most_one upgraded d h = (omega (arith, h), inr h)
at_most_one over d h = (h, inl (λ e. absurd (ground (arith, e))))
at_most_one crashed d h = (omega (arith, h), inr h)

module _ {Q R : Type 0} (b : Bool) (m : R) (q : Q) where
  record Inv (s : HttpSession Q R) : Type 0 where
    pub open_requests : ℕ
    pub counted : length s.sent ≡ length s.written + open_requests
    pub unanswered : IsUnanswered s.waiting open_requests
    pub unchanged : s.msg ≡ m
    pub same : s.written ≡ copies (length s.written) m

  Inv-moved :
      (s : HttpSession Q R) (w : Waiting) (i : Inv s)
      → IsUnanswered w i.open_requests
      → Inv (record s { waiting = w })
  Inv-moved s w i u = record {
    open_requests = i.open_requests;
    counted = i.counted;
    unanswered = u;
    unchanged = i.unchanged;
    same = i.same;
  }

  Inv-sent :
      (s : HttpSession Q R) (i : Inv s) → i.open_requests ≡ 0 → Inv (client_send_write_https_msg s)
  Inv-sent s i none_open = at s.csstream
    where
      sending_one : HttpSession Q R
      sending_one = record s { waiting = sending; sent = s.sent ++ (s.client_msg ∷ []) }

      at : (c : Bool) → Inv (if c then sending_one else (record s { waiting = over }))
      at true = record {
        open_requests = 1;
        counted = omega (arith, length-append s.sent (s.client_msg ∷ []), i.counted, none_open);
        unanswered = refl;
        unchanged = i.unchanged;
        same = i.same;
      }
      at false = Inv-moved s over i (omega (arith, none_open))

  Inv-request :
      (r : Q) (s : HttpSession Q R) (i : Inv s) → i.open_requests ≡ 0 → Inv (client_send_msg r s)
  Inv-request r s i none_open = at s.is_connect s.csstream
    where
      t : HttpSession Q R
      t = record s { client_msg = r }

      j : Inv t
      j = record {
        open_requests = i.open_requests;
        counted = i.counted;
        unanswered = i.unanswered;
        unchanged = i.unchanged;
        same = i.same;
      }

      at :
          (c d : Bool)
          → Inv (
              if not c
              then (record t { waiting = if d then connecting else crashed })
              else client_send_write_https_msg t)
      at false true = Inv-moved t connecting j none_open
      at false false = Inv-moved t crashed j none_open
      at true d = Inv-sent t j none_open

  Inv-answered :
      (s : HttpSession Q R) (i : Inv s)
      → i.open_requests ≡ 1
      → Inv (record s { waiting = responding; written = s.written ++ (s.msg ∷ []) })
  Inv-answered s i one_open =
      let size : length (s.written ++ (s.msg ∷ [])) ≡ suc (length s.written) =
        omega (arith, length-append s.written (s.msg ∷ [])) in
      record {
        open_requests = 0;
        counted = omega (arith, size, i.counted, one_open);
        unanswered = refl;
        unchanged = i.unchanged;
        same =
            ap (λ x. s.written ++ (x ∷ [])) i.unchanged
            ∙ ap (λ l. l ++ (m ∷ [])) i.same
            ∙ copies-last (length s.written) m
            ∙ sym (ap (λ n. copies n m) size);
      }

  IsUnanswered-at :
      (s : HttpSession Q R) (w : Waiting) (i : Inv s)
      → s.waiting ≡ w
      → IsUnanswered w i.open_requests
  IsUnanswered-at s w i e = subst (λ x. IsUnanswered x i.open_requests) e i.unanswered

  if-Inv : (c : Bool) (s t : HttpSession Q R) → Inv s → Inv t → Inv (if c then s else t)
  if-Inv true s t i j = i
  if-Inv false s t i j = j

  Completion-Inv : {s t : HttpSession Q R} → Inv s → Completion s t → Inv t
  unfolding on_read on_client_read
  Completion-Inv {s} i (read_done end_of_stream e) =
      Inv-moved s over i (omega (arith, IsUnanswered-at s reading i e))
  Completion-Inv {s} i (read_done read_error e) =
      Inv-moved s over i (omega (arith, IsUnanswered-at s reading i e))
  Completion-Inv {s} i (read_done (got true r) e) =
      Inv-moved s upgraded i (IsUnanswered-at s reading i e)
  Completion-Inv {s} i (read_done (got false r) e) =
      Inv-request r s i (IsUnanswered-at s reading i e)
  Completion-Inv {s} i (connect_done ec e) = at s.csstream
    where
      at : (c : Bool) → Inv (record s { waiting = if c then handshaking else crashed })
      at true = Inv-moved s handshaking i (IsUnanswered-at s connecting i e)
      at false = Inv-moved s crashed i (IsUnanswered-at s connecting i e)
  Completion-Inv {s} i (handshake_done ec e) =
      let u : i.open_requests ≡ 0 = IsUnanswered-at s handshaking i e in
      if-Inv ec (record s { waiting = over }) (client_send_write_https_msg s)
        (Inv-moved s over i (omega (arith, u))) (Inv-sent s i u)
  Completion-Inv {s} i (client_write_done ec e) =
      let u : i.open_requests ≡ 1 = IsUnanswered-at s sending i e in
      if-Inv ec (record s { waiting = over }) (record s { waiting = receiving })
        (Inv-moved s over i (omega (arith, u))) (Inv-moved s receiving i u)
  Completion-Inv {s} i (client_read_done none e) =
      let u : i.open_requests ≡ 1 = IsUnanswered-at s receiving i e in
      Inv-moved s over i (omega (arith, u))
  Completion-Inv {s} i (client_read_done (some r) e) =
      Inv-answered s i (IsUnanswered-at s receiving i e)
  Completion-Inv {s} i (server_write_done ec e) =
      let u : i.open_requests ≡ 0 = IsUnanswered-at s responding i e in
      if-Inv ec (record s { waiting = over }) (record s { waiting = reading })
        (Inv-moved s over i (omega (arith, u))) (Inv-moved s reading i u)

  Served-Inv : {s : HttpSession Q R} → Served b m q s → Inv s
  Served-Inv begun = record {
    open_requests = 0;
    counted = refl;
    unanswered = refl;
    unchanged = refl;
    same = refl;
  }
  Served-Inv (served r c) = Completion-Inv (Served-Inv r) c

  -- In every order of completions, the requests are forwarded one at a time: as many are sent as
  -- responses are written, but for one, and none is open while the next request is read.
  pub requests_one_at_a_time :
      {s : HttpSession Q R}
      → Served b m q s
      → (length s.written ≤ length s.sent)
        × (length s.sent ≤ length s.written + 1)
        × (¬ (s.waiting ≡ reading) ⊎ (length s.sent ≡ length s.written))
  requests_one_at_a_time {s} r =
      let i = Served-Inv r in
      let (few, rest) = at_most_one s.waiting i.open_requests i.unanswered in
      (
        omega (arith, i.counted),
        omega (arith, i.counted, few),
        elim rest [ inl h ↦ inl h | inr z ↦ inr (omega (arith, i.counted, z)) ],
      )

  -- Whatever the server answers, every response that is written to the client is the one that the
  -- session was made with.
  pub response_is_never_forwarded :
      {s : HttpSession Q R} → Served b m q s → s.written ≡ copies (length s.written) m
  response_is_never_forwarded r = (Served-Inv r).same
