-- ===== src/Json/Items.antt =====
-- The loop of `read_json` over the elements of a sequence, on what was written for them.
use project_test_demo.Common.{
  ℕ, zero, suc, ◌+◌, ◌^◌, ◌≤◌, ◌<◌, true, false, List, [], ◌∷◌, ◌++◌, length, length-append,
  append_assoc, append-nil, ◌==◌, if◌then◌else◌, Bytes, ◌≡◌, refl, sym, ap, ◌∙◌, subst, arith,
}
use project_test_demo.Json.Token.{ReaderT, Run, ok, ◌>>=◌, error}
use project_test_demo.Json.Next.{next, expect, is_ctrl}
use project_test_demo.Json.Skip.{token_byte}
use project_test_demo.Json.Values.{is_end, read_items, read_sequence}
use project_test_demo.Json.Serial.{Serial, sequence_serial}
use project_test_demo.Json.Cursor.{Stands, Starts, length-Stands}
use project_test_demo.Json.Marks.{next-mark}
use project_test_demo.Json.Spoken.{Delimits, Reads, Spoken}
use project_test_demo.Json.Sequences.{
  AllSpoken, rest_text, list_text, sequence_text, NoneCloses, render_sequence-Added,
}

-- A token of one character, with a byte behind it that is no NUL, whichever it is.
pub record PassedMark (r : ReaderT) (c : ℕ) (rest : Bytes) : Type 0 where
  pub last : ReaderT
  pub runs : next r ≡ ok last
  pub is_value : is_end last.cur_tok.type_ ≡ false
  pub here : token_byte last ≡ ok c
  pub behind : Bytes
  pub stands : Stands last behind [] rest
  pub no_error : last.has_error ≡ r.has_error
  pub same_len : last.len ≡ r.len
  pub same_memory : last.mem ≡ r.mem

pub next-PassedMark :
    (r : ReaderT) (before : Bytes) (c : ℕ) (rest : Bytes)
    → is_ctrl c ≡ true
    → Stands r before [] (c ∷ rest)
    → Starts rest
    → PassedMark r c rest
next-PassedMark r before c [] ctrl h starts = absurd starts
next-PassedMark r before c (d ∷ rest) ctrl h starts =
    let m = next-mark r before c d rest ctrl h in
    record {
      last = m.last;
      runs = m.runs;
      is_value = ap is_end m.is_mark;
      here = m.here;
      behind = m.behind;
      stands = m.stands starts;
      no_error = m.no_error;
      same_len = m.same_len;
      same_memory = m.same_memory;
    }

abbrev pub paired : {A : Type 0} → A → ReaderT → Run (A × ReaderT)
paired a s = ok (a, s)

pub is_ctrl-open : is_ctrl b'[' ≡ true
unfolding is_ctrl
is_ctrl-open = refl

pub is_ctrl-close : is_ctrl b']' ≡ true
unfolding is_ctrl
is_ctrl-close = refl

pub is_ctrl-comma : is_ctrl b',' ≡ true
unfolding is_ctrl
is_ctrl-comma = refl

bind_pair :
    {A B : Type 0} (o : Run ReaderT) (a : A) (f : A → ReaderT → Run B)
    → ((o >>= paired a) >>= λ x. f (x.0) (x.1)) ≡ (o >>= f a)
bind_pair (ok s) a f = refl
bind_pair Run.undefined a f = refl
bind_pair Run.out_of_fuel a f = refl

module _ {A : Type 0} (allocate : ℕ → Bytes) (j : Serial A) where
  abbrev pub loop : ℕ → ReaderT → List A → Run (List A × ReaderT)
  loop = read_items j.read_json j.initial

  -- The loop behind an element.
  abbrev after_item : ℕ → List A → A → ReaderT → Run (List A × ReaderT)
  after_item n val a s = token_byte s >>= λ d. elim (d == b',') [
    | true ↦ next s >>= λ t. loop n t (val ++ (a ∷ []))
    | false ↦ next (if d == b']' then s else error s) >>= λ t. ok (val ++ (a ∷ []), t)
  ]

  loop-item :
      (n opening : ℕ) (r : ReaderT) (val : List A)
      → token_byte r ≡ ok opening
      → (opening == b']') ≡ false
      → loop (suc n) r val ≡ (j.read_json r j.initial >>= λ x. after_item n val (x.0) (x.1))
  unfolding read_items
  loop-item n opening r val e h = ground (arith, e, h)

  loop-Reads :
      (n stop opening : ℕ) (rest : Bytes) (a : A) (r : ReaderT) (val : List A)
      (q : Reads j a opening r stop rest)
      → (opening == b']') ≡ false
      → loop (suc n) q.first val ≡ (next q.last >>= after_item n val a)
  loop-Reads n stop opening rest a r val q h =
      loop-item n opening q.first val q.begins h
      ∙ ap (λ o. o >>= λ x. after_item n val (x.0) (x.1)) q.reads
      ∙ bind_pair (next q.last) a (after_item n val)

  abbrev after_byte : ℕ → List A → A → ReaderT → Run ℕ → Run (List A × ReaderT)
  after_byte n val a s o = o >>= λ d. elim (d == b',') [
    | true ↦ next s >>= λ t. loop n t (val ++ (a ∷ []))
    | false ↦ next (if d == b']' then s else error s) >>= λ t. ok (val ++ (a ∷ []), t)
  ]

  -- The elements are read, behind those that were read before.
  pub record ItemsRead (n : ℕ) (val xs : List A) (r : ReaderT) (stop : ℕ) (rest : Bytes)
      : Type 0 where
    pub first : ReaderT
    pub starts : next r ≡ ok first
    pub last : ReaderT
    pub reads :
        read_items j.read_json j.initial n first val ≡ (next last >>= λ s. ok (val ++ xs, s))
    pub behind : Bytes
    pub stands : Stands last behind [] (stop ∷ rest)
    pub no_error : last.has_error ≡ r.has_error
    pub same_len : last.len ≡ r.len

  pub read_items-ItemsRead :
      (n : ℕ) (a : A) (xs : List A) (h : AllSpoken allocate j (a ∷ xs)) (val : List A) (r : ReaderT)
      (before : Bytes) (stop : ℕ) (rest : Bytes)
      → NoneCloses allocate j (a ∷ xs) h
      → length xs ≤ n
      → Stands r before [] (list_text allocate j (a ∷ xs) h ++ (b']' ∷ stop ∷ rest))
      → (stop == 0) ≡ false
      → r.len < 2 ^ 64
      → ItemsRead (suc n) val (a ∷ xs) r stop rest
  read_items-ItemsRead n a [] h val r before stop rest none_closes enough st more small =
      let st' : Stands r before [] (h.0.text ++ (b']' ∷ stop ∷ rest)) =
        subst (λ x. Stands r before [] (x ++ (b']' ∷ stop ∷ rest))) (append-nil (h.0.text)) st in
      let q = h.0.reads r before b']' (stop ∷ rest) st' refl small in
      let m = next-PassedMark q.last q.behind b']' (stop ∷ rest) is_ctrl-close q.stands more in
      record {
        first = q.first;
        starts = q.starts;
        last = m.last;
        reads =
            loop-Reads n b']' (h.0.opening) (stop ∷ rest) a r val q (none_closes.0)
            ∙ ap (λ o. o >>= after_item n val a) m.runs
            ∙ ap (after_byte n val a m.last) m.here;
        behind = m.behind;
        stands = m.stands;
        no_error = m.no_error ∙ q.no_error;
        same_len = m.same_len ∙ q.same_len;
      }
  read_items-ItemsRead zero a (b ∷ xs) h val r before stop rest none_closes enough st more small =
      absurd (omega arith)
  read_items-ItemsRead (suc n) a (b ∷ xs) h val r before stop rest none_closes enough st more
        small =
      let end = b']' ∷ stop ∷ rest in
      let tail = list_text allocate j (b ∷ xs) (h.1) ++ end in
      let st' : Stands r before [] (h.0.text ++ (b',' ∷ tail)) =
        subst (Stands r before [])
          (append_assoc (h.0.text) (rest_text allocate j (b ∷ xs) (h.1)) end) st in
      let q = h.0.reads r before b',' tail st' refl small in
      let starts : Starts tail =
        subst Starts (sym (append_assoc (h.1.0.text) (rest_text allocate j xs (h.1.1)) end))
          (h.1.0.no_nul (rest_text allocate j xs (h.1.1) ++ end)) in
      let m = next-PassedMark q.last q.behind b',' tail is_ctrl-comma q.stands starts in
      let ih =
        read_items-ItemsRead n b xs (h.1) (val ++ (a ∷ [])) m.last m.behind stop rest
          (none_closes.1) (omega arith) m.stands more (omega (arith, m.same_len, q.same_len)) in
      record {
        first = q.first;
        starts = q.starts;
        last = ih.last;
        reads =
            loop-Reads (suc n) b',' (h.0.opening) tail a r val q (none_closes.0)
            ∙ ap (λ o. o >>= after_item (suc n) val a) m.runs
            ∙ ap (after_byte (suc n) val a m.last) m.here
            ∙ ap (λ o. o >>= λ t. loop (suc n) t (val ++ (a ∷ []))) ih.starts
            ∙ ih.reads
            ∙ ap (λ l. next ih.last >>= λ s. ok (l, s)) (append_assoc val (a ∷ []) (b ∷ xs));
        behind = ih.behind;
        stands = ih.stands;
        no_error = ih.no_error ∙ m.no_error ∙ q.no_error;
        same_len = ih.same_len ∙ m.same_len ∙ q.same_len;
      }

  pub loop-close :
      (n : ℕ) (r : ReaderT) (val : List A)
      → token_byte r ≡ ok b']'
      → is_end r.cur_tok.type_ ≡ false
      → loop (suc n) r val ≡ (next r >>= λ s. ok (val, s))
  unfolding read_items
  loop-close n r val e t = ground (arith, e, t)

  pub no_nul-list :
      (xs : List A) (h : AllSpoken allocate j xs) (end : Bytes)
      → Starts (list_text allocate j xs h ++ (b']' ∷ end))
  no_nul-list [] h end = refl
  no_nul-list (a ∷ xs) h end =
      subst Starts (sym (append_assoc (h.0.text) (rest_text allocate j xs (h.1)) (b']' ∷ end)))
        (h.0.no_nul (rest_text allocate j xs (h.1) ++ (b']' ∷ end)))

  le-rest_text :
      (xs : List A) (h : AllSpoken allocate j xs) → length xs ≤ length (rest_text allocate j xs h)
  le-rest_text [] h = omega arith
  le-rest_text (a ∷ xs) h =
      omega (arith, le-rest_text xs (h.1), length-append (h.0.text) (rest_text allocate j xs (h.1)))

  pub le-list_text :
      (xs : List A) (h : AllSpoken allocate j xs)
      → length xs ≤ suc (length (list_text allocate j xs h))
  le-list_text [] h = omega arith
  le-list_text (a ∷ xs) h =
      omega (arith, le-rest_text xs (h.1), length-append (h.0.text) (rest_text allocate j xs (h.1)))

  -- The whole sequence, from its bracket on.
  items_of :
      (n : ℕ) (xs : List A) (h : AllSpoken allocate j xs) (r : ReaderT) (before : Bytes) (stop : ℕ)
      (rest : Bytes)
      → NoneCloses allocate j xs h
      → length xs ≤ suc n
      → Stands r before [] (list_text allocate j xs h ++ (b']' ∷ stop ∷ rest))
      → (stop == 0) ≡ false
      → r.len < 2 ^ 64
      → ItemsRead (suc n) [] xs r stop rest
  items_of n [] h r before stop rest closes enough st more small =
      let m = next-PassedMark r before b']' (stop ∷ rest) is_ctrl-close st more in
      record {
        first = m.last;
        starts = m.runs;
        last = m.last;
        reads = loop-close n m.last [] m.here m.is_value;
        behind = m.behind;
        stands = m.stands;
        no_error = m.no_error;
        same_len = m.same_len;
      }
  items_of n (a ∷ xs) h r before stop rest closes enough st more small =
      read_items-ItemsRead n a xs h [] r before stop rest closes (omega arith) st more small

  Delimits-more : (c : ℕ) → Delimits c → (c == 0) ≡ false
  Delimits-more c d = ground (arith, d)

  pub expect-byte : (r : ReaderT) (c : ℕ) → token_byte r ≡ ok c → expect r c ≡ ok true
  unfolding expect token_byte
  expect-byte r c e = ground (arith, e)

  pub sequence_serial-Reads :
      (xs : List A) (h : AllSpoken allocate j xs) (r : ReaderT) (before : Bytes) (stop : ℕ)
      (rest : Bytes)
      → NoneCloses allocate j xs h
      → Stands r before [] (sequence_text allocate j xs h ++ (stop ∷ rest))
      → Delimits stop
      → r.len < 2 ^ 64
      → Reads (sequence_serial allocate j) xs b'[' r stop rest
  unfolding read_sequence
  sequence_serial-Reads xs h r before stop rest closes st d small =
      let inner = list_text allocate j xs h in
      let end = b']' ∷ stop ∷ rest in
      let st' : Stands r before [] (b'[' ∷ (inner ++ end)) =
        subst (λ x. Stands r before [] (b'[' ∷ x)) (append_assoc inner (b']' ∷ []) (stop ∷ rest))
          st in
      let m =
        next-PassedMark r before b'[' (inner ++ end) is_ctrl-open st'
          (no_nul-list xs h (stop ∷ rest)) in
      let size = length-Stands m.last m.behind [] (inner ++ end) m.stands in
      let rounds : length m.last.mem + 2 ≡ suc (length m.last.mem + 1) = omega arith in
      let t =
        items_of (length m.last.mem + 1) xs h m.last m.behind stop rest closes
          (omega (arith, size, le-list_text xs h, length-append inner end)) m.stands
          (Delimits-more stop d) (omega (arith, m.same_len)) in
      record {
        first = m.last;
        starts = m.runs;
        is_value = m.is_value;
        begins = m.here;
        quiet = m.no_error;
        last = t.last;
        reads =
            ap
              (λ o. o >>= λ b. elim b [
                | false ↦ ok ([], error m.last)
                | true ↦ next m.last >>= λ s. loop (length m.last.mem + 2) s []
              ])
              (expect-byte m.last b'[' m.here)
            ∙ ap (λ o. o >>= λ s. loop (length m.last.mem + 2) s []) t.starts
            ∙ ap (λ k. loop k t.first []) rounds
            ∙ t.reads;
        behind = t.behind;
        stands = t.stands;
        no_error = t.no_error ∙ m.no_error;
        same_len = t.same_len ∙ m.same_len;
      }

  -- A sequence of values that are read as they were written is such a value, where none of them starts
  -- with a closing bracket.
  abbrev pub sequence_spoken :
      (allocates : (n : ℕ) → length (allocate n) ≡ n) (xs : List A) (h : AllSpoken allocate j xs)
      → NoneCloses allocate j xs h
      → Spoken allocate (sequence_serial allocate j) xs
  sequence_spoken allocates xs h closes = record {
    text = sequence_text allocate j xs h;
    opening = b'[';
    no_nul = λ rest. refl;
    writes = λ s v room. render_sequence-Added allocate j allocates xs h s v room;
    reads = λ r before stop rest st d small.
        sequence_serial-Reads xs h r before stop rest closes st d small;
  }
