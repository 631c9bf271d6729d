-- ===== src/Ipdb/Mapped.antt =====
-- The search of the reader: an IPv4 address and the IPv6 address ::ffff:0:0/96 that stands for it.
use project_test_demo.Common.{
  ℕ, zero, suc, ◌+◌, ◌-◌, ◌/◌, ◌%◌, ◌^◌, ◌<◌, Bool, true, false, ◌&&◌, Option, none, some, ◌∷◌,
  get_or, leb, ◌==◌, ==_iff, if◌then◌else◌, Bytes, ◌≡◌, ◌≢◌, refl, sym, ap, ◌∙◌, arith, Bool-cases,
  Option-cases, inl, inr,
}
use project_test_demo.Common.Int.{ℤ, pos, negsuc, ltb_ℤ}
use project_test_demo.Common.Maybe.{◌>>=◌}
use project_test_demo.Ipdb.Search.{search_loop-leaf, search_loop-next}
use project_test_demo.Ipdb.Reader.{Reader, read_node, bit, search_loop, search, v4_loop}

-- The IPv6 address for an IPv4 address.
abbrev pub mapped : Bytes → Bytes
mapped ip = 0 ∷ 0 ∷ 0 ∷ 0 ∷ 0 ∷ 0 ∷ 0 ∷ 0 ∷ 0 ∷ 0 ∷ 255 ∷ 255 ∷ ip

abbrev all_below : ℕ → (ℕ → Bool) → Bool
all_below zero f = true
all_below (suc n) f = f n && all_below n f

all_below-get : (n i : ℕ) (f : ℕ → Bool) → all_below n f ≡ true → i < n → f i ≡ true
all_below-get zero i f h l = absurd (omega arith)
all_below-get (suc n) i f h l = elim (Bool-cases (i == n)) [
  | inl e ↦ ap f ((==_iff i n).0 e) ∙ ground arith
  | inr e ↦ all_below-get n i f (ground arith) (ground arith)
]

expected : ℕ → ℕ
expected i = if leb 80 i then 1 else 0

bit-mapped-prefix : (ip : Bytes) (i : ℕ) → i < 96 → bit (mapped ip) i ≡ (if leb 80 i then 1 else 0)
unfolding bit
bit-mapped-prefix ip i h =
    (==_iff (bit (mapped ip) i) (if leb 80 i then 1 else 0)).0
      (all_below-get 96 i (λ k. bit (mapped ip) k == (if leb 80 k then 1 else 0)) refl h)

get_or-mapped : (ip : Bytes) (k : ℕ) → get_or (mapped ip) (12 + k) 0 ≡ get_or ip k 0
get_or-mapped ip k =
    let e : 12 + k ≡ suc (suc (suc (suc (suc (suc (suc (suc (suc (suc (suc (suc k))))))))))) =
      omega arith in
    ap (λ j. get_or (mapped ip) j 0) e

bit-mapped : (ip : Bytes) (i : ℕ) → bit (mapped ip) (96 + i) ≡ bit ip i
unfolding bit
bit-mapped ip i =
    let q : (96 + i) / 8 ≡ 12 + i / 8 = omega arith in
    let m : (96 + i) % 8 ≡ i % 8 = omega arith in
    ap (λ k. get_or (mapped ip) k 0 / 2 ^ (7 - (96 + i) % 8) % 2) q
    ∙ ap (λ b. b / 2 ^ (7 - (96 + i) % 8) % 2) (get_or-mapped ip (i / 8))
    ∙ ap (λ k. get_or ip (i / 8) 0 / 2 ^ (7 - k) % 2) m

cong->>= : (o : Option ℤ) (f g : ℤ → Option ℤ) → ((x : ℤ) → f x ≡ g x) → (o >>= f) ≡ (o >>= g)
cong->>= none f g h = refl
cong->>= (some x) f g h = h x

-- The loop reads only the bits.
search_loop-bits :
    (r : Reader) (xs ys : Bytes) (i j n : ℕ) (node : ℤ)
    → ((k : ℕ) → bit xs (k + i) ≡ bit ys (k + j))
    → search_loop r xs i n node ≡ search_loop r ys j n node
unfolding search_loop
search_loop-bits r xs ys i j zero node h = refl
search_loop-bits r xs ys i j (suc n) node h =
    let later : (next : ℤ) → search_loop r xs (suc i) n next ≡ search_loop r ys (suc j) n next =
      λ next.
        search_loop-bits r xs ys (suc i) (suc j) n next
          (λ k. ap (bit xs) (omega arith) ∙ h (suc k) ∙ ap (bit ys) (omega arith)) in
    let first : bit xs i ≡ bit ys j = ap (bit xs) (omega arith) ∙ h 0 ∙ ap (bit ys) (omega arith) in
    ap (λ rest. elim (ltb_ℤ r.node_count node) [ true ↦ some node | false ↦ rest ])
      (ap (λ k. read_node r node k >>= λ next. search_loop r xs (suc i) n next) first
        ∙ cong->>= (read_node r node (bit ys j)) (search_loop r xs (suc i) n)
            (search_loop r ys (suc j) n) later)

search_loop-mapped :
    (r : Reader) (ip : Bytes) (m : ℕ) (node : ℤ)
    → search_loop r (mapped ip) 96 m node ≡ search_loop r ip 0 m node
search_loop-mapped r ip m node =
    search_loop-bits r (mapped ip) ip 96 0 m node
      (λ k. ap (bit (mapped ip)) (omega arith) ∙ bit-mapped ip k ∙ ap (bit ip) (omega arith))

ltb_ℤ-connected : (a b : ℤ) → ltb_ℤ a b ≡ false → a ≢ b → ltb_ℤ b a ≡ true
ltb_ℤ-connected (pos a) (pos b) h ne = elim (Bool-cases (a == b)) [
  | inl e ↦ absurd (ne (ap pos ((==_iff a b).0 e)))
  | inr e ↦ ground arith
]
ltb_ℤ-connected (pos a) (negsuc b) h ne = ground arith
ltb_ℤ-connected (negsuc a) (pos b) h ne = ground arith
ltb_ℤ-connected (negsuc a) (negsuc b) h ne = elim (Bool-cases (a == b)) [
  | inl e ↦ absurd (ne (ap negsuc ((==_iff a b).0 e)))
  | inr e ↦ ground arith
]

ltb_ℤ-asym : (a b : ℤ) → ltb_ℤ a b ≡ true → ltb_ℤ b a ≡ false
ltb_ℤ-asym a b h = ground arith

v4_loop-stop :
    (r : Reader) (i n : ℕ) (node : ℤ)
    → ltb_ℤ node r.node_count ≡ false
    → v4_loop r i n node ≡ some node
unfolding v4_loop
v4_loop-stop r i zero node h = refl
v4_loop-stop r i (suc n) node h = ground arith

v4_loop-next :
    (r : Reader) (i n : ℕ) (node last : ℤ)
    → ltb_ℤ node r.node_count ≡ true
    → v4_loop r i (suc n) node ≡ some last
    → (next : ℤ) × (read_node r node (if leb 80 i then 1 else 0) ≡ some next)
      × (v4_loop r (suc i) n next ≡ some last)
unfolding v4_loop
v4_loop-next r i n node last h e =
    elim (Option-cases (read_node r node (if leb 80 i then 1 else 0))) [
      | inl none_read ↦ ground arith
      | inr (next, read) ↦ (next, read, ground arith)
    ]

some-injective : (a b : ℤ) → some a ≡ some b → a ≡ b
some-injective a b e = cc

zero_rounds :
    (r : Reader) (i : ℕ) (node last : ℤ) → v4_loop r i 0 node ≡ some last → some node ≡ some last
unfolding v4_loop
zero_rounds r i node last e = e

-- The loop of the constructor stops at a leaf or behind 96 rounds. It ends one node earlier than that
-- of the search, at the number that is the count of the nodes.
search_loop-v4_loop :
    (r : Reader) (ip : Bytes) (m n i : ℕ) (node last : ℤ)
    → i + n ≡ 96
    → v4_loop r i n node ≡ some last
    → last ≢ r.node_count
    → search_loop r (mapped ip) i (n + m) node ≡ search_loop r ip 0 m last
search_loop-v4_loop r ip m zero i node last s e ne =
    let i_96 : i ≡ 96 = omega arith in
    let no_rounds : 0 + m ≡ m = omega arith in
    ap (λ k. search_loop r (mapped ip) k (0 + m) node) i_96
    ∙ ap (λ k. search_loop r (mapped ip) 96 k node) no_rounds
    ∙ search_loop-mapped r ip m node
    ∙ ap (search_loop r ip 0 m) (some-injective node last (zero_rounds r i node last e))
search_loop-v4_loop r ip m (suc n) i node last s e ne =
    elim (Bool-cases (ltb_ℤ node r.node_count)) [
      | inl below ↦
          let (next, read, rest) = v4_loop-next r i n node last below e in
          let rounds : suc n + m ≡ suc (n + m) = omega arith in
          ap (λ k. search_loop r (mapped ip) i k node) rounds
          ∙ search_loop-next r (mapped ip) i (n + m) (if leb 80 i then 1 else 0) node next
              (ltb_ℤ-asym node r.node_count below) (bit-mapped-prefix ip i (omega arith)) read
          ∙ search_loop-v4_loop r ip m n (suc i) next last (omega arith) rest ne
      | inr above ↦
          let same : node ≡ last =
            some-injective node last (sym (v4_loop-stop r i (suc n) node above) ∙ e) in
          let leaf_node : ltb_ℤ r.node_count node ≡ true =
            ltb_ℤ-connected node r.node_count above (λ c. ne (sym same ∙ c)) in
          search_loop-leaf r (mapped ip) i (suc n + m) node leaf_node
          ∙ ap some same
          ∙ sym (search_loop-leaf r ip 0 m last (ap (ltb_ℤ r.node_count) (sym same) ∙ leaf_node))
    ]

-- When the constructor has set v4_offset_ by its loop, and the node found is not the one whose number is
-- the count of the nodes, then the search of an IPv4 address and that of the IPv6 address mapped to it
-- have the same outcome, a node or an undefined read.
pub search-mapped :
    (r : Reader) (ip : Bytes)
    → v4_loop r 0 96 (pos 0) ≡ some r.v4_offset
    → r.v4_offset ≢ r.node_count
    → search r (mapped ip) 128 ≡ search r ip 32
unfolding search
search-mapped r ip e ne = search_loop-v4_loop r ip 32 96 0 (pos 0) r.v4_offset refl e ne
