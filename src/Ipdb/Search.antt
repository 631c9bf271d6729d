-- ===== src/Ipdb/Search.antt =====
-- The search of the reader: the tree that the nodes hold, and addresses of the two families.
use project_test_demo.Common.{
  ℕ, zero, suc, ◌-◌, ◌/◌, ◌%◌, ◌^◌, true, false, Option, none, some, get_or, ◌==◌, if◌then◌else◌,
  Bytes, ◌≡◌, ◌⊎◌, refl, ap, ◌∙◌, arith, inl, inr,
}
use project_test_demo.Common.Int.{ℤ, pos, ltb_ℤ}
use project_test_demo.Ipdb.Reader.{Reader, read_node, bit, search_loop, search}

-- A tree of addresses: a leaf stands for the addresses that begin with the bits that lead to it.
pub data Tree : Type 0 where
  leaf : ℤ → Tree
  fork : Tree → Tree → Tree

-- The nodes hold the tree from this node on: a number above the count of nodes is a leaf.
unfoldable pub Holds : Reader → ℤ → Tree → Type 0
Holds r node (leaf value) = (node ≡ value) × (ltb_ℤ r.node_count node ≡ true)
Holds r node (fork zeros ones) =
    (ltb_ℤ r.node_count node ≡ false)
    × ((x : ℤ) × (read_node r node 0 ≡ some x) × Holds r x zeros)
    × ((y : ℤ) × (read_node r node 1 ≡ some y) × Holds r y ones)

-- The leaf that some of the n bits from bit i on lead to.
unfoldable pub lookup : Tree → Bytes → ℕ → ℕ → Option ℤ
lookup (leaf value) ip i n = some value
lookup (fork zeros ones) ip i zero = none
lookup (fork zeros ones) ip i (suc n) =
    if bit ip i == 0 then lookup zeros ip (suc i) n else lookup ones ip (suc i) n

even_or_odd : (w : ℕ) → (w % 2 ≡ 0) ⊎ (w % 2 ≡ 1)
even_or_odd w = ground arith

bit-cases : (ip : Bytes) (i : ℕ) → (bit ip i ≡ 0) ⊎ (bit ip i ≡ 1)
unfolding bit
bit-cases ip i = even_or_odd (get_or ip (i / 8) 0 / 2 ^ (7 - i % 8))

pub search_loop-leaf :
    (r : Reader) (ip : Bytes) (i n : ℕ) (node : ℤ)
    → ltb_ℤ r.node_count node ≡ true
    → search_loop r ip i n node ≡ some node
unfolding search_loop
search_loop-leaf r ip i zero node h = refl
search_loop-leaf r ip i (suc n) node h = ground arith

pub search_loop-next :
    (r : Reader) (ip : Bytes) (i n k : ℕ) (node next : ℤ)
    → ltb_ℤ r.node_count node ≡ false
    → bit ip i ≡ k
    → read_node r node k ≡ some next
    → search_loop r ip i (suc n) node ≡ search_loop r ip (suc i) n next
unfolding search_loop
search_loop-next r ip i n k node next h e read = ground arith

search_loop-lookup :
    (t : Tree) (r : Reader) (ip : Bytes) (i n : ℕ) (node value : ℤ)
    → Holds r node t
    → lookup t ip i n ≡ some value
    → search_loop r ip i n node ≡ some value
unfolding Holds lookup
search_loop-lookup (leaf w) r ip i n node value h e =
    search_loop-leaf r ip i n node h.1 ∙ ap some h.0 ∙ e
search_loop-lookup (fork zeros ones) r ip i zero node value h e = ground arith
search_loop-lookup (fork zeros ones) r ip i (suc n) node value
      (inner, (x, read_x, hx), (y, read_y, hy)) e =
    elim (bit-cases ip i) [
      | inl b ↦
          search_loop-next r ip i n 0 node x inner b read_x
          ∙ search_loop-lookup zeros r ip (suc i) n x value hx (ground arith)
      | inr b ↦
          search_loop-next r ip i n 1 node y inner b read_y
          ∙ search_loop-lookup ones r ip (suc i) n y value hy (ground arith)
    ]

-- Where the search of an address of so many bits begins.
abbrev pub root : Reader → ℕ → ℤ
root r bit_count = if bit_count == 32 then r.v4_offset else pos 0

-- If the nodes hold a tree below the node where the search begins, and the bits of the address lead to
-- a leaf of it, then the search gives that leaf, with no undefined read.
pub search-lookup :
    (t : Tree) (r : Reader) (ip : Bytes) (bit_count : ℕ) (value : ℤ)
    → Holds r (root r bit_count) t
    → lookup t ip 0 bit_count ≡ some value
    → search r ip bit_count ≡ some value
unfolding search
search-lookup t r ip bit_count value h e =
    search_loop-lookup t r ip 0 bit_count (root r bit_count) value h e
