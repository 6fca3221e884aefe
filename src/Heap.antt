-- ===== src/Heap.antt =====
-- The memory behind `char* ptr_` of src/socket/buffer.h: numbered blocks of bytes. A pointer is
-- null or the start of a block; an access goes to an offset in a live block.
use rpc_bench.Common.{
  ℕ, suc, ◌+◌, ◌≤◌, ◌<◌, ◌≡◌, ◌≢◌, List, Option, none, some, arith, Outcome, done, fault, leb, ◌==◌,
  if◌then◌else◌, length, take, drop, write_at,
}

pub record Heap : Type 0 where
  pub blocks : ℕ → Option (List ℕ)
  pub fresh : ℕ

abbrev update : (ℕ → Option (List ℕ)) → ℕ → Option (List ℕ) → ℕ → Option (List ℕ)
update blocks a v p = if p == a then v else blocks p

-- posix_memalign, with the content of the new block; the block's number is the old `fresh`.
unfoldable pub alloc : Heap → List ℕ → Heap
alloc h block = record { blocks = update h.blocks h.fresh (some block); fresh = suc h.fresh }

unfoldable pub free : Heap → ℕ → Heap
free h a = record h { blocks = update h.blocks a none }

-- The bytes at `ptr + off` are overwritten.
unfoldable pub store : Heap → Option ℕ → ℕ → List ℕ → Outcome Heap
store h none off bytes = fault
store h (some a) off bytes = elim (h.blocks a) [
  | none ↦ fault
  | some block ↦
      if leb (off + length bytes) (length block)
      then done (record h { blocks = update h.blocks a (some (write_at off bytes block)) })
      else fault
]

-- `len` bytes from `ptr + off`.
unfoldable pub load : Heap → Option ℕ → ℕ → ℕ → Outcome (List ℕ)
load h none off len = fault
load h (some a) off len = elim (h.blocks a) [
  | none ↦ fault
  | some block ↦ if leb (off + len) (length block) then done (take len (drop off block)) else fault
]

-- Block `a` is live and holds `block`.
abbrev pub Holds : Heap → ℕ → List ℕ → Type 0
Holds h a block = (h.blocks a ≡ some block) × (a < h.fresh)

pub Holds-alloc_self : (h : Heap) (block : List ℕ) → Holds (alloc h block) h.fresh block
unfolding alloc
Holds-alloc_self h block = (ground arith, omega arith)

pub alloc-fresh : (h : Heap) (block : List ℕ) → (alloc h block).fresh ≡ suc h.fresh
unfolding alloc
alloc-fresh h block = omega arith

pub Holds-alloc :
    (h : Heap) (new : List ℕ) (a : ℕ) (block : List ℕ)
    → Holds h a block
    → Holds (alloc h new) a block
unfolding alloc
Holds-alloc h new a block (e, lt) = (ground arith, omega arith)

pub Holds-free :
    (h : Heap) (a b : ℕ) (block : List ℕ) → a ≢ b → Holds h a block → Holds (free h b) a block
unfolding free
Holds-free h a b block ne (e, lt) = (ground arith, lt)

-- A store inside a live block succeeds, changes that block alone and keeps its length.
pub store-Holds :
    (h : Heap) (a off : ℕ) (bytes block : List ℕ)
    → Holds h a block
    → off + length bytes ≤ length block
    → (h' : Heap) × (store h (some a) off bytes ≡ done h')
      × Holds h' a (write_at off bytes block)
      × ((b : ℕ) (other : List ℕ) → b ≢ a → Holds h b other → Holds h' b other)
unfolding store
store-Holds h a off bytes block (e, lt) fits = (
  record h { blocks = update h.blocks a (some (write_at off bytes block)) },
  ground arith,
  (ground arith, lt),
  λ b other ne hb. (ground (arith, hb.0), hb.1),
)

pub load-Holds :
    (h : Heap) (a off len : ℕ) (block : List ℕ)
    → Holds h a block
    → off + len ≤ length block
    → load h (some a) off len ≡ done (take len (drop off block))
unfolding load
load-Holds h a off len block (e, lt) fits = ground arith
