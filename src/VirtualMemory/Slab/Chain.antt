-- ===== src/VirtualMemory/Slab/Chain.antt =====
-- Chains of slabs, and what an allocation from one comes to.
use cyan_oskernel.Prelude.{
  ℕ, ◌<◌, ◌≡◌, ◌≢◌, ◌⊎◌, some, sym, ap, subst, ◌∙◌, true, false, List, [], ◌∷◌, ◌++◌, arith, ◌==◌,
}
use cyan_oskernel.Stdlib.Links.{mem}
use cyan_oskernel.Stdlib.Bitmap.Range.{IsValid}
use cyan_oskernel.Stdlib.Bitmap.{no_bits_left}
use cyan_oskernel.VirtualMemory.Slab.{
  SlabHeader, Memory, max_blocks, block_address, data_address, take_answer, free_block,
}
use cyan_oskernel.VirtualMemory.Slab.Alloc.{IsSlab, marked, Took}

-- The slabs of a chain, by their links: the one at `a`, and those after it.
unfoldable pub Linked : ℕ → Memory → ℕ → List ℕ → Type 0
Linked s m a [] = IsSlab s (m.headers a) × ((m.headers a).next ≡ 0)
Linked s m a (b ∷ bs) =
    IsSlab s (m.headers a) × ((m.headers a).next ≡ b) × (b ≢ 0) × Linked s m b bs

-- The next page that the system gives, where it gives one, is not one of the slabs, and holds an
-- empty bitmap, which `init` does not write.
abbrev pub Fresh : ℕ → Memory → List ℕ → Type 0
Fresh s m slabs =
    let b = (take_answer m.answers).0 in
    (b ≡ 0)
    ⊎ ((b ≢ 0)
        × (mem b slabs ≡ false)
        × IsValid (m.headers b).mem_map
        × ((m.headers b).mem_map.bitmap_size ≡ max_blocks s)
        × ((q : ℕ) → marked m b q ≡ false))

-- What an allocation needs: a slab whose search finds a block, or a system that refuses a page or
-- gives one as above.
abbrev pub Supplied : ℕ → Memory → List ℕ → Type 0
Supplied s m slabs =
    ((c : ℕ) × (mem c slabs ≡ true) × (free_block (m.headers c) ≢ some no_bits_left))
    ⊎ Fresh s m slabs

-- A new slab at `b` ends the chain, and has given its block `i`.
pub record Grew (s a : ℕ) (bs : List ℕ) (b i : ℕ) (m m' : Memory) (p : ℕ) : Type 0 where
  pub answered : (take_answer m.answers).0 ≡ b
  pub index : i < max_blocks s
  pub address : p ≡ data_address s b i
  pub there : b ≢ 0
  pub was_empty : (q : ℕ) → marked m b q ≡ false
  pub marks : (q : ℕ) → marked m' b q ≡ (i == q)
  pub valid : IsSlab s (m'.headers b)
  pub stamp : m'.blocks (block_address s b i) ≡ record { slab_ptr = b; slab_size = s }
  pub linked : Linked s m' a (bs ++ b ∷ [])
  pub maps_kept : (c : ℕ) → c ≢ b → (m'.headers c).mem_map ≡ (m.headers c).mem_map
  pub others : (c : ℕ) → mem c (a ∷ bs) ≡ false → c ≢ b → m'.headers c ≡ m.headers c

-- What an allocation from the chain of the slab at `a` and the slabs `bs` after it comes to.
pub data Allocated (s a : ℕ) (bs : List ℕ) (m m' : Memory) (p : ℕ) : Type 0 where
  taken :
      (b i : ℕ)
      → mem b (a ∷ bs) ≡ true
      → Took s b i m m' p
      → Linked s m' a bs
      → Allocated s a bs m m' p
  grown : (b i : ℕ) → Grew s a bs b i m m' p → Allocated s a bs m m' p
  refused :
      (take_answer m.answers).0 ≡ 0
      → p ≡ 0
      → ((c : ℕ) → m'.headers c ≡ m.headers c)
      → Allocated s a bs m m' p

pub Linked-first : (s a : ℕ) (bs : List ℕ) (m : Memory) → Linked s m a bs → IsSlab s (m.headers a)
unfolding Linked
Linked-first s a [] m (slab, end) = slab
Linked-first s a (b ∷ bs) m (slab, next, pos, rest) = slab

pub Linked-frame :
    (s a : ℕ) (bs : List ℕ) (m m' : Memory)
    → ((c : ℕ) → mem c (a ∷ bs) ≡ true → m'.headers c ≡ m.headers c)
    → Linked s m a bs
    → Linked s m' a bs
unfolding Linked mem
Linked-frame s a [] m m' same (slab, end) =
    let here = same a (ground arith) in
    (subst (IsSlab s) (sym here) slab, ap (λ (k : SlabHeader). k.next) here ∙ end)
Linked-frame s a (b ∷ bs) m m' same (slab, next, pos, rest) =
    let here = same a (ground arith) in
    (
      subst (IsSlab s) (sym here) slab,
      ap (λ (k : SlabHeader). k.next) here ∙ next,
      pos,
      Linked-frame s b bs m m' (λ c e. same c (ground (arith, e))) rest,
    )

pub mem-ne : (c a : ℕ) (xs : List ℕ) → mem c xs ≡ true → mem a xs ≡ false → c ≢ a
mem-ne c a xs there gone same = ground (arith, ap (λ (k : ℕ). mem k xs) same)

-- The slab at the head of a chain has changed, and its link has not.
pub Linked-head :
    (s a : ℕ) (bs : List ℕ) (m m' : Memory)
    → mem a bs ≡ false
    → ((c : ℕ) → c ≢ a → m'.headers c ≡ m.headers c)
    → IsSlab s (m'.headers a)
    → (m'.headers a).next ≡ (m.headers a).next
    → Linked s m a bs
    → Linked s m' a bs
unfolding Linked
Linked-head s a [] m m' apart same slab' kept (slab, end) = (slab', kept ∙ end)
Linked-head s a (b ∷ bs) m m' apart same slab' kept (slab, next, pos, rest) = (
  slab',
  kept ∙ next,
  pos,
  Linked-frame s b bs m m' (λ c e. same c (mem-ne c a (b ∷ bs) e apart)) rest,
)
