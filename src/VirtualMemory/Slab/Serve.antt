-- ===== src/VirtualMemory/Slab/Serve.antt =====
-- The allocation from a whole chain of slabs.
use cyan_oskernel.Prelude.{
  ℕ, zero, suc, ◌+◌, ◌≤◌, ◌<◌, ◌≡◌, ◌≢◌, ◌⊎◌, inl, inr, refl, sym, ap, subst, ◌∙◌, true, false,
  some, List, [], ◌∷◌, ◌++◌, arith, length,
}
use cyan_oskernel.Stdlib.Links.{mem, distinct}
use cyan_oskernel.Stdlib.Bitmap.{no_bits_left}
use cyan_oskernel.VirtualMemory.Slab.{
  SlabHeader, Memory, max_blocks, data_address, take_answer, free_block, alloc,
}
use cyan_oskernel.VirtualMemory.Slab.Alloc.{IsSlab, Took}
use cyan_oskernel.VirtualMemory.Slab.Chain.{
  Linked, Fresh, Supplied, Allocated, taken, grown, refused, Linked-first, Linked-head, mem-ne,
}
use cyan_oskernel.VirtualMemory.Slab.Grow.{
  alloc_last, alloc_behind, alloc_here, free_block-Hit, last_slab,
}

-- An allocation behind the slab at `a` is one of the chain from `a` on.
module _ (s a b : ℕ) (rest : List ℕ) (m m' : Memory) (p : ℕ) (slab : IsSlab s (m.headers a))
    (next : (m.headers a).next ≡ b) (pos : b ≢ 0) (apart : mem a (b ∷ rest) ≡ false) where
  linked_behind :
      (xs : List ℕ) → m'.headers a ≡ m.headers a → Linked s m' b xs → Linked s m' a (b ∷ xs)
  unfolding Linked
  linked_behind xs same linked =
      (subst (IsSlab s) (sym same) slab, ap (λ (k : SlabHeader). k.next) same ∙ next, pos, linked)

  Allocated-behind :
      (take_answer m.answers).0 ≢ a → Allocated s b rest m m' p → Allocated s a (b ∷ rest) m m' p
  unfolding mem
  Allocated-behind other (taken c i there took linked) =
      let differ = mem-ne c a (b ∷ rest) there apart in
      taken c i (ground (arith, there)) took
        (linked_behind rest (took.others a (λ e. differ (sym e))) linked)
  Allocated-behind other (grown c i g) =
      let differ : a ≢ c = λ e. other (g.answered ∙ sym e) in
      grown c i (record {
        answered = g.answered;
        index = g.index;
        address = g.address;
        there = g.there;
        was_empty = g.was_empty;
        marks = g.marks;
        valid = g.valid;
        stamp = g.stamp;
        linked = linked_behind (rest ++ c ∷ []) (g.others a apart differ) g.linked;
        maps_kept = g.maps_kept;
        others = λ e gone ne. g.others e (ground (arith, gone)) ne;
      })
  Allocated-behind other (refused none_left null same) = refused none_left null same

-- A block of one of the slabs is taken, and the chain stays.
abbrev TakenFrom : ℕ → ℕ → List ℕ → Memory → Memory → ℕ → Type 0
TakenFrom s a bs m m' p =
    (b : ℕ) × (i : ℕ) × (mem b (a ∷ bs) ≡ true) × Took s b i m m' p × Linked s m' a bs

-- The slab at the head of a chain gives a block, or has none that it finds.
first_slab :
    (s a : ℕ) (bs : List ℕ) (m : Memory) (f : ℕ)
    → Linked s m a bs
    → mem a bs ≡ false
    → ((p : ℕ) × (m' : Memory) × (alloc s (suc f) a m ≡ some (p, m')) × TakenFrom s a bs m m' p)
      ⊎ (free_block (m.headers a) ≡ some no_bits_left)
unfolding mem
first_slab s a bs m f linked apart =
    let slab = Linked-first s a bs m linked in
    let (r, ran, hit) = free_block-Hit s a m slab in
    elim hit [
      | inl full ↦ inr (ran ∙ ap some full)
      | inr (lt, clear) ↦
          let (m', went, took) = alloc_here s a m slab f r ran lt clear in
          inl (
            data_address s a r,
            m',
            went,
            (
              a,
              r,
              ground arith,
              took,
              Linked-head s a bs m m' apart took.others took.valid took.next_kept linked,
            ),
          )
    ]

answer_other :
    (s a : ℕ) (bs : List ℕ) (m : Memory)
    → Fresh s m (a ∷ bs)
    → a ≢ 0
    → (take_answer m.answers).0 ≢ a
unfolding mem
answer_other s a bs m (inl none_left) pos e = pos (sym e ∙ none_left)
answer_other s a bs m (inr (there, out, valid, size, empty)) pos e = ground (arith, out)

Fresh-behind : (s a : ℕ) (bs : List ℕ) (m : Memory) → Fresh s m (a ∷ bs) → Fresh s m bs
unfolding mem
Fresh-behind s a bs m (inl none_left) = inl none_left
Fresh-behind s a bs m (inr (there, out, valid, size, empty)) =
    inr (there, ground (arith, out), valid, size, empty)

distinct_cons :
    (a : ℕ) (xs : List ℕ) → distinct (a ∷ xs) ≡ true → (mem a xs ≡ false) × (distinct xs ≡ true)
unfolding distinct
distinct_cons a xs h = ground (arith, h)

-- Where the search of a slab finds a block, an allocation takes one.
alloc-TakenFrom :
    (s a : ℕ) (bs : List ℕ) (m : Memory) (f : ℕ)
    → Linked s m a bs
    → distinct (a ∷ bs) ≡ true
    → (c : ℕ) → mem c (a ∷ bs) ≡ true
    → free_block (m.headers c) ≢ some no_bits_left
    → length bs + 1 ≤ f
    → (p : ℕ) × (m' : Memory) × (alloc s f a m ≡ some (p, m')) × TakenFrom s a bs m m' p
unfolding Linked mem
alloc-TakenFrom s a bs m zero linked apart c there serves enough = absurd (omega arith)
alloc-TakenFrom s a [] m (suc f) linked apart c there serves enough =
    elim (first_slab s a [] m f linked refl) [
      | inl done ↦ done
      | inr full ↦
          let same : a ≡ c = ground (arith, there) in
          absurd
            (serves (subst (λ (x : ℕ). free_block (m.headers x) ≡ some no_bits_left) same full))
    ]
alloc-TakenFrom s a (b ∷ rest) m (suc f) linked apart c there serves enough =
    let (out, inner) = distinct_cons a (b ∷ rest) apart in
    elim (first_slab s a (b ∷ rest) m f linked out) [
      | inl done ↦ done
      | inr full ↦
          let (slab, next, pos, behind) = linked in
          let differ : a ≢ c =
            λ e. serves (subst (λ (x : ℕ). free_block (m.headers x) ≡ some no_bits_left) e full) in
          let (p, m', ran, (d, i, its, took, kept)) =
            alloc-TakenFrom s b rest m f behind inner c (ground (arith, there, differ)) serves
              (omega arith) in
          let more : (m.headers a).next ≢ 0 = λ e. pos (sym next ∙ e) in
          let apart_d = mem-ne d a (b ∷ rest) its out in
          (
            p,
            m',
            alloc_behind s a m slab f full more ∙ ap (λ (x : ℕ). alloc s f x m) next ∙ ran,
            (
              d,
              i,
              ground (arith, its),
              took,
              linked_behind s a b rest m m' p slab next pos out rest
                  (took.others a (λ e. apart_d (sym e))) kept,
            ),
          )
    ]

-- Where the next page is fresh, an allocation ends.
alloc_clean-Allocated :
    (s a : ℕ) (bs : List ℕ) (m : Memory) (f : ℕ)
    → 0 < max_blocks s
    → a ≢ 0
    → Linked s m a bs
    → distinct (a ∷ bs) ≡ true
    → Fresh s m (a ∷ bs)
    → length bs + 2 ≤ f
    → (p : ℕ) × (m' : Memory) × (alloc s f a m ≡ some (p, m')) × Allocated s a bs m m' p
unfolding Linked mem
alloc_clean-Allocated s a bs m zero some_blocks pos linked apart fresh enough = absurd (omega arith)
alloc_clean-Allocated s a bs m (suc zero) some_blocks pos linked apart fresh enough =
    absurd (omega arith)
alloc_clean-Allocated s a [] m (suc (suc f)) some_blocks pos linked apart fresh enough =
    elim (first_slab s a [] m (suc f) linked refl) [
      | inl (p, m', ran, (c, i, there, took, kept)) ↦ (p, m', ran, taken c i there took kept)
      | inr full ↦
          let (slab, end) = linked in
          let (p, m', ran, out) = last_slab s a m f some_blocks fresh slab in
          (p, m', alloc_last s a m slab (suc f) full end ∙ ran, out)
    ]
alloc_clean-Allocated s a (b ∷ rest) m (suc (suc f)) some_blocks pos linked apart fresh enough =
    let (out, inner) = distinct_cons a (b ∷ rest) apart in
    elim (first_slab s a (b ∷ rest) m (suc f) linked out) [
      | inl (p, m', ran, (c, i, there, took, kept)) ↦ (p, m', ran, taken c i there took kept)
      | inr full ↦
          let (slab, next, there, behind) = linked in
          let (p, m', ran, result) =
            alloc_clean-Allocated s b rest m (suc f) some_blocks there behind inner
              (Fresh-behind s a (b ∷ rest) m fresh) (omega arith) in
          let more : (m.headers a).next ≢ 0 = λ e. there (sym next ∙ e) in
          (
            p,
            m',
            alloc_behind s a m slab (suc f) full more
                ∙ ap (λ (x : ℕ). alloc s (suc f) x m) next
                ∙ ran,
            Allocated-behind s a b rest m m' p slab next there out
                (answer_other s a (b ∷ rest) m fresh pos) result,
          )
    ]

-- With fuel for one slab more than the chain has, an allocation from a chain of slabs in order ends,
-- where the search of one of its slabs finds a free block, or the system refuses a page, or the page
-- that it gives is none of the slabs and holds an empty bitmap already, which the code does not see
-- to. It takes a free block of one of the slabs, or of a new slab behind the last, or gives the null
-- pointer where the system refuses a page. The slabs keep their invariant and their links.
pub alloc-Allocated :
    (s a : ℕ) (bs : List ℕ) (m : Memory) (f : ℕ)
    → 0 < max_blocks s
    → a ≢ 0
    → Linked s m a bs
    → distinct (a ∷ bs) ≡ true
    → Supplied s m (a ∷ bs)
    → length bs + 2 ≤ f
    → (p : ℕ) × (m' : Memory) × (alloc s f a m ≡ some (p, m')) × Allocated s a bs m m' p
alloc-Allocated s a bs m f some_blocks pos linked apart (inl (c, there, serves)) enough =
    let (p, m', ran, (d, i, its, took, kept)) =
      alloc-TakenFrom s a bs m f linked apart c there serves (omega arith) in
    (p, m', ran, taken d i its took kept)
alloc-Allocated s a bs m f some_blocks pos linked apart (inr fresh) enough =
    alloc_clean-Allocated s a bs m f some_blocks pos linked apart fresh enough
