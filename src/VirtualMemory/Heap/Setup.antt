-- ===== src/VirtualMemory/Heap/Setup.antt =====
-- The allocator after the start of the system.
use cyan_oskernel.Prelude.{ℕ, ◌<◌, ◌≡◌, sym, ap, subst, ◌∙◌, ◌+◌, ◌^◌, true, List, [], ◌∷◌, arith}
use cyan_oskernel.Stdlib.Links.{mem, distinct}
use cyan_oskernel.Stdlib.Bitmap
use cyan_oskernel.Stdlib.Bitmap.{Bitmap}
use cyan_oskernel.Stdlib.Bitmap.Range.{IsValid, bit, construct-IsValid}
use cyan_oskernel.VirtualMemory.Slab.{SlabHeader, Memory, max_blocks, init}
use cyan_oskernel.VirtualMemory.Slab.Alloc.{IsSlab, fresh_header, fresh_header-IsSlab}
use cyan_oskernel.VirtualMemory.Slab.Chain.{Linked}
use cyan_oskernel.VirtualMemory.Heap.{Heap, setup}
use cyan_oskernel.VirtualMemory.Heap.RoundTrip.{
  IsClass, is_0x10, is_0x20, is_0x40, is_0x80, is_0x100, IsClass-blocks,
}

-- The first slab of each size.
unfoldable pub first_slab : Heap → (s : ℕ) → IsClass s → ℕ
first_slab h s is_0x10 = h.slab_0x10
first_slab h s is_0x20 = h.slab_0x20
first_slab h s is_0x40 = h.slab_0x40
first_slab h s is_0x80 = h.slab_0x80
first_slab h s is_0x100 = h.slab_0x100

unfoldable pub slabs_of : Heap → List ℕ
slabs_of h = h.slab_0x10 ∷ h.slab_0x20 ∷ h.slab_0x40 ∷ h.slab_0x80 ∷ h.slab_0x100 ∷ []

setup-header :
    (h : Heap) (m : Memory) (s : ℕ) (class : IsClass s)
    → distinct (slabs_of h) ≡ true
    → (setup h m).headers (first_slab h s class)
      ≡ fresh_header s 0 (m.headers (first_slab h s class))
unfolding setup init slabs_of first_slab distinct mem
setup-header h m s is_0x10 apart = ground arith
setup-header h m s is_0x20 apart = ground arith
setup-header h m s is_0x40 apart = ground arith
setup-header h m s is_0x80 apart = ground arith
setup-header h m s is_0x100 apart = ground arith

-- Each of the five slabs is in memory that its constructor cleared.
unfoldable pub Constructed : Heap → Memory → Type 0
Constructed h m =
    (s : ℕ) (class : IsClass s)
    → (m.headers (first_slab h s class)).mem_map ≡ Bitmap.construct (max_blocks s)

IsClass-small : (s : ℕ) → IsClass s → max_blocks s + 16 < 2 ^ 32
unfolding max_blocks
IsClass-small s is_0x10 = omega arith
IsClass-small s is_0x20 = omega arith
IsClass-small s is_0x40 = omega arith
IsClass-small s is_0x80 = omega arith
IsClass-small s is_0x100 = omega arith

-- After `setup` of five slabs at different addresses, whose constructors ran, each is a chain of one
-- slab that keeps the invariant.
pub setup-Linked :
    (h : Heap) (m : Memory) (s : ℕ) (class : IsClass s)
    → distinct (slabs_of h) ≡ true
    → Constructed h m
    → Linked s (setup h m) (first_slab h s class) []
unfolding Linked Bitmap.construct Constructed
setup-Linked h m s class apart made =
    let here = setup-header h m s class apart in
    let old = m.headers (first_slab h s class) in
    let (valid, empty) = construct-IsValid (max_blocks s) (IsClass-small s class) in
    let map = made s class in
    (
      subst (IsSlab s) (sym here) (
          fresh_header-IsSlab s 0 old (IsClass-blocks s class) (subst IsValid (sym map) valid)
            (ap (λ (b : Bitmap). b.bitmap_size) map)
            (λ q. ap (λ (b : Bitmap). bit b.bitmap_data q) map ∙ empty q)),
      ap (λ (k : SlabHeader). k.next) here,
    )
