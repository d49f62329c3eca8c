-- ===== src/Stdlib/IntrusiveList/Remove.antt =====
-- A node is removed.
use cyan_oskernel.Prelude.{
  ℕ, ◌≤◌, ◌≡◌, refl, sym, ap, ◌∙◌, inl, inr, true, false, not, ◌&&◌, none, some, List, [], arith,
  ◌==◌, ==_refl, Bool-cases, ◌>>◌, assert,
}
use cyan_oskernel.Stdlib.Links.{mem, first_of, last_from, next_in, prev_in, erase, nullptr}
use cyan_oskernel.Stdlib.Links.Erase.{
  first_of-erase, erase_alone, next_in-last, prev_in-first, prev_in-from, prev_in-mem,
  next_in-apart, last_from-erase, next_in-erase, prev_in-erase, mem-erase, distinct-erase,
  nodes-erase, length-erase, nodes-mem, no_node,
}
use cyan_oskernel.Stdlib.IntrusiveList.{
  IntrusiveList, set_owner, is_valid_node, unlinked, count_down, remove_node,
}
use cyan_oskernel.Stdlib.IntrusiveList.Holds.{Holds}

module _ (l : IntrusiveList) (xs : List ℕ) (h : Holds l xs) (t : ℕ) where
  module _ (its : mem t xs ≡ true) where
    abbrev left : IntrusiveList
    left = count_down (set_owner t nullptr (unlinked t l))

    kept : (y : ℕ) → mem y (erase t xs) ≡ true → (mem y xs && not (t == y)) ≡ true
    kept y m = sym (mem-erase t y xs h.apart) ∙ m

    first_back : (l.m_head == t) ≡ (l.prev t == 0)
    first_back = ground (
      arith,
      h.head_is,
      h.prevs t its,
      prev_in-first 0 t xs its (no_node 0 xs h.proper (omega arith)),
    )

    last_on : (l.next t == 1) ≡ (l.m_tail == t)
    last_on = ground (arith, h.nexts t its, h.tail_is, next_in-last 1 t xs its h.proper h.apart)

    two : 2 ≤ t
    two = nodes-mem t xs h.proper its

    next_after : (y : ℕ) → mem y (erase t xs) ≡ true → left.next y ≡ next_in (erase t xs) y
    next_after y m = ground (
      arith,
      kept y m,
      next_in-erase 0 t y xs its,
      no_node 0 xs h.proper (omega arith),
      h.apart,
      h.nexts t its,
      h.prevs t its,
      h.nexts y,
      first_back,
      last_on,
      nodes-mem y xs h.proper,
    )

    prev_after : (y : ℕ) → mem y (erase t xs) ≡ true → left.prev y ≡ prev_in 0 (erase t xs) y
    prev_after y m = ground (
      arith,
      kept y m,
      prev_in-erase 0 t y xs its,
      h.apart,
      h.proper,
      h.nexts t its,
      h.prevs t its,
      h.prevs y,
      first_back,
      last_on,
      nodes-mem y xs h.proper,
    )

    prev_apart : (l.prev t == 1) ≡ false
    prev_apart =
        ground (arith, h.prevs t its, prev_in-mem 0 t xs its, no_node 1 xs h.proper (omega arith))

    this_kept : left.this ≡ l.this
    this_kept = ground arith

    owners_after : (y : ℕ) → 2 ≤ y → (left.owner y == left.this) ≡ mem y (erase t xs)
    owners_after y big = ground (arith, h.owners y big, mem-erase t y xs h.apart, h.placed)

    end_after : left.next 1 ≡ 1
    end_after = ground (arith, h.end_next, prev_apart)

    left-Holds :
        left.m_head ≡ first_of (erase t xs)
        → left.m_tail ≡ last_from 1 (erase t xs)
        → Holds left (erase t xs)
    left-Holds hd tl = record {
      placed = ground (arith, h.placed);
      apart = distinct-erase t xs h.apart;
      proper = nodes-erase t xs h.proper;
      head_is = hd;
      tail_is = tl;
      nexts = next_after;
      prevs = prev_after;
      end_next = end_after;
      owners = owners_after;
      fits = omega (arith, h.fits, length-erase t xs its);
      count_is = ground (arith, h.fits, h.count_is, length-erase t xs its);
    }

    remove_alone : l.m_head ≡ t → l.m_tail ≡ t → Holds left (erase t xs)
    unfolding first_of last_from
    remove_alone hd tl =
        left-Holds (rw (empty, hd, tl) (rw (==_refl t) refl))
          (rw (empty, hd, tl) (rw (==_refl t) refl))
      where
        empty : erase t xs ≡ []
        empty = erase_alone t xs (sym h.head_is ∙ hd) (sym h.tail_is ∙ tl) its h.apart

    remove_among : (l.m_head == t && l.m_tail == t) ≡ false → Holds left (erase t xs)
    remove_among others =
        left-Holds (ground (arith, first_of-erase t xs, h.head_is, h.nexts t its)) (
          ground (
            arith,
            last_from-erase 1 t xs its h.apart,
            h.tail_is,
            h.prevs t its,
            h.head_is,
            prev_in-from 1 0 t xs its,
          ))

    -- A node of an intrusive list can be removed: the list then holds the others in their order,
    -- and the node has no owner.
    pub remove_node-Holds :
        (l' : IntrusiveList) × (remove_node t l ≡ some l')
        × Holds l' (erase t xs)
        × (l'.owner t ≡ nullptr)
    unfolding remove_node
    remove_node-Holds = (
      left,
      ap (λ b. assert b >> some left) valid,
      elim (Bool-cases (l.m_head == t && l.m_tail == t)) [
        | inl both ↦ remove_alone (ground arith) (ground arith)
        | inr others ↦ remove_among others
      ],
      rw (==_refl t) refl,
    )
      where
        valid : is_valid_node t l ≡ true
        valid =
            ground (arith, h.owners t two, h.nexts t its, next_in-apart t xs its h.proper h.apart)

  -- A node that is not on the list fails an ASSERT of `remove`.
  pub remove_node-absent : 2 ≤ t → mem t xs ≡ false → remove_node t l ≡ none
  unfolding remove_node
  remove_node-absent two absent =
      ap (λ b. assert b >> some (count_down (set_owner t nullptr (unlinked t l)))) invalid
    where
      invalid : is_valid_node t l ≡ false
      invalid = ground (arith, h.owners t two)
