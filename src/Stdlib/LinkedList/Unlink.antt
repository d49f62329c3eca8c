-- ===== src/Stdlib/LinkedList/Unlink.antt =====
-- A node is unlinked.
use cyan_oskernel.Prelude.{
  ℕ, ◌≤◌, ◌≡◌, refl, sym, ap, ◌∙◌, true, false, not, ◌&&◌, List, [], arith, length, ◌==◌, ==_refl,
  inl, inr, Bool-cases,
}
use cyan_oskernel.Stdlib.Links.{mem, first_of, last_from, next_in, prev_in, erase}
use cyan_oskernel.Stdlib.Links.Erase.{
  first_of-erase, erase_alone, next_in-last, prev_in-first, prev_in-from, last_from-erase,
  next_in-erase, prev_in-erase, mem-erase, distinct-erase, nodes-erase, length-erase, nodes-mem,
  no_node,
}
use cyan_oskernel.Stdlib.LinkedList.{LinkedList, unlink_node}
use cyan_oskernel.Stdlib.LinkedList.Linked.{Linked}

module _ {A : Type 0} (l : LinkedList A) (t : ℕ) (xs : List ℕ) (h : Linked l xs)
    (its : mem t xs ≡ true) where
  kept : (y : ℕ) → mem y (erase t xs) ≡ true → (mem y xs && not (t == y)) ≡ true
  kept y m = sym (mem-erase t y xs h.apart) ∙ m

  few : 1 ≤ length xs
  few = ground (arith, length-erase t xs its)

  first_back : (l.m_head == t) ≡ (l.prev t == 0)
  first_back = ground (
    arith,
    h.head_is,
    h.prevs t its,
    prev_in-first 0 t xs its (no_node 0 xs h.proper (omega arith)),
  )

  last_on : (p : ℕ) → (l.next t == 1) ≡ (last_from p xs == t)
  last_on p = ground (arith, h.nexts t its, next_in-last p t xs its h.proper h.apart)

  two : 2 ≤ t
  two = nodes-mem t xs h.proper its

  next_after :
      (y : ℕ) → mem y (erase t xs) ≡ true → (unlink_node t l).next y ≡ next_in (erase t xs) y
  unfolding unlink_node
  next_after y m = ground (
    arith,
    kept y m,
    next_in-erase 0 t y xs its,
    no_node 0 xs h.proper (omega arith),
    h.apart,
    h.nexts t its,
    h.prevs t its,
    h.nexts y,
    h.tail_is,
    first_back,
    last_on 1,
    nodes-mem y xs h.proper,
  )

  prev_after :
      (y : ℕ) → mem y (erase t xs) ≡ true → (unlink_node t l).prev y ≡ prev_in 0 (erase t xs) y
  unfolding unlink_node
  prev_after y m = ground (
    arith,
    kept y m,
    prev_in-erase 0 t y xs its,
    h.apart,
    h.proper,
    h.nexts t its,
    h.prevs t its,
    h.prevs y,
    h.tail_is,
    first_back,
    last_on 1,
    nodes-mem y xs h.proper,
  )

  -- A node that is alone on its list.
  unlink_alone : l.m_head ≡ t → l.m_tail ≡ t → Linked (unlink_node t l) (erase t xs)
  unfolding unlink_node first_of last_from
  unlink_alone hd tl = record {
    apart = distinct-erase t xs h.apart;
    proper = nodes-erase t xs h.proper;
    head_is = rw (empty, hd, tl) (rw (==_refl t) refl);
    tail_is = rw (empty, hd, tl) (rw (==_refl t) refl);
    nexts = next_after;
    prevs = prev_after;
    ending_prev = λ some_there. absurd (omega (arith, ap (λ (zs : List ℕ). length zs) empty));
    fits = omega (arith, h.fits, length-erase t xs its);
    count_is = ground (arith, h.fits, h.count_is, length-erase t xs its);
  }
    where
      empty : erase t xs ≡ []
      empty = erase_alone t xs (sym h.head_is ∙ hd) (sym h.tail_is ∙ tl) its h.apart

  -- A node among others.
  unlink_among : (l.m_head == t && l.m_tail == t) ≡ false → Linked (unlink_node t l) (erase t xs)
  unfolding unlink_node
  unlink_among others = record {
    apart = distinct-erase t xs h.apart;
    proper = nodes-erase t xs h.proper;
    head_is = ground (arith, first_of-erase t xs, h.head_is, h.nexts t its);
    tail_is = ground (
      arith,
      last_from-erase 1 t xs its h.apart,
      h.tail_is,
      h.prevs t its,
      h.head_is,
      prev_in-from 1 0 t xs its,
    );
    nexts = next_after;
    prevs = prev_after;
    ending_prev = λ some_there. ground (
      arith,
      last_from-erase 0 t xs its h.apart,
      h.tail_is,
      h.prevs t its,
      h.ending_prev few,
      last_on 0,
      last_on 1,
    );
    fits = omega (arith, h.fits, length-erase t xs its);
    count_is = ground (arith, h.fits, h.count_is, length-erase t xs its);
  }

  pub unlink_node-Linked : Linked (unlink_node t l) (erase t xs)
  unlink_node-Linked = elim (Bool-cases (l.m_head == t && l.m_tail == t)) [
    | inl both ↦ unlink_alone (ground arith) (ground arith)
    | inr others ↦ unlink_among others
  ]
