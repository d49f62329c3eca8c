-- ===== src/Stdlib/LinkedList/Link.antt =====
-- A node is linked in.
use cyan_oskernel.Prelude.{
  ℕ, suc, ◌^◌, ◌≤◌, ◌<◌, ◌≡◌, refl, true, false, ◌||◌, List, [], ◌∷◌, arith, length, ◌==◌, inl, inr,
  Bool-cases,
}
use cyan_oskernel.Stdlib.Links.{
  mem, distinct, nodes, first_of, last_from, next_in, prev_in, insert_before,
}
use cyan_oskernel.Stdlib.Links.Erase.{there, nodes-mem, no_node, last_from-mem, prev_in-mem}
use cyan_oskernel.Stdlib.Links.Insert.{
  before, is_place, mem-insert_before, next_in-insert_before, prev_in-insert_before,
  last_from-insert_before, first_of-insert_before, distinct-insert_before, nodes-insert_before,
  length-insert_before,
}
use cyan_oskernel.Stdlib.LinkedList.{LinkedList, link_node}
use cyan_oskernel.Stdlib.LinkedList.Linked.{Linked}

module _ {A : Type 0} (l : LinkedList A) (a old : ℕ) where
  link_first :
      Linked l []
      → is_place old [] ≡ true
      → 2 ≤ a
      → Linked (link_node a old l) (insert_before old a [])
  unfolding link_node mem distinct nodes insert_before first_of last_from next_in prev_in
  link_first h i two = record {
    apart = refl;
    proper = ground arith;
    head_is = ground (arith, h.count_is);
    tail_is = ground (arith, h.count_is);
    nexts = λ y m. ground (arith, h.count_is);
    prevs = λ y m. ground (arith, h.count_is);
    ending_prev = λ some_there. ground (arith, h.count_is);
    fits = omega arith;
    count_is = ground (arith, h.count_is);
  }

  module _ (x : ℕ) (xs : List ℕ) (h : Linked l (x ∷ xs)) (i : is_place old (x ∷ xs) ≡ true)
      (fresh : mem a (x ∷ xs) ≡ false) (two : 2 ≤ a) (room : suc (length (x ∷ xs)) < 2 ^ 32) where
    at_first : (old == x) ≡ true → prev_in 0 (x ∷ xs) old ≡ 0
    unfolding prev_in
    at_first same = ground arith

    big : 2 ≤ x
    big = nodes-mem x (x ∷ xs) h.proper (there x xs)

    new_apart : ((a == x) ≡ false) × ((before 0 (x ∷ xs) old == a) ≡ false)
    new_apart = (
      elim (Bool-cases (a == x)) [ inl e ↦ absurd (ground (arith, there x xs)) | inr ne ↦ ne ],
      ground (arith, last_from-mem 0 (x ∷ xs), prev_in-mem 0 old (x ∷ xs)),
    )

    next_after :
        (y : ℕ)
        → (a == y || mem y (x ∷ xs)) ≡ true
        → (link_node a old l).next y ≡ next_in (insert_before old a (x ∷ xs)) y
    unfolding link_node first_of
    next_after y m = ground (
      arith,
      next_in-insert_before 0 old a y (x ∷ xs) i h.apart h.proper fresh
          (no_node 0 (x ∷ xs) h.proper (omega arith)) m,
      at_first,
      h.count_is,
      h.head_is,
      h.nexts y,
      h.prevs old,
      h.ending_prev (omega arith),
      nodes-mem y (x ∷ xs) h.proper,
      nodes-mem old (x ∷ xs) h.proper,
      big,
      new_apart,
    )

    prev_after :
        (y : ℕ)
        → (a == y || mem y (x ∷ xs)) ≡ true
        → (link_node a old l).prev y ≡ prev_in 0 (insert_before old a (x ∷ xs)) y
    unfolding link_node first_of
    prev_after y m = ground (
      arith,
      prev_in-insert_before 0 old a y (x ∷ xs) i h.proper fresh m,
      at_first,
      h.count_is,
      h.head_is,
      h.prevs y,
      h.prevs old,
      h.ending_prev (omega arith),
      nodes-mem y (x ∷ xs) h.proper,
      nodes-mem old (x ∷ xs) h.proper,
      big,
      new_apart,
    )

    link_next : Linked (link_node a old l) (insert_before old a (x ∷ xs))
    unfolding link_node first_of
    link_next = record {
      apart = distinct-insert_before old a (x ∷ xs) h.apart fresh;
      proper = nodes-insert_before old a (x ∷ xs) h.proper two;
      head_is = ground (
        arith,
        first_of-insert_before old a (x ∷ xs) i,
        h.count_is,
        h.head_is,
        nodes-mem old (x ∷ xs) h.proper,
        big,
      );
      tail_is = ground (
        arith,
        last_from-insert_before 1 old a (x ∷ xs) h.proper i,
        h.count_is,
        h.head_is,
        h.tail_is,
        nodes-mem old (x ∷ xs) h.proper,
        big,
      );
      nexts = λ y m. next_after y (ground (arith, mem-insert_before old a y (x ∷ xs)));
      prevs = λ y m. prev_after y (ground (arith, mem-insert_before old a y (x ∷ xs)));
      ending_prev = λ some_there. ground (
        arith,
        last_from-insert_before 0 old a (x ∷ xs) h.proper i,
        h.count_is,
        h.head_is,
        h.ending_prev (omega arith),
        nodes-mem old (x ∷ xs) h.proper,
        big,
      );
      fits = omega (arith, length-insert_before old a (x ∷ xs));
      count_is = ground (arith, length-insert_before old a (x ∷ xs), h.count_is);
    }

-- A new node is linked in before its place, and the count goes up.
pub link_node-Linked :
    {A : Type 0} (l : LinkedList A) (a old : ℕ) (xs : List ℕ)
    → Linked l xs
    → is_place old xs ≡ true
    → mem a xs ≡ false
    → 2 ≤ a
    → suc (length xs) < 2 ^ 32
    → Linked (link_node a old l) (insert_before old a xs)
link_node-Linked l a old [] h i fresh two room = link_first l a old h i two
link_node-Linked l a old (x ∷ xs) h i fresh two room = link_next l a old x xs h i fresh two room
