-- ===== src/Stdlib/IntrusiveList/Append.antt =====
-- A node is appended.
use cyan_oskernel.Prelude.{
  ℕ, suc, ◌^◌, ◌≤◌, ◌<◌, ◌≡◌, refl, sym, ap, subst, true, false, none, some, List, [], ◌∷◌, ◌++◌,
  arith, length, ◌==◌, ==_refl, ◌>>◌, assert,
}
use cyan_oskernel.Stdlib.Links.{
  mem, distinct, nodes, first_of, last_from, next_in, prev_in, insert_before, nullptr,
}
use cyan_oskernel.Stdlib.Links.Erase.{there, nodes-mem, no_node, last_from-mem}
use cyan_oskernel.Stdlib.Links.Insert.{
  insert_at_end, mem-insert_before, next_in-insert_before, prev_in-insert_before,
  last_from-insert_before, first_of-insert_before, distinct-insert_before, nodes-insert_before,
  length-insert_before,
}
use cyan_oskernel.Stdlib.IntrusiveList.{IntrusiveList, set_owner, linked, count_up, append_node}
use cyan_oskernel.Stdlib.IntrusiveList.Holds.{Holds}

last_mem : (x : ℕ) (xs : List ℕ) → mem (last_from x xs) (x ∷ xs) ≡ true
unfolding mem
last_mem x xs = ground (arith, last_from-mem x xs, ==_refl x)

abbrev extended : IntrusiveList → ℕ → IntrusiveList
extended l t = count_up (linked t (set_owner t l.this l))

module _ (l : IntrusiveList) (t : ℕ) (two : 2 ≤ t) where
  append_first : Holds l [] → Holds (extended l t) (t ∷ [])
  unfolding mem distinct nodes first_of last_from next_in prev_in
  append_first h = record {
    placed = ground (arith, h.placed);
    apart = refl;
    proper = ground arith;
    head_is = ground (arith, h.head_is);
    tail_is = ground (arith, h.head_is);
    nexts = λ y m. ground (arith, h.head_is);
    prevs = λ y m. ground (arith, h.head_is);
    end_next = ground (arith, h.end_next);
    owners = λ y big. ground (arith, h.owners y big);
    fits = omega arith;
    count_is = ground (arith, h.count_is);
  }

  module _ (x : ℕ) (xs : List ℕ) (h : Holds l (x ∷ xs)) (fresh : mem t (x ∷ xs) ≡ false) where
    abbrev all : List ℕ
    all = x ∷ xs

    big : 2 ≤ x
    big = nodes-mem x all h.proper (there x xs)

    tail_there : (2 ≤ l.m_tail) × ((l.m_tail == t) ≡ false) × (last_from 0 all ≡ l.m_tail)
    unfolding last_from
    tail_there =
        (nodes-mem l.m_tail all h.proper tail_mem, ground (arith, tail_mem, fresh), sym h.tail_is)
      where
        tail_mem : mem l.m_tail all ≡ true
        tail_mem = subst (λ (y : ℕ). mem y all ≡ true) (sym h.tail_is) (last_mem x xs)

    append_next : suc (length all) < 2 ^ 32 → Holds (extended l t) (insert_before 1 t all)
    unfolding first_of
    append_next room = record {
      placed = ground (arith, h.placed);
      apart = distinct-insert_before 1 t all h.apart fresh;
      proper = nodes-insert_before 1 t all h.proper two;
      head_is = ground (arith, first_of-insert_before 1 t all refl, h.head_is, big);
      tail_is = ground (arith, last_from-insert_before 1 1 t all h.proper refl, h.head_is, big);
      nexts = λ y m. ground (
        arith,
        mem-insert_before 1 t y all,
        next_in-insert_before 0 1 t y all refl h.apart h.proper fresh
            (no_node 0 all h.proper (omega arith)),
        h.nexts y,
        h.head_is,
        big,
        tail_there,
        nodes-mem y all h.proper,
      );
      prevs = λ y m. ground (
        arith,
        mem-insert_before 1 t y all,
        prev_in-insert_before 0 1 t y all refl h.proper fresh,
        h.prevs y,
        h.head_is,
        big,
        tail_there,
        nodes-mem y all h.proper,
      );
      end_next = ground (arith, h.end_next, h.head_is, big, tail_there);
      owners = λ y yes. ground (arith, h.owners y yes, mem-insert_before 1 t y all);
      fits = omega (arith, length-insert_before 1 t all);
      count_is = ground (arith, h.count_is, length-insert_before 1 t all, h.head_is, big);
    }

extended-Holds :
    (l : IntrusiveList) (t : ℕ) (xs : List ℕ)
    → 2 ≤ t
    → Holds l xs
    → mem t xs ≡ false
    → suc (length xs) < 2 ^ 32
    → Holds (extended l t) (xs ++ t ∷ [])
extended-Holds l t [] two h fresh room = append_first l t two h
extended-Holds l t (x ∷ xs) two h fresh room =
    subst (Holds (extended l t))
      (insert_at_end t (x ∷ xs) (no_node 1 (x ∷ xs) h.proper (omega arith)))
      (append_next l t two x xs h fresh room)

-- A node that no list owns can be appended, while the count has room: the list then holds it after
-- the others, and it is its owner.
pub append_node-Holds :
    (l : IntrusiveList) (t : ℕ) (xs : List ℕ)
    → 2 ≤ t
    → Holds l xs
    → l.owner t ≡ nullptr
    → suc (length xs) < 2 ^ 32
    → (l' : IntrusiveList) × (append_node t l ≡ some l') × Holds l' (xs ++ t ∷ [])
unfolding append_node
append_node-Holds l t xs two h free room = (
  extended l t,
  ap (λ (o : ℕ). assert (o == nullptr) >> some (extended l t)) free,
  extended-Holds l t xs two h (ground (arith, h.owners t two, h.placed)) room,
)

-- A node that some list owns fails the ASSERT.
pub append_node-owned :
    (l : IntrusiveList) (t : ℕ) → (l.owner t == nullptr) ≡ false → append_node t l ≡ none
unfolding append_node
append_node-owned l t owned = ap (λ b. assert b >> some (extended l t)) owned
