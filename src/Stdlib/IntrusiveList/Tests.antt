-- ===== src/Stdlib/IntrusiveList/Tests.antt =====
-- The theorems of the intrusive list, at concrete inputs.
use cyan_oskernel.Prelude.{◌≡◌, refl, some, [], ◌∷◌, arith, ◌==◌, if◌then◌else◌}
use cyan_oskernel.Stdlib.Links.{
  mem, distinct, nodes, first_of, last_from, next_in, prev_in, nullptr, erase,
}
use cyan_oskernel.Stdlib.IntrusiveList.{IntrusiveList, remove_node}
use cyan_oskernel.Stdlib.IntrusiveList.Holds.{Holds}
use cyan_oskernel.Stdlib.IntrusiveList.Remove.{remove_node-Holds}

-- The list at 100 of the nodes 10 and 20; no list owns the node 30.
abbrev two : IntrusiveList
two = record {
  this = 100;
  m_count = 2;
  m_head = 10;
  m_tail = 20;
  next = λ x. if x == 10 then 20 else 1;
  prev = λ x. if x == 20 then 10 else 0;
  owner = λ x. if x == 10 then 100 else if x == 20 then 100 else 0;
}

two-Holds : Holds two (10 ∷ 20 ∷ [])
unfolding mem distinct nodes first_of last_from next_in prev_in
two-Holds = record {
  placed = omega arith;
  apart = refl;
  proper = refl;
  head_is = refl;
  tail_is = refl;
  nexts = λ y m. ground arith;
  prevs = λ y m. ground arith;
  end_next = refl;
  owners = λ y big. ground arith;
  fits = omega arith;
  count_is = refl;
}

remove_node-Holds_example :
    (l' : IntrusiveList) × (remove_node 10 two ≡ some l')
    × Holds l' (erase 10 (10 ∷ 20 ∷ []))
    × (l'.owner 10 ≡ nullptr)
unfolding mem
remove_node-Holds_example = remove_node-Holds two (10 ∷ 20 ∷ []) two-Holds 10 refl
