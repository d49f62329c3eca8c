-- ===== src/Stdlib/LinkedList/Tests.antt =====
-- The theorems of the linked list, at concrete inputs.
use cyan_oskernel.Prelude.{ℕ, ◌≡◌, refl, some, [], ◌∷◌, ◌++◌, arith, ◌==◌}
use cyan_oskernel.Stdlib.Links.{mem}
use cyan_oskernel.Stdlib.LinkedList
use cyan_oskernel.Stdlib.LinkedList.{LinkedList, push_back, pop_back, remove_if, find_if, at_index}
use cyan_oskernel.Stdlib.LinkedList.Linked.{Linked, construct-Linked}
use cyan_oskernel.Stdlib.LinkedList.Loops.{keep, exists, remove_if-Linked}
use cyan_oskernel.Stdlib.LinkedList.Contents.{values, push_back-Linked}

abbrev heap : LinkedList ℕ
heap = record {
  m_head = 0;
  m_tail = 0;
  m_count = 0;
  next = λ x. 0;
  prev = λ x. 0;
  data_of = λ x. 0;
}

abbrev no_elements : LinkedList ℕ
no_elements = LinkedList.construct heap

-- The list of 5, at node 10.
abbrev one : LinkedList ℕ
one = push_back 10 5 no_elements

one-Linked : Linked one (10 ∷ [])
unfolding mem
one-Linked =
    (push_back-Linked no_elements [] (construct-Linked heap) 10 5 refl (omega arith)
      (omega arith)).0

-- The list of 5 and 7, at nodes 10 and 12.
abbrev two : LinkedList ℕ
two = push_back 12 7 one

push_back-Linked_example :
    Linked two (10 ∷ 12 ∷ [])
    × (values two.data_of (10 ∷ 12 ∷ []) ≡ values one.data_of (10 ∷ []) ++ 7 ∷ [])
unfolding mem
push_back-Linked_example =
    push_back-Linked one (10 ∷ []) one-Linked 12 7 refl (omega arith) (omega arith)

two-Linked : Linked two (10 ∷ 12 ∷ [])
unfolding mem
two-Linked = (push_back-Linked one (10 ∷ []) one-Linked 12 7 refl (omega arith) (omega arith)).0

remove_if-Linked_example :
    (l' : LinkedList ℕ) × (remove_if (λ v. v == 5) two
      ≡ some (exists (λ v. v == 5) two.data_of (10 ∷ 12 ∷ []), l'))
    × Linked l' (keep (λ v. v == 5) two.data_of (10 ∷ 12 ∷ []))
    × (l'.data_of ≡ two.data_of)
remove_if-Linked_example = remove_if-Linked (λ v. v == 5) two (10 ∷ 12 ∷ []) two-Linked
