-- ===== src/Stdlib/LinkedList.antt =====
-- `libraries/stdlib/list.h`: the class `List`, as its nodes on the heap. An iterator is the address
-- of its node. The address of a new node is an argument, for `operator new`; a deleted node keeps
-- its fields. `none` is a failed ASSERT. `size_t` has 32 bits.
pub mod Linked
pub mod Link
pub mod Unlink
pub mod Loops
pub mod Contents
mod Tests
use cyan_oskernel.Prelude.{
  ℕ, zero, suc, ◌+◌, ◌-◌, ◌%◌, ◌^◌, Bool, true, false, not, ◌&&◌, ◌||◌, Option, none, some, List,
  [], ◌∷◌, ◌==◌, if◌then◌else◌, ◌>>=◌, ◌>>◌, assert,
}
use cyan_oskernel.Stdlib.Links.{nullptr, ending_node}

-- `next`, `prev` and `data` are the fields of every node, `m_ending_node` among them.
pub record LinkedList (A : Type 0) : Type 0 where
  pub m_head : ℕ
  pub m_tail : ℕ
  pub m_count : ℕ
  pub next : ℕ → ℕ
  pub prev : ℕ → ℕ
  pub data_of : ℕ → A

module _ {A : Type 0} where
  -- `List()`. The fields that the heap holds are those of `l`.
  unfoldable pub construct : LinkedList A → LinkedList A
  construct l = record l {
    m_head = ending_node;
    m_tail = ending_node;
    m_count = 0;
    next = λ x. if x == ending_node then nullptr else l.next x;
    prev = λ x. if x == ending_node then nullptr else l.prev x;
  }

  abbrev set_next : ℕ → ℕ → LinkedList A → LinkedList A
  set_next a b l = record l { next = λ x. if a == x then b else l.next x }

  abbrev set_prev : ℕ → ℕ → LinkedList A → LinkedList A
  set_prev a b l = record l { prev = λ x. if a == x then b else l.prev x }

  abbrev count_down : LinkedList A → LinkedList A
  count_down l = record l { m_count = (l.m_count + (2 ^ 32 - 1)) % 2 ^ 32 }

  abbrev count_up : LinkedList A → LinkedList A
  count_up l = record l { m_count = suc l.m_count % 2 ^ 32 }

  unfoldable pub unlink_node : ℕ → LinkedList A → LinkedList A
  unlink_node node l = count_down (
      if l.m_head == node && l.m_tail == node
      then record l { m_head = ending_node; m_tail = ending_node }
      else if l.m_head == node
      then set_prev (l.next node) nullptr (record l { m_head = l.next node })
      else if l.m_tail == node
      then set_prev ending_node (l.prev node)
          (set_next (l.prev node) ending_node (record l { m_tail = l.prev node }))
      else set_prev (l.next node) (l.prev node) (set_next (l.prev node) (l.next node) l))

  unfoldable pub link_node : ℕ → ℕ → LinkedList A → LinkedList A
  link_node new_node old_node l = count_up (
      if l.m_count == 0
      then record (set_prev ending_node new_node
          (set_next new_node ending_node (set_prev new_node nullptr l))) {
            m_head = new_node;
            m_tail = new_node;
          }
      else if old_node == l.m_head
      then record (set_prev l.m_head new_node
          (set_next new_node l.m_head (set_prev new_node nullptr l))) { m_head = new_node }
      else if old_node == ending_node
      then record (set_prev ending_node new_node (
          set_next (l.prev ending_node) new_node
            (set_next new_node ending_node (set_prev new_node (l.prev ending_node) l)))) {
              m_tail = new_node;
            }
      else set_prev old_node new_node (
          set_next (l.prev old_node) new_node
            (set_next new_node old_node (set_prev new_node (l.prev old_node) l))))

  -- `insert` and `emplace`, with the new node's address.
  unfoldable pub insert : ℕ → A → ℕ → LinkedList A → LinkedList A
  insert new_node new_data pos l =
      link_node new_node pos
        (record l { data_of = λ x. if new_node == x then new_data else l.data_of x })

  unfoldable pub push_back : ℕ → A → LinkedList A → LinkedList A
  unfolding insert
  push_back new_node new_data l = insert new_node new_data ending_node l

  unfoldable pub push_front : ℕ → A → LinkedList A → LinkedList A
  unfolding insert
  push_front new_node new_data l = insert new_node new_data l.m_head l

  unfoldable pub remove : ℕ → LinkedList A → Option (LinkedList A)
  remove itr l = assert (not (itr == nullptr)) >> some (unlink_node itr l)

  -- `operator++` and `operator--` of an iterator.
  unfoldable pub increment : ℕ → LinkedList A → Option ℕ
  increment itr l = assert (not (l.next itr == nullptr)) >> some (l.next itr)

  unfoldable pub decrement : ℕ → LinkedList A → Option ℕ
  decrement itr l = assert (not (l.prev itr == nullptr)) >> some (l.prev itr)

  unfoldable pub pop_back : LinkedList A → Option (LinkedList A)
  unfolding decrement remove
  pop_back l = do itr ← decrement ending_node l; remove itr l

  unfoldable pub pop_front : LinkedList A → Option (LinkedList A)
  unfolding remove
  pop_front l = remove l.m_head l

  -- The loop of `find_if`, on fuel. It returns an iterator.
  unfoldable pub find_loop : (A → Bool) → ℕ → ℕ → LinkedList A → Option ℕ
  unfolding increment
  find_loop predicate zero i l = none
  find_loop predicate (suc n) i l = elim (i == ending_node) [
    | true ↦ some ending_node
    | false ↦ elim (predicate (l.data_of i)) [
      | true ↦ some i
      | false ↦ increment i l >>= λ i'. find_loop predicate n i' l
    ]
  ]

  unfoldable pub find_if : (A → Bool) → LinkedList A → Option ℕ
  unfolding find_loop
  find_if predicate l = find_loop predicate (suc l.m_count) l.m_head l

  -- The loop of `remove_if`, on fuel.
  unfoldable pub remove_loop :
      (A → Bool) → ℕ → ℕ → Bool → LinkedList A → Option (Bool × LinkedList A)
  unfolding increment remove
  remove_loop predicate zero i is_removed l = none
  remove_loop predicate (suc n) i is_removed l = elim (i == ending_node) [
    | true ↦ some (is_removed, l)
    | false ↦ increment i l >>= λ i'. elim (predicate (l.data_of i)) [
      | true ↦ remove i l >>= remove_loop predicate n i' true
      | false ↦ remove_loop predicate n i' is_removed l
    ]
  ]

  unfoldable pub remove_if : (A → Bool) → LinkedList A → Option (Bool × LinkedList A)
  unfolding remove_loop
  remove_if predicate l = remove_loop predicate (suc l.m_count) l.m_head false l

  -- `operator[]`, of a number that is not negative.
  unfoldable pub advance : ℕ → ℕ → LinkedList A → Option ℕ
  unfolding increment
  advance zero itr l = some itr
  advance (suc num) itr l = increment itr l >>= λ itr'. advance num itr' l

  unfoldable pub at_index : ℕ → LinkedList A → Option A
  unfolding advance
  at_index num l = do itr ← advance num l.m_head l; some (l.data_of itr)

  -- `clear`. The nodes that its loop deletes keep their fields.
  unfoldable pub clear : LinkedList A → LinkedList A
  clear l = record l { m_head = ending_node; m_tail = ending_node; m_count = 0 }

  abbrev pub is_empty : LinkedList A → Bool
  is_empty l = l.m_count == 0
