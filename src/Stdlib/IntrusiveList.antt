-- ===== src/Stdlib/IntrusiveList.antt =====
-- `libraries/stdlib/intrusive_list.h`: the class `IntrusiveList`, whose nodes are members of its
-- elements. A node and an iterator are addresses; `none` is a failed ASSERT. `size_t` has 32 bits.
pub mod Holds
pub mod Append
pub mod Remove
mod Tests
use cyan_oskernel.Prelude.{
  ℕ, zero, suc, ◌+◌, ◌-◌, ◌%◌, ◌^◌, Bool, true, false, not, ◌&&◌, Option, none, some, ◌==◌,
  if◌then◌else◌, ◌>>=◌, ◌>>◌, assert,
}
use cyan_oskernel.Stdlib.Links.{nullptr, ending_node}

-- A list, with the fields of every node: `this` is its own address, which `owner` names.
pub record IntrusiveList : Type 0 where
  pub this : ℕ
  pub m_count : ℕ
  pub m_head : ℕ
  pub m_tail : ℕ
  pub next : ℕ → ℕ
  pub prev : ℕ → ℕ
  pub owner : ℕ → ℕ

-- `IntrusiveList()`, on the fields of `l`.
unfoldable pub construct : IntrusiveList → IntrusiveList
construct l = record l {
  m_count = 0;
  m_head = ending_node;
  m_tail = ending_node;
  next = λ x. if x == ending_node then ending_node else l.next x;
  prev = λ x. if x == ending_node then ending_node else l.prev x;
  owner = λ x. if x == ending_node then l.this else l.owner x;
}

abbrev set_next : ℕ → ℕ → IntrusiveList → IntrusiveList
set_next a b l = record l { next = λ x. if a == x then b else l.next x }

abbrev set_prev : ℕ → ℕ → IntrusiveList → IntrusiveList
set_prev a b l = record l { prev = λ x. if a == x then b else l.prev x }

abbrev pub set_owner : ℕ → ℕ → IntrusiveList → IntrusiveList
set_owner a b l = record l { owner = λ x. if a == x then b else l.owner x }

abbrev pub is_valid_node : ℕ → IntrusiveList → Bool
is_valid_node node l = not (l.next node == node) && l.owner node == l.this

abbrev pub unlinked : ℕ → IntrusiveList → IntrusiveList
unlinked node l =
    if l.m_head == node && l.m_tail == node
    then record l { m_head = ending_node; m_tail = ending_node }
    else if l.m_head == node
    then set_prev (l.next node) nullptr (record l { m_head = l.next node })
    else if l.m_tail == node
    then set_next (l.prev node) ending_node (record l { m_tail = l.prev node })
    else set_prev (l.next node) (l.prev node) (set_next (l.prev node) (l.next node) l)

abbrev pub count_down : IntrusiveList → IntrusiveList
count_down l = record l { m_count = (l.m_count + (2 ^ 32 - 1)) % 2 ^ 32 }

unfoldable pub remove_node : ℕ → IntrusiveList → Option IntrusiveList
remove_node node l =
    assert (is_valid_node node l) >> some (count_down (set_owner node nullptr (unlinked node l)))

abbrev pub linked : ℕ → IntrusiveList → IntrusiveList
linked node l =
    if l.m_head == ending_node
    then record (set_next node ending_node (set_prev node nullptr l)) {
      m_head = node;
      m_tail = node;
    }
    else set_prev ending_node node
        (record (set_next l.m_tail node (set_next node ending_node (set_prev node l.m_tail l))) {
          m_tail = node;
        })

abbrev pub count_up : IntrusiveList → IntrusiveList
count_up l = record l { m_count = suc l.m_count % 2 ^ 32 }

unfoldable pub append_node : ℕ → IntrusiveList → Option IntrusiveList
append_node node l =
    assert (l.owner node == nullptr) >> some (count_up (linked node (set_owner node l.this l)))

unfoldable pub remove : ℕ → IntrusiveList → Option IntrusiveList
unfolding remove_node
remove node l = assert (not (l.m_head == nullptr)) >> remove_node node l

unfoldable pub pop_front : IntrusiveList → Option (ℕ × IntrusiveList)
unfolding remove_node
pop_front l = do
  assert (not (l.m_head == ending_node))
  l' ← remove_node l.m_head l
  some (l.m_head, l')

-- `find`, which returns an iterator.
unfoldable pub find : ℕ → IntrusiveList → ℕ
find node l = if l.owner node == l.this then node else ending_node

-- `operator++` of an iterator.
unfoldable pub increment : ℕ → IntrusiveList → Option ℕ
increment itr l = assert (not (l.next itr == nullptr)) >> some (l.next itr)
