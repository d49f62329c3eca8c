-- ===== src/Tasking/Scheduler.antt =====
-- `kernel/tasking/scheduler.cpp`: which thread runs next. The list of ready threads is its nodes, as
-- `intrusive_list.h` links them.
pub mod Fair
mod Tests
use cyan_oskernel.Prelude.{
  ℕ, zero, suc, ◌+◌, ◌%◌, ◌≤◌, ◌<◌, ◌≡◌, refl, sym, ap, subst, ◌∙◌, Bool, true, false, not, ◌&&◌,
  Option, none, some, List, [], ◌∷◌, ◌++◌, arith, length, get_elem?, ◌==◌, ==_refl, if◌then◌else◌,
  ◌>>=◌, ◌>>◌, assert, inl, inr, Bool-cases,
}
use cyan_oskernel.Stdlib.Links.{mem, distinct, nodes, first_of, next_in, nullptr, ending_node}
use cyan_oskernel.Stdlib.Links.Erase.{next_in-mem, next_in-apart, nodes-mem, no_node}
use cyan_oskernel.Stdlib.IntrusiveList.{IntrusiveList, find, increment}
use cyan_oskernel.Stdlib.IntrusiveList.Holds.{Holds}

-- `operator*` of an iterator.
unfoldable deref : ℕ → IntrusiveList → Option ℕ
deref itr l = assert (not (l.owner itr == nullptr)) >> assert (not (l.next itr == itr)) >> some itr

unfoldable pub select_next_thread : ℕ → IntrusiveList → Option ℕ
unfolding find increment deref
select_next_thread current ready_threads = do
  assert (not (ready_threads.m_count == 0))
  next_thread ← increment (find current ready_threads) ready_threads
  deref (if next_thread == ending_node then ready_threads.m_head else next_thread) ready_threads

-- The thread that runs after this many switches, where the list of ready threads stays as it is.
unfoldable pub turns : ℕ → ℕ → IntrusiveList → Option ℕ
turns zero current ready_threads = some current
turns (suc n) current ready_threads =
    select_next_thread current ready_threads >>= λ next_thread. turns n next_thread ready_threads

-- The order of turns: after a thread comes the next on the list, and after the last the first. A
-- thread that is not on the list comes before the first.
unfoldable pub round_robin : List ℕ → ℕ → ℕ
round_robin xs t =
    if mem t xs && not (next_in xs t == ending_node) then next_in xs t else first_of xs

first-mem : (xs : List ℕ) → 1 ≤ length xs → mem (first_of xs) xs ≡ true
unfolding first_of mem
first-mem [] some_there = absurd (omega arith)
first-mem (x ∷ xs) some_there = rw (==_refl x) refl

round_robin-mem : (xs : List ℕ) (t : ℕ) → 1 ≤ length xs → mem (round_robin xs t) xs ≡ true
unfolding round_robin
round_robin-mem xs t some_there = ground (arith, first-mem xs, next_in-mem t xs)

module _ (l : IntrusiveList) (xs : List ℕ) (h : Holds l xs) where
  deref-mem : (t : ℕ) → mem t xs ≡ true → deref t l ≡ some t
  unfolding deref
  deref-mem t its =
      ap (λ b. assert b >> assert (not (l.next t == t)) >> some t) owned
      ∙ ap (λ b. assert b >> some t) moves
    where
      two : 2 ≤ t
      two = nodes-mem t xs h.proper its

      owned : not (l.owner t == nullptr) ≡ true
      owned = ground (arith, h.owners t two, h.placed)

      moves : not (l.next t == t) ≡ true
      moves = ground (arith, h.nexts t its, next_in-apart t xs its h.proper h.apart)

  abbrev pick : ℕ → Option ℕ
  pick next_thread = deref (if next_thread == ending_node then l.m_head else next_thread) l

  module _ (current : ℕ) (two : 2 ≤ current) (some_there : 1 ≤ length xs) where
    counted : not (l.m_count == 0) ≡ true
    counted = ground (arith, h.count_is)

    next_found :
        l.next (find current l) ≡ (if mem current xs then next_in xs current else ending_node)
    unfolding find
    next_found = ground (arith, h.owners current two, h.nexts current, h.end_next)

    positive : not (l.next (find current l) == nullptr) ≡ true
    positive =
        ground (arith, next_found, next_in-mem current xs, no_node 0 xs h.proper (omega arith))

    chosen :
        (if l.next (find current l) == ending_node then l.m_head else l.next (find current l))
        ≡ round_robin xs current
    unfolding round_robin
    chosen = ground (arith, next_found, h.head_is)

    -- Where some thread is ready, the scheduler takes the next of the ready threads in turn, and no
    -- ASSERT fails: the one after the current thread, or the first, where the current thread is the
    -- last or is not ready.
    pub select_next_thread-turn : select_next_thread current l ≡ some (round_robin xs current)
    unfolding select_next_thread round_robin find increment
    select_next_thread-turn =
        ap (λ b. assert b >> (increment (find current l) l >>= pick)) counted
        ∙ ap (λ b. (assert b >> some (l.next (find current l))) >>= pick) positive
        ∙ ap (λ (i : ℕ). deref i l) chosen
        ∙ deref-mem (round_robin xs current) (round_robin-mem xs current some_there)
