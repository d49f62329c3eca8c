-- ===== src/Tasking/Scheduler/Tests.antt =====
-- The theorems of the scheduler, for three ready threads.
use cyan_oskernel.Prelude.{ℕ, ◌≤◌, ◌≡◌, refl, some, [], ◌∷◌, arith, ◌==◌, if◌then◌else◌}
use cyan_oskernel.Stdlib.Links.{mem, distinct, nodes, first_of, last_from, next_in, prev_in}
use cyan_oskernel.Stdlib.IntrusiveList.{IntrusiveList}
use cyan_oskernel.Stdlib.IntrusiveList.Holds.{Holds}
use cyan_oskernel.Tasking.Scheduler.{
  select_next_thread, turns, round_robin, select_next_thread-turn,
}
use cyan_oskernel.Tasking.Scheduler.Fair.{turns-fair}

abbrev three : IntrusiveList
three = record {
  this = 100;
  m_count = 3;
  m_head = 10;
  m_tail = 30;
  next = λ x. if x == 10 then 20 else if x == 20 then 30 else 1;
  prev = λ x. if x == 30 then 20 else if x == 20 then 10 else 0;
  owner = λ x. if x == 10 then 100 else if x == 20 then 100 else if x == 30 then 100 else 0;
}

three-Holds : Holds three (10 ∷ 20 ∷ 30 ∷ [])
unfolding mem distinct nodes first_of last_from next_in prev_in
three-Holds = record {
  placed = omega arith;
  apart = refl;
  proper = refl;
  head_is = refl;
  tail_is = refl;
  nexts = λ y m. ground arith;
  prevs = λ y m. ground arith;
  end_next = refl;
  owners = λ y big. ground arith;
  fits = omega arith;
  count_is = refl;
}

-- A thread that is not ready any more gives the turn to the first.
select_next_thread-turn_example :
    select_next_thread 40 three ≡ some (round_robin (10 ∷ 20 ∷ 30 ∷ []) 40)
select_next_thread-turn_example =
    select_next_thread-turn three (10 ∷ 20 ∷ 30 ∷ []) three-Holds 40 (omega arith) (omega arith)

turns-fair_example : (n : ℕ) × (n ≤ 3) × (turns n 30 three ≡ some 20)
turns-fair_example = turns-fair three (10 ∷ 20 ∷ 30 ∷ []) three-Holds 2 1 30 20 refl refl
