-- ===== src/Tasking/Thread/Inv.antt =====
-- The invariant of the threads, their lists and the wait queues.
use cyan_oskernel.Prelude.{
  ℕ, suc, ◌≤◌, ◌≡◌, refl, sym, ap, ◌∙◌, Bool, true, false, ◌&&◌, Option, none, some, List, [], ◌∷◌,
  ◌++◌, arith, ◌==◌, ==_refl, if◌then◌else◌,
}
use cyan_oskernel.Tasking.Thread.{
  ThreadState, ready, blocked_sleep, blocked_queue, blocked_queue_timed, suspended, ListName,
  ready_threads, sleeping_threads, blocked_threads, blocked_timed_threads, same_list, Thread,
  blocked, Entry, Kernel, put_thread, put_list, erase, push_back, remove, update, leave, wake_up,
}
use cyan_oskernel.Tasking.Thread.Lists.{count, count-append, count-erase, owned}

-- The list that a thread of a state stands on.
abbrev pub home : ThreadState → Option ListName
home ready = some ready_threads
home blocked_sleep = some sleeping_threads
home blocked_queue = some blocked_threads
home blocked_queue_timed = some blocked_timed_threads
home suspended = none

abbrev pub IsHome : Option Thread → Type 0
IsHome none = Unit {0}
IsHome (some th) = th.owner ≡ home th.state

abbrev pub is_blocked_entry : ℕ → Entry → Bool
is_blocked_entry t e = (e.tid == t) && elim e.state [ blocked ↦ true | _ ↦ false ]

-- How many entries of a wait queue wait for thread `t` to be woken up.
unfoldable pub blocked_count : ℕ → List Entry → ℕ
blocked_count t [] = 0
blocked_count t (e ∷ es) =
    let rest = blocked_count t es in if is_blocked_entry t e then suc rest else rest

-- How many entries of a wait queue are of thread `t`.
unfoldable pub entry_count : ℕ → List Entry → ℕ
entry_count t [] = 0
entry_count t (e ∷ es) = let rest = entry_count t es in if e.tid == t then suc rest else rest

abbrev pub waits_on : Option ℕ → ℕ → ℕ
waits_on none q = 0
waits_on (some q') q = if q' == q then 1 else 0

-- 1 if the thread is blocked on wait queue `q`, else 0.
abbrev pub waits : Option Thread → ℕ → ℕ
waits none q = 0
waits (some th) q = elim th.state [
  | blocked_queue ↦ waits_on th.blocker q
  | blocked_queue_timed ↦ waits_on th.blocker q
  | _ ↦ 0
]

-- Every thread stands once on the list of its state and on no other, and an entry that waits to be
-- woken up is the only one of its thread, which is blocked on that queue.
pub record Inv (k : Kernel) : Type 0 where
  pub members : (t : ℕ) (l : ListName) → count t (k.list l) ≡ owned (k.thread t) l
  pub homes : (t : ℕ) → IsHome (k.thread t)
  pub single : (t q : ℕ) → entry_count t (k.entries q) ≤ 1
  pub waiting : (t q : ℕ) → blocked_count t (k.entries q) ≤ waits (k.thread t) q

same_list_refl : (l : ListName) → same_list l l ≡ true
same_list_refl ready_threads = refl
same_list_refl _ = refl

abbrev with_owner : Option ListName → Thread → Thread
with_owner o th = record th { owner = o }

-- The kernel after a removal and after an insertion that succeed.
abbrev pub removed : ListName → ℕ → Thread → Kernel → Kernel
removed l t th k = put_list l (erase t (k.list l)) (put_thread t (some (with_owner none th)) k)

abbrev pub pushed : ListName → ℕ → Thread → Kernel → Kernel
pushed l t th k = put_list l (k.list l ++ t ∷ []) (put_thread t (some (with_owner (some l) th)) k)

module _ (t : ℕ) (th : Thread) (k : Kernel) (here : k.thread t ≡ some th) where
  pub remove-eq : (l : ListName) → th.owner ≡ some l → remove l t k ≡ some (removed l t th k)
  unfolding remove
  remove-eq l e = rw here (rw e (rw (same_list_refl l) refl))

  pub push_back-eq : (l : ListName) → th.owner ≡ none → push_back l t k ≡ some (pushed l t th k)
  unfolding push_back
  push_back-eq l e = rw here (rw e refl)

  pub update-eq : (f : Thread → Thread) → update t f k ≡ some (put_thread t (some (f th)) k)
  update-eq f = rw here

-- What `wake_up` makes of a thread.
abbrev pub awake : Thread → Thread
awake th = record th { state = ready; owner = some ready_threads; blocker = none }

-- The kernel after a thread moves from one list to another.
pub record Moved (t : ℕ) (th : Thread) (from to : ListName) (k k' : Kernel) : Type 0 where
  pub threads : (u : ℕ) → k'.thread u ≡ (if t == u then some th else k.thread u)
  pub lists :
      (l : ListName)
      → k'.list l ≡ (
          if same_list to l
          then k.list l ++ t ∷ []
          else if same_list from l
          then erase t (k.list l)
          else k.list l)
  pub entries_kept : k'.entries ≡ k.entries
  pub ticks_kept : k'.ticks ≡ k.ticks

pub same_list→eq : (a b : ListName) → same_list a b ≡ true → a ≡ b
same_list→eq a b h = ground arith

some-eq : {a b : ListName} → some a ≡ some b → a ≡ b
some-eq e = cc

leave-at :
    (s : ThreadState) (l : ListName) (t : ℕ) (k : Kernel) {r : Option Kernel}
    → same_list l ready_threads ≡ false
    → home s ≡ some l
    → remove l t k ≡ r
    → leave s t k ≡ r
leave-at ready l t k ne e h =
    absurd (false_true (sym ne ∙ ap (λ x. same_list x ready_threads) (some-eq (sym e))))
  where
    false_true : false ≡ true → ⊥
    false_true e = cc
leave-at blocked_sleep l t k ne e h = ap (λ x. remove x t k) (some-eq e) ∙ h
leave-at blocked_queue l t k ne e h = ap (λ x. remove x t k) (some-eq e) ∙ h
leave-at blocked_queue_timed l t k ne e h = ap (λ x. remove x t k) (some-eq e) ∙ h
leave-at suspended l t k ne e h = cc

module _ (t : ℕ) (th : Thread) (k : Kernel) (here : k.thread t ≡ some th) where
  leave-eq :
      (l : ListName)
      → same_list l ready_threads ≡ false
      → th.owner ≡ some l
      → home th.state ≡ some l
      → leave th.state t k ≡ some (removed l t th k)
  leave-eq l ne own e = leave-at th.state l t k ne e (remove-eq t th k here l own)

  pub wake_up-Moved :
      (l : ListName)
      → same_list l ready_threads ≡ false
      → th.owner ≡ some l
      → home th.state ≡ some l
      → (k' : Kernel) × (wake_up t k ≡ some k') × Moved t (awake th) l ready_threads k k'
  unfolding wake_up
  wake_up-Moved l ne own e = (
    put_thread t (some (awake th)) (
        put_thread t (some (record th { state = ready; owner = some ready_threads }))
          (pushed ready_threads t (with_owner none th) (removed l t th k))),
    rw here (
        rw (leave-eq l ne own e) (
          rw
            (push_back-eq t (with_owner none th) (removed l t th k) (rw (==_refl t)) ready_threads
              refl)
            (rw (==_refl t) (rw (==_refl t) refl)))),
    record {
      threads = λ u. ground arith;
      lists = λ l'. ground (arith, same_list→eq l l', same_list→eq ready_threads l');
      entries_kept = refl;
      ticks_kept = refl;
    },
  )

-- A move keeps the lists in step with the owners.
module _ (t : ℕ) (th th' : Thread) (from to : ListName) (k k' : Kernel)
    (here : k.thread t ≡ some th) (own : th.owner ≡ some from) (own' : th'.owner ≡ some to)
    (home' : home th'.state ≡ some to) (apart : same_list from to ≡ false) (i : Inv k)
    (m : Moved t th' from to k k') where
  moved_members : (u : ℕ) (l : ListName) → count u (k'.list l) ≡ owned (k'.thread u) l
  moved_members u l = ground (
    arith,
    m.lists l,
    m.threads u,
    i.members u l,
    count-append u t (k.list l),
    count-erase u t (k.list l),
    same_list→eq to l,
    same_list→eq from l,
  )

  moved_homes : (u : ℕ) → IsHome (k'.thread u)
  moved_homes u = ground (arith, m.threads u, i.homes u)

  -- A thread that no entry waits for may be moved to any list.
  pub Moved-Inv : ((q : ℕ) → blocked_count t (k.entries q) ≤ waits (some th') q) → Inv k'
  Moved-Inv fits = record {
    members = moved_members;
    homes = moved_homes;
    single = λ u q. rw m.entries_kept (i.single u q);
    waiting = λ u q. rw m.entries_kept (ground (arith, m.threads u, i.waiting u q, fits q));
  }
