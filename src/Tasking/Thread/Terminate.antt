-- ===== src/Tasking/Thread/Terminate.antt =====
-- The end of a thread.
use cyan_oskernel.Prelude.{
  ℕ, ◌≤◌, ◌≡◌, refl, ap, ◌∙◌, true, false, Option, none, some, List, [], ◌∷◌, arith, ◌==◌, ==_refl,
  if◌then◌else◌, ◌>>=◌,
}
use cyan_oskernel.Tasking.Thread.{
  ThreadState, ready, blocked_sleep, blocked_queue, blocked_queue_timed, suspended, ListName,
  ready_threads, sleeping_threads, blocked_threads, blocked_timed_threads, Thread, Entry, Kernel,
  put_thread, put_tid, remove, without, has_entry, handle_thread_terminated, terminate_from,
  terminate,
}
use cyan_oskernel.Tasking.Thread.Lists.{count-erase}
use cyan_oskernel.Tasking.Thread.Inv.{
  home, Inv, blocked_count, entry_count, waits, waits_on, removed, remove-eq, same_list→eq,
}
use cyan_oskernel.Tasking.Thread.Moves.{owner_home, entries_fit}
use cyan_oskernel.Tasking.Thread.Rouse.{ArePresent, all_there_lem}

-- What `handle_thread_terminated` does to the entries.
without_lem :
    (t u : ℕ) (es : List Entry)
    → (entry_count u (without t es) ≡ (if t == u then 0 else entry_count u es))
      × (blocked_count u (without t es) ≡ (if t == u then 0 else blocked_count u es))
unfolding without entry_count blocked_count
without_lem t u [] = ground arith
without_lem t u (e ∷ es) = ground (arith, without_lem t u es)

has_entry_lem : (t : ℕ) (es : List Entry) → 1 ≤ entry_count t es → has_entry t es ≡ true
unfolding has_entry entry_count
has_entry_lem t [] h = absurd (omega arith)
has_entry_lem t (e ∷ es) h = ground (arith, has_entry_lem t es)

-- What a terminated thread leaves behind: nothing of it, and the others as they were.
pub record Gone (t : ℕ) (k k' : Kernel) : Type 0 where
  pub valid : Inv k'
  pub threads : (u : ℕ) → k'.thread u ≡ (if t == u then none else k.thread u)
  pub numbers : (u : ℕ) → k'.tid_bitmap u ≡ (if t == u then false else k.tid_bitmap u)
  pub no_entries : (q : ℕ) → blocked_count t (k'.entries q) ≡ 0
  pub entries_kept :
      (u q : ℕ) → (t == u) ≡ false → entry_count u (k'.entries q) ≡ entry_count u (k.entries q)

abbrev left : ℕ → Thread → ListName → (ℕ → List Entry) → Kernel → Kernel
left t th l entries k =
    put_tid t false (put_thread t none (record (removed l t th k) { entries = entries }))

module _ (k : Kernel) (i : Inv k) (t : ℕ) (th : Thread) (here : k.thread t ≡ some th) (l : ListName)
    (own : th.owner ≡ some l) (entries : ℕ → List Entry)
    (no_blocked : (q : ℕ) → blocked_count t (entries q) ≡ 0)
    (few : (u q : ℕ) → entry_count u (entries q) ≤ entry_count u (k.entries q))
    (kept : (u q : ℕ) → (t == u) ≡ false → entry_count u (entries q) ≡ entry_count u (k.entries q))
    (kept_blocked : (u q : ℕ)
      → (t == u) ≡ false
      → blocked_count u (entries q) ≡ blocked_count u (k.entries q)) where
  left-Inv : Inv (left t th l entries k)
  left-Inv = record {
    members =
        λ u l'. ground (arith, i.members u l', count-erase u t (k.list l'), same_list→eq l l');
    homes = λ u. ground (arith, i.homes u);
    single = λ u q. omega (arith, i.single u q, few u q);
    waiting = λ u q. ground (arith, i.waiting u q, no_blocked q, kept_blocked u q);
  }

  left-Gone : Gone t k (left t th l entries k)
  left-Gone = record {
    valid = left-Inv;
    threads = λ u. ground arith;
    numbers = λ u. refl;
    no_entries = no_blocked;
    entries_kept = kept;
  }

-- The thread has its entry on the queue that it is blocked on, and the threads of all entries there
-- are still there.
abbrev pub ListedOn : Option ℕ → Kernel → ℕ → Type 0
ListedOn b k t =
    (q : ℕ) × (b ≡ some q) × (1 ≤ entry_count t (k.entries q)) × ArePresent k.thread (k.entries q)

-- A thread that may be terminated: it is not suspended, and if it is blocked on a queue, it is listed
-- there.
abbrev pub ListedAs : ThreadState → Option ℕ → Kernel → ℕ → Type 0
ListedAs suspended b k t = ⊥
ListedAs blocked_queue b k t = ListedOn b k t
ListedAs blocked_queue_timed b k t = ListedOn b k t
ListedAs _ b k t = Unit {0}

abbrev pub IsListed : Kernel → ℕ → Thread → Type 0
IsListed k t th = ListedAs th.state th.blocker k t

module _ (k : Kernel) (i : Inv k) (t : ℕ) (th : Thread) (here : k.thread t ≡ some th)
    (numbered : k.tid_bitmap t ≡ true) where
  -- A thread that waits on no queue, and leaves only its list.
  unlisted :
      (l : ListName)
      → home th.state ≡ some l
      → ((q : ℕ) → waits (some th) q ≡ 0)
      → terminate_from th.state t th.blocker k ≡ remove l t k
      → (k' : Kernel) × (terminate t k ≡ some k') × Gone t k k'
  unfolding terminate
  unlisted l at unwanted by_list =
      let own = owner_home k i t th here ∙ at in
      (
        left t th l k.entries k,
        rw here (rw by_list (rw (remove-eq t th k here l own) (rw numbered refl))),
        left-Gone k i t th here l own k.entries
            (λ q. omega (arith, entries_fit k i t th here q, unwanted q)) (λ u q. omega arith)
            (λ u q apart. refl) (λ u q apart. refl),
      )

  left_of : ℕ → ℕ → List Entry
  unfolding without
  left_of q q' = if q == q' then without t (k.entries q) else k.entries q'

  -- A thread that leaves its list and the queue that it waits on.
  dequeued :
      (l : ListName) (q : ℕ)
      → home th.state ≡ some l
      → ((q' : ℕ) → waits (some th) q' ≡ waits_on (some q) q')
      → 1 ≤ entry_count t (k.entries q)
      → ArePresent k.thread (k.entries q)
      → terminate_from th.state t th.blocker k
        ≡ (do k1 ← remove l t k; handle_thread_terminated q t k1)
      → (k' : Kernel) × (terminate t k ≡ some k') × Gone t k k'
  unfolding terminate handle_thread_terminated left_of without entry_count blocked_count
  dequeued l q at on there present by_queue =
      let own = owner_home k i t th here ∙ at in
      (
        left t th l (left_of q) k,
        rw here (
            rw by_queue (
              rw (remove-eq t th k here l own) (
                rw
                  (all_there_lem (removed l t th k) (k.entries q)
                    (λ u gone. present u (ground arith)))
                  (rw (has_entry_lem t (k.entries q) there) (rw numbered refl))))),
        left-Gone k i t th here l own (left_of q)
            (λ q'. ground (
              arith,
              entries_fit k i t th here q',
              on q',
              without_lem t t (k.entries q),
              ==_refl t,
            ))
            (λ u q'. ground (arith, without_lem t u (k.entries q)))
            (λ u q' apart. ground (arith, without_lem t u (k.entries q)))
            (λ u q' apart. ground (arith, without_lem t u (k.entries q))),
      )

  terminate_at :
      (s : ThreadState)
      → th.state ≡ s
      → ListedAs s th.blocker k t
      → (k' : Kernel) × (terminate t k ≡ some k') × Gone t k k'
  terminate_at ready e h = unlisted ready_threads (ap home e) (λ q. ground arith) (rw e refl)
  terminate_at blocked_sleep e h =
      unlisted sleeping_threads (ap home e) (λ q. ground arith) (rw e refl)
  terminate_at blocked_queue e (q, on, there, present) =
      dequeued blocked_threads q (ap home e) (λ q'. ground arith) there present (rw e (rw on refl))
  terminate_at blocked_queue_timed e (q, on, there, present) =
      dequeued blocked_timed_threads q (ap home e) (λ q'. ground arith) there present
        (rw e (rw on refl))
  terminate_at suspended e h = absurd h

  -- Under the invariant, a thread that is not suspended, whose number is set in the bitmap of numbers
  -- and which, if it is blocked on a queue, has an entry there among entries of threads that are all
  -- there, can be terminated: no ASSERT fails and no thread that is gone is used, the thread, its
  -- number and its entries that wait are gone, the other threads, their numbers and how many entries
  -- each has stay, and the invariant holds.
  pub terminate-Gone : IsListed k t th → (k' : Kernel) × (terminate t k ≡ some k') × Gone t k k'
  terminate-Gone h = terminate_at th.state refl h
