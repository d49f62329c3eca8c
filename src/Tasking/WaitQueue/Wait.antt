-- ===== src/Tasking/WaitQueue/Wait.antt =====
-- Waiting on a queue: what `wait` leaves behind, and how `wait_on_event` loses a thread.
use cyan_oskernel.Prelude.{
  ℕ, zero, suc, ◌+◌, ◌≤◌, ◌≡◌, ◌≢◌, refl, sym, ap, ◌∙◌, false, some, List, [], ◌∷◌, ◌++◌, arith,
  ◌==◌, ==_refl, if◌then◌else◌, length, get_elem?,
}
use cyan_oskernel.Tasking.Thread
use cyan_oskernel.Tasking.Thread.{
  ready, Kernel, Entry, WaitState, blocked, woken_up_normally, timeout, put_entries,
}
use cyan_oskernel.Tasking.Thread.Inv.{Inv, blocked_count, entry_count, waits}
use cyan_oskernel.Tasking.Thread.Moves.{waiting_for, block-Inv}
use cyan_oskernel.Tasking.WaitQueue.{wake_up_queue, wake_up_all, wait_start, wait_again}
use cyan_oskernel.Tasking.WaitQueue.Wake.{wake_up_queue-Inv}
use cyan_oskernel.Tasking.WaitQueue.WakeAll.{ready_waits, wake_up_all-AllWoken}

abbrev pub new_entry : ℕ → Entry
new_entry t = record { tid = t; state = blocked }

blocked_count-append :
    (u t : ℕ) (es : List Entry)
    → blocked_count u (es ++ new_entry t ∷ []) ≡ blocked_count u es + (if t == u then 1 else 0)
unfolding blocked_count
blocked_count-append u t [] = ground arith
blocked_count-append u t (e ∷ es) = ground (arith, blocked_count-append u t es)

pub entry_count-append :
    (u t : ℕ) (es : List Entry)
    → entry_count u (es ++ new_entry t ∷ []) ≡ entry_count u es + (if t == u then 1 else 0)
unfolding entry_count
entry_count-append u t [] = ground arith
entry_count-append u t (e ∷ es) = ground (arith, entry_count-append u t es)

blocked-le-entry : (u : ℕ) (es : List Entry) → blocked_count u es ≤ entry_count u es
unfolding blocked_count entry_count
blocked-le-entry u [] = omega arith
blocked-le-entry u (e ∷ es) = ground (arith, blocked-le-entry u es)

waits_for : (q ms now : ℕ) (th : Thread.Thread) → waits (some (waiting_for q ms now th)) q ≡ 1
waits_for q zero now th = rw (==_refl q)
waits_for q (suc ms) now th = rw (==_refl q)

module _ (k : Kernel) (v : Inv k) (q t ms_timeout : ℕ) (th : Thread.Thread)
    (here : k.thread t ≡ some th) (running : th.state ≡ ready)
    (absent : entry_count t (k.entries q) ≡ 0) where
  -- Under the invariant, `wait` blocks a ready thread that is not on the queue yet, adds an entry that waits at the end,
  -- keeps the invariant, and leaves every other thread as it is.
  pub wait_start-Waits :
      (k' : Kernel) × (wait_start q t ms_timeout k ≡ some (length (k.entries q), k'))
      × Inv k'
      × (k'.entries q ≡ k.entries q ++ new_entry t ∷ [])
      × (k'.thread t ≡ some (waiting_for q ms_timeout k.ticks th))
      × ((u : ℕ) → (t == u) ≡ false → k'.thread u ≡ k.thread u)
  unfolding wait_start
  wait_start-Waits =
      let (k1, ran, v1, m) = block-Inv k v t th here running q ms_timeout in
      let same : k1.entries ≡ k.entries = m.entries_kept in
      let its : k1.thread t ≡ some (waiting_for q ms_timeout k.ticks th) =
        m.threads t ∙ rw (==_refl t) refl in
      (
        put_entries q (k1.entries q ++ new_entry t ∷ []) k1,
        rw ran (rw same refl),
        record {
          members = v1.members;
          homes = v1.homes;
          single = λ u q'. ground (
            arith,
            v1.single u q',
            entry_count-append u t (k1.entries q),
            ap (λ f. entry_count t (f q)) same,
          );
          waiting = λ u q'. ground (
            arith,
            v1.waiting u q',
            blocked_count-append u t (k1.entries q),
            blocked-le-entry t (k1.entries q),
            ap (λ f. entry_count t (f q)) same,
            ap (λ o. waits o q) its,
            waits_for q ms_timeout k.ticks th,
          );
        },
        rw (==_refl q) (ap (λ f. f q ++ new_entry t ∷ []) same),
        its,
        λ u apart. m.threads u ∙ rw apart refl,
      )

  pub wait_start-Inv :
      (k' : Kernel) × (wait_start q t ms_timeout k ≡ some (length (k.entries q), k'))
      × Inv k'
      × (k'.entries q ≡ k.entries q ++ new_entry t ∷ [])
      × (k'.thread t ≡ some (waiting_for q ms_timeout k.ticks th))
  wait_start-Inv = let (k', ran, v', es, its, others) = wait_start-Waits in (k', ran, v', es, its)

same-kernel : {a b : Kernel} → some a ≡ some b → a ≡ b
same-kernel h = cc

still_waits : (q ms now : ℕ) (th : Thread.Thread) → (waiting_for q ms now th).state ≢ ready
still_waits q zero now th e = cc
still_waits q (suc ms) now th e = cc

blocked_on : (q ms now : ℕ) (th : Thread.Thread) → (waiting_for q ms now th).blocker ≡ some q
blocked_on q zero now th = refl
blocked_on q (suc ms) now th = refl

-- Under the invariant, where an entry in state Blocked is woken and its thread waits again, a round of
-- `wait_on_event` after the first blocks the thread with an entry that is
-- no longer in state Blocked: not even `wake_up_all` wakes it up again.
pub wait_again_lost :
    (k : Kernel) (q i ms_timeout : ℕ) (e : Entry)
    → Inv k
    → get_elem? (k.entries q) i ≡ some e
    → e.state ≡ blocked
    → (k1 : Kernel) → wake_up_queue q i k ≡ some k1
    → (k2 : Kernel) → wait_again q e.tid ms_timeout k1 ≡ some k2
    → (k3 : Kernel) → wake_up_all q k2 ≡ some k3
    → (th : Thread.Thread) × (k3.thread e.tid ≡ some th)
      × (th.blocker ≡ some q)
      × (th.state ≢ ready)
unfolding wait_again
wait_again_lost k q i ms_timeout e v at b k1 woke k2 again k3 all =
    let (j1, ran1, v1, es1, others, (th, here, r)) = wake_up_queue-Inv k v q i e at b in
    let (j2, ran2, v2, m) = block-Inv j1 v1 e.tid th here r q ms_timeout in
    let (j3, ran3, after) = wake_up_all-AllWoken q j2 v2 in
    let e1 : j1 ≡ k1 = same-kernel (sym ran1 ∙ woke) in
    let e2 : j2 ≡ k2 = same-kernel (sym ran2 ∙ ap (Thread.block e.tid q ms_timeout) e1 ∙ again) in
    let e3 : j3 ≡ k3 = same-kernel (sym ran3 ∙ ap (wake_up_all q) e2 ∙ all) in
    let free : blocked_count e.tid (j2.entries q) ≡ 0 =
      ap (λ f. blocked_count e.tid (f q)) m.entries_kept
      ∙ ready_waits (j1.thread e.tid) q (th, here, r) (v1.waiting e.tid q) in
    (
      waiting_for q ms_timeout j1.ticks th,
      ap (λ (x : Kernel). x.thread e.tid) (sym e3)
          ∙ after.others_kept e.tid free
          ∙ m.threads e.tid
          ∙ rw (==_refl e.tid) refl,
      blocked_on q ms_timeout j1.ticks th,
      still_waits q ms_timeout j1.ticks th,
    )
