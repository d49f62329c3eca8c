-- ===== src/Tasking/Thread/Rouse.antt =====
-- Timeouts: what `wake_up_sleepers` does to the threads.
use native.Mathlib.Decide.{ℕ_discrete}
use cyan_oskernel.Prelude.{
  ℕ, ◌≤◌, ◌≡◌, inl, inr, refl, ap, ◌∙◌, Bool, true, false, Option, none, some, List, [], ◌∷◌, arith,
  ◌==◌, ==_refl, leb, if◌then◌else◌, Bool-cases, Option-cases, ◌>>=◌,
}
use cyan_oskernel.Tasking.Thread.{
  blocked_sleep, blocked_queue, blocked_queue_timed, ListName, sleeping_threads,
  blocked_timed_threads, Thread, Entry, timeout, Kernel, put_thread, put_entries, set_ticks,
  wake_up, time_out, all_there, handle_thread_timeout, wake_sleeper, wake_blocked_timed, for_each,
}
use cyan_oskernel.Tasking.Thread.Lists.{count, owned}
use cyan_oskernel.Tasking.Thread.Inv.{Inv, blocked_count, entry_count, waits, awake, same_list→eq}
use cyan_oskernel.Tasking.Thread.Moves.{wake_up-Inv, owner_home, entries_fit}

abbrev is_some : Option ℕ → Bool
is_some none = false
is_some (some q) = true

-- A thread that is blocked on a queue names the queue.
abbrev pub names_queue : Option Thread → Bool
names_queue none = true
names_queue (some th) = elim th.state [
  | blocked_queue ↦ is_some th.blocker
  | blocked_queue_timed ↦ is_some th.blocker
  | _ ↦ true
]

-- The entries are of threads that are there.
abbrev pub ArePresent : (ℕ → Option Thread) → List Entry → Type 0
ArePresent thread es = (t : ℕ) → thread t ≡ none → entry_count t es ≡ 0

-- Every thread that is blocked on a queue names it and has an entry there, and every entry is of a
-- thread that is there.
pub record Entered (k : Kernel) : Type 0 where
  pub entries_there : (t q : ℕ) → waits (k.thread t) q ≤ entry_count t (k.entries q)
  pub named : (t : ℕ) → names_queue (k.thread t) ≡ true
  pub present : (q : ℕ) → ArePresent k.thread (k.entries q)

-- A thread after its deadline was looked at.
abbrev pub rouse : ℕ → Thread → Thread
rouse now th = if leb th.sleep_ticks now then awake (set_ticks 0 th) else th

-- What a round of `wake_up_sleepers` does to the thread of its turn.
pub record Round (t : ℕ) (th : Thread) (k k' : Kernel) : Type 0 where
  pub valid : Inv k'
  pub entered : Entered k'
  pub ticks_kept : k'.ticks ≡ k.ticks
  pub threads : (u : ℕ) → k'.thread u ≡ (if t == u then some (rouse k.ticks th) else k.thread u)

-- Without an entry of the thread, none of its entries waits.
pub no_entry : (t : ℕ) (es : List Entry) → entry_count t es ≡ 0 → blocked_count t es ≡ 0
unfolding entry_count blocked_count
no_entry t [] h = refl
no_entry t (e ∷ es) h = ground (arith, no_entry t es)

first_there :
    (k : Kernel) (e : Entry) (es : List Entry)
    → ArePresent k.thread (e ∷ es)
    → (th : Thread) × (k.thread e.tid ≡ some th)
unfolding entry_count
first_there k e es there = elim (Option-cases (k.thread e.tid)) [
  | inl gone ↦ absurd (ground (arith, there e.tid gone, ==_refl e.tid))
  | inr here ↦ here
]

rest_there :
    (k : Kernel) (e : Entry) (es : List Entry)
    → ArePresent k.thread (e ∷ es)
    → ArePresent k.thread es
unfolding entry_count
rest_there k e es there t gone = ground (arith, there t gone)

pub all_there_lem : (k : Kernel) (es : List Entry) → ArePresent k.thread es → all_there k es ≡ true
unfolding all_there
all_there_lem k [] there = refl
all_there_lem k (e ∷ es) there =
    let (th, here) = first_there k e es there in
    rw (here, all_there) (all_there_lem k es (rest_there k e es there))

time_out_lem :
    (k : Kernel) (t : ℕ) (es : List Entry)
    → ArePresent k.thread es
    → 1 ≤ entry_count t es
    → (es' : List Entry) × (time_out k t es ≡ some es')
      × ((u : ℕ) → entry_count u es' ≡ entry_count u es)
      × ((u : ℕ) → blocked_count u es' ≤ blocked_count u es)
      × (entry_count t es ≤ 1 → blocked_count t es' ≡ 0)
unfolding time_out entry_count blocked_count
time_out_lem k t [] there some_there = absurd (omega arith)
time_out_lem k t (e ∷ es) there some_there =
    let (th, here) = first_there k e es there in
    elim (Bool-cases (e.tid == t)) [
      | inl mine ↦ (
        record e { state = timeout } ∷ es,
        rw (here, time_out) (rw mine refl),
        λ u. ground arith,
        λ u. ground arith,
        λ only. ground (arith, no_entry t es),
      )
      | inr other ↦
          let (es', ran, same, fewer, gone) =
            time_out_lem k t es (rest_there k e es there) (ground arith) in
          (
            e ∷ es',
            rw (here, time_out) (rw other (rw ran refl)),
            λ u. ground (arith, same u),
            λ u. ground (arith, fewer u),
            λ only. ground (arith, gone),
          )
    ]

-- The kernel with a thread's deadline cleared.
abbrev cleared : ℕ → Thread → Kernel → Kernel
cleared t th k = put_thread t (some (set_ticks 0 th)) k

cleared-Inv :
    (k : Kernel) (t : ℕ) (th : Thread) → Inv k → k.thread t ≡ some th → Inv (cleared t th k)
cleared-Inv k t th i here = record {
  members = λ u l. ground (arith, i.members u l);
  homes = λ u. ground (arith, i.homes u);
  single = i.single;
  waiting = λ u q. ground (arith, i.waiting u q);
}

module _ (k : Kernel) (t : ℕ) (th : Thread) (here : k.thread t ≡ some th)
    (due : leb th.sleep_ticks k.ticks ≡ true) where
  sleeper_due : {r : Option Kernel} → wake_up t (cleared t th k) ≡ r → wake_sleeper t k ≡ r
  unfolding wake_sleeper
  sleeper_due ran = rw here (rw due ran)

  after_clear :
      (b : Option ℕ) (q : ℕ) (es : List Entry) {r : Option Kernel}
      → b ≡ some q
      → time_out (cleared t th k) t (k.entries q) ≡ some es
      → wake_up t (put_entries q es (cleared t th k)) ≡ r
      → (b >>= λ q'. handle_thread_timeout q' t (cleared t th k) >>= wake_up t) ≡ r
  unfolding handle_thread_timeout
  after_clear b q es on timed_out ran = rw on (rw timed_out ran)

  timed_due :
      (q : ℕ) (es : List Entry) {r : Option Kernel}
      → th.blocker ≡ some q
      → time_out (cleared t th k) t (k.entries q) ≡ some es
      → wake_up t (put_entries q es (cleared t th k)) ≡ r
      → wake_blocked_timed t k ≡ r
  unfolding wake_blocked_timed handle_thread_timeout
  timed_due q es on timed_out ran = rw here (rw due (after_clear th.blocker q es on timed_out ran))

module _ (k : Kernel) (i : Inv k) (en : Entered k) (t : ℕ) (th : Thread)
    (here : k.thread t ≡ some th) where
  kept-Round : leb th.sleep_ticks k.ticks ≡ false → Round t th k k
  kept-Round early = record {
    valid = i;
    entered = en;
    ticks_kept = refl;
    threads = λ u. ground arith;
  }

  -- A round for a sleeping thread.
  pub wake_sleeper-Round :
      th.state ≡ blocked_sleep → (k' : Kernel) × (wake_sleeper t k ≡ some k') × Round t th k k'
  unfolding wake_sleeper
  wake_sleeper-Round sleeps = elim (Bool-cases (leb th.sleep_ticks k.ticks)) [
    | inr early ↦ (k, rw here (rw early refl), kept-Round early)
    | inl due ↦
        let unwanted : (q : ℕ) → blocked_count t (k.entries q) ≡ 0 =
          λ q. ground (arith, entries_fit k i t th here q) in
        let (from, k', ran, i', m) =
          wake_up-Inv (cleared t th k) (cleared-Inv k t th i here) t (set_ticks 0 th)
            (rw (==_refl t) refl) (rw sleeps refl) unwanted in
        (
          k',
          sleeper_due k t th here due ran,
          record {
            valid = i';
            entered = record {
              entries_there =
                  λ u q. rw m.entries_kept (ground (arith, m.threads u, en.entries_there u q));
              named = λ u. ground (arith, m.threads u, en.named u);
              present =
                  λ q u gone. rw m.entries_kept (en.present q u (ground (arith, m.threads u)));
            };
            ticks_kept = m.ticks_kept;
            threads = λ u. ground (arith, m.threads u);
          },
        )
  ]

  -- A round for a thread that is blocked with a timeout.
  pub wake_blocked_timed-Round :
      (q : ℕ)
      → th.state ≡ blocked_queue_timed
      → th.blocker ≡ some q
      → (k' : Kernel) × (wake_blocked_timed t k ≡ some k') × Round t th k k'
  unfolding wake_blocked_timed handle_thread_timeout
  wake_blocked_timed-Round q blocks on = elim (Bool-cases (leb th.sleep_ticks k.ticks)) [
    | inr early ↦ (k, rw here (rw early refl), kept-Round early)
    | inl due ↦
        let there : 1 ≤ entry_count t (k.entries q) =
          ground (arith, en.entries_there t q, ==_refl q) in
        let (es', timed_out, same, fewer, gone) =
          time_out_lem (cleared t th k) t (k.entries q)
            (λ u none_there. en.present q u (ground arith)) there in
        let k1 = put_entries q es' (cleared t th k) in
        let i0 = cleared-Inv k t th i here in
        let i1 : Inv k1 = record {
          members = i0.members;
          homes = i0.homes;
          single = λ u q'. ground (arith, i0.single u q', same u);
          waiting = λ u q'. ground (arith, i0.waiting u q', fewer u);
        } in
        let unwanted : (q' : ℕ) → blocked_count t (k1.entries q') ≡ 0 =
          λ q'. ground (arith, entries_fit k i t th here q', gone (i.single t q)) in
        let (from, k', ran, i', m) =
          wake_up-Inv k1 i1 t (set_ticks 0 th) (rw (==_refl t) refl) (rw blocks refl) unwanted in
        (
          k',
          timed_due k t th here due q es' on timed_out ran,
          record {
            valid = i';
            entered = record {
              entries_there = λ u q'.
                  rw m.entries_kept (ground (arith, m.threads u, en.entries_there u q', same u));
              named = λ u. ground (arith, m.threads u, en.named u);
              present = λ q' u gone.
                  rw m.entries_kept (ground (arith, m.threads u, en.present q' u, same u));
            };
            ticks_kept = m.ticks_kept;
            threads = λ u. ground (arith, m.threads u);
          },
        )
  ]

-- The round of one list takes each of its threads to what `rouse` says.
abbrev pub Rounds : ListName → (ℕ → Kernel → Option Kernel) → Type 0
Rounds l round =
    (k : Kernel)
    → Inv k
    → Entered k
    → (t : ℕ) (th : Thread) → k.thread t ≡ some th
    → th.owner ≡ some l
    → (k' : Kernel) × (round t k ≡ some k') × Round t th k k'

-- What the loop over one list leaves.
pub record Swept (ts : List ℕ) (k k' : Kernel) : Type 0 where
  pub valid : Inv k'
  pub entered : Entered k'
  pub ticks_kept : k'.ticks ≡ k.ticks
  pub others : (u : ℕ) → count u ts ≡ 0 → k'.thread u ≡ k.thread u
  pub roused :
      (u : ℕ) (th : Thread)
      → 1 ≤ count u ts
      → k.thread u ≡ some th
      → k'.thread u ≡ some (rouse k.ticks th)

owned_thread :
    (o : Option Thread) (l : ListName)
    → 1 ≤ owned o l
    → (th : Thread) × (o ≡ some th) × (th.owner ≡ some l)
owned_thread none l h = absurd (omega arith)
owned_thread (some th) l h = (th, refl, ground (arith, λ (l' : ListName). same_list→eq l' l))

module _ (l : ListName) (round : ℕ → Kernel → Option Kernel) (rounds : Rounds l round) where
  sweep_step :
      (k k1 k' : Kernel) (t : ℕ) (th : Thread) (ts : List ℕ)
      → k.thread t ≡ some th
      → count t ts ≡ 0
      → Round t th k k1
      → Swept ts k1 k'
      → Swept (t ∷ ts) k k'
  unfolding count
  sweep_step k k1 k' t th ts here once r after = record {
    valid = after.valid;
    entered = after.entered;
    ticks_kept = after.ticks_kept ∙ r.ticks_kept;
    others = λ u none_left. ground (arith, after.others u, r.threads u);
    roused = λ u uth some_left at. elim (ℕ_discrete t u) [
      | yes same ↦ ground (arith, after.others u, r.threads u)
      | no ne ↦
          let kept : k1.thread u ≡ some uth = ground (arith, r.threads u) in
          after.roused u uth (ground arith) kept ∙ ap (λ (n : ℕ). some (rouse n uth)) r.ticks_kept
    ];
  }

  -- The loop over a list of threads that all stand on the list, each once, takes each to what
  -- `rouse` says, and leaves the others as they are.
  pub sweep-Swept :
      (ts : List ℕ) (k : Kernel)
      → Inv k
      → Entered k
      → ((u : ℕ) → count u ts ≤ owned (k.thread u) l)
      → (k' : Kernel) × (for_each round ts k ≡ some k') × Swept ts k k'
  unfolding for_each count
  sweep-Swept [] k i en listed = (
    k,
    refl,
    record {
      valid = i;
      entered = en;
      ticks_kept = refl;
      others = λ u h. refl;
      roused = λ u th h at. absurd (omega arith);
    },
  )
  sweep-Swept (t ∷ ts) k i en listed =
      let (th, here, own) = owned_thread (k.thread t) l (ground (arith, listed t, ==_refl t)) in
      let (k1, ran1, r) = rounds k i en t th here own in
      let one : owned (k.thread t) l ≤ 1 = ground arith in
      let once : count t ts ≡ 0 = ground (arith, listed t, ==_refl t) in
      let (k', ran, after) =
        sweep-Swept ts k1 r.valid r.entered (λ u. ground (arith, listed u, r.threads u)) in
      (k', rw ran1 ran, sweep_step k k1 k' t th ts here once r after)

pub sleeps_at :
    (k : Kernel)
    → Inv k
    → (t : ℕ) (th : Thread) → k.thread t ≡ some th
    → th.owner ≡ some sleeping_threads
    → th.state ≡ blocked_sleep
sleeps_at k i t th here own = ground (arith, owner_home k i t th here)

pub times_at :
    (k : Kernel)
    → Inv k
    → (t : ℕ) (th : Thread) → k.thread t ≡ some th
    → th.owner ≡ some blocked_timed_threads
    → th.state ≡ blocked_queue_timed
times_at k i t th here own = ground (arith, owner_home k i t th here)
