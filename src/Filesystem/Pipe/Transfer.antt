-- ===== src/Filesystem/Pipe/Transfer.antt =====
-- Bytes go through a pipe in order, and every transfer wakes a waiting thread.
use cyan_oskernel.Prelude.{
  ℕ, zero, suc, ◌+◌, ◌-◌, ◌≤◌, ◌≡◌, refl, sym, ap, subst, ◌∙◌, none, some, List, [], ◌∷◌, ◌++◌,
  arith, min, length, length-append,
}
use cyan_oskernel.Stdlib.CircularBuffer.{CircularBuffer, available_size}
use cyan_oskernel.Stdlib.CircularBuffer.Refine.{Holds, queue-refines, dequeue-refines}
use cyan_oskernel.Tasking.Thread.{Kernel}
use cyan_oskernel.Tasking.Thread.Inv.{Inv}
use cyan_oskernel.Tasking.WaitQueue
use cyan_oskernel.Tasking.Semaphore.Balance.{pending, wake_alone}
use cyan_oskernel.Filesystem.Pipe.{Pipe, dequeue_bytes, queue_bytes, read_end, write_end}

-- The first `n` elements of a list, and the others.
abbrev pub take {ℓ} : {A : Type ℓ} → ℕ → List A → List A
take zero xs = []
take (suc n) [] = []
take (suc n) (x ∷ xs) = x ∷ take n xs

abbrev pub drop {ℓ} : {A : Type ℓ} → ℕ → List A → List A
drop zero xs = xs
drop (suc n) [] = []
drop (suc n) (x ∷ xs) = drop n xs

append_one : (q rest : List ℕ) (x : ℕ) → (q ++ x ∷ []) ++ rest ≡ q ++ x ∷ rest
append_one [] rest x = refl
append_one (y ∷ q) rest x = ap (λ (zs : List ℕ). y ∷ zs) (append_one q rest x)

append_none : (q : List ℕ) → q ++ [] ≡ q
append_none [] = refl
append_none (y ∷ q) = ap (λ (zs : List ℕ). y ∷ zs) (append_none q)

queue_bytes-Holds :
    (n : ℕ) (src : List ℕ) (b : CircularBuffer ℕ) (q : List ℕ)
    → Holds b q
    → n ≤ length src
    → length q + n ≤ b.capacity
    → (b' : CircularBuffer ℕ) × (queue_bytes n src b ≡ some b') × Holds b' (q ++ take n src)
unfolding queue_bytes
queue_bytes-Holds zero src b q h le room =
    (b, refl, subst (λ (xs : List ℕ). Holds b xs) (sym (append_none q)) h)
queue_bytes-Holds (suc n) [] b q h le room = absurd (omega arith)
queue_bytes-Holds (suc n) (x ∷ src) b q h le room =
    let (b1, ran1, h1, same) = queue-refines b q x h (omega arith) in
    let (b', ran, h') =
      queue_bytes-Holds n src b1 (q ++ x ∷ []) h1 (omega arith)
        (omega (arith, same, length-append q (x ∷ []))) in
    (
      b',
      rw (ran1, queue_bytes) ran,
      subst (λ (xs : List ℕ). Holds b' xs) (append_one q (take n src) x) h',
    )

dequeue_bytes-Holds :
    (n : ℕ) (b : CircularBuffer ℕ) (q : List ℕ)
    → Holds b q
    → n ≤ length q
    → (b' : CircularBuffer ℕ) × (dequeue_bytes n b ≡ some (take n q, b')) × Holds b' (drop n q)
unfolding dequeue_bytes
dequeue_bytes-Holds zero b q h le = (b, refl, h)
dequeue_bytes-Holds (suc n) b [] h le = absurd (omega arith)
dequeue_bytes-Holds (suc n) b (x ∷ q) h le =
    let (b1, ran1, h1, same) = dequeue-refines b x q h in
    let (b', ran, h') = dequeue_bytes-Holds n b1 q h1 (omega arith) in
    (b', rw (ran1, dequeue_bytes) (rw ran refl), h')

module _ (p : Pipe) (q : List ℕ) (k : Kernel) (h : Holds p.buffer q) (v : Inv k) where
  room_lem : available_size p.buffer ≡ p.buffer.capacity - length q
  unfolding available_size
  room_lem = omega (arith, h.small, h.fits, h.count)

  -- Where no thread waits on the pipe, a read or a write that goes on ends in a failed ASSERT.
  pub transfer_alone :
      (size : ℕ) (src : List ℕ)
      → pending (k.entries p.wait_queue) ≡ 0
      → (write_end src p k ≡ none) × (read_end size p k ≡ none)
  unfolding write_end read_end
  transfer_alone size src none_wait =
      let n = min (length src) (p.buffer.capacity - length q) in
      let (b, ran, _) =
        queue_bytes-Holds n src p.buffer q h (omega arith) (omega (arith, h.fits, h.count)) in
      let (b', ran', _) = dequeue_bytes-Holds (min size (length q)) p.buffer q h (omega arith) in
      let all = ap (λ (i : ℕ). dequeue_bytes (min size i) p.buffer) h.count ∙ ran' in
      let fails = wake_alone p.wait_queue k v none_wait in
      (rw room_lem (rw ran (rw fails refl)), rw all (rw fails refl))
