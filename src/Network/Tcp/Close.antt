-- ===== src/Network/Tcp/Close.antt =====
-- The end of a connection, and the segments that a session does not take.
use cyan_oskernel.Prelude.{
  ℕ, ◌≤◌, ◌<◌, ◌≡◌, ◌⊎◌, refl, true, false, some, arith, ◌==◌, if◌then◌else◌, length, ◌++◌, [], ◌∷◌,
}
use cyan_oskernel.Stdlib.Bitmap.Range.{bit, IsValid, clear_range-Changed}
use cyan_oskernel.Tasking.Thread.Inv.{Inv}
use cyan_oskernel.Tasking.Semaphore.{increment, can_grow}
use cyan_oskernel.Tasking.Semaphore.Balance.{Balanced, release-Balanced}
use cyan_oskernel.Tasking.WaitQueue.WakeAll.{wake_up_all-AllWoken}
use cyan_oskernel.Network.Tcp.{
  closed, Segment, Network, acknowledgment, put_session, end_connection, is_in_order_packet,
  is_in_window_packet, is_packet_for_me,
}
use cyan_oskernel.Network.Tcp.Handle.{Outcome, dropped, waiting, accepted, handle_begin}

-- Under the invariant, with the SYN semaphore in balance, its count below the largest `int`, and the
-- port inside the bitmap of ports, `end_connection` fails no ASSERT: it leaves the session closed and its port free, keeps the
-- invariant of the threads and the queues, and sends nothing.
pub end_connection-Inv :
    (n : Network)
    → Inv n.kernel
    → Balanced n.session.syn_waitqueue n.kernel
    → can_grow n.session.syn_waitqueue.count ≡ true
    → IsValid n.ports
    → n.session.local_port < n.ports.bitmap_size
    → (n' : Network) × (end_connection n ≡ some n')
      × Inv n'.kernel
      × (n'.session.state ≡ closed)
      × (n'.sent ≡ n.sent)
      × ((p : ℕ)
          → bit n'.ports.bitmap_data p
            ≡ (if p == n.session.local_port then false else bit n.ports.bitmap_data p))
unfolding end_connection
end_connection-Inv n v b room ports inside =
    let s = n.session in
    let (k1, ran1, v1, _) = release-Balanced s.syn_waitqueue n.kernel v b room in
    let (k2, ran2, w2) = wake_up_all-AllWoken s.ack_waitqueue k1 v1 in
    let (k3, ran3, w3) = wake_up_all-AllWoken s.data_waitqueue k2 w2.valid in
    let (k4, ran4, w4) = wake_up_all-AllWoken s.data_push_waitqueue k3 w3.valid in
    let (free, ran5, c) = clear_range-Changed n.ports ports s.local_port 1 (omega arith) in
    (
      record {
        session = record s {
          state = closed;
          syn_waitqueue = record s.syn_waitqueue { count = increment s.syn_waitqueue.count };
        };
        kernel = k4;
        ports = free;
        sent = n.sent;
      },
      rw ran1 (rw ran2 (rw ran3 (rw ran4 (rw ran5 refl)))),
      w4.valid,
      refl,
      refl,
      λ p. ground (arith, c.bits p),
    )

-- A closed session sends nothing, and takes no segment: it belongs to no segment, and drops what it
-- is given with the window noted.
pub handle_begin_closed :
    (n : Network) (src_ip : ℕ) (p : Segment)
    → n.session.state ≡ closed
    → (is_packet_for_me n.session src_ip p ≡ false)
      × (handle_begin p n
          ≡ dropped (
              if p.is_packet_ok
              then put_session (record n.session { remote_window_size = p.window_size }) n
              else n))
unfolding is_packet_for_me handle_begin
handle_begin_closed n src_ip p c = ground arith

-- What `handle` does with a segment before it looks at the flags, in an established session.
pub data Judged (p : Segment) (n : Network) : Outcome → Type 0 where
  taken :
      (n' : Network)
      → n'.sent ≡ n.sent
      → p.is_packet_ok ≡ true
      → p.seq ≡ n.session.remote_sequence
      → length p.payload ≤ n.session.local_window_size
      → Judged p n (accepted n')
  early :
      (n' : Network)
      → p.is_packet_ok ≡ true
      → is_in_order_packet n.session p.seq ≡ false
      → is_in_window_packet n.session p.seq (length p.payload) ≡ true
      → n'.sent ≡ n.sent ++ acknowledgment n.session ∷ []
      → Judged p n (waiting n')
  refused :
      (n' : Network)
      → n'.sent ≡ n.sent
      → (p.is_packet_ok ≡ false) ⊎ (is_in_window_packet n.session p.seq (length p.payload) ≡ false)
      → Judged p n (dropped n')
