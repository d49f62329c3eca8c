-- ===== src/Network/Tcp/Handle.antt =====
-- What a TCP session does with a received segment, and with the answer to one that it sent.
use cyan_oskernel.Prelude.{
  ℕ, zero, suc, ◌+◌, ◌-◌, ◌%◌, ◌^◌, Bool, true, false, not, ◌&&◌, Option, some, List, [], ◌∷◌, leb,
  ltb, ◌==◌, if◌then◌else◌, length, ◌>>=◌, ◌>>◌, assert,
}
use cyan_oskernel.Tasking.Thread.{WaitState, timeout}
use cyan_oskernel.Tasking.WaitQueue.{wake_up_all}
use cyan_oskernel.Tasking.Semaphore
use cyan_oskernel.Network.Tcp.{
  established, fin_wait2, close_wait, last_ack, closed, is_closed, is_established, expects_syn,
  Flags, Segment, Session, Network, put_session, put_kernel, put_state, send_packet, send_ack,
  next_remote, fin_flags, is_in_order_packet, is_in_window_packet, is_buffer_available,
  end_connection,
}

-- `BufferMutableView::fill_from`, of bytes that fit.
unfoldable pub fill : List ℕ → ℕ → List ℕ → List ℕ
fill [] offset source = []
fill (b ∷ bs) zero [] = b ∷ bs
fill (b ∷ bs) zero (x ∷ xs) = x ∷ fill bs zero xs
fill (b ∷ bs) (suc offset) source = b ∷ fill bs offset source

unfoldable pub fill_from : List ℕ → ℕ → List ℕ → Option (List ℕ)
unfolding fill
fill_from buffer dest_offset source = do
  assert (leb (dest_offset + length source) (length buffer))
  some (fill buffer dest_offset source)

unfoldable pub handle_syn : ℕ → Segment → Network → Option Network
handle_syn src_ip p n =
    if expects_syn n.session.state
    then (do
      r ← Semaphore.release n.session.syn_waitqueue n.kernel
      some (record n {
        session = record n.session {
          remote_sequence = (p.seq + 1) % 2 ^ 32;
          remote_port = p.src_port;
          remote_ip = src_ip;
          syn_waitqueue = r.0;
        };
        kernel = r.1;
      }))
    else some n

unfoldable pub handle_ack : ℕ → Network → Option Network
handle_ack ack_number n = do
  k ← wake_up_all n.session.ack_waitqueue n.kernel
  some (record n { session = record n.session { last_ack_number = ack_number }; kernel = k })

unfoldable pub handle_rst : Network → Option Network
handle_rst n = end_connection n

unfoldable pub handle_psh : Network → Option Network
handle_psh n = do k ← wake_up_all n.session.data_push_waitqueue n.kernel; some (put_kernel k n)

-- `data.size()` is the size of the whole segment.
unfoldable pub handle_data : Segment → Network → Option Network
unfolding fill_from
handle_data p n =
    if is_buffer_available n.session (p.payload_offset + length p.payload)
    then (do
      bytes ← fill_from n.session.buffer n.session.buffer_written_pointer p.payload
      some (
          send_ack (
            put_session
              (record n.session {
                buffer = bytes;
                buffer_written_pointer =
                    (n.session.buffer_written_pointer + length p.payload) % 2 ^ 32;
                remote_sequence = (n.session.remote_sequence + length p.payload) % 2 ^ 32;
                local_window_size = n.session.local_window_size - length p.payload;
              })
              n)))
    else some n

-- What becomes of a segment: it is dropped, or it waits for the ones before it, or it is taken.
pub data Outcome : Type 0 where
  dropped waiting accepted : Network → Outcome

-- A round of `handle_out_of_order_packets`; a segment that waits comes here again.
unfoldable pub handle_out_of_order_packets : ℕ → ℕ → Network → Outcome
handle_out_of_order_packets remote_sequence data_size n =
    if not (is_established n.session.state)
    then accepted n
    else if not (is_in_order_packet n.session remote_sequence)
        && is_in_window_packet n.session remote_sequence data_size
    then waiting (send_ack n)
    else if is_in_window_packet n.session remote_sequence data_size
    then accepted n
    else dropped n

-- `handle`, up to the treatment of segments out of order.
unfoldable pub handle_begin : Segment → Network → Outcome
unfolding handle_out_of_order_packets
handle_begin p n =
    if not p.is_packet_ok
    then dropped n
    else if is_closed n.session.state
    then dropped (put_session (record n.session { remote_window_size = p.window_size }) n)
    else handle_out_of_order_packets p.seq (length p.payload)
        (put_session (record n.session { remote_window_size = p.window_size }) n)

-- `handle_fin` up to the wait of `send_fin`, and whether it comes there.
unfoldable pub handle_fin_begin : Network → Bool × Network
handle_fin_begin n = elim n.session.state [
  | fin_wait2 ↦ (false, put_state closed (send_ack (next_remote n)))
  | established ↦ (
    true,
    send_packet [] fin_flags (put_state last_ack (send_ack (next_remote (put_state close_wait n)))),
  )
  | _ ↦ (false, n)
]

-- `handle_fin` after `send_fin`, whose result it does not look at.
unfoldable pub handle_fin_end : Network → Option Network
handle_fin_end n = end_connection (put_state closed n)

abbrev pub when : Bool → (Network → Option Network) → Network → Option Network
when true f n = f n
when false f n = some n

-- `handle` of a segment that is taken, up to the wait of `send_fin`.
unfoldable pub handle_flags : ℕ → Segment → Network → Option (Bool × Network)
unfolding handle_data handle_syn handle_psh handle_rst handle_fin_begin
handle_flags src_ip p n = do
  n ← when (ltb 0 (length p.payload)) (handle_data p) n
  n ← when p.flags.syn (handle_syn src_ip p) n
  n ← when p.flags.psh handle_psh n
  n ← when p.flags.rst handle_rst n
  some (if p.flags.fin then handle_fin_begin n else (false, n))

-- `handle` from there on.
unfoldable pub handle_end : Bool → Segment → Network → Option Network
unfolding handle_ack handle_fin_end
handle_end fin_sent p n = do
  n ← when fin_sent handle_fin_end n
  n ← when p.flags.ack (handle_ack p.ack) n
  k ← wake_up_all n.session.data_waitqueue n.kernel
  some (put_kernel k n)

-- What `send_and_wait_ack` does after a wait.
pub data Sending : Type 0 where
  again connection_timeout connection_closed : Sending
  acknowledged : Network → Sending

-- The condition of the wait: no later number was acknowledged yet.
unfoldable pub ack_checker : ℕ → Session → Bool
ack_checker sent_sequence s = leb s.last_ack_number sent_sequence && not (is_closed s.state)

-- After the `retransmitions`-th transmission of `size` bytes with these flags.
unfoldable pub send_result : WaitState → ℕ → ℕ → Flags → Network → Sending
send_result timeout retransmitions size flags n =
    if retransmitions == 5 then connection_timeout else again
send_result _ retransmitions size flags n =
    if is_closed n.session.state
    then connection_closed
    else acknowledged (
        put_session
          (record n.session {
            local_sequence =
                (n.session.local_sequence
                  + (if flags.fin then 1 else if flags.syn then 1 else size))
                % 2 ^ 32;
          })
          n)
