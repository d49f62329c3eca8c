-- ===== src/Network/Tcp/Calls.antt =====
-- What the users of a TCP session call, cut at its waits: `accept`, `connect`, `close`, `send` and
-- `receive`, and `TCP::handle`, which finds the session of a segment.
use cyan_oskernel.Prelude.{
  ℕ, zero, suc, ◌+◌, ◌-◌, ◌%◌, ◌^◌, Bool, true, false, not, ◌&&◌, Option, none, some, List, [], ◌∷◌,
  ltb, ◌==◌, if◌then◌else◌, get_elem?, ◌>>=◌,
}
use cyan_oskernel.Stdlib.Bitmap
use cyan_oskernel.Tasking.WaitQueue
use cyan_oskernel.Tasking.Semaphore
use cyan_oskernel.Network.Tcp.{
  listen, syn_sent, syn_received, established, fin_wait1, is_closed, is_established, Segment,
  Session, Network, put_session, put_state, send_packet, send_ack, fin_flags, syn_flag,
  is_packet_for_me, end_connection,
}

-- The errors that a call returns, or its result.
pub data Reply : Type 0 where
  error_connection_closed error_buffer_overflow : Reply
  data_read : List ℕ → Reply

-- `wait_for_syn` by thread `t`, up to its wait.
unfoldable pub wait_for_syn_begin : ℕ → Network → Option Network
wait_for_syn_begin t n = do
  r ← Semaphore.acquire t n.session.syn_waitqueue n.kernel
  some (record n { session = record n.session { syn_waitqueue = r.0 }; kernel = r.1 })

-- `accept`, up to the wait of `wait_for_syn`.
unfoldable pub accept_begin : ℕ → ℕ → Network → Option Network
unfolding wait_for_syn_begin
accept_begin t port n =
    wait_for_syn_begin t (put_session (record n.session { local_port = port; state = listen }) n)

-- `accept` after `wait_for_syn`, up to the wait of `send_syn`: `false` is
-- the return of an error.
unfoldable pub accept_syn : Network → Option (Bool × Network)
accept_syn n =
    if is_closed n.session.state
    then (end_connection n >>= λ n'. some (false, n'))
    else some (true, send_packet [] syn_flag (put_state syn_received n))

-- `accept` and `connect` after their last wait, by whether `send_and_wait_ack` or `wait_for_syn`
-- went well.
unfoldable pub accept_end : Bool → Network → Option Network
accept_end well n = if well then some (put_state established n) else end_connection n

-- `connect`, up to the wait of `send_syn`.
unfoldable pub connect_begin : ℕ → ℕ → Network → Option Network
connect_begin ip port n = do
  p ← Bitmap.find_first_clear n.ports 0
  some (
      send_packet [] syn_flag (
        put_session
          (record n.session {
            remote_ip = ip;
            remote_port = port;
            local_port = p % 2 ^ 16;
            state = syn_sent;
          })
          n))

-- `connect` after `wait_for_syn`.
unfoldable pub connect_end : Network → Option Network
connect_end n =
    if is_closed n.session.state
    then end_connection n
    else some (put_state established (send_ack n))

-- `close`, up to the wait of `send_fin`, after which `end_connection` is called.
unfoldable pub close_begin : Network → Network
close_begin n = send_packet [] fin_flags (put_state fin_wait1 n)

-- `receive`, up to the wait of `wait_for_packet` by thread `t`.
unfoldable pub receive_begin : ℕ → Network → Option (Option Network)
receive_begin t n =
    if not (is_established n.session.state)
    then some none
    else WaitQueue.wait_start n.session.data_push_waitqueue t 0 n.kernel >>= λ r. some (
        some (record n {
          session = record n.session { buffer_start_pointer = n.session.buffer_written_pointer };
          kernel = r.1;
        }))

-- The `n` bytes of a buffer from an index on.
unfoldable pub slice : ℕ → ℕ → List ℕ → Option (List ℕ)
slice zero i bytes = some []
slice (suc n) i bytes =
    let rest = slice n (suc i) bytes in do x ← get_elem? bytes i; xs ← rest; some (x ∷ xs)

-- `receive` after its wait, into a buffer of `size` bytes.
unfoldable pub receive_end : ℕ → Network → Option (Reply × Network)
unfolding slice
receive_end size n =
    let s = n.session in
    let data_size = (s.buffer_written_pointer + 2 ^ 32 - s.buffer_start_pointer) % 2 ^ 32 in
    if is_closed s.state
    then (end_connection n >>= λ n'. some (error_connection_closed, n'))
    else if ltb size data_size
    then some (error_buffer_overflow, n)
    else if (data_size == 0) && not (is_established s.state)
    then some (error_connection_closed, n)
    else slice data_size s.buffer_start_pointer s.buffer >>= λ bytes. some (
      data_read bytes,
      put_session (record s { local_window_size = (s.local_window_size + data_size) % 2 ^ 16 }) n,
    )

-- `TCP::handle`: the index of the first session that a segment belongs to.
unfoldable pub find_session : ℕ → Segment → List Session → Option ℕ
find_session src_ip p [] = none
find_session src_ip p (s ∷ ss) =
    let rest = find_session src_ip p ss in
    if is_packet_for_me s src_ip p then some 0 else rest >>= λ i. some (suc i)
