-- ===== src/Network/Tcp/Tests.antt =====
-- The theorems of a TCP session, at a concrete session.
use cyan_oskernel.Prelude.{
  ℕ, ◌≡◌, refl, true, false, none, some, List, [], ◌∷◌, arith, ◌==◌, if◌then◌else◌,
}
use cyan_oskernel.Stdlib.Bitmap
use cyan_oskernel.Stdlib.Bitmap.Range.{bit, construct-IsValid}
use cyan_oskernel.Tasking.Thread.{Kernel}
use cyan_oskernel.Tasking.Thread.Lists.{count}
use cyan_oskernel.Tasking.Thread.Inv.{Inv, blocked_count, entry_count}
use cyan_oskernel.Prelude.{pos}
use cyan_oskernel.Tasking.Semaphore.Balance.{pending}
use cyan_oskernel.Network.Tcp.{
  established, closed, Segment, Session, Network, acknowledgment, put_session, ack_flag,
  end_connection,
}
use cyan_oskernel.Network.Tcp.Handle.{handle_data}
use cyan_oskernel.Network.Tcp.Calls.{data_read, receive_end}
use cyan_oskernel.Network.Tcp.Close.{end_connection-Inv}
use cyan_oskernel.Network.Tcp.Receive.{receive_end-handle_data}

abbrev no_threads : Kernel
no_threads = record {
  thread = λ t. none;
  list = λ l. [];
  ticks = 0;
  entries = λ q. [];
  tid_bitmap = λ t. false;
}

no_threads-Inv : Inv no_threads
unfolding count blocked_count entry_count
no_threads-Inv = record {
  members = λ t l. refl;
  homes = λ t. ground arith;
  single = λ t q. ground arith;
  waiting = λ t q. ground arith;
}

-- A session with a buffer of four bytes, of which three are written.
abbrev session : Session
session = record {
  state = established;
  syn_waitqueue = record { count = pos 0; wait_queue = 1 };
  ack_waitqueue = 2;
  data_push_waitqueue = 3;
  data_waitqueue = 4;
  remote_ip = 10;
  buffer = 1 ∷ 2 ∷ 3 ∷ 0 ∷ [];
  buffer_start_pointer = 3;
  buffer_written_pointer = 3;
  remote_sequence = 100;
  local_sequence = 7;
  last_ack_number = 7;
  local_port = 5;
  remote_port = 80;
  local_window_size = 40;
  remote_window_size = 1;
}

abbrev network : Network
network = record { session = session; kernel = no_threads; ports = Bitmap.construct 20; sent = [] }

abbrev segment : List ℕ → Segment
segment payload = record {
  is_packet_ok = true;
  src_port = 80;
  dest_port = 5;
  seq = 100;
  ack = 7;
  flags = ack_flag;
  window_size = 9;
  payload_offset = 20;
  payload = payload;
}

end_connection-Inv_example :
    (n' : Network) × (end_connection network ≡ some n')
    × Inv n'.kernel
    × (n'.session.state ≡ closed)
    × (n'.sent ≡ [])
    × ((p : ℕ)
        → bit n'.ports.bitmap_data p ≡ (if p == 5 then false else bit network.ports.bitmap_data p))
unfolding pending Bitmap.construct
end_connection-Inv_example =
    end_connection-Inv network no_threads-Inv refl refl (construct-IsValid 20 (omega arith)).0
      (omega arith)

abbrev ended : Network
ended = put_session (record session { state = closed }) network

receive_end-handle_data_example :
    (n' : Network) × (handle_data (segment (9 ∷ [])) network ≡ some n')
    × (n'.session.remote_sequence ≡ 101)
    × (n'.sent ≡ acknowledgment n'.session ∷ [])
    × (receive_end 2 n'
        ≡ some (data_read (9 ∷ []), put_session (record n'.session { local_window_size = 40 }) n'))
receive_end-handle_data_example =
    receive_end-handle_data (segment (9 ∷ [])) network (omega arith) 2 refl refl (omega arith)
      (omega arith) (omega arith) (omega arith)
