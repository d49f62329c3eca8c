-- ===== src/Network/Tcp.antt =====
-- `kernel/network/transport_layer/tcp.cpp` and `tcp.h`: a TCP session. A received segment is taken
-- with its header already in the byte order of the host, and with whether its checksum is right;
-- what a session sends is the sequence of its packets. Where the source waits, a function ends, and
-- the next one goes on from there. Sequence numbers are 32 bits wide, ports and windows 16.
-- `none` is a failed ASSERT, of the buffer or of the threads and queues under it.
pub mod Calls
pub mod Handle
pub mod Close
pub mod Receive
mod Tests
use cyan_oskernel.Prelude.{
  ℕ, zero, suc, ◌+◌, ◌-◌, ◌%◌, ◌^◌, Bool, true, false, not, ◌&&◌, ◌||◌, Option, none, some, List,
  [], ◌∷◌, ◌++◌, leb, ltb, ◌==◌, if◌then◌else◌, length, replicate, ◌>>=◌, ◌>>◌, assert,
}
use cyan_oskernel.Stdlib.Bitmap
use cyan_oskernel.Stdlib.Bitmap.{Bitmap}
use cyan_oskernel.Tasking.Thread.{Kernel}
use cyan_oskernel.Tasking.WaitQueue.{wake_up_all}
use cyan_oskernel.Tasking.Semaphore
use cyan_oskernel.Tasking.Semaphore.{Semaphore}

-- `TCPSession::State`.
pub data State : Type 0 where
  listen syn_sent syn_received established fin_wait1 fin_wait2 close_wait last_ack time_wait
        closed :
      State

abbrev pub is_closed : State → Bool
is_closed closed = true
is_closed _ = false

abbrev pub is_established : State → Bool
is_established established = true
is_established _ = false

-- The states in which a SYN is expected.
abbrev pub expects_syn : State → Bool
expects_syn listen = true
expects_syn syn_sent = true
expects_syn _ = false

-- `TCPSession::FLAGS`.
pub record Flags : Type 0 where
  pub fin : Bool
  pub syn : Bool
  pub rst : Bool
  pub psh : Bool
  pub ack : Bool

-- A segment: the header, the length of the header in bytes, and the payload.
pub record Segment : Type 0 where
  pub is_packet_ok : Bool
  pub src_port : ℕ
  pub dest_port : ℕ
  pub seq : ℕ
  pub ack : ℕ
  pub flags : Flags
  pub window_size : ℕ
  pub payload_offset : ℕ
  pub payload : List ℕ

pub record Session : Type 0 where
  pub state : State
  pub syn_waitqueue : Semaphore
  pub ack_waitqueue : ℕ
  pub data_push_waitqueue : ℕ
  pub data_waitqueue : ℕ
  pub remote_ip : ℕ
  pub buffer : List ℕ
  pub buffer_start_pointer : ℕ
  pub buffer_written_pointer : ℕ
  pub remote_sequence : ℕ
  pub local_sequence : ℕ
  pub last_ack_number : ℕ
  pub local_port : ℕ
  pub remote_port : ℕ
  pub local_window_size : ℕ
  pub remote_window_size : ℕ

-- A packet as `send_packet` builds it.
pub record Packet : Type 0 where
  pub to_ip : ℕ
  pub from_port : ℕ
  pub to_port : ℕ
  pub sequence : ℕ
  pub acknowledged : ℕ
  pub flags : Flags
  pub window : ℕ
  pub content : List ℕ

-- A session with what it works on: the threads and their queues, the ports of the sessions, and the
-- packets that were sent.
pub record Network : Type 0 where
  pub session : Session
  pub kernel : Kernel
  pub ports : Bitmap
  pub sent : List Packet

abbrev pub max_window_size : ℕ
max_window_size = 8000

abbrev pub no_flags : Flags
no_flags = record { fin = false; syn = false; rst = false; psh = false; ack = false }

abbrev pub ack_flag : Flags
ack_flag = record no_flags { ack = true }

-- `FIN | ACK`, as `send_fin` sends it.
abbrev pub fin_flags : Flags
fin_flags = record no_flags { fin = true; ack = true }

abbrev pub syn_flag : Flags
syn_flag = record no_flags { syn = true }

-- The packet that says, without data, that everything before the session's remote number has come.
abbrev pub acknowledgment : Session → Packet
acknowledgment s = record {
  to_ip = s.remote_ip;
  from_port = s.local_port;
  to_port = s.remote_port;
  sequence = s.local_sequence;
  acknowledged = s.remote_sequence;
  flags = ack_flag;
  window = s.local_window_size;
  content = [];
}

abbrev pub put_session : Session → Network → Network
put_session s n = record n { session = s }

abbrev pub put_kernel : Kernel → Network → Network
put_kernel k n = record n { kernel = k }

abbrev pub put_state : State → Network → Network
put_state st n = record n { session = record n.session { state = st } }

-- Nothing in `send_packet` fails.
unfoldable pub send_packet : List ℕ → Flags → Network → Network
send_packet content flags n = record n {
  sent =
      n.sent
      ++ record {
        to_ip = n.session.remote_ip;
        from_port = n.session.local_port;
        to_port = n.session.remote_port;
        sequence = n.session.local_sequence;
        acknowledged = n.session.remote_sequence;
        flags = flags;
        window = n.session.local_window_size;
        content = content;
      }
        ∷ [];
}

abbrev pub send_ack : Network → Network
send_ack n = send_packet [] ack_flag n

-- `m_remote_sequence++`.
abbrev pub next_remote : Network → Network
next_remote n = record n {
  session = record n.session { remote_sequence = (n.session.remote_sequence + 1) % 2 ^ 32 };
}

unfoldable pub is_in_order_packet : Session → ℕ → Bool
is_in_order_packet s remote_sequence = s.remote_sequence == remote_sequence

unfoldable pub is_in_window_packet : Session → ℕ → ℕ → Bool
is_in_window_packet s new_remote_sequence data_size =
    leb ((data_size + new_remote_sequence + 2 ^ 32 - s.remote_sequence) % 2 ^ 32)
      s.local_window_size

unfoldable pub is_buffer_available : Session → ℕ → Bool
is_buffer_available s requested_size = leb requested_size s.local_window_size

unfoldable pub is_packet_for_me : Session → ℕ → Segment → Bool
is_packet_for_me s ip p = elim s.state [
  | closed ↦ false
  | listen ↦ p.dest_port == s.local_port
  | _ ↦ (p.dest_port == s.local_port) && (p.src_port == s.remote_port) && (ip == s.remote_ip)
]

unfoldable pub end_connection : Network → Option Network
end_connection n = do
  r ← Semaphore.release n.session.syn_waitqueue n.kernel
  k ← wake_up_all n.session.ack_waitqueue r.1
  k ← wake_up_all n.session.data_waitqueue k
  k ← wake_up_all n.session.data_push_waitqueue k
  ports ← Bitmap.clear_one n.ports n.session.local_port
  some (record {
    session = record n.session { state = closed; syn_waitqueue = r.0 };
    kernel = k;
    ports = ports;
    sent = n.sent;
  })
