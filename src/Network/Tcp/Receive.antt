-- ===== src/Network/Tcp/Receive.antt =====
-- The data of a segment that is taken, from the buffer to the reader.
use cyan_oskernel.Prelude.{
  ℕ, zero, suc, ◌+◌, ◌-◌, ◌%◌, ◌^◌, ◌≤◌, ◌<◌, ◌≡◌, refl, ap, ◌∙◌, none, some, List, [], ◌∷◌, arith,
  length, get_elem?, ◌++◌,
}
use cyan_oskernel.Network.Tcp.{
  established, Segment, Network, acknowledgment, put_session, send_packet, send_ack,
  is_buffer_available,
}
use cyan_oskernel.Network.Tcp.Handle.{fill, fill_from, handle_data}
use cyan_oskernel.Network.Tcp.Calls.{data_read, slice, receive_end}

length-fill : (bytes : List ℕ) (o : ℕ) (xs : List ℕ) → length (fill bytes o xs) ≡ length bytes
unfolding fill
length-fill [] o xs = refl
length-fill (b ∷ bs) zero [] = refl
length-fill (b ∷ bs) zero (x ∷ xs) = ap (λ (n : ℕ). suc n) (length-fill bs zero xs)
length-fill (b ∷ bs) (suc o) xs = ap (λ (n : ℕ). suc n) (length-fill bs o xs)

-- A filled range reads as what was filled in.
get_elem?-fill :
    (bytes : List ℕ) (o : ℕ) (xs : List ℕ) (j : ℕ)
    → o + length xs ≤ length bytes
    → j < length xs
    → get_elem? (fill bytes o xs) (o + j) ≡ get_elem? xs j
unfolding fill
get_elem?-fill [] o xs j fits lt = absurd (omega arith)
get_elem?-fill (b ∷ bs) zero [] j fits lt = absurd (omega arith)
get_elem?-fill (b ∷ bs) zero (x ∷ xs) zero fits lt = ground arith
get_elem?-fill (b ∷ bs) zero (x ∷ xs) (suc j) fits lt =
    ground (arith, get_elem?-fill bs zero xs j (omega arith) (omega arith))
get_elem?-fill (b ∷ bs) (suc o) xs j fits lt =
    let next : suc o + j ≡ suc (o + j) = omega arith in
    ap (get_elem? (b ∷ fill bs o xs)) next ∙ get_elem?-fill bs o xs j (omega arith) lt

next_index : (o j : ℕ) → suc o + j ≡ o + suc j
next_index o j = omega arith

slice_lem :
    (xs bytes : List ℕ) (o : ℕ)
    → ((j : ℕ) → j < length xs → get_elem? bytes (o + j) ≡ get_elem? xs j)
    → slice (length xs) o bytes ≡ some xs
unfolding slice
slice_lem [] bytes o same = refl
slice_lem (x ∷ xs) bytes o same =
    let start : o ≡ o + 0 = omega arith in
    let first : get_elem? bytes o ≡ some x = ap (get_elem? bytes) start ∙ same 0 (omega arith) in
    let next = λ (j : ℕ). next_index o j in
    rw
      (slice_lem xs bytes (suc o)
        (λ j lt. ap (get_elem? bytes) (next j) ∙ same (suc j) (omega arith)))
      (rw first refl)

-- The session after the data of a segment is stored.
abbrev pub stored : Segment → Network → Network
stored p n =
    put_session
      (record n.session {
        buffer = fill n.session.buffer n.session.buffer_written_pointer p.payload;
        buffer_written_pointer = (n.session.buffer_written_pointer + length p.payload) % 2 ^ 32;
        remote_sequence = (n.session.remote_sequence + length p.payload) % 2 ^ 32;
        local_window_size = n.session.local_window_size - length p.payload;
      })
      n

module _ (p : Segment) (n : Network)
    (window : p.payload_offset + length p.payload ≤ n.session.local_window_size) where
  store_lem :
      n.session.buffer_written_pointer + length p.payload ≤ length n.session.buffer
      → handle_data p n ≡ some (send_ack (stored p n))
  unfolding handle_data is_buffer_available fill_from send_packet
  store_lem fits = ground arith

  -- Where the bytes written so far, read or not, and the payload come to more than the buffer, a
  -- segment that the window lets in fails the ASSERT of `fill_from`.
  pub handle_data_exhausted :
      length n.session.buffer < n.session.buffer_written_pointer + length p.payload
      → handle_data p n ≡ none
  unfolding handle_data is_buffer_available fill_from
  handle_data_exhausted full = ground arith

  -- In an established session, where the window and the rest of the buffer have room for a segment,
  -- a reader that started at the written end and has room for the payload is given exactly its payload, and the window is as
  -- large as before; one packet was sent, the acknowledgment with the number of the byte after the
  -- payload.
  pub receive_end-handle_data :
      (size : ℕ)
      → n.session.state ≡ established
      → n.session.buffer_start_pointer ≡ n.session.buffer_written_pointer
      → n.session.buffer_written_pointer + length p.payload ≤ length n.session.buffer
      → length n.session.buffer < 2 ^ 32
      → n.session.local_window_size < 2 ^ 16
      → length p.payload ≤ size
      → (n' : Network) × (handle_data p n ≡ some n')
        × (n'.session.remote_sequence ≡ (n.session.remote_sequence + length p.payload) % 2 ^ 32)
        × (n'.sent ≡ n.sent ++ acknowledgment n'.session ∷ [])
        × (receive_end size n'
            ≡ some (
              data_read p.payload,
              put_session
                  (record n'.session { local_window_size = n.session.local_window_size })
                  n',
            ))
  unfolding receive_end send_packet
  receive_end-handle_data size e start fits small narrow room =
      let s = n.session in
      let bytes = fill s.buffer s.buffer_written_pointer p.payload in
      let read : slice (length p.payload) s.buffer_written_pointer bytes ≡ some p.payload =
        slice_lem p.payload bytes s.buffer_written_pointer
          (λ j lt. get_elem?-fill s.buffer s.buffer_written_pointer p.payload j fits lt) in
      (send_ack (stored p n), store_lem fits, refl, refl, ground (arith, read))
