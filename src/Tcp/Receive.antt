-- ===== src/Tcp/Receive.antt =====
-- net/tcp.c: what a connection does with a received segment.
use levos.Base.{ℕ, ◌+◌, Bool, true, false, ◌&&◌, ◌||◌, [], Option, none, some}
use levos.Base.{if◌then◌else◌, add32, sub32, ltb, leb, take}
use levos.Ring
use levos.Ring.{Ring, Moved}
use levos.Tcp.State.{TiState, closed, syn_sent, estab, close_wait, last_ack, Segment, Net}
use levos.Tcp.State.{is_fin, is_syn, is_rst, is_ack, fin_flag, ack_flag, payload_size, set_state}
use levos.Tcp.State.{tcp_do_fail, tcp_cancel_retransmission}
use levos.Tcp.Send.{with_packet, __tcp_send_packet, tcp_ack_packet, tcp_reset_connection}

-- PACKET_DROP and PACKET_HANDLED; a path without a `return` value gives `unspecified`.
pub data Rc : Type 0 where
  drop handled unspecified : Rc

abbrev pub synchronize : Segment → Net → Net
synchronize s n = record n {
  ti = record (n.ti) { next_ack = add32 s.seq 1; unack = 0; next_seq = 1 };
}

unfoldable pub tcp_handle_packet_synsent : Segment → Net → Net × Rc
unfolding __tcp_send_packet tcp_reset_connection
tcp_handle_packet_synsent s n =
    if is_syn s
    then (if is_ack s
        then with_packet (synchronize s n)
            (λ m. (set_state estab (__tcp_send_packet ack_flag m.ti.next_ack [] m), unspecified))
            (λ m. (m, drop))
        else (tcp_reset_connection n, unspecified))
    else (tcp_reset_connection n, unspecified)

-- TCP_BUFFER_SIZE
abbrev pub tcp_buffer_size : ℕ
tcp_buffer_size = 16384

-- The ring of a connection is non-blocking, so the write returns.
abbrev pub ring_of : Moved → Ring
ring_of (Moved.done n rb) = rb
ring_of (Moved.spin n rb) = rb

-- `ti->ti_next_ack += payload_len`
abbrev pub advance_ack : ℕ → Net → Net
advance_ack k n = record n { ti = record (n.ti) { next_ack = add32 n.ti.next_ack k } }

abbrev pub store_payload : Segment → Net → Net
store_payload s n = record n {
  ti = record (n.ti) { rb = ring_of (Ring.write n.ti.rb (take (payload_size s) s.payload)) };
}

-- `payload_len > 0` on `int`; the flag is `acked`.
unfoldable pub take_payload : Segment → Net → Net × Bool
unfolding tcp_ack_packet payload_size
take_payload s n =
    if ltb 0 (payload_size s) && ltb (payload_size s) 0x80000000
    then (if ltb (Ring.ring_size n.ti.rb + payload_size s) tcp_buffer_size
        then (advance_ack (payload_size s) (tcp_ack_packet s (store_payload s n)), true)
        else (advance_ack (payload_size s) (tcp_ack_packet s n), false))
    else (n, false)

-- The FIN branch: acknowledge it, go to CLOSE_WAIT, send a FIN, go to LAST_ACK.
unfoldable pub take_fin : Net → Net × Rc
unfolding __tcp_send_packet
take_fin n =
    with_packet (advance_ack 1 n)
      (λ m.
        with_packet (set_state close_wait (__tcp_send_packet ack_flag m.ti.next_ack [] m))
          (λ k. (set_state last_ack (__tcp_send_packet fin_flag k.ti.next_ack [] k), handled))
          (λ k. (k, drop)))
      (λ m. (m, drop))

abbrev pub after_payload : Segment → Net × Bool → Net × Rc
after_payload s (n, acked) = if is_fin s then take_fin n else (n, if acked then handled else drop)

unfoldable pub tcp_handle_packet_estab : Segment → Net → Net × Rc
unfolding tcp_handle_packet_synsent take_payload take_fin
tcp_handle_packet_estab s n =
    if is_ack s
    then (if is_syn s then tcp_handle_packet_synsent s n else after_payload s (take_payload s n))
    else after_payload s (n, false)

unfoldable pub tcp_handle_packet_lastack : Segment → Net → Net × Rc
unfolding tcp_reset_connection
tcp_handle_packet_lastack s n = if is_ack s then (n, handled) else (tcp_reset_connection n, handled)

unfoldable pub tcp_cond_ack : Segment → Net → Net
unfolding tcp_ack_packet payload_size
tcp_cond_ack s n =
    if is_fin s || is_syn s
    then tcp_ack_packet s n
    else if ltb 0 (payload_size s)
    then tcp_ack_packet s n
    else n

-- the switch over the state
unfoldable pub dispatch : TiState → Segment → Net → Net × Rc
unfolding tcp_handle_packet_synsent tcp_handle_packet_estab tcp_handle_packet_lastack
dispatch closed s n = (n, drop)
dispatch syn_sent s n = tcp_handle_packet_synsent s n
dispatch estab s n = tcp_handle_packet_estab s n
dispatch last_ack s n = tcp_handle_packet_lastack s n
dispatch other s n = (n, unspecified)

abbrev pub is_syn_sent : TiState → Bool
is_syn_sent syn_sent = true
is_syn_sent other = false

-- ECONNREFUSED is 111, ECONNRESET 104.
abbrev pub reset_or_dispatch : Segment → Net → Net × Rc
reset_or_dispatch s n =
    if is_rst s
    then (
      record n { ti = tcp_do_fail (if is_syn_sent n.ti.tcp_state then 111 else 104) n.ti },
      handled,
    )
    else dispatch n.ti.tcp_state s n

-- `ti->ti_unack = ack - 1` and the end of the retransmission
abbrev pub acknowledge : Segment → Net → Net
acknowledge s n =
    tcp_cancel_retransmission (record n { ti = record (n.ti) { unack = sub32 s.ack 1 } })

-- `tcp_handle_packet`, for the connection that was found
unfoldable pub handle_segment : Segment → Net → Net × Rc
unfolding tcp_cond_ack dispatch tcp_do_fail tcp_cancel_retransmission
handle_segment s n =
    if leb n.ti.next_ack s.seq
    then (if is_ack s
        then (if ltb n.ti.unack s.ack
            then reset_or_dispatch s (acknowledge s n)
            else (tcp_cond_ack s n, drop))
        else reset_or_dispatch s n)
    else (tcp_cond_ack s n, drop)

-- `found`: the answer of the hash table for the segment's destination port
unfoldable pub tcp_handle_packet : Segment → Option Net → Option Net × Rc
unfolding handle_segment
tcp_handle_packet s none = (none, drop)
tcp_handle_packet s (some n) = let (m, rc) = handle_segment s n in (some m, rc)
