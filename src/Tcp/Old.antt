-- ===== src/Tcp/Old.antt =====
-- net/tcp.c: segments with an old sequence number, or an acknowledgement that is not new.
use levos.Base.{ℕ, ◌≡◌, ◌≤◌, ◌<◌, ◌⊎◌, inl, inr, refl, true, false, [], ◌∷◌, ◌++◌, arith}
use levos.Base.{add32, Bool-cases, leb, ltb, leb→le}
use levos.Tcp.State.{Segment, Net, is_ack, ack_flag, payload_size}
use levos.Tcp.Send.{__tcp_send_packet, tcp_ack_packet, __tcp_ack_packet}
use levos.Tcp.Receive.{tcp_cond_ack, handle_segment, Rc}

-- At most one segment is sent, a bare acknowledgement of all that came, and nothing else is changed but
-- the sequence number, by none.
pub record Refused (s : Segment) (n : Net) (out : Net × Rc) : Type 0 where
  pub code : out.1 ≡ Rc.drop
  pub ring : out.0.ti.rb ≡ n.ti.rb
  pub next_ack : out.0.ti.next_ack ≡ n.ti.next_ack
  pub next_seq : out.0.ti.next_seq ≡ n.ti.next_seq
  pub unack : out.0.ti.unack ≡ n.ti.unack
  pub state : out.0.ti.tcp_state ≡ n.ti.tcp_state
  pub retransmit : out.0.ti.retransmit_work ≡ n.ti.retransmit_work
  pub sent :
      (out.0.sent ≡ n.sent)
      ⊎ (out.0.sent
          ≡ n.sent
            ++ (record {
              seq = n.ti.next_seq;
              ack = add32 s.seq (payload_size s);
              flags = ack_flag;
              payload = [];
            }
                ∷ []))

add32-zero : (a : ℕ) → a < 0x100000000 → add32 a 0 ≡ a
add32-zero a h = omega arith

tcp_ack_packet-Refused :
    (s : Segment) (n : Net)
    → n.ti.next_seq < 0x100000000
    → Refused s n (tcp_ack_packet s n, Rc.drop)
unfolding tcp_ack_packet __tcp_ack_packet __tcp_send_packet
tcp_ack_packet-Refused s n h = record {
  code = refl;
  ring = ground arith;
  next_ack = ground arith;
  next_seq = ground (arith, add32-zero n.ti.next_seq);
  unack = ground arith;
  state = ground arith;
  retransmit = ground arith;
  sent = ground arith;
}

same-Refused : (s : Segment) (n : Net) → Refused s n (n, Rc.drop)
same-Refused s n = record {
  code = refl;
  ring = refl;
  next_ack = refl;
  next_seq = refl;
  unack = refl;
  state = refl;
  retransmit = refl;
  sent = inl refl;
}

tcp_cond_ack-Refused :
    (s : Segment) (n : Net) → n.ti.next_seq < 0x100000000 → Refused s n (tcp_cond_ack s n, Rc.drop)
unfolding tcp_cond_ack
tcp_cond_ack-Refused s n h = ground (arith, tcp_ack_packet-Refused s n h, same-Refused s n)

-- A segment that begins before the next expected byte, or whose acknowledgement is not beyond the
-- last one, is dropped: ring, state, sequence numbers and retransmission stay as they were, and at
-- most one bare acknowledgement is sent. The next sequence number is a 32-bit word.
pub handle_segment-Refused :
    (s : Segment) (n : Net)
    → n.ti.next_seq < 0x100000000
    → (s.seq < n.ti.next_ack) ⊎ ((is_ack s ≡ true) × (s.ack ≤ n.ti.unack))
    → Refused s n (handle_segment s n)
unfolding handle_segment
handle_segment-Refused s n small old = elim (Bool-cases (leb n.ti.next_ack s.seq)) [
  | inl e ↦ rw (e, is_acked e, not_new e) (tcp_cond_ack-Refused s n small)
  | inr e ↦ rw e (tcp_cond_ack-Refused s n small)
]
  where
    is_acked : leb n.ti.next_ack s.seq ≡ true → is_ack s ≡ true
    is_acked e = ground (arith, leb→le n.ti.next_ack s.seq e)

    not_new : leb n.ti.next_ack s.seq ≡ true → ltb n.ti.unack s.ack ≡ false
    not_new e = ground (arith, leb→le n.ti.next_ack s.seq e)
