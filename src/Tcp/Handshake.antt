-- ===== src/Tcp/Handshake.antt =====
-- net/tcp.c: the three-way handshake, from `tcp_conn_start` on.
use levos.Base.{alloc_ok, ℕ, ◌≡◌, ◌<◌, refl, Bool, true, false, List, [], ◌∷◌, arith}
use levos.Base.{Option, none, some, add32, leb, lt→ltb, subst, sym}
use levos.Tcp.State.{Segment, Net, Conn, is_ack, is_syn, is_rst, ack_flag, syn_flag, syn_sent}
use levos.Tcp.State.{tcp_cancel_retransmission, tcp_do_fail}
use levos.Tcp.Send.{__tcp_send_packet, tcp_send_packet, tcp_reset_connection}
use levos.Tcp.Receive.{
  handle_segment, reset_or_dispatch, acknowledge, dispatch, tcp_handle_packet_synsent,
}
use levos.Tcp.Connect.{tcp_conn_start, tcp_conn_result, started}

abbrev one : Option ℕ → List ℕ
one none = []
one (some w) = w ∷ []

-- What is left of the state after the SYN.
record Opening (rt : Option ℕ) (n : Net) : Type 0 where
  state : n.ti.tcp_state ≡ syn_sent
  next_ack : n.ti.next_ack ≡ 0
  next_seq : n.ti.next_seq ≡ 0
  unack : n.ti.unack ≡ 0
  retransmit : n.ti.retransmit_work ≡ rt
  sent : n.sent ≡ record { seq = 0; ack = 0; flags = syn_flag; payload = [] } ∷ []
  cancelled : n.cancelled ≡ []

started-Opening :
    (old : Conn) (storage : Option (List ℕ)) (used : Bool) (rt : Option ℕ) (allocs : List Bool)
    (srcport dstip dstport : ℕ) (n : Net)
    → tcp_conn_start (some old) storage used rt allocs srcport dstip dstport ≡ started n
    → Opening rt n
unfolding tcp_conn_start tcp_send_packet __tcp_send_packet
started-Opening old storage used rt allocs srcport dstip dstport n e = ground arith

-- What `tcp_conn_start` sees after the answer: 0 with both segments sent and the sequence numbers of
-- the two sides set, or the failure code.
pub record Established (rt : Option ℕ) (s : Segment) (n : Net) : Type 0 where
  pub result : tcp_conn_result n.ti ≡ some 0
  pub next_ack : n.ti.next_ack ≡ add32 s.seq 1
  pub next_seq : n.ti.next_seq ≡ 1
  pub retransmit : n.ti.retransmit_work ≡ none
  pub cancelled : n.cancelled ≡ one rt
  pub sent :
      n.sent
      ≡ record { seq = 0; ack = 0; flags = syn_flag; payload = [] }
        ∷ record { seq = 1; ack = add32 s.seq 1; flags = ack_flag; payload = [] }
        ∷ []

abbrev pub Answered : Option ℕ → Segment → List Bool → Net → Type 0
Answered rt s allocs m =
    (is_rst s ≡ true → tcp_conn_result m.ti ≡ some 111)
    × (is_rst s ≡ false → is_syn s ≡ true → alloc_ok allocs ≡ true → Established rt s m)
    × (is_rst s ≡ false
        → is_syn s ≡ false
        → alloc_ok allocs ≡ true
        → tcp_conn_result m.ti ≡ some 104)
    × (is_rst s ≡ false → alloc_ok allocs ≡ false → tcp_conn_result m.ti ≡ none)

first-accepted :
    (s : Segment) (n : Net)
    → n.ti.next_ack ≡ 0
    → n.ti.unack ≡ 0
    → is_ack s ≡ true
    → 0 < s.ack
    → handle_segment s n ≡ reset_or_dispatch s (acknowledge s n)
unfolding handle_segment
first-accepted s n a u ack pos = rw (a, u, ack, lt→ltb 0 s.ack pos, leb-zero) refl
  where
    leb-zero : leb 0 s.seq ≡ true
    leb-zero = ground arith

reset_or_dispatch-Answered :
    (rt : Option ℕ) (s : Segment) (n : Net)
    → n.ti.tcp_state ≡ syn_sent
    → is_ack s ≡ true
    → n.ti.retransmit_work ≡ none
    → n.cancelled ≡ one rt
    → n.sent ≡ record { seq = 0; ack = 0; flags = syn_flag; payload = [] } ∷ []
    → Answered rt s n.allocs (reset_or_dispatch s n).0
unfolding dispatch tcp_handle_packet_synsent __tcp_send_packet tcp_conn_result tcp_reset_connection
    tcp_do_fail
reset_or_dispatch-Answered rt s n st ack none_left done sent = (
  (λ rst. ground arith),
  (λ rst syn ok. record {
    result = ground arith;
    next_ack = ground arith;
    next_seq = ground arith;
    retransmit = ground arith;
    cancelled = ground arith;
    sent = ground arith;
  }),
  (λ rst syn ok. ground arith),
  (λ rst ok. ground arith),
)

record AfterAck (rt : Option ℕ) (n m : Net) : Type 0 where
  allocs : m.allocs ≡ n.allocs
  state : m.ti.tcp_state ≡ syn_sent
  retransmit : m.ti.retransmit_work ≡ none
  cancelled : m.cancelled ≡ one rt
  sent : m.sent ≡ record { seq = 0; ack = 0; flags = syn_flag; payload = [] } ∷ []

acknowledge-AfterAck :
    (rt : Option ℕ) (s : Segment) (n : Net) → Opening rt n → AfterAck rt n (acknowledge s n)
unfolding tcp_cancel_retransmission
acknowledge-AfterAck none s n o = ground arith
acknowledge-AfterAck (some w) s n o = ground arith

acknowledged :
    (rt : Option ℕ) (s : Segment) (n : Net)
    → Opening rt n
    → is_ack s ≡ true
    → Answered rt s n.allocs (reset_or_dispatch s (acknowledge s n)).0
acknowledged rt s n o ack =
    let f : AfterAck rt n (acknowledge s n) = acknowledge-AfterAck rt s n o in
    subst (λ al. Answered rt s al (reset_or_dispatch s (acknowledge s n)).0) f.allocs
      (reset_or_dispatch-Answered rt s (acknowledge s n) f.state ack f.retransmit f.cancelled
        f.sent)

-- The handshake. After `tcp_conn_start` has sent the SYN, the first segment with ACK (and an
-- acknowledgement that is not 0) decides the call: RST makes it return ECONNREFUSED; SYN makes it return
-- 0, with an ACK of the peer's sequence number plus 1 sent, the sequence numbers synchronised and the
-- retransmission of the SYN cancelled; neither makes it return ECONNRESET. It goes on waiting only if
-- there is no memory for the segment to be sent.
pub tcp_conn_start-Answered :
    (old : Conn) (storage : Option (List ℕ)) (used : Bool) (rt : Option ℕ) (allocs : List Bool)
    (srcport dstip dstport : ℕ) (n : Net) (s : Segment)
    → tcp_conn_start (some old) storage used rt allocs srcport dstip dstport ≡ started n
    → is_ack s ≡ true
    → 0 < s.ack
    → Answered rt s n.allocs (handle_segment s n).0
tcp_conn_start-Answered old storage used rt allocs srcport dstip dstport n s e ack pos =
    let o : Opening rt n = started-Opening old storage used rt allocs srcport dstip dstport n e in
    subst (λ out. Answered rt s n.allocs out.0)
      (sym (first-accepted s n o.next_ack o.unack ack pos)) (acknowledged rt s n o ack)
