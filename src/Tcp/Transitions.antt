-- ===== src/Tcp/Transitions.antt =====
-- net/tcp.c: the states of a connection before and after a segment.
use levos.Base.{◌≡◌, ◌⊎◌, inl, inr, refl, true, false, ◌∙◌, arith, Bool-cases}
use levos.Base.{ap, leb, ltb, sym, subst}
use levos.Tcp.State.{TiState, closed, syn_sent, estab, close_wait, last_ack, Segment, Net}
use levos.Tcp.State.{is_fin, is_syn, is_rst, is_ack, tcp_cancel_retransmission, tcp_do_fail}
use levos.Tcp.Send.{__tcp_send_packet, tcp_ack_packet, __tcp_ack_packet, tcp_reset_connection}
use levos.Tcp.Receive.{
  tcp_handle_packet_synsent, tcp_handle_packet_estab, tcp_handle_packet_lastack,
}
use levos.Tcp.Receive.{
  take_payload, take_fin, tcp_cond_ack, dispatch, reset_or_dispatch, acknowledge,
}
use levos.Tcp.Receive.{handle_segment, Rc, store_payload}

-- The state `a` and the next one `b`: the same; established by a SYN with ACK; closed by a RST; refused
-- because the handshake's answer was no SYN with ACK; closed by the peer's FIN, as far as CLOSE_WAIT
-- if the FIN of our own could not be built; reset because a segment without ACK came in LAST_ACK.
pub data Step (s : Segment) (a b : TiState) : Type 0 where
  same : b ≡ a → Step s a b
  established : a ≡ syn_sent → b ≡ estab → is_syn s ≡ true → is_ack s ≡ true → Step s a b
  reset : b ≡ closed → is_rst s ≡ true → Step s a b
  refused : a ≡ syn_sent → b ≡ closed → (is_syn s ≡ false) ⊎ (is_ack s ≡ false) → Step s a b
  half : a ≡ estab → b ≡ close_wait → is_fin s ≡ true → Step s a b
  finished : a ≡ estab → b ≡ last_ack → is_fin s ≡ true → Step s a b
  aborted : a ≡ last_ack → b ≡ closed → is_ack s ≡ false → Step s a b

state-tcp_ack_packet : (s : Segment) (n : Net) → (tcp_ack_packet s n).ti.tcp_state ≡ n.ti.tcp_state
unfolding tcp_ack_packet __tcp_ack_packet __tcp_send_packet
state-tcp_ack_packet s n = ground arith

pub state-tcp_cond_ack : (s : Segment) (n : Net) → (tcp_cond_ack s n).ti.tcp_state ≡ n.ti.tcp_state
unfolding tcp_cond_ack
state-tcp_cond_ack s n = ground (arith, state-tcp_ack_packet s n)

pub state-acknowledge : (s : Segment) (n : Net) → (acknowledge s n).ti.tcp_state ≡ n.ti.tcp_state
unfolding tcp_cancel_retransmission
state-acknowledge s n = ground arith

state-take_payload : (s : Segment) (n : Net) → (take_payload s n).0.ti.tcp_state ≡ n.ti.tcp_state
unfolding take_payload
state-take_payload s n =
    ground (arith, state-tcp_ack_packet s n, state-tcp_ack_packet s (store_payload s n))

pub state-tcp_reset_connection :
    (n : Net)
    → ((tcp_reset_connection n).ti.tcp_state ≡ closed)
      ⊎ ((tcp_reset_connection n).ti.tcp_state ≡ n.ti.tcp_state)
unfolding tcp_reset_connection tcp_do_fail __tcp_send_packet
state-tcp_reset_connection n = ground arith

state-take_fin :
    (n : Net)
    → ((take_fin n).0.ti.tcp_state ≡ n.ti.tcp_state)
      ⊎ ((take_fin n).0.ti.tcp_state ≡ close_wait)
      ⊎ ((take_fin n).0.ti.tcp_state ≡ last_ack)
unfolding take_fin __tcp_send_packet
state-take_fin n = ground arith

state-synsent :
    (s : Segment) (n : Net)
    → let b : TiState = (tcp_handle_packet_synsent s n).0.ti.tcp_state in
      ((b ≡ estab) × (is_syn s ≡ true) × (is_ack s ≡ true))
      ⊎ ((b ≡ closed) × ((is_syn s ≡ false) ⊎ (is_ack s ≡ false)))
      ⊎ (b ≡ n.ti.tcp_state)
unfolding tcp_handle_packet_synsent __tcp_send_packet
state-synsent s n = ground (arith, state-tcp_reset_connection n)

state-estab :
    (s : Segment) (n : Net)
    → n.ti.tcp_state ≡ estab
    → let b : TiState = (tcp_handle_packet_estab s n).0.ti.tcp_state in
      (b ≡ estab) ⊎ ((is_fin s ≡ true) × ((b ≡ close_wait) ⊎ (b ≡ last_ack)))
unfolding tcp_handle_packet_estab
state-estab s n e = ground (
  arith,
  state-synsent s n,
  state-take_payload s n,
  state-take_fin n,
  state-take_fin (take_payload s n).0,
)

state-lastack :
    (s : Segment) (n : Net)
    → let b : TiState = (tcp_handle_packet_lastack s n).0.ti.tcp_state in
      (b ≡ n.ti.tcp_state) ⊎ ((b ≡ closed) × (is_ack s ≡ false))
unfolding tcp_handle_packet_lastack
state-lastack s n = ground (arith, state-tcp_reset_connection n)

Step-of_synsent :
    (s : Segment) (b : TiState)
    → ((b ≡ estab) × (is_syn s ≡ true) × (is_ack s ≡ true))
      ⊎ ((b ≡ closed) × ((is_syn s ≡ false) ⊎ (is_ack s ≡ false)))
      ⊎ (b ≡ syn_sent)
    → Step s syn_sent b
Step-of_synsent s b (inl (e, syn, ack)) = established refl e syn ack
Step-of_synsent s b (inr (inl (e, h))) = refused refl e h
Step-of_synsent s b (inr (inr e)) = same e

Step-of_estab :
    (s : Segment) (b : TiState)
    → (b ≡ estab) ⊎ ((is_fin s ≡ true) × ((b ≡ close_wait) ⊎ (b ≡ last_ack)))
    → Step s estab b
Step-of_estab s b (inl e) = same e
Step-of_estab s b (inr (fin, inl e)) = half refl e fin
Step-of_estab s b (inr (fin, inr e)) = finished refl e fin

Step-of_lastack :
    (s : Segment) (b : TiState)
    → (b ≡ last_ack) ⊎ ((b ≡ closed) × (is_ack s ≡ false))
    → Step s last_ack b
Step-of_lastack s b (inl e) = same e
Step-of_lastack s b (inr (e, ack)) = aborted refl e ack

dispatch-Step :
    (st : TiState) (s : Segment) (n : Net)
    → n.ti.tcp_state ≡ st
    → Step s st (dispatch st s n).0.ti.tcp_state
unfolding dispatch
dispatch-Step closed s n e = same e
dispatch-Step syn_sent s n e =
    Step-of_synsent s (tcp_handle_packet_synsent s n).0.ti.tcp_state
      (ground (arith, state-synsent s n))
dispatch-Step estab s n e =
    Step-of_estab s (tcp_handle_packet_estab s n).0.ti.tcp_state (state-estab s n e)
dispatch-Step last_ack s n e =
    Step-of_lastack s (tcp_handle_packet_lastack s n).0.ti.tcp_state
      (ground (arith, state-lastack s n))
dispatch-Step close_wait s n e = same e
dispatch-Step TiState.listen s n e = same e
dispatch-Step TiState.syn_rcvd s n e = same e
dispatch-Step TiState.fin_wait_1 s n e = same e
dispatch-Step TiState.fin_wait_2 s n e = same e
dispatch-Step TiState.time_wait s n e = same e
dispatch-Step TiState.closing s n e = same e

reset_or_dispatch-Step :
    (s : Segment) (n : Net) → Step s n.ti.tcp_state (reset_or_dispatch s n).0.ti.tcp_state
unfolding tcp_do_fail
reset_or_dispatch-Step s n = elim (Bool-cases (is_rst s)) [
  | inl e ↦ rw e (reset refl e)
  | inr e ↦ rw e (dispatch-Step n.ti.tcp_state s n refl)
]

handle_segment-branches :
    (s : Segment) (n : Net)
    → (handle_segment s n ≡ (tcp_cond_ack s n, Rc.drop))
      ⊎ (handle_segment s n ≡ reset_or_dispatch s (acknowledge s n))
      ⊎ (handle_segment s n ≡ reset_or_dispatch s n)
unfolding handle_segment
handle_segment-branches s n = elim (Bool-cases (leb n.ti.next_ack s.seq)) [
  | inl e ↦ elim (Bool-cases (is_ack s)) [
    | inl k ↦ elim (Bool-cases (ltb n.ti.unack s.ack)) [
      | inl u ↦ inr (inl (rw (e, k, u)))
      | inr u ↦ inl (rw (e, k, u))
    ]
    | inr k ↦ inr (inr (rw (e, k)))
  ]
  | inr e ↦ inl (rw e)
]

-- A received segment takes a connection to another state in these ways only: SYN_SENT to ESTAB by a
-- SYN with ACK; any state to CLOSED by a RST; SYN_SENT to CLOSED by what is no SYN with ACK; ESTAB to
-- CLOSE_WAIT or LAST_ACK by a FIN; LAST_ACK to CLOSED by a segment without ACK.
pub handle_segment-Step :
    (s : Segment) (n : Net) → Step s n.ti.tcp_state (handle_segment s n).0.ti.tcp_state
handle_segment-Step s n = elim (handle_segment-branches s n) [
  | inl e ↦ same (ap (λ o. o.0.ti.tcp_state) e ∙ state-tcp_cond_ack s n)
  | inr (inl e) ↦
      subst (λ a. Step s a (handle_segment s n).0.ti.tcp_state) (state-acknowledge s n)
        (subst (λ o. Step s (acknowledge s n).ti.tcp_state o.0.ti.tcp_state) (sym e)
          (reset_or_dispatch-Step s (acknowledge s n)))
  | inr (inr e) ↦
      subst (λ o. Step s n.ti.tcp_state o.0.ti.tcp_state) (sym e) (reset_or_dispatch-Step s n)
]
