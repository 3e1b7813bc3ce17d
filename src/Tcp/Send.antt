-- ===== src/Tcp/Send.antt =====
-- net/tcp.c: building and sending segments.
use levos.Base.{alloc_ok, rest_of, ℕ, List, [], ◌∷◌, ◌++◌, Option, none, some, length}
use levos.Base.{if◌then◌else◌, add32}
use levos.Tcp.State.{Segment, Net, payload_size, ack_flag, rst_flag, tcp_do_fail}

-- `tcp_new_packet`: continue with `yes_` if there is memory, and with `no_` if it returns NULL.
abbrev pub with_packet {ℓ} : {A : Type ℓ} → Net → (Net → A) → (Net → A) → A
with_packet n yes_ no_ =
    let m = record n { allocs = rest_of n.allocs } in if alloc_ok n.allocs then yes_ m else no_ m

-- `__tcp_send_packet`: the sequence number is set here, whatever it was set to before, and counts the
-- payload only.
unfoldable pub __tcp_send_packet : ℕ → ℕ → List ℕ → Net → Net
__tcp_send_packet flags ack payload n = record n {
  sent =
      n.sent ++ (record { seq = n.ti.next_seq; ack = ack; flags = flags; payload = payload } ∷ []);
  ti = record (n.ti) { next_seq = add32 n.ti.next_seq (length payload) };
}

-- `tcp_send_packet`: `none` while the last segment's retransmission is still scheduled (the caller
-- yields until it is cancelled); `rt` is the new one, if there was memory for it.
unfoldable pub tcp_send_packet : Option ℕ → ℕ → ℕ → List ℕ → Net → Option Net
unfolding __tcp_send_packet
tcp_send_packet rt flags ack payload n = elim n.ti.retransmit_work [
  | some work ↦ none
  | none ↦ some (
      __tcp_send_packet flags ack payload
        (record n { ti = record (n.ti) { retransmit_work = rt } }))
]

-- `__tcp_ack_packet`
unfoldable pub __tcp_ack_packet : Segment → ℕ → Net → Net
unfolding __tcp_send_packet
__tcp_ack_packet s psize n =
    with_packet n (λ m. __tcp_send_packet ack_flag (add32 s.seq psize) [] m) (λ m. m)

unfoldable pub tcp_ack_packet : Segment → Net → Net
unfolding __tcp_ack_packet payload_size
tcp_ack_packet s n = __tcp_ack_packet s (payload_size s) n

-- ECONNRESET is 104. The packet that is sent carries the acknowledgement 0.
unfoldable pub tcp_reset_connection : Net → Net
unfolding __tcp_send_packet tcp_do_fail
tcp_reset_connection n =
    with_packet n
      (λ m.
        let sent = __tcp_send_packet rst_flag 0 [] m in
        record sent { ti = tcp_do_fail 104 sent.ti })
      (λ m. m)
