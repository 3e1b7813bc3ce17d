-- ===== src/Tcp/Connect.antt =====
-- net/tcp.c: opening a connection, sending on it and closing it.
use levos.Base.{ℕ, Bool, true, false, List, [], Option, none, some}
use levos.Base.{if◌then◌else◌, neg}
use levos.Ring
use levos.Ring.{Ring}
use levos.Tcp.State.{TiState, closed, syn_sent, estab, fin_wait_1, Conn, Net, set_state}
use levos.Tcp.State.{syn_flag, psh_ack_flags, fin_ack_flags}
use levos.Tcp.Send.{with_packet, tcp_send_packet}
use levos.Tcp.Receive.{tcp_buffer_size}

-- The result of a call, and the state; or it waits for the retransmission of the last segment.
pub data Called : Type 0 where
  returned : ℕ → Net → Called
  waits : Called

abbrev pub of_sent : Option Net → Called
of_sent none = waits
of_sent (some n) = returned 0 n

abbrev pub is_estab : TiState → Bool
is_estab estab = true
is_estab other = false

-- ENOTCONN is 107, ENOMEM 12. `grown`: `packet_grow` finds memory for the payload.
unfoldable pub tcp_conn_send : Option ℕ → Bool → List ℕ → Net → Called
unfolding tcp_send_packet
tcp_conn_send rt grown payload n =
    if is_estab n.ti.tcp_state
    then with_packet n
        (λ m.
          if grown
          then of_sent (tcp_send_packet rt psh_ack_flags m.ti.next_ack payload m)
          else returned (neg 12) m)
        (λ m. returned (neg 12) m)
    else returned (neg 107) n

-- The first part of `tcp_conn_start`: `mem` is what `malloc` gives for the structure, with what the
-- memory held before (`ti_fail_code` is not set), `storage` that of the ring, `used` says whether the
-- source port is taken. The rest waits for the handshake (`tcp_conn_result`). EADDRINUSE is 98.
pub data Started : Type 0 where
  failed : ℕ → Started
  started : Net → Started
  waits : Started

abbrev pub started_of : Option Net → Started
started_of none = waits
started_of (some n) = started n

abbrev pub fresh_net : Conn → Option (List ℕ) → List Bool → ℕ → ℕ → ℕ → Net
fresh_net old storage allocs srcport dstip dstport = record {
  ti = record {
    src_port = srcport;
    dst_port = dstport;
    tcp_state = closed;
    fail_code = old.fail_code;
    next_ack = 0;
    next_seq = 0;
    unack = 0;
    dstip = dstip;
    retransmit_work = none;
    rb = Ring.set_flags (Ring.init old.rb tcp_buffer_size storage) 1;
  };
  sent = [];
  cancelled = [];
  allocs = allocs;
}

unfoldable pub tcp_conn_start :
    Option Conn → Option (List ℕ) → Bool → Option ℕ → List Bool → ℕ → ℕ → ℕ → Started
unfolding tcp_send_packet
tcp_conn_start none storage used rt allocs srcport dstip dstport = failed (neg 12)
tcp_conn_start (some old) storage used rt allocs srcport dstip dstport =
    if used
    then failed (neg 98)
    else with_packet (fresh_net old storage allocs srcport dstip dstport)
        (λ m. started_of (tcp_send_packet rt syn_flag 0 [] (set_state syn_sent m)))
        (λ m. failed (neg 12))

-- The end of `tcp_conn_start`: `none` while the handshake goes on.
unfoldable pub tcp_conn_result : Conn → Option ℕ
tcp_conn_result ti = elim ti.tcp_state [ estab ↦ some 0 | closed ↦ some ti.fail_code | _ ↦ none ]

unfoldable pub tcp_conn_close : Option ℕ → Net → Called
unfolding tcp_send_packet
tcp_conn_close rt n =
    with_packet n
      (λ m. of_sent (tcp_send_packet rt fin_ack_flags m.ti.next_ack [] (set_state fin_wait_1 m)))
      (λ m. returned (neg 12) m)
