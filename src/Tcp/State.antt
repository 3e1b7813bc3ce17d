-- ===== src/Tcp/State.antt =====
-- include/levos/tcp.h and net/tcp.c: a connection, segments, and the small functions on them.
use levos.Base.{ℕ, ◌*◌, Bool, List, [], ◌∷◌, ◌++◌, Option, none, some}
use levos.Base.{ltb, sub32, test_bit, neg}
use levos.Ring.{Ring}

-- TI_STATE_CLOSED, TI_STATE_SYN_SENT and so on, in the order of their numbers
pub data TiState : Type 0 where
  closed syn_sent estab close_wait last_ack listen syn_rcvd : TiState
  fin_wait_1 fin_wait_2 time_wait closing : TiState

-- `struct tcp_info`
pub record Conn : Type 0 where
  pub src_port : ℕ
  pub dst_port : ℕ
  pub tcp_state : TiState
  pub fail_code : ℕ
  pub next_ack : ℕ
  pub next_seq : ℕ
  pub unack : ℕ
  pub dstip : ℕ
  pub retransmit_work : Option ℕ
  pub rb : Ring

-- A received segment: `struct tcp_header`, the total length in its IP header, and the bytes that stand
-- behind the header.
pub record Segment : Type 0 where
  pub seq : ℕ
  pub ack : ℕ
  pub doff : ℕ
  pub flags : ℕ
  pub ip_len : ℕ
  pub payload : List ℕ

-- A sent segment. `length` is that of its payload.
pub record Out : Type 0 where
  pub seq : ℕ
  pub ack : ℕ
  pub flags : ℕ
  pub payload : List ℕ

-- A connection, what was sent for it, the retransmissions that were cancelled, and the answers that
-- `malloc` gives while packets are built (when the list is used up, memory suffices).
pub record Net : Type 0 where
  pub ti : Conn
  pub sent : List Out
  pub cancelled : List ℕ
  pub allocs : List Bool

-- TCP_FLAGS_FIN is `1 << 0`, SYN `1 << 1`, RST `1 << 2`, PSH `1 << 3`, ACK `1 << 4`.
abbrev pub is_fin : Segment → Bool
is_fin s = test_bit 0 s.flags

abbrev pub is_syn : Segment → Bool
is_syn s = test_bit 1 s.flags

abbrev pub is_rst : Segment → Bool
is_rst s = test_bit 2 s.flags

abbrev pub is_ack : Segment → Bool
is_ack s = test_bit 4 s.flags

abbrev pub fin_flag : ℕ
fin_flag = 1

abbrev pub syn_flag : ℕ
syn_flag = 2

abbrev pub rst_flag : ℕ
rst_flag = 4

abbrev pub ack_flag : ℕ
ack_flag = 16

abbrev pub psh_ack_flags : ℕ
psh_ack_flags = 24

abbrev pub fin_ack_flags : ℕ
fin_ack_flags = 17

-- `tcp_get_payload_size`, on `uint32_t`
unfoldable pub payload_size : Segment → ℕ
payload_size s = sub32 (sub32 s.ip_len 20) (s.doff * 4)

-- The order of the hash table of connections, as it is written: both ports are the first one's.
unfoldable pub tcp_less_tcp_info : Conn → Conn → Bool
tcp_less_tcp_info ta tb = ltb ta.src_port ta.src_port

abbrev pub set_state : TiState → Net → Net
set_state st n = record n { ti = record (n.ti) { tcp_state = st } }

unfoldable pub tcp_do_fail : ℕ → Conn → Conn
tcp_do_fail errno ti = record ti { tcp_state = TiState.closed; fail_code = errno }

-- `found`: the connection of the packet's source port. ETIMEDOUT is 110.
unfoldable pub tcp_notify_retransmit_failed : Option Conn → Option Conn
tcp_notify_retransmit_failed none = none
tcp_notify_retransmit_failed (some ti) =
    some (record ti { retransmit_work = none; fail_code = neg 110; tcp_state = TiState.closed })

unfoldable pub tcp_cancel_retransmission : Net → Net
tcp_cancel_retransmission n = elim n.ti.retransmit_work [
  | none ↦ n
  | some work ↦ record n {
    ti = record (n.ti) { retransmit_work = none };
    cancelled = n.cancelled ++ (work ∷ []);
  }
]
