-- ===== src/Tcp/Tests.antt =====
-- net/tcp.c on small inputs, and the instances of the theorems on connections.
use levos.Base.{ℕ, ◌≡◌, refl, false, some, List, [], ◌∷◌, replicate, arith}
use levos.Base.{length-replicate, inl}
use levos.Ring
use levos.Ring.{Ring}
use levos.Tcp.State.{Conn, Segment, Net, TiState, estab, payload_size}
use levos.Tcp.Send.{__tcp_send_packet, tcp_send_packet}
use levos.Tcp.Receive.{handle_segment, dispatch}
use levos.Tcp.Connect.{tcp_conn_start}
use levos.Tcp.Transitions.{Step, handle_segment-Step}
use levos.Tcp.Old.{Refused, handle_segment-Refused}
use levos.Tcp.Handshake.{Answered, tcp_conn_start-Answered}
use levos.Tcp.Data.{Open}
use levos.Tcp.Stream.{Delivered, deliver, deliver-Delivered}

abbrev storage : List ℕ
storage = replicate 16384 0

abbrev conn : Conn
conn = record {
  src_port = 1337;
  dst_port = 7548;
  tcp_state = estab;
  fail_code = 0;
  next_ack = 1001;
  next_seq = 1;
  unack = 0;
  dstip = 0xc0a80089;
  retransmit_work = some 77;
  rb = record { head = 0; tail = 0; flags = 1; capacity = 16384; size = 0; buffer = storage };
}

abbrev net : Net
net = record { ti = conn; sent = []; cancelled = []; allocs = [] }

net-Open : Open net
net-Open = record {
  state = refl;
  ring = record {
    storage = length-replicate {A = ℕ} 16384 0;
    some_space = omega arith;
    int_range = omega arith;
    head_in = omega arith;
    tail_in = omega arith;
    size_in = omega arith;
    distance = inl refl;
  };
  capacity = refl;
  next_seq = omega arith;
}

-- PSH and ACK, with a header of 20 bytes in an IP packet of 43
abbrev data_segment : Segment
data_segment = record {
  seq = 1001;
  ack = 1;
  doff = 5;
  flags = 24;
  ip_len = 43;
  payload = 7 ∷ 8 ∷ 9 ∷ [];
}

abbrev next_segment : Segment
next_segment = record {
  seq = 1004;
  ack = 1;
  doff = 5;
  flags = 24;
  ip_len = 42;
  payload = 10 ∷ 11 ∷ [];
}

abbrev old_segment : Segment
old_segment = record {
  seq = 900;
  ack = 1;
  doff = 5;
  flags = 24;
  ip_len = 43;
  payload = 7 ∷ 8 ∷ 9 ∷ [];
}

abbrev fin_segment : Segment
fin_segment = record { seq = 1001; ack = 1; doff = 5; flags = 17; ip_len = 40; payload = [] }

abbrev syn_ack : Segment
syn_ack = record { seq = 1000; ack = 1; doff = 5; flags = 18; ip_len = 40; payload = [] }

handle_segment-Step_example : Step fin_segment estab (handle_segment fin_segment net).0.ti.tcp_state
handle_segment-Step_example = handle_segment-Step fin_segment net

fin_goes_to_last_ack : (handle_segment fin_segment net).0.ti.tcp_state ≡ TiState.last_ack
unfolding handle_segment dispatch
fin_goes_to_last_ack = refl

handle_segment-Refused_example : Refused old_segment net (handle_segment old_segment net)
handle_segment-Refused_example =
    handle_segment-Refused old_segment net (omega arith) (inl (omega arith))

deliver-Delivered_example :
    Delivered net
      (data_segment ∷ next_segment ∷ [])
      (deliver (data_segment ∷ next_segment ∷ []) net)
unfolding payload_size
deliver-Delivered_example =
    deliver-Delivered net (data_segment ∷ next_segment ∷ []) net-Open
      (
        (refl, omega arith, refl, refl, refl, refl, omega arith, omega arith, refl),
        ((refl, omega arith, refl, refl, refl, refl, omega arith, omega arith, refl), _),
      )
      (omega arith)

abbrev after_syn : Net
after_syn = record {
  ti = record {
    src_port = 1337;
    dst_port = 7548;
    tcp_state = TiState.syn_sent;
    fail_code = 0;
    next_ack = 0;
    next_seq = 0;
    unack = 0;
    dstip = 5;
    retransmit_work = some 77;
    rb = record { head = 0; tail = 0; flags = 1; capacity = 16384; size = 0; buffer = storage };
  };
  sent = record { seq = 0; ack = 0; flags = 2; payload = [] } ∷ [];
  cancelled = [];
  allocs = [];
}

tcp_conn_start-Answered_example : Answered (some 77) syn_ack [] (handle_segment syn_ack after_syn).0
unfolding tcp_conn_start tcp_send_packet __tcp_send_packet Ring.init Ring.set_flags
tcp_conn_start-Answered_example =
    tcp_conn_start-Answered conn (some storage) false (some 77) [] 1337 5 7548 after_syn syn_ack
      refl refl (omega arith)
