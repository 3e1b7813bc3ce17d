-- ===== src/Tcp/Data.antt =====
-- net/tcp.c: data that arrives on an established connection.
use levos.Base.{
  alloc_ok, ℕ, ◌+◌, ◌≡◌, ◌≤◌, ◌<◌, refl, Bool, true, false, List, [], ◌∷◌, ◌++◌, arith,
}
use levos.Base.{
  sub32, add32, length, take, take-all, subst, sym, leb, lt→ltb, ◌-◌, if◌then◌else◌, ◌∙◌, ap,
}
use levos.Ring
use levos.Ring.{Ring, Moved}
use levos.Ring.Valid.{IsValid}
use levos.Ring.Fifo.{contents}
use levos.Ring.Transfer.{Wrote, Filled, write-Wrote}
use levos.Tcp.State.{Segment, Net, is_ack, is_syn, is_rst, is_fin, ack_flag, estab}
use levos.Tcp.State.{payload_size, tcp_cancel_retransmission}
use levos.Tcp.Send.{__tcp_send_packet, __tcp_ack_packet, tcp_ack_packet}
use levos.Tcp.Receive.{handle_segment, dispatch, reset_or_dispatch, acknowledge, Rc, store_payload}
use levos.Tcp.Receive.{
  take_payload, tcp_handle_packet_estab, tcp_buffer_size, ring_of, handled, drop,
}

-- An open connection, whose ring is whole.
pub record Open (n : Net) : Type 0 where
  pub state : n.ti.tcp_state ≡ estab
  pub ring : IsValid n.ti.rb
  pub capacity : n.ti.rb.capacity ≡ tcp_buffer_size
  pub next_seq : n.ti.next_seq < 0x100000000

-- The next data of the stream: it begins at the byte expected, and acknowledges something new.
pub record IsNext (n : Net) (s : Segment) : Type 0 where
  pub seq : s.seq ≡ n.ti.next_ack
  pub new : n.ti.unack < s.ack
  pub ack : is_ack s ≡ true
  pub syn : is_syn s ≡ false
  pub rst : is_rst s ≡ false
  pub fin : is_fin s ≡ false
  pub some_data : 0 < length s.payload
  pub range : length s.payload < 0x10000
  pub size : payload_size s ≡ length s.payload

-- What is acknowledged is what is expected next; the bytes are in the ring, behind those that were
-- there, if they leave room in it.
pub record Received (n : Net) (s : Segment) (out : Net × Rc) : Type 0 where
  pub is_open : Open out.0
  pub expected : out.0.ti.next_ack ≡ add32 n.ti.next_ack (length s.payload)
  pub stored :
      n.ti.rb.size + length s.payload < tcp_buffer_size
      → (contents out.0.ti.rb ≡ contents n.ti.rb ++ s.payload)
        × (out.0.ti.rb.size ≡ n.ti.rb.size + length s.payload)
        × (out.1 ≡ handled)
  pub lost :
      tcp_buffer_size ≤ n.ti.rb.size + length s.payload
      → (contents out.0.ti.rb ≡ contents n.ti.rb) × (out.1 ≡ drop)
  pub sent :
      alloc_ok n.allocs ≡ true
      → out.0.sent
        ≡ n.sent
          ++ (record {
            seq = n.ti.next_seq;
            ack = add32 n.ti.next_ack (length s.payload);
            flags = ack_flag;
            payload = [];
          }
              ∷ [])
  pub unack : out.0.ti.unack ≡ sub32 s.ack 1
  pub allocs : n.allocs ≡ [] → out.0.allocs ≡ []

Filled-ring_of :
    (rb : Ring) (src : List ℕ) → (m : Moved) → Wrote rb src 0 m → Filled rb src (ring_of m)
Filled-ring_of rb src (Moved.done n rb') w = w.0
Filled-ring_of rb src (Moved.spin n rb') w = w.0

-- what was stored of a payload that fits
record Stored (n : Net) (s : Segment) (rb : Ring) : Type 0 where
  ring : IsValid rb
  capacity : rb.capacity ≡ tcp_buffer_size
  size : rb.size ≡ n.ti.rb.size + length s.payload
  bytes : contents rb ≡ contents n.ti.rb ++ s.payload

store_payload-Stored :
    (n : Net) (s : Segment)
    → Open n
    → payload_size s ≡ length s.payload
    → n.ti.rb.size + length s.payload < tcp_buffer_size
    → Stored n s (store_payload s n).ti.rb
store_payload-Stored n s o e fits =
    let f : Filled n.ti.rb (take (payload_size s) s.payload) (store_payload s n).ti.rb =
      Filled-ring_of n.ti.rb (take (payload_size s) s.payload)
        (Ring.write n.ti.rb (take (payload_size s) s.payload))
        (write-Wrote n.ti.rb (take (payload_size s) s.payload) o.ring) in
    of_filled (take (payload_size s) s.payload) (store_payload s n).ti.rb
      (rw e (take-all (length s.payload) s.payload (omega arith))) f
  where
    of_filled : (src : List ℕ) (rb : Ring) → src ≡ s.payload → Filled n.ti.rb src rb → Stored n s rb
    of_filled src rb h f =
        let g : Filled n.ti.rb s.payload rb = subst (λ l. Filled n.ti.rb l rb) h f in
        record {
          ring = g.valid;
          capacity = ground (arith, g.capacity, o.capacity);
          size = omega (arith, g.size, o.capacity);
          bytes = ground (
            arith,
            g.bytes,
            o.capacity,
            take-all (n.ti.rb.capacity - n.ti.rb.size) s.payload (omega (arith, o.capacity)),
          );
        }

-- the end of `tcp_handle_packet_estab` when there is no FIN
estab_of : Net × Bool → Net × Rc
estab_of (n, acked) = (n, if acked then handled else drop)

take_payload-Received :
    (n : Net) (s : Segment)
    → Open n
    → s.seq ≡ n.ti.next_ack
    → 0 < length s.payload
    → length s.payload < 0x10000
    → payload_size s ≡ length s.payload
    → n.ti.unack ≡ sub32 s.ack 1
    → Received n s (estab_of (take_payload s n))
unfolding take_payload tcp_ack_packet __tcp_ack_packet __tcp_send_packet estab_of Ring.ring_size
take_payload-Received n s o seq pos small size ack = record {
  is_open = ground (arith, store_payload-Stored n s o size);
  expected = ground arith;
  stored = λ fits. ground (arith, store_payload-Stored n s o size fits);
  lost = λ over. ground arith;
  sent = λ ok. ground arith;
  unack = ground arith;
  allocs = λ e. ground arith;
}

estab-take_payload :
    (n : Net) (s : Segment)
    → is_ack s ≡ true
    → is_syn s ≡ false
    → is_fin s ≡ false
    → tcp_handle_packet_estab s n ≡ estab_of (take_payload s n)
unfolding tcp_handle_packet_estab estab_of
estab-take_payload n s ack syn fin = rw (ack, syn, fin) refl

accepted :
    (n : Net) (s : Segment)
    → Open n
    → IsNext n s
    → handle_segment s n ≡ reset_or_dispatch s (acknowledge s n)
unfolding handle_segment
accepted n s o h = rw (h.seq, h.ack, lt→ltb n.ti.unack s.ack h.new, leb_refl n.ti.next_ack) refl
  where
    leb_refl : (a : ℕ) → leb a a ≡ true
    leb_refl a = ground arith

dispatched :
    (n : Net) (s : Segment)
    → n.ti.tcp_state ≡ estab
    → is_rst s ≡ false
    → reset_or_dispatch s n ≡ tcp_handle_packet_estab s n
unfolding dispatch
dispatched n s st rst = rw (rst, st) refl

-- What the acknowledgement of the segment leaves for its data.
record AfterAck (n : Net) (s : Segment) (m : Net) : Type 0 where
  is_open : Open m
  rb : m.ti.rb ≡ n.ti.rb
  next_ack : m.ti.next_ack ≡ n.ti.next_ack
  next_seq : m.ti.next_seq ≡ n.ti.next_seq
  unack : m.ti.unack ≡ sub32 s.ack 1
  sent : m.sent ≡ n.sent
  allocs : m.allocs ≡ n.allocs

acknowledge-AfterAck : (n : Net) (s : Segment) → Open n → AfterAck n s (acknowledge s n)
unfolding tcp_cancel_retransmission
acknowledge-AfterAck n s o = ground (arith, o)

Received-AfterAck :
    (n m : Net) (s : Segment) (out : Net × Rc)
    → AfterAck n s m
    → Received m s out
    → Received n s out
Received-AfterAck n m s out a r = record {
  is_open = r.is_open;
  expected = r.expected ∙ ap (λ k. add32 k (length s.payload)) a.next_ack;
  stored = λ fits. ground (arith, r.stored, a.rb);
  lost = λ over. ground (arith, r.lost, a.rb);
  sent = λ ok. ground (arith, r.sent, a.sent, a.next_ack, a.next_seq, a.allocs);
  unack = r.unack;
  allocs = λ e. r.allocs (a.allocs ∙ e);
}

-- On an open connection whose ring is whole, the next data of the stream (at most 65535 bytes, with
-- ACK and none of SYN, RST and FIN, and an acknowledgement that is new) moves the expected byte past
-- it, and is acknowledged up to there if there is memory for the answer. If it leaves room in the
-- ring, its bytes are put behind those that wait there; if not, they are lost, although they are
-- acknowledged and not expected again.
pub handle_segment-Received :
    (n : Net) (s : Segment) → Open n → IsNext n s → Received n s (handle_segment s n)
handle_segment-Received n s o h =
    let a : AfterAck n s (acknowledge s n) = acknowledge-AfterAck n s o in
    Received-AfterAck n (acknowledge s n) s (handle_segment s n) a (
      subst (λ out. Received (acknowledge s n) s out)
        (sym (
          accepted n s o h
          ∙ dispatched (acknowledge s n) s a.is_open.state h.rst
          ∙ estab-take_payload (acknowledge s n) s h.ack h.syn h.fin))
        (take_payload-Received (acknowledge s n) s a.is_open (h.seq ∙ sym a.next_ack) h.some_data
          h.range h.size a.unack))
