-- ===== src/Tcp/Stream.antt =====
-- net/tcp.c: a run of segments that arrive in order on an established connection.
use levos.Base.{
  ℕ, ◌+◌, ◌≡◌, ◌<◌, refl, List, [], ◌∷◌, ◌++◌, arith, append-nil, append_assoc, ◌∙◌, ap, sym,
}
use levos.Base.{add32, sub32, length, length-append, true, false}
use levos.Ring.Fifo.{contents}
use levos.Tcp.State.{Segment, Net, is_ack, is_syn, is_rst, is_fin, payload_size}
use levos.Tcp.Receive.{handle_segment, tcp_buffer_size}
use levos.Tcp.Data.{Open, Received, handle_segment-Received}

unfoldable pub deliver : List Segment → Net → Net
deliver [] n = n
deliver (s ∷ ss) n = deliver ss (handle_segment s n).0

abbrev pub bytes : List Segment → List ℕ
bytes [] = []
bytes (s ∷ ss) = s.payload ++ bytes ss

-- the byte expected after the segments
abbrev pub expected_after : ℕ → List Segment → ℕ
expected_after a [] = a
expected_after a (s ∷ ss) = expected_after (add32 a (length s.payload)) ss

-- Each segment begins where the one before ended, and acknowledges at least as much.
abbrev pub Follows : ℕ → ℕ → List Segment → Type 0
Follows a u [] = Unit
Follows a u (s ∷ ss) =
    ((s.seq ≡ a)
      × (u < s.ack)
      × (is_ack s ≡ true)
      × (is_syn s ≡ false)
      × (is_rst s ≡ false)
      × (is_fin s ≡ false)
      × (0 < length s.payload)
      × (length s.payload < 0x10000)
      × (payload_size s ≡ length s.payload))
    × Follows (add32 a (length s.payload)) (sub32 s.ack 1) ss

pub record Delivered (n : Net) (ss : List Segment) (m : Net) : Type 0 where
  pub is_open : Open m
  pub bytes_in : contents m.ti.rb ≡ contents n.ti.rb ++ bytes ss
  pub expected : m.ti.next_ack ≡ expected_after n.ti.next_ack ss

-- An open connection whose ring is whole takes a run of in-order segments as it was sent: if each
-- begins where the one before ended, is a data segment with ACK and none of SYN, RST and FIN, and
-- acknowledges something new, and if all their bytes leave room in the ring, then they stand there
-- in order behind what was there, and the byte after the last is expected.
pub deliver-Delivered :
    (n : Net) (ss : List Segment)
    → Open n
    → Follows n.ti.next_ack n.ti.unack ss
    → n.ti.rb.size + length (bytes ss) < tcp_buffer_size
    → Delivered n ss (deliver ss n)
unfolding deliver
deliver-Delivered n [] o f fits = record {
  is_open = o;
  bytes_in = sym (append-nil (contents n.ti.rb));
  expected = refl;
}
deliver-Delivered n (s ∷ ss) o f fits =
    let len : length (s.payload ++ bytes ss) ≡ length s.payload + length (bytes ss) =
      length-append s.payload (bytes ss) in
    let r : Received n s (handle_segment s n) = handle_segment-Received n s o (record {
      seq = f.0.0;
      new = f.0.1;
      ack = f.0.2;
      syn = f.0.3;
      rst = f.0.4;
      fin = f.0.5;
      some_data = f.0.6;
      range = f.0.7;
      size = f.0.8;
    }) in
    let (stored, size, code) = r.stored (omega arith) in
    let d : Delivered (handle_segment s n).0 ss (deliver ss (handle_segment s n).0) =
      deliver-Delivered (handle_segment s n).0 ss r.is_open (rw (r.expected, r.unack) f.1)
        (omega arith) in
    record {
      is_open = d.is_open;
      bytes_in =
          d.bytes_in
          ∙ ap (λ l. l ++ bytes ss) stored
          ∙ append_assoc (contents n.ti.rb) s.payload (bytes ss);
      expected = d.expected ∙ ap (λ a. expected_after a ss) r.expected;
    }
