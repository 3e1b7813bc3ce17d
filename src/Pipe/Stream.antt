-- ===== src/Pipe/Stream.antt =====
-- kernel/pipe.c: any sequence of calls on the files of a pipe, in whatever order its users make them.
use levos.Base.{ℕ, ◌<◌, ◌≡◌, Bool, false, List, [], ◌∷◌, ◌++◌, append_assoc}
use levos.Base.{
  arith, append-nil, ◌∙◌, ap, neg, length, take, leb, if◌then◌else◌, All, Bool-cases, inl, inr,
}
use levos.Pipe.{Pipe, file_read, file_write, pipe_close, do_pipe_read, do_pipe_write, is_end}
use levos.Pipe.{ReadOut, WriteOut}
use levos.Pipe.Valid.{IsValid, AfterRead, AfterWrite, file_read-IsValid, file_write-IsValid}
use levos.Pipe.Valid.{pipe_close-IsValid}
use levos.Pipe.Ends.{held, ReadRefines, do_pipe_read-ReadRefines, WriteRefines}
use levos.Pipe.Ends.{do_pipe_write-WriteRefines}

-- a call on one of the pipe's files, with the caller's disposition of SIGPIPE
pub data Op : Type 0 where
  read : ℕ → ℕ → Op
  write : Bool → ℕ → List ℕ → Op
  close : ℕ → Op

pub record History : Type 0 where
  pub pipe : Pipe
  pub sent : List ℕ
  pub received : List ℕ

-- What a result tells the writer that it has sent: a count of bytes, or an error and so nothing.
abbrev accepted : ℕ → List ℕ → List ℕ
accepted rc buf = if leb rc (length buf) then take rc buf else []

-- A call that waits has no effect yet.
abbrev after_read : History → ReadOut → History
after_read h (ReadOut.bytes out pip) = record h { pipe = pip; received = h.received ++ out }
after_read h other = h

abbrev after_write : History → List ℕ → WriteOut → History
after_write h buf (WriteOut.returned rc sig pip) = record h {
  pipe = pip;
  sent = h.sent ++ accepted rc buf;
}
after_write h buf WriteOut.waits = h

pub step : History → Op → History
step h (read filp len) = after_read h (file_read h.pipe filp len)
step h (write ignored filp buf) = after_write h buf (file_write ignored h.pipe filp buf)
step h (close filp) = record h { pipe = pipe_close h.pipe filp }

unfoldable pub run : History → List Op → History
unfolding step
run h [] = h
run h (op ∷ ops) = run (step h op) ops

-- What was accepted is what was received and what is still in the pipe.
pub record Conserves (h : History) : Type 0 where
  pub valid : IsValid h.pipe
  pub stream : h.sent ≡ h.received ++ held h.pipe

-- A caller's buffer lies in user space, below 2 ^ 31.
abbrev pub IsSmall : Op → Type 0
IsSmall (write ignored filp buf) = length buf < 0x80000000
IsSmall other = Unit

after_read-Conserves :
    (h : History) (len : ℕ) (r : ReadOut)
    → Conserves h
    → AfterRead IsValid r
    → ReadRefines h.pipe len r
    → Conserves (after_read h r)
after_read-Conserves h len (ReadOut.bytes out pip) c v r =
    ground (arith, append_assoc h.received out (held pip))
after_read-Conserves h len (ReadOut.error e) c v r = c
after_read-Conserves h len ReadOut.waits c v r = c

after_write-Conserves :
    (h : History) (ignored : Bool) (buf : List ℕ) (w : WriteOut)
    → Conserves h
    → length buf < 0x80000000
    → AfterWrite IsValid w
    → WriteRefines ignored h.pipe buf w
    → Conserves (after_write h buf w)
after_write-Conserves h ignored buf (WriteOut.returned rc sig pip) c small v w =
    ground (arith, append_assoc h.received (held h.pipe) (take rc buf), append-nil h.sent)
after_write-Conserves h ignored buf WriteOut.waits c small v w = c

held-pipe_close : (pip : Pipe) (filp : ℕ) → held pip ≡ held (pipe_close pip filp)
unfolding pipe_close
held-pipe_close pip filp = elim (Bool-cases (is_end pip.pipe_read filp)) [
  | inl e ↦ rw e
  | inr e ↦ rw e
]

refused-Conserves :
    (h : History) (buf : List ℕ)
    → length buf < 0x80000000
    → Conserves h
    → Conserves (after_write h buf (WriteOut.returned (neg 22) false h.pipe))
refused-Conserves h buf small c = record {
  valid = c.valid;
  stream =
      rw
        (
          ap (λ b. h.sent ++ (if b then take (neg 22) buf else []))
              (none_accepted (length buf) small),
          append-nil,
        )
        c.stream;
}
  where
    none_accepted : (n : ℕ) → n < 0x80000000 → leb (neg 22) n ≡ false
    none_accepted n h = ground arith

pub step-Conserves : (h : History) (op : Op) → IsSmall op → Conserves h → Conserves (step h op)
unfolding step file_read file_write
step-Conserves h (read filp len) small c = elim (Bool-cases (is_end h.pipe.pipe_read filp)) [
  | inl e ↦ rw e (
      after_read-Conserves h len (do_pipe_read h.pipe len) c
        (rw e at (file_read-IsValid h.pipe filp len c.valid))
        (do_pipe_read-ReadRefines h.pipe len c.valid))
  | inr e ↦ rw e c
]
step-Conserves h (write ignored filp buf) small c =
    elim (Bool-cases (is_end h.pipe.pipe_write filp)) [
      | inl e ↦ rw e (
          after_write-Conserves h ignored buf (do_pipe_write ignored h.pipe buf) c small
            (rw e at (file_write-IsValid ignored h.pipe filp buf c.valid))
            (do_pipe_write-WriteRefines ignored h.pipe buf c.valid))
      | inr e ↦ rw e (refused-Conserves h buf small c)
    ]
step-Conserves h (close filp) small c = record {
  valid = pipe_close-IsValid h.pipe filp c.valid;
  stream = c.stream ∙ ap (λ l. h.received ++ l) (held-pipe_close h.pipe filp);
}

-- Over any sequence of reads, writes and closes on the files of a valid pipe, with callers' buffers
-- below 2 ^ 31 bytes, the pipe stays valid and what writers were told they sent is what readers
-- received followed by what the pipe holds.
pub run-Conserves :
    (ops : List Op) (h : History) → All IsSmall ops → Conserves h → Conserves (run h ops)
unfolding run
run-Conserves [] h small c = c
run-Conserves (op ∷ ops) h small c =
    run-Conserves ops (step h op) small.1 (step-Conserves h op small.0 c)
