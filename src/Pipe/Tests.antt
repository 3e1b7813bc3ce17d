-- ===== src/Pipe/Tests.antt =====
-- kernel/pipe.c on small inputs, and the instances of the theorems on pipes.
use levos.Base.{ℕ, ◌≡◌, refl, false, some, none, List, [], ◌∷◌, replicate}
use levos.Base.{arith, length-replicate, inl}
use levos.Ring
use levos.Ring.{Ring}
use levos.Pipe.{Pipe, do_pipe_read, do_pipe_write}
use levos.Pipe.{file_read, file_write, pipe_close}
use levos.Pipe.Valid.{IsValid}
use levos.Pipe.Stream.{Op, History, run, Conserves, run-Conserves}

abbrev storage : List ℕ
storage = replicate 4096 0

abbrev old : Pipe
old = record {
  pipe_read = none;
  pipe_write = none;
  pipe_buffer = record { head = 9; tail = 9; flags = 0; capacity = 9; size = 9; buffer = [] };
  pipe_flags = 7;
}

abbrev fresh : Pipe
fresh = record {
  pipe_read = some 100;
  pipe_write = some 200;
  pipe_buffer = record {
    head = 0;
    tail = 0;
    flags = 1;
    capacity = 4096;
    size = 0;
    buffer = storage;
  };
  pipe_flags = 0;
}

fresh-IsValid : IsValid fresh
fresh-IsValid = record {
  ring = record {
    storage = length-replicate {A = ℕ} 4096 0;
    some_space = omega arith;
    int_range = omega arith;
    head_in = omega arith;
    tail_in = omega arith;
    size_in = omega arith;
    distance = inl refl;
  };
  space = refl;
  nonblocking = refl;
  reader = refl;
  writer = refl;
}

abbrev calls : List Op
calls =
    Op.write false 200 (1 ∷ 2 ∷ 3 ∷ [])
    ∷ Op.read 100 2
    ∷ Op.close 200
    ∷ Op.read 100 9
    ∷ Op.read 100 9
    ∷ []

abbrev start : History
start = record { pipe = fresh; sent = []; received = [] }

run-calls : (run start calls).received ≡ 1 ∷ 2 ∷ 3 ∷ []
unfolding run file_read file_write pipe_close do_pipe_read do_pipe_write Ring.read Ring.write
    Ring.put_byte Ring.get_byte Ring.ring_size
run-calls = refl

run-Conserves_example : Conserves (run start calls)
run-Conserves_example =
    run-Conserves calls start (omega arith) (record { valid = fresh-IsValid; stream = refl })
