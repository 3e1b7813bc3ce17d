-- ===== src/Ring/Tests.antt =====
-- lib/ring.c on small inputs, and the instances of the theorems on rings.
use levos.Base.{◌≡◌, refl, inl, inr, true, false}
use levos.Base.{[], ◌∷◌, arith}
use levos.Ring.{Ring, Moved, write, read, put_byte, get_byte}
use levos.Ring.Valid.{IsValid}
use levos.Ring.Fifo.{contents}
use levos.Ring.Transfer.{Wrote, write-Wrote, read-write}

-- the bytes 8 and 9, which go round the end of a storage of four
abbrev wrapped : Ring
wrapped = record {
  head = 1;
  tail = 3;
  flags = 1;
  capacity = 4;
  size = 2;
  buffer = 9 ∷ 0 ∷ 0 ∷ 8 ∷ [];
}

abbrev blank : Ring
blank = record { head = 2; tail = 2; flags = 0; capacity = 3; size = 0; buffer = 0 ∷ 0 ∷ 0 ∷ [] }

wrapped-IsValid : IsValid wrapped
wrapped-IsValid = record {
  storage = refl;
  some_space = omega arith;
  int_range = omega arith;
  head_in = omega arith;
  tail_in = omega arith;
  size_in = omega arith;
  distance = inr refl;
}

blank-IsValid : IsValid blank
blank-IsValid = record {
  storage = refl;
  some_space = omega arith;
  int_range = omega arith;
  head_in = omega arith;
  tail_in = omega arith;
  size_in = omega arith;
  distance = inl refl;
}

contents-wrapped : contents wrapped ≡ 8 ∷ 9 ∷ []
contents-wrapped = refl

-- A non-blocking ring reports a short write, a blocking one waits.
write-wrapped :
    write wrapped (1 ∷ 2 ∷ 3 ∷ [])
    ≡ Moved.done 2 (record wrapped { head = 3; size = 4; buffer = 9 ∷ 1 ∷ 2 ∷ 8 ∷ [] })
unfolding write put_byte
write-wrapped = refl

read-blank : (read blank 1).returned ≡ false
unfolding read get_byte
read-blank = refl

write-Wrote_example : Wrote wrapped (1 ∷ 2 ∷ 3 ∷ []) 0 (write wrapped (1 ∷ 2 ∷ 3 ∷ []))
write-Wrote_example = write-Wrote wrapped (1 ∷ 2 ∷ 3 ∷ []) wrapped-IsValid

read-write_example :
    (rb' : Ring) × (write blank (5 ∷ 6 ∷ []) ≡ Moved.done 2 rb')
    × ((read rb' 2).bytes ≡ 5 ∷ 6 ∷ [])
    × ((read rb' 2).ring.size ≡ 0)
    × ((read rb' 2).returned ≡ true)
read-write_example = read-write blank (5 ∷ 6 ∷ []) blank-IsValid refl (omega arith)
