-- ===== src/Ring/Queue.antt =====
-- lib/ring.c: the specification of a ring, a queue of at most `cap` bytes, oldest first.
use levos.Base.{ℕ, List, [], ◌∷◌, ◌++◌, Option, none, some, length, ltb, if◌then◌else◌}

abbrev pub Queue : Type 0
Queue = List ℕ

-- the queue after a byte was offered, `none` if it is full
abbrev pub offer : ℕ → Queue → ℕ → Option Queue
offer cap q c = if ltb (length q) cap then some (q ++ (c ∷ [])) else none

abbrev pub poll : Queue → Option (ℕ × Queue)
poll [] = none
poll (c ∷ q) = some (c, q)
