-- ===== src/Work.antt =====
-- kernel/work.c and include/levos/work.h: deferred work, run by a kernel thread in the order of its times.
-- A work is known by its address; its time and its flags are looked up by it. What a work's function does
-- is an argument. The lock is a field, since a path of the code keeps it: a call that takes the lock while
-- it is held waits for good, as nothing gives back a lock that was kept. The waking of the kernel thread by
-- `task_kick` is left out.
pub mod Order
pub mod Rounds
pub mod Cancel
mod Tests
use levos.Base.{
  ℕ, Bool, true, false, List, [], ◌∷◌, Option, none, some, ◌==◌, ltb, leb, if◌then◌else◌, ◌++◌,
}
use levos.Base.{add32, sub32, neg, test_bit, set_bit, clear_bit}
use levos.Base.Ordered.{OrderedList}
use mathlib.Core.Option

-- `work_list`, `current_work`, `work_lock`, the ticks, and the works that were freed
pub record Worker : Type 0 where
  pub work_at : ℕ → ℕ
  pub work_flags : ℕ → ℕ
  pub work_list : List ℕ
  pub current_work : Option ℕ
  pub locked : Bool
  pub ticks : ℕ
  pub freed : List ℕ

abbrev pub update : (ℕ → ℕ) → ℕ → ℕ → (ℕ → ℕ)
update f k v = λ i. if i == k then v else f i

-- WORK_FLAG_CANCELLED is `1 << 0`, WORK_FLAG_KILLED is `1 << 2`.
abbrev pub is_cancelled : Worker → ℕ → Bool
is_cancelled k work = test_bit 0 (k.work_flags work)

abbrev pub is_killed : Worker → ℕ → Bool
is_killed k work = test_bit 2 (k.work_flags work)

abbrev pub with_flags : Worker → ℕ → ℕ → Worker
with_flags k work flags = record k { work_flags = update k.work_flags work flags }

abbrev pub work_less : (ℕ → ℕ) → ℕ → ℕ → Bool
work_less at a b = ltb (at a) (at b)

abbrev pub is_current : Option ℕ → ℕ → Bool
is_current none work = false
is_current (some c) work = work == c

-- `mem`: the address that `malloc` gives, if any.
unfoldable pub work_create : Option ℕ → Worker → Option (ℕ × Worker)
work_create none k = none
work_create (some work) k =
    some (
      work,
      record k { work_at = update k.work_at work 0; work_flags = update k.work_flags work 0 },
    )

-- The result, and the state. `none`: `spin_lock` waits for good.
unfoldable pub work_cancel : ℕ → Worker → Option (ℕ × Worker)
work_cancel work k =
    if k.locked
    then none
    else if is_current k.current_work work
    then some (0, with_flags k work (set_bit 0 (k.work_flags work)))
    else if is_cancelled k work
    then some (neg 1, record k { locked = true })
    else some (0, with_flags k work (set_bit 2 (k.work_flags work)))

-- the end of `do_work`: a work that is marked is destroyed
unfoldable pub finish : ℕ → Worker → Worker
finish work ran =
    let ended : Worker = record ran { current_work = none } in
    if is_killed ended work then record ended { freed = ended.freed ++ (work ∷ []) } else ended

-- `run`: the function of a work.
unfoldable pub do_work : (ℕ → Worker → Worker) → ℕ → Worker → Worker
unfolding finish
do_work run work k =
    let started : Worker = record k { current_work = some work } in
    finish work (
      if is_killed started work
      then started
      else run work (with_flags started work (set_bit 2 (k.work_flags work))))

-- One round of `worker_thread`: it waits for the lock for good, yields, sleeps for so long, or does the
-- work.
pub data Round : Type 0 where
  waits : Round
  yields : Worker → Round
  sleeps : ℕ → Worker → Round
  works : ℕ → Worker → Round

-- the round with the lock taken
unfoldable pub due_round : (ℕ → Worker → Worker) → Worker → List ℕ → Round
unfolding do_work
due_round run k [] = yields k
due_round run k (work ∷ rest) =
    if leb k.ticks (k.work_at work)
    then sleeps (sub32 (k.work_at work) k.ticks) k
    else works work (do_work run work (record k { work_list = rest }))

unfoldable pub worker_round : (ℕ → Worker → Worker) → Worker → Round
unfolding due_round
worker_round run k = if k.locked then waits else due_round run k k.work_list

-- `none`: `spin_lock` waits for good, or the code reads through a null pointer.
module _ (lists : OrderedList ℕ) where
  open lists use {insert_ordered}

  unfoldable pub schedule_work : ℕ → Worker → Option (ℕ × Worker)
  schedule_work work k =
      if k.locked
      then none
      else some (0, record k { work_list = insert_ordered (work_less k.work_at) work k.work_list })

  unfoldable pub schedule_work_at : ℕ → ℕ → Worker → Option (ℕ × Worker)
  unfolding schedule_work
  schedule_work_at work abs k =
      if ltb abs k.ticks
      then some (1, k)
      else schedule_work work (record k { work_at = update k.work_at work abs })

  unfoldable pub schedule_work_delay : ℕ → ℕ → Worker → Option (ℕ × Worker)
  unfolding schedule_work_at
  schedule_work_delay work delay k = schedule_work_at work (add32 k.ticks delay) k

  -- The result of the scheduling is not looked at.
  unfoldable pub work_reschedule : ℕ → Worker → Option (ℕ × Worker)
  unfolding schedule_work_delay
  work_reschedule delay k = elim k.current_work [
    | none ↦ none
    | some work ↦
        if is_cancelled k work
        then some (neg 1, k)
        else Option.map (λ r. (0, r.1))
            (schedule_work_delay work delay (with_flags k work (clear_bit 2 (k.work_flags work))))
  ]
