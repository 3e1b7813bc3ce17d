-- ===== src/Work/Tests.antt =====
-- kernel/work.c on small inputs, and the instances of its theorems.
use levos.Base.{ℕ, ◌≡◌, ◌<◌, ◌≤◌, refl, false, [], ◌∷◌, none, some, arith}
use levos.Base.Ordered.{ordered}
use mathlib.Core.Option
use levos.Work.{Worker, update, worker_round, schedule_work_at, schedule_work}
use levos.Work.Order.{Scheduled, schedule_work_at-Scheduled}
use levos.Work.Rounds.{RoundRefines, worker_round-RoundRefines}

-- Work 8 waits for tick 90, work 9 for tick 200; now is 100.
abbrev worker : Worker
worker = record {
  work_at = update (update (λ w. 0) 8 90) 9 200;
  work_flags = λ w. 0;
  work_list = 8 ∷ 9 ∷ [];
  current_work = none;
  locked = false;
  ticks = 100;
  freed = [];
}

schedule-between :
    Option.map (λ r. r.1.work_list) (schedule_work_at (ordered ℕ) 7 200 worker)
    ≡ some (8 ∷ 9 ∷ 7 ∷ [])
unfolding schedule_work_at schedule_work
schedule-between = refl

abbrev nothing_done : ℕ → Worker → Worker
nothing_done w k = k

schedule_work_at-Scheduled_example :
    (200 < 100 → schedule_work_at (ordered ℕ) 7 200 worker ≡ some (1, worker))
    × (100 ≤ 200
        → (m : Worker) × (schedule_work_at (ordered ℕ) 7 200 worker ≡ some (0, m))
          × Scheduled 7 200 worker m)
schedule_work_at-Scheduled_example =
    schedule_work_at-Scheduled (ordered ℕ) 7 200 worker refl ((omega arith, tt), (tt, tt))
      (omega arith, (omega arith, tt))

worker_round-RoundRefines_example :
    RoundRefines nothing_done worker (worker_round nothing_done worker)
worker_round-RoundRefines_example =
    worker_round-RoundRefines nothing_done worker ((omega arith, tt), (tt, tt))
