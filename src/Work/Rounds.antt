-- ===== src/Work/Rounds.antt =====
-- kernel/work.c: what a round of the thread does.
use levos.Base.{ℕ, ◌≡◌, ◌≤◌, ◌<◌, refl, Bool, false, true, List, [], ◌∷◌, ◌++◌, arith, All, leb}
use levos.Base.{ap, ◌∙◌, none, some, if◌then◌else◌, test_bit, set_bit}
use levos.Base.{le_refl, leb→le, leb→lt, subst, sym, Bool-cases, inl, inr, sub32}
use levos.Work.{
  Worker, Round, waits, yields, sleeps, works, worker_round, due_round, do_work, finish,
}
use levos.Work.{is_killed, with_flags}
use levos.Work.Order.{IsSorted, All-le, update_self}

-- What the work does is up to its function, which is not called for a killed work; it is called with the
-- work marked as killed and as the current one. The work is freed unless the mark was taken back.
pub record Worked (run : ℕ → Worker → Worker) (work : ℕ) (k m : Worker) : Type 0 where
  pub killed :
      is_killed k work ≡ true → m ≡ record k { current_work = none; freed = k.freed ++ (work ∷ []) }
  pub called :
      is_killed k work ≡ false
      → (start : Worker) × (start.current_work ≡ some work)
        × (is_killed start work ≡ true)
        × (start.work_list ≡ k.work_list)
        × (is_killed (run work start) work ≡ true
            → m ≡ record (run work start) {
              current_work = none;
              freed = (run work start).freed ++ (work ∷ []);
            })
        × (is_killed (run work start) work ≡ false
            → m ≡ record (run work start) { current_work = none })

abbrev pub RoundRefines : (ℕ → Worker → Worker) → Worker → Round → Type 0
RoundRefines run k waits = k.locked ≡ true
RoundRefines run k (yields m) = (k.locked ≡ false) × (k.work_list ≡ []) × (m ≡ k)
RoundRefines run k (sleeps d m) =
    (k.locked ≡ false)
    × All (λ v. k.ticks ≤ k.work_at v) k.work_list
    × (m ≡ k)
    × ((work : ℕ) × (rest : List ℕ) × (k.work_list ≡ work ∷ rest)
        × (d ≡ sub32 (k.work_at work) k.ticks))
RoundRefines run k (works work m) =
    (k.locked ≡ false)
    × (k.work_at work < k.ticks)
    × All (λ v. k.work_at work ≤ k.work_at v) k.work_list
    × ((rest : List ℕ) × (k.work_list ≡ work ∷ rest)
        × Worked run work (record k { work_list = rest }) m)

test_bit-set_bit_2 : (f : ℕ) → test_bit 2 (set_bit 2 f) ≡ true
test_bit-set_bit_2 f = ground arith

pub killed_flag :
    (k : Worker) (work : ℕ)
    → is_killed (with_flags k work (set_bit 2 (k.work_flags work))) work ≡ true
killed_flag k work =
    ap (test_bit 2) (update_self k.work_flags work (set_bit 2 (k.work_flags work)))
    ∙ test_bit-set_bit_2 (k.work_flags work)

finish-killed :
    (work : ℕ) (m : Worker)
    → is_killed m work ≡ true
    → finish work m ≡ record m { current_work = none; freed = m.freed ++ (work ∷ []) }
unfolding finish
finish-killed work m e = rw e refl

finish-kept :
    (work : ℕ) (m : Worker)
    → is_killed m work ≡ false
    → finish work m ≡ record m { current_work = none }
unfolding finish
finish-kept work m e = rw e refl

if_true : (b : Bool) (x y : Worker) → b ≡ true → (if b then x else y) ≡ x
if_true b x y e = rw e refl

if_false : (b : Bool) (x y : Worker) → b ≡ false → (if b then x else y) ≡ y
if_false b x y e = rw e refl

pub do_work-Worked :
    (run : ℕ → Worker → Worker) (work : ℕ) (k : Worker) → Worked run work k (do_work run work k)
unfolding do_work
do_work-Worked run work k =
    let started : Worker = record k { current_work = some work } in
    let marked : Worker = with_flags started work (set_bit 2 (k.work_flags work)) in
    let ran : Worker = run work marked in
    record {
      killed = λ e.
          ap (finish work) (if_true (is_killed started work) started ran e)
          ∙ finish-killed work started e;
      called = λ e.
          let called_it : do_work run work k ≡ finish work ran =
            ap (finish work) (if_false (is_killed started work) started ran e) in
          (
            marked,
            refl,
            killed_flag started work,
            refl,
            (λ h. called_it ∙ finish-killed work ran h),
            (λ h. called_it ∙ finish-kept work ran h),
          );
    }

due-RoundRefines :
    (run : ℕ → Worker → Worker) (k : Worker) (ws : List ℕ)
    → k.locked ≡ false
    → IsSorted k.work_at ws
    → RoundRefines run
        (record k { work_list = ws })
        (due_round run (record k { work_list = ws }) ws)
unfolding due_round
due-RoundRefines run k [] free s = (free, refl, refl)
due-RoundRefines run k (w ∷ us) free s = elim (Bool-cases (leb k.ticks (k.work_at w))) [
  | inl e ↦ rw e (
    free,
    (
      leb→le k.ticks (k.work_at w) e,
      All-le k.work_at k.ticks (k.work_at w) us (leb→le k.ticks (k.work_at w) e) s.0,
    ),
    refl,
    (w, us, refl, refl),
  )
  | inr e ↦ rw e (
    free,
    leb→lt k.ticks (k.work_at w) e,
    (le_refl (k.work_at w), s.0),
    (us, refl, do_work-Worked run w (record k { work_list = us })),
  )
]

pub locked_round : (b : Bool) (x y : Round) → b ≡ true → (if b then x else y) ≡ x
locked_round b x y e = rw e refl

pub free_round : (b : Bool) (x y : Round) → b ≡ false → (if b then x else y) ≡ y
free_round b x y e = rw e refl

-- With the works in the order of their times, a round of the thread waits if the lock is held; it yields if
-- there are no works; if none is due it sleeps until the time of the first; otherwise it takes the first
-- from the list, whose time is past and is the least of all, calls its function unless the work was
-- killed, with the work marked, and frees the work unless its function took the mark back.
pub worker_round-RoundRefines :
    (run : ℕ → Worker → Worker) (k : Worker)
    → IsSorted k.work_at k.work_list
    → RoundRefines run k (worker_round run k)
unfolding worker_round
worker_round-RoundRefines run k s = elim (Bool-cases k.locked) [
  | inl held ↦
      subst (RoundRefines run k)
        (sym (locked_round k.locked waits (due_round run k k.work_list) held)) held
  | inr free ↦
      subst (RoundRefines run k)
        (sym (free_round k.locked waits (due_round run k k.work_list) free))
        (due-RoundRefines run k k.work_list free s)
]
