-- ===== src/Work/Order.antt =====
-- kernel/work.c: the order of the works, and putting a work into its place.
use levos.Base.{ℕ, ◌≡◌, ◌≢◌, ◌≤◌, ◌<◌, refl, false, List, [], ◌∷◌, ◌++◌, arith, All, ltb}
use levos.Base.{ap, some}
use levos.Base.{lt→ltb, ltb→lt, ltb→le, subst, sym}
use levos.Base.Ordered.{OrderedList, Precedes}
use levos.Work.{Worker, update, work_less, schedule_work}
use levos.Work.{schedule_work_at}

abbrev pub IsSorted : (ℕ → ℕ) → List ℕ → Type 0
IsSorted at [] = Unit
IsSorted at (w ∷ ws) = All (λ v. at w ≤ at v) ws × IsSorted at ws

pub All-le :
    (at : ℕ → ℕ) (a b : ℕ) (ws : List ℕ) → a ≤ b → All (λ v. b ≤ at v) ws → All (λ v. a ≤ at v) ws
All-le at a b [] h all = tt
All-le at a b (w ∷ ws) h all = (omega (arith, all.0), All-le at a b ws h all.1)

All-insert :
    (P : ℕ → Type 0) (x : ℕ) (pre post : List ℕ)
    → P x
    → All P (pre ++ post)
    → All P (pre ++ (x ∷ post))
All-insert P x [] post p all = (p, all)
All-insert P x (y ∷ pre) post p all = (all.0, All-insert P x pre post p all.1)

IsSorted-insert :
    (at : ℕ → ℕ) (x : ℕ) (pre post : List ℕ)
    → IsSorted at (pre ++ post)
    → All (λ y. work_less at x y ≡ false) pre
    → Precedes (work_less at) x post
    → IsSorted at (pre ++ (x ∷ post))
IsSorted-insert at x [] [] s before next = (tt, tt)
IsSorted-insert at x [] (p ∷ post) s before next = (
  (
    omega (arith, ltb→lt (at x) (at p) next),
    All-le at (at x) (at p) post (omega (arith, ltb→lt (at x) (at p) next)) s.0,
  ),
  s,
)
IsSorted-insert at x (y ∷ pre) post s before next = (
  All-insert (λ v. at y ≤ at v) x pre post (ltb→le (at x) (at y) before.0) s.0,
  IsSorted-insert at x pre post s.1 before.1 next,
)

update_ne : (at : ℕ → ℕ) (x v w : ℕ) → w ≢ x → update at x v w ≡ at w
update_ne at x v w h = ground arith

IsSorted-update :
    (at : ℕ → ℕ) (x v : ℕ) (ws : List ℕ)
    → All (λ w. w ≢ x) ws
    → IsSorted at ws
    → IsSorted (update at x v) ws
IsSorted-update at x v [] ne s = tt
IsSorted-update at x v (w ∷ ws) ne s = (later ws ne.1 s.0, IsSorted-update at x v ws ne.1 s.1)
  where
    later :
        (us : List ℕ)
        → All (λ u. u ≢ x) us
        → All (λ u. at w ≤ at u) us
        → All (λ u. update at x v w ≤ update at x v u) us
    later [] apart le = tt
    later (u ∷ us) apart le = (
      omega (arith, update_ne at x v w ne.0, update_ne at x v u apart.0, le.0),
      later us apart.1 le.1,
    )

-- The work stands in the list at its time: no work before it is later, and every work behind it is
-- later. Nothing else changed.
pub record Scheduled (work abs : ℕ) (k m : Worker) : Type 0 where
  pub sorted : IsSorted m.work_at m.work_list
  pub pre : List ℕ
  pub post : List ℕ
  pub split : k.work_list ≡ pre ++ post
  pub before : All (λ v. k.work_at v ≤ abs) pre
  pub behind : All (λ v. abs < k.work_at v) post
  pub state : m ≡ record k { work_at = update k.work_at work abs; work_list = pre ++ (work ∷ post) }

pub update_self : (at : ℕ → ℕ) (x v : ℕ) → update at x v x ≡ v
update_self at x v = ground arith

All-left : (P : ℕ → Type 0) (xs ys : List ℕ) → All P (xs ++ ys) → All P xs
All-left P [] ys all = tt
All-left P (x ∷ xs) ys all = (all.0, All-left P xs ys all.1)

All-right : (P : ℕ → Type 0) (xs ys : List ℕ) → All P (xs ++ ys) → All P ys
All-right P [] ys all = all
All-right P (x ∷ xs) ys all = All-right P xs ys all.1

IsSorted-right : (at : ℕ → ℕ) (xs ys : List ℕ) → IsSorted at (xs ++ ys) → IsSorted at ys
IsSorted-right at [] ys s = s
IsSorted-right at (x ∷ xs) ys s = IsSorted-right at xs ys s.1

not_later :
    (at : ℕ → ℕ) (x v : ℕ) (ws : List ℕ)
    → All (λ w. w ≢ x) ws
    → All (λ w. work_less (update at x v) x w ≡ false) ws
    → All (λ w. at w ≤ v) ws
not_later at x v [] ne all = tt
not_later at x v (w ∷ ws) ne all = (
  omega (
    arith,
    ltb→le (update at x v x) (update at x v w) all.0,
    update_self at x v,
    update_ne at x v w ne.0,
  ),
  not_later at x v ws ne.1 all.1,
)

All-lt :
    (at : ℕ → ℕ) (a b : ℕ) (ws : List ℕ) → a < b → All (λ v. b ≤ at v) ws → All (λ v. a < at v) ws
All-lt at a b [] h all = tt
All-lt at a b (w ∷ ws) h all = (omega (arith, all.0), All-lt at a b ws h all.1)

later :
    (at : ℕ → ℕ) (x v : ℕ) (ws : List ℕ)
    → All (λ w. w ≢ x) ws
    → IsSorted at ws
    → Precedes (work_less (update at x v)) x ws
    → All (λ w. v < at w) ws
later at x v [] ne s next = tt
later at x v (w ∷ ws) ne s next =
    let first : v < at w = omega (
      arith,
      ltb→lt (update at x v x) (update at x v w) next,
      update_self at x v,
      update_ne at x v w ne.0,
    ) in
    (first, All-lt at v (at w) ws first s.0)

schedule_work-Scheduled :
    (lists : OrderedList ℕ) (work abs : ℕ) (k : Worker)
    → k.locked ≡ false
    → IsSorted k.work_at k.work_list
    → All (λ w. w ≢ work) k.work_list
    → (m : Worker) × (schedule_work lists work (record k { work_at = update k.work_at work abs })
        ≡ some (0, m))
      × Scheduled work abs k m
unfolding schedule_work
schedule_work-Scheduled lists work abs k free s ne =
    let at : ℕ → ℕ = update k.work_at work abs in
    let (pre, post, split, whole, before, next) = lists.inserts (work_less at) work k.work_list in
    let apart : All (λ w. w ≢ work) (pre ++ post) = subst (All (λ w. w ≢ work)) split ne in
    let in_order : IsSorted k.work_at (pre ++ post) = subst (IsSorted k.work_at) split s in
    (
      record k { work_at = at; work_list = lists.insert_ordered (work_less at) work k.work_list },
      rw free refl,
      record {
        sorted = subst (IsSorted at) (sym whole) (
            IsSorted-insert at work pre post
              (subst (IsSorted at) split (IsSorted-update k.work_at work abs k.work_list ne s))
              before next);
        pre = pre;
        post = post;
        split = split;
        before = not_later k.work_at work abs pre (All-left (λ w. w ≢ work) pre post apart) before;
        behind =
            later k.work_at work abs post (All-right (λ w. w ≢ work) pre post apart)
              (IsSorted-right k.work_at pre post in_order) next;
        state = ap (λ l. record k { work_at = at; work_list = l }) whole;
      },
    )

-- For a work that does not wait already, on works in the order of their times, with the lock free: a
-- time that is past is refused and nothing changes; at any other the call gives 0 and the work is put
-- into the list in front of the later ones and behind all others, those of its own time too, and the
-- list stays in the order of the times.
pub schedule_work_at-Scheduled :
    (lists : OrderedList ℕ) (work abs : ℕ) (k : Worker)
    → k.locked ≡ false
    → IsSorted k.work_at k.work_list
    → All (λ w. w ≢ work) k.work_list
    → (abs < k.ticks → schedule_work_at lists work abs k ≡ some (1, k))
      × (k.ticks ≤ abs
          → (m : Worker) × (schedule_work_at lists work abs k ≡ some (0, m))
            × Scheduled work abs k m)
unfolding schedule_work_at
schedule_work_at-Scheduled lists work abs k free s ne = (
  (λ past. rw (lt→ltb abs k.ticks past) refl),
  (λ due. rw (not_past due) (schedule_work-Scheduled lists work abs k free s ne)),
)
  where
    not_past : k.ticks ≤ abs → ltb abs k.ticks ≡ false
    not_past due = ground arith
