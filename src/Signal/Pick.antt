-- ===== src/Signal/Pick.antt =====
-- kernel/signal.c: the loop at `retry` of `signal_handle`.
use levos.Base.{ℕ, ◌≡◌, refl, true, false, List, [], ◌∷◌, ◌++◌, append_assoc, append-nil, All}
use levos.Base.{Bool-cases, inl, inr, ap, ◌∙◌, sym}
use levos.Signal.State.{Signals, signal_is_blocked}
use levos.Signal.Deliver.{Pick, picked, all_blocked, pick}

abbrev pub Blocked : Signals → ℕ → Type 0
Blocked sig s = signal_is_blocked sig s ≡ true

-- The first signal that is not blocked is taken; those behind it come first in what is left, then the
-- `backup`, and last the blocked ones that stood before it. If all are blocked, the list is as it was.
abbrev pub PickRefines : Signals → List ℕ → List ℕ → Pick → Type 0
PickRefines sig pending backup (picked s rest) =
    (pre : List ℕ) × (post : List ℕ) × (pending ≡ pre ++ (s ∷ post))
    × All (Blocked sig) pre
    × (signal_is_blocked sig s ≡ false)
    × (rest ≡ post ++ (backup ++ pre))
PickRefines sig pending backup (all_blocked l) = All (Blocked sig) pending × (l ≡ backup ++ pending)

PickRefines-cons :
    (sig : Signals) (signum : ℕ) (pending backup : List ℕ) (p : Pick)
    → Blocked sig signum
    → PickRefines sig pending (backup ++ (signum ∷ [])) p
    → PickRefines sig (signum ∷ pending) backup p
PickRefines-cons sig signum pending backup (picked s rest) b (pre, post, e, blocked, open_, r) = (
  signum ∷ pre,
  post,
  ap (λ l. signum ∷ l) e,
  (b, blocked),
  open_,
  r ∙ ap (λ l. post ++ l) (append_assoc backup (signum ∷ []) pre),
)
PickRefines-cons sig signum pending backup (all_blocked l) b (blocked, e) =
    ((b, blocked), e ∙ append_assoc backup (signum ∷ []) pending)

pick-PickRefines_from :
    (sig : Signals) (pending backup : List ℕ)
    → PickRefines sig pending backup (pick sig pending backup)
unfolding pick
pick-PickRefines_from sig [] backup = (tt, sym (append-nil backup))
pick-PickRefines_from sig (signum ∷ []) backup = elim (Bool-cases (signal_is_blocked sig signum)) [
  | inl b ↦ rw b ((b, tt), refl)
  | inr b ↦ rw b ([], [], refl, tt, b, sym (append-nil backup))
]
pick-PickRefines_from sig (signum ∷ next ∷ pending) backup =
    elim (Bool-cases (signal_is_blocked sig signum)) [
      | inl b ↦ rw b (
          PickRefines-cons sig signum (next ∷ pending) backup
            (pick sig (next ∷ pending) (backup ++ (signum ∷ []))) b
            (pick-PickRefines_from sig (next ∷ pending) (backup ++ (signum ∷ []))))
      | inr b ↦
          rw b (
            [],
            next ∷ pending,
            refl,
            tt,
            b,
            ap (λ l. next ∷ pending ++ l) (sym (append-nil backup)),
          )
    ]

-- The loop at `retry` takes the first pending signal that is not blocked, keeps every other one, and
-- moves the blocked ones that it passed behind those that it did not look at; a list of blocked
-- signals only is left as it was.
pub pick-PickRefines :
    (sig : Signals) (pending : List ℕ) → PickRefines sig pending [] (pick sig pending [])
pick-PickRefines sig pending = pick-PickRefines_from sig pending []
