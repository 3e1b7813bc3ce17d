-- ===== src/Vfs/Longest.antt =====
-- fs/vfs.c: the mount that a path is under, and what is passed on to it.
use levos.Base.{ℕ, zero, suc, ◌≤◌, ◌<◌, ◌≡◌, ◌≢◌, refl, ap, ap₂, sym, ◌∙◌, true}
use levos.Base.{
  List, [], ◌∷◌, Option, none, some, All, ◌==◌, Bool-cases, Option-cases, inl, inr, ◌⊎◌,
}
use levos.Base.{arith, length, take, ==→eq, ltb, ltb→lt, ltb→le, subst}
use levos.Vfs.Path.{same_string}
use levos.Vfs.Mount.{Mount, Vfs, root, __check_mounts, shorten, find_mount}
use mathlib.Core.Bool.{true≢false}

pub same_string→eq : (a b : List ℕ) → same_string a b ≡ true → a ≡ b
same_string→eq [] [] e = refl
same_string→eq [] (y ∷ ys) e = ground arith
same_string→eq (x ∷ xs) [] e = ground arith
same_string→eq (x ∷ xs) (y ∷ ys) e = elim (Bool-cases (x == y)) [
  | inl h ↦ ap₂ (λ c l. c ∷ l) (==→eq x y h) (same_string→eq xs ys (rw h at e))
  | inr h ↦ absurd (true≢false (sym (rw h at e)))
]

abbrev pub Among : Mount → List Mount → Type 0
Among m [] = ⊥
Among m (x ∷ ms) = (x ≡ m) ⊎ Among m ms

-- A mount of the table is on a point.
abbrev pub MountedOn : List Mount → List ℕ → Mount → Type 0
MountedOn ms p m = (m.point ≡ p) × Among m ms

abbrev pub NotOn : List Mount → List ℕ → Type 0
NotOn ms p = All (λ m. m.point ≢ p) ms

abbrev Checked : List Mount → List ℕ → Option Mount → Type 0
Checked ms p none = NotOn ms p
Checked ms p (some m) = MountedOn ms p m

==_self : (x : ℕ) → (x == x) ≡ true
==_self x = ground arith

pub same_string_self : (a : List ℕ) → same_string a a ≡ true
same_string_self [] = refl
same_string_self (x ∷ xs) = rw (==_self x) (same_string_self xs)

later :
    (m : Mount) (ms : List Mount) (p : List ℕ) (o : Option Mount)
    → m.point ≢ p
    → Checked ms p o
    → Checked (m ∷ ms) p o
later m ms p none n h = (n, h)
later m ms p (some k) n h = (h.0, inr h.1)

__check_mounts-Checked : (ms : List Mount) (p : List ℕ) → Checked ms p (__check_mounts ms p)
unfolding __check_mounts
__check_mounts-Checked [] p = tt
__check_mounts-Checked (m ∷ ms) p = elim (Bool-cases (same_string m.point p)) [
  | inl e ↦ rw e (same_string→eq m.point p e, inl refl)
  | inr e ↦ rw e (
      later m ms p (__check_mounts ms p)
        (λ h. true≢false (sym (same_string_self p) ∙ ap (λ q. same_string q p) (sym h) ∙ e))
        (__check_mounts-Checked ms p))
]

-- The mount on the longest part of a path, of the parts from 2 to `n` bytes, that a mount is on.
pub record Nearest (v : Vfs) (path : List ℕ) (n : ℕ) (m : Mount) : Type 0 where
  pub cut : ℕ
  pub from : 2 ≤ cut
  pub below : cut ≤ n
  pub here : MountedOn v.mounts (take cut path) m
  pub longer : (k : ℕ) → cut < k → k ≤ n → NotOn v.mounts (take k path)

-- or none of those parts, and then it is the root's mount
abbrev pub UnderMount : Vfs → List ℕ → ℕ → Option Mount → Type 0
UnderMount v path n found =
    ((m : Mount) × (found ≡ some m) × Nearest v path n m)
    ⊎ ((found ≡ v.root_mount) × ((k : ℕ) → 2 ≤ k → k ≤ n → NotOn v.mounts (take k path)))

up-to :
    (v : Vfs) (path : List ℕ) (n k : ℕ)
    → NotOn v.mounts (take (suc n) path)
    → (k ≤ n → NotOn v.mounts (take k path))
    → k ≤ suc n
    → NotOn v.mounts (take k path)
up-to v path n k last earlier h = elim (Bool-cases (ltb n k)) [
  | inl more ↦
      let e : suc n ≡ k = omega (arith, ltb→lt _ _ more, h) in
      subst (λ j. NotOn v.mounts (take j path)) e last
  | inr less ↦ earlier (omega (arith, ltb→le _ _ less))
]

wider-UnderMount :
    (v : Vfs) (path : List ℕ) (n : ℕ) (found : Option Mount)
    → NotOn v.mounts (take (suc n) path)
    → UnderMount v path n found
    → UnderMount v path (suc n) found
wider-UnderMount v path n found no_last (inl (m, e, near)) = inl (
  m,
  e,
  record {
    cut = near.cut;
    from = near.from;
    below = omega (arith, near.below);
    here = near.here;
    longer = λ k h l. up-to v path n k no_last (near.longer k h) l;
  },
)
wider-UnderMount v path n found no_last (inr (e, all)) =
    inr (e, λ k h l. up-to v path n k no_last (all k h) l)

shorten-UnderMount : (v : Vfs) (path : List ℕ) (n : ℕ) → UnderMount v path n (shorten v path n)
unfolding shorten
shorten-UnderMount v path zero = inr (refl, λ k h l. absurd (omega (arith, h, l)))
shorten-UnderMount v path (suc zero) = inr (refl, λ k h l. absurd (omega (arith, h, l)))
shorten-UnderMount v path (suc (suc n)) =
    let p : List ℕ = take (suc (suc n)) path in
    elim (Option-cases (__check_mounts v.mounts p)) [
      | inl e ↦
          let last : NotOn v.mounts p =
            subst (λ o. Checked v.mounts p o) e (__check_mounts-Checked v.mounts p) in
          rw (e, shorten)
            (wider-UnderMount v path (suc n) (shorten v path (suc n)) last
              (shorten-UnderMount v path (suc n)))
      | inr (m, e) ↦
          let here : MountedOn v.mounts p m =
            subst (λ o. Checked v.mounts p o) e (__check_mounts-Checked v.mounts p) in
          rw (e, shorten)
            (inl (
              m,
              refl,
              record {
                cut = suc (suc n);
                from = omega arith;
                below = omega arith;
                here = here;
                longer = λ k h l. absurd (omega (arith, h, l));
              },
            ))
    ]

-- `find_mount` gives the mount on the longest part of the path, of 2 bytes or more, that a mount is on;
-- if no mount is on such a part, or the path is the root's, the root's mount. The loop that cuts the path
-- ends for every path.
pub find_mount-UnderMount :
    (v : Vfs) (path : List ℕ)
    → (path ≡ root → find_mount v path ≡ v.root_mount)
      × (path ≢ root → UnderMount v path (length path) (find_mount v path))
unfolding find_mount
find_mount-UnderMount v path = (
  λ e. rw e refl,
  λ n. elim (Bool-cases (same_string path root)) [
    | inl e ↦ absurd (n (same_string→eq path root e))
    | inr e ↦ rw e (shorten-UnderMount v path (length path))
  ],
)
