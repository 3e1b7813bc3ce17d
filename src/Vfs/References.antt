-- ===== src/Vfs/References.antt =====
-- fs/vfs.c: the references of an open file.
use levos.Base.{ℕ, suc, ◌+◌, ◌<◌, ◌≡◌, refl, ap, sym, ◌∙◌, List, [], ◌∷◌}
use levos.Base.{◌==◌, if◌then◌else◌, Bool-cases, inl, inr, arith, ==→eq, ==→ne}
use levos.Vfs.File.{File, vfs_close, vfs_inc_refc, opened}

-- what is done with an open file
pub data Use : Type 0 where
  inc : Use
  close : Use

abbrev pub use_once : File → Use → File
use_once f Use.inc = vfs_inc_refc f
use_once f Use.close = vfs_close f

abbrev pub use_all : File → List Use → File
use_all f [] = f
use_all f (u ∷ us) = use_all (use_once f u) us

-- `n` references are held; each use holds one more or gives one up, none is given up that is not held,
-- and `m` are held in the end. There is room for all in an `int`.
pub data Balanced : ℕ → List Use → ℕ → Type 0 where
  done : (n : ℕ) → Balanced n [] n
  more :
      (n m : ℕ) (us : List Use)
      → 0 < n
      → n < 0x7fffffff
      → Balanced (suc n) us m
      → Balanced n (Use.inc ∷ us) m
  less : (n m : ℕ) (us : List Use) → Balanced n us m → Balanced (suc n) (Use.close ∷ us) m

-- what uses have done to a file that `n` references were held of
pub record Counted (f : File) (n m : ℕ) (g : File) : Type 0 where
  pub count : g.refc ≡ m
  pub over : n ≡ 0 → g ≡ f
  pub running : 0 < m → g.closed ≡ f.closed
  pub shut : 0 < n → m ≡ 0 → g.closed ≡ f.closed + 1

use_all-Counted :
    (f : File) (n m : ℕ) (us : List Use)
    → f.refc ≡ n
    → n < 0x80000000
    → Balanced n us m
    → Counted f n m (use_all f us)
unfolding vfs_close vfs_inc_refc
use_all-Counted f n m us e small (Balanced.done k) = record {
  count = e;
  over = λ z. refl;
  running = λ p. refl;
  shut = λ p z. absurd (omega (arith, p, z));
}
use_all-Counted f n m us e small (Balanced.more k j vs some_held room b) =
    let g : File = vfs_inc_refc f in
    let c : g.refc ≡ suc n = omega (arith, e, room) in
    let rest : Counted g (suc n) m (use_all g vs) =
      use_all-Counted g (suc n) m vs c (omega (arith, room)) b in
    record {
      count = rest.count;
      over = λ z. absurd (omega (arith, z, some_held));
      running = λ p. rest.running p;
      shut = λ p z. rest.shut (omega arith) z;
    }
use_all-Counted f n m us e small (Balanced.less k j vs b) =
    let g : File = vfs_close f in
    let left : g.refc ≡ k = ground (arith, e, small) in
    let last : k ≡ 0 → g.closed ≡ f.closed + 1 = λ z. ground (arith, e, z) in
    let kept : 0 < k → g.closed ≡ f.closed = λ p. ground (arith, e, p, small) in
    let rest : Counted g k m (use_all g vs) =
      use_all-Counted g k m vs left (omega (arith, small)) b in
    record {
      count = rest.count;
      over = λ z. absurd (omega (arith, z));
      running = λ p. elim (Bool-cases (k == 0)) [
        | inl z ↦
            let end : m ≡ 0 =
              sym rest.count ∙ ap (λ h. h.refc) (rest.over (==→eq _ _ z)) ∙ left ∙ ==→eq _ _ z in
            absurd (omega (arith, p, end))
        | inr nz ↦ rest.running p ∙ kept (omega (arith, ==→ne _ _ nz))
      ];
      shut = λ p z. elim (Bool-cases (k == 0)) [
        | inl kz ↦ ap (λ h. h.closed) (rest.over (==→eq _ _ kz)) ∙ last (==→eq _ _ kz)
        | inr nz ↦
            let pos : 0 < k = omega (arith, ==→ne _ _ nz) in
            rest.shut pos z ∙ ap (λ c. c + 1) (kept pos)
      ];
    }

-- A file that `vfs_open` gave, used so that no reference is given up that is not held: its count is the
-- number of references, and its close operation has run once if that is 0, and not otherwise.
pub opened-close :
    (f : File) (path : List ℕ) (us : List Use) (m : ℕ)
    → f.closed ≡ 0
    → Balanced 1 us m
    → ((use_all (opened path f) us).refc ≡ m)
      × ((use_all (opened path f) us).closed ≡ (if m == 0 then 1 else 0))
unfolding opened
opened-close f path us m e b =
    let c : Counted (opened path f) 1 m (use_all (opened path f) us) =
      use_all-Counted (opened path f) 1 m us refl (omega arith) b in
    (
      c.count,
      elim (Bool-cases (m == 0)) [
        | inl z ↦ rw z (c.shut (omega arith) (==→eq _ _ z) ∙ ap (λ k. k + 1) e)
        | inr nz ↦ rw nz (c.running (omega (arith, ==→ne _ _ nz)) ∙ e)
      ],
    )
