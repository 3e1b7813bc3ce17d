-- ===== src/Ext2/Allocating.antt =====
-- fs/ext2/block.c and fs/ext2/inode.c: what the allocators find, and what they write.
use levos.Base.{ℕ, zero, suc, ◌+◌, ◌*◌, ◌%◌, ◌≤◌, ◌<◌, ◌≡◌, ◌≢◌, ◌⊎◌, inl, inr}
use levos.Base.{List, Option, none, some, ltb, ltb→lt, ltb→le, Bool-cases, arith}
use levos.Base.{Option-cases, refl, false, neg, subst}
use levos.Ext2.Store.{Device, Fs}
use levos.Ext2.Store.{ext2_read_block}
use levos.Ext2.Tree.{steady}
use levos.Ext2.Alloc.{Scan, Table, bitmap_block, free_count}
use levos.Ext2.Alloc.{Got, commit, alloc_loop, alloc_from}

module _ {Disk : Type 0} (dev : Device Disk) (scan : Scan) where
  -- what a group's bitmap gives
  abbrev pub scanned : Table → Fs Disk → List ℕ → ℕ → Option (ℕ × List ℕ)
  scanned t fs bgds i = scan (t.in_group fs.priv) (ext2_read_block dev fs (bitmap_block t bgds i))

  -- Nothing is free in a group.
  abbrev pub Full : Table → Fs Disk → List ℕ → ℕ → Type 0
  Full t fs bgds i = free_count t bgds i ≡ 0

  -- The count of every group is right in so far as a group that has free ones by its count has a clear
  -- bit in its bitmap.
  abbrev pub IsConsistent : Table → Fs Disk → List ℕ → (i n : ℕ) → Type 0
  IsConsistent t fs bgds i n =
      (j : ℕ) → i ≤ j → j < i + n → 0 < free_count t bgds j → scanned t fs bgds j ≢ none

  -- The first group with a count above 0 gives the bit that the search found in its bitmap.
  pub record Found (t : Table) (fs : Fs Disk) (bgds : List ℕ) (i n : ℕ) (g : Got Disk)
      : Type 0 where
    pub group : ℕ
    pub index : ℕ
    pub bitmap : List ℕ
    pub from : i ≤ group
    pub below : group < i + n
    pub earlier : (j : ℕ) → i ≤ j → j < group → Full t fs bgds j
    pub counted : 0 < free_count t bgds group
    pub found : scanned t fs bgds group ≡ some (index, bitmap)
    pub number : g.rc ≡ (group * t.in_group fs.priv + index + 1) % 0x100000000
    pub written : g.fs ≡ commit dev t fs bgds group bitmap
    pub sound : g.fault ≡ false

  -- All groups are full: the error, and nothing is written.
  pub record Exhausted (t : Table) (fs : Fs Disk) (bgds : List ℕ) (i n : ℕ) (g : Got Disk)
      : Type 0 where
    pub all : (j : ℕ) → i ≤ j → j < i + n → Full t fs bgds j
    pub error : g.rc ≡ neg 1
    pub untouched : g.fs ≡ fs
    pub sound : g.fault ≡ false

  abbrev pub AllocRefines : Table → Fs Disk → List ℕ → (i n : ℕ) → Got Disk → Type 0
  AllocRefines t fs bgds i n g = Found t fs bgds i n g ⊎ Exhausted t fs bgds i n g

  earlier-or :
      (t : Table) (fs : Fs Disk) (bgds : List ℕ) (i j : ℕ)
      → Full t fs bgds i
      → (suc i ≤ j → Full t fs bgds j)
      → i ≤ j
      → Full t fs bgds j
  earlier-or t fs bgds i j first later h = elim (Bool-cases (ltb i j)) [
    | inl less ↦ later (omega (arith, ltb→lt _ _ less))
    | inr same ↦
        let e : i ≡ j = omega (arith, ltb→le _ _ same, h) in subst (λ k. Full t fs bgds k) e first
  ]

  skip-AllocRefines :
      (t : Table) (fs : Fs Disk) (bgds : List ℕ) (i n : ℕ) (g : Got Disk)
      → Full t fs bgds i
      → AllocRefines t fs bgds (suc i) n g
      → AllocRefines t fs bgds i (suc n) g
  skip-AllocRefines t fs bgds i n g full (inl f) = inl record {
    group = f.group;
    index = f.index;
    bitmap = f.bitmap;
    from = omega (arith, f.from);
    below = omega (arith, f.below);
    earlier = λ j h k. earlier-or t fs bgds i j full (λ l. f.earlier j l k) h;
    counted = f.counted;
    found = f.found;
    number = f.number;
    written = f.written;
    sound = f.sound;
  }
  skip-AllocRefines t fs bgds i n g full (inr e) = inr record {
    all = λ j h k. earlier-or t fs bgds i j full (λ l. e.all j l (omega (arith, k))) h;
    error = e.error;
    untouched = e.untouched;
    sound = e.sound;
  }

  pub alloc_loop-AllocRefines :
      (t : Table) (fs : Fs Disk) (bgds : List ℕ) (fresh : ℕ → List ℕ) (i n : ℕ)
      → IsConsistent t fs bgds i n
      → AllocRefines t fs bgds i n (alloc_loop dev scan t fs bgds i n (steady fresh))
  unfolding alloc_loop
  alloc_loop-AllocRefines t fs bgds fresh i zero right = inr record {
    all = λ j h k. absurd (omega (arith, h, k));
    error = refl;
    untouched = refl;
    sound = refl;
  }
  alloc_loop-AllocRefines t fs bgds fresh i (suc n) right =
      let rest : AllocRefines t fs bgds (suc i) n
          (alloc_loop dev scan t fs bgds (suc i) n (steady fresh)) =
        alloc_loop-AllocRefines t fs bgds fresh (suc i) n
          (λ j h k. right j (omega (arith, h)) (omega (arith, k))) in
      elim (Bool-cases (ltb 0 (free_count t bgds i))) [
        | inr nothing ↦
            rw nothing (skip-AllocRefines t fs bgds i n _ (omega (arith, ltb→le _ _ nothing)) rest)
        | inl counted ↦ rw counted (elim (Option-cases (scanned t fs bgds i)) [
          | inl e ↦ absurd (right i (omega arith) (omega arith) (ltb→lt _ _ counted) e)
          | inr (x, e) ↦ rw e (
              inl record {
                group = i;
                index = x.0;
                bitmap = x.1;
                from = omega arith;
                below = omega arith;
                earlier = λ j h k. absurd (omega (arith, h, k));
                counted = ltb→lt _ _ counted;
                found = e;
                number = refl;
                written = refl;
                sound = refl;
              })
        ])
      ]

  pub alloc_from-AllocRefines :
      (t : Table) (fs : Fs Disk) (fresh : ℕ → List ℕ)
      → IsConsistent t fs (ext2_read_block dev fs fs.priv.first_bgd) 0 fs.priv.number_of_bgs
      → AllocRefines t fs
          (ext2_read_block dev fs fs.priv.first_bgd)
          0
          fs.priv.number_of_bgs
          (alloc_from dev scan t fs (steady fresh))
  unfolding alloc_from
  alloc_from-AllocRefines t fs fresh right =
      alloc_loop-AllocRefines t fs (ext2_read_block dev fs fs.priv.first_bgd) fresh 0
        fs.priv.number_of_bgs right
