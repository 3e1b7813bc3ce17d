-- ===== src/Ext2/Commit.antt =====
-- fs/ext2/block.c, fs/ext2/inode.c and fs/ext2/super.c: what the allocators write.
use levos.Base.{ℕ, suc, ◌+◌, ◌-◌, ◌*◌, ◌/◌, ◌%◌, ◌≤◌, ◌<◌, ◌≡◌, ◌≢◌, ◌⊎◌, inl, inr, sym, ap, ◌∙◌}
use levos.Base.{ltb, ltb→lt, ltb→le, List, arith, Bool-cases}
use levos.Base.{length, refl, subst, sub32, get_or, get_or-set_ne}
use levos.Ext2.Store.{Device, IsDevice, Priv, Fs, le32, put32, put16, block_sectors}
use levos.Ext2.Store.{ext2_read_block, ext2_write_block}
use levos.Ext2.Alloc.{Table, block_table, inode_table, bitmap_block, free_count}
use levos.Ext2.Alloc.{commit, count_down, ext2_write_superblock}
use levos.Ext2.Blocks.{
  Placed, read_block-write_block, read_block-write_block_ne, length-put16, le32-put32_ne,
  block_sectors-pos,
}
use native.Mathlib.Nat.{mod-eq_of_lt, mul-add-div_right, div-eq_of_lt}

-- The fields of a table do not overlap, and a count in the superblock does not change the group size.
pub record IsTable (t : Table) : Type 0 where
  pub bitmap_count : t.bitmap_at + 3 < t.count_at
  pub in_descriptor : t.count_at < 31
  pub same_size :
      (p : Priv) (v : ℕ) → t.in_group (record p { sb = put32 p.sb t.sb_at v }) ≡ t.in_group p

pub block_table-IsTable : IsTable block_table
block_table-IsTable = record {
  bitmap_count = omega arith;
  in_descriptor = omega arith;
  same_size = λ p v. le32-put32_ne p.sb 12 v 32 (inr (omega arith));
}

pub inode_table-IsTable : IsTable inode_table
inode_table-IsTable = record {
  bitmap_count = omega arith;
  in_descriptor = omega arith;
  same_size = λ p v. le32-put32_ne p.sb 16 v 40 (inr (omega arith));
}

pub get_or-put16 :
    (buf : List ℕ) (off v at : ℕ)
    → (at < off) ⊎ (off + 1 < at)
    → get_or (put16 buf off v) at 0 ≡ get_or buf at 0
unfolding put16
get_or-put16 buf off v at h =
    get_or-set_ne _ (off + 1) at _ 0 (λ e. absurd (omega (arith, e)))
    ∙ get_or-set_ne _ off at _ 0 (λ e. absurd (omega (arith, e)))

-- The bitmap of no group moves when a count is written.
pub bitmap_block-put16 :
    (t : Table) (bgds : List ℕ) (i j v : ℕ)
    → IsTable t
    → bitmap_block t (put16 bgds (32 * i + t.count_at) v) j ≡ bitmap_block t bgds j
bitmap_block-put16 t bgds i j v w =
    let a : t.bitmap_at + 3 < t.count_at = w.bitmap_count in
    let b : t.count_at < 31 = w.in_descriptor in
    let at : ℕ = 32 * j + t.bitmap_at in
    let off : ℕ = 32 * i + t.count_at in
    let away : (k : ℕ) → k ≤ 3 → (at + k < off) ⊎ (off + 1 < at + k) = λ k h.
      elim (Bool-cases (ltb j (suc i))) [
        | inl le ↦ inl (omega (arith, ltb→lt _ _ le, a, h))
        | inr gt ↦ inr (omega (arith, ltb→le _ _ gt, b))
      ] in
    let zero_off : at + 0 ≡ at = omega arith in
    let first : get_or (put16 bgds off v) at 0 ≡ get_or bgds at 0 =
      subst (λ k. get_or (put16 bgds off v) k 0 ≡ get_or bgds k 0) zero_off
        (get_or-put16 bgds off v (at + 0) (away 0 (omega arith))) in
    rw first (
      rw (get_or-put16 bgds off v (at + 1) (away 1 (omega arith))) (
        rw (get_or-put16 bgds off v (at + 2) (away 2 (omega arith)))
          (rw (get_or-put16 bgds off v (at + 3) (away 3 (omega arith))) refl)))

pub Placed-cong :
    {Disk : Type 0} (fs gs : Fs Disk) (b : ℕ)
    → block_sectors fs.priv ≡ block_sectors gs.priv
    → Placed fs b
    → Placed gs b
Placed-cong fs gs b e p = record {
  fits = subst (λ n. b * n + n ≤ 0x100000000) e p.fits;
  behind = subst (λ n. 4 ≤ b * n) e p.behind;
}

-- The descriptors and the bitmaps have places of their own.
pub record IsLaidOut {Disk : Type 0} (t : Table) (fs : Fs Disk) (bgds : List ℕ) : Type 0 where
  pub bgd : Placed fs fs.priv.first_bgd
  pub bitmap : (i : ℕ) → i < fs.priv.number_of_bgs → Placed fs (bitmap_block t bgds i)
  pub differ : (i : ℕ) → i < fs.priv.number_of_bgs → bitmap_block t bgds i ≢ fs.priv.first_bgd

pub block_sectors-sb :
    (p : Priv) (s : List ℕ) → block_sectors (record p { sb = s }) ≡ block_sectors p
unfolding block_sectors
block_sectors-sb p s = refl

-- A number is made of one group and one index.
pub same_group : (a b n i j : ℕ) → i < n → j < n → a * n + i ≡ b * n + j → a ≡ b
same_group a b n i j hi hj e =
    let pos : 0 < n = omega arith in
    let ea : (a * n + i) / n ≡ a =
      mul-add-div_right pos a i ∙ ap (λ k. a + k) (div-eq_of_lt hi) ∙ omega arith in
    let eb : (b * n + j) / n ≡ b =
      mul-add-div_right pos b j ∙ ap (λ k. b + k) (div-eq_of_lt hj) ∙ omega arith in
    sym ea ∙ ap (λ k. k / n) e ∙ eb

module _ {Disk : Type 0} (dev : Device Disk) (law : IsDevice dev) where
  read_block-at :
      (fs : Fs Disk) (b n : ℕ)
      → block_sectors fs.priv ≡ n
      → ext2_read_block dev fs b ≡ dev.read fs.disk (b * n % 0x100000000) n
  unfolding ext2_read_block
  read_block-at fs b n e = ap (λ k. dev.read fs.disk (b * k % 0x100000000) k) e

  read_block-write_superblock :
      (t : Table) (fs : Fs Disk) (b : ℕ)
      → Placed fs b
      → ext2_read_block dev (ext2_write_superblock dev (count_down dev t fs)) b
        ≡ ext2_read_block dev fs b
  unfolding ext2_write_superblock count_down
  read_block-write_superblock t fs b p =
      let n : ℕ = block_sectors fs.priv in
      let e : b * n % 0x100000000 ≡ b * n =
        mod-eq_of_lt (omega (arith, p.fits, block_sectors-pos fs.priv)) in
      let counted : Fs Disk = ext2_write_superblock dev (count_down dev t fs) in
      rw (read_block-at counted b n (block_sectors-sb fs.priv _))
        (rw (read_block-at fs b n refl) (rw e (law.read-write_ne _ 2 2 _ _ _ (inl p.behind))))

  module _ (t : Table) (fs : Fs Disk) (bgds : List ℕ) (i : ℕ) (buffer : List ℕ)
      (bm : Placed fs (bitmap_block t bgds i)) (bgd : Placed fs fs.priv.first_bgd) where
    -- the filesystem before the descriptors are written
    abbrev marked : Fs Disk
    marked =
        ext2_write_superblock dev
          (count_down dev t (ext2_write_block dev fs buffer (bitmap_block t bgds i)))

    sectors-marked : block_sectors fs.priv ≡ block_sectors marked.priv
    unfolding ext2_write_superblock count_down ext2_write_block
    sectors-marked = sym (block_sectors-sb fs.priv _)

    first_bgd-marked : marked.priv.first_bgd ≡ fs.priv.first_bgd
    unfolding ext2_write_superblock count_down ext2_write_block
    first_bgd-marked = refl

    read-marked :
        (b : ℕ)
        → Placed fs b
        → ext2_read_block dev marked b
          ≡ ext2_read_block dev (ext2_write_block dev fs buffer (bitmap_block t bgds i)) b
    unfolding ext2_write_block
    read-marked b p =
        read_block-write_superblock t (ext2_write_block dev fs buffer (bitmap_block t bgds i)) b
          record { fits = p.fits; behind = p.behind }

    pub read-commit_bgd :
        length bgds ≡ block_sectors fs.priv * 512
        → ext2_read_block dev (commit dev t fs bgds i buffer) fs.priv.first_bgd
          ≡ put16 bgds (32 * i + t.count_at) (free_count t bgds i - 1)
    unfolding commit
    read-commit_bgd l =
        read_block-write_block dev law marked
          (put16 bgds (32 * i + t.count_at) (free_count t bgds i - 1)) fs.priv.first_bgd
          (length-put16 _ _ _ ∙ l ∙ ap (λ n. n * 512) sectors-marked)

    pub read-commit :
        (b : ℕ)
        → Placed fs b
        → b ≢ fs.priv.first_bgd
        → ext2_read_block dev (commit dev t fs bgds i buffer) b
          ≡ ext2_read_block dev (ext2_write_block dev fs buffer (bitmap_block t bgds i)) b
    unfolding commit
    read-commit b p differ =
        read_block-write_block_ne dev law marked _ fs.priv.first_bgd b
          (Placed-cong fs marked fs.priv.first_bgd sectors-marked bgd)
          (Placed-cong fs marked b sectors-marked p) (λ e. differ (sym e))
        ∙ read-marked b p

    pub priv-commit :
        (commit dev t fs bgds i buffer).priv
        ≡ record fs.priv { sb = put32 fs.priv.sb t.sb_at (sub32 (le32 fs.priv.sb t.sb_at) 1) }
    unfolding commit ext2_write_superblock count_down ext2_write_block
    priv-commit = refl
