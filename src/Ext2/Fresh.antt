-- ===== src/Ext2/Fresh.antt =====
-- fs/ext2/block.c and fs/ext2/inode.c: two allocations in a row.
use levos.Base.{ℕ, ◌+◌, ◌-◌, ◌*◌, ◌%◌, ◌≤◌, ◌<◌, ◌≡◌, ◌≢◌, inl, inr, sym, ap, ◌∙◌}
use levos.Base.{List, true, false, some, arith}
use levos.Base.{length, neg, subst, sub32}
use levos.Ext2.Store.{Device, IsDevice, Fs, le32, block_sectors}
use levos.Ext2.Store.{ext2_read_block}
use levos.Ext2.Tree.{steady}
use levos.Ext2.Alloc.{Scan, IsScan, bit, Table, block_table, inode_table, bitmap_block, free_count}
use levos.Ext2.Alloc.{Got, commit, alloc_from}
use levos.Ext2.Alloc.{ext2_alloc_block, ext2_alloc_inode}
use levos.Ext2.Allocating.{AllocRefines, IsConsistent, scanned, alloc_from-AllocRefines}
use native.Mathlib.Nat.{mod-eq_of_lt, add-mul, mul_comm, mul-le-mul_left}
use levos.Ext2.Blocks.{Placed, read_block-write_block, length-read_block}
use levos.Ext2.Commit.{
  IsTable, IsLaidOut, block_table-IsTable, inode_table-IsTable, bitmap_block-put16, same_group,
  read-commit_bgd, read-commit, priv-commit,
}

module _ {Disk : Type 0} (dev : Device Disk) (law : IsDevice dev) where
  -- A second search of the same group is of the bitmap that the first one left.
  scanned-again :
      (scan : Scan) (t : Table) (fs : Fs Disk) (bgds : List ℕ) (i : ℕ) (buffer : List ℕ)
      → IsTable t
      → IsLaidOut t fs bgds
      → i < fs.priv.number_of_bgs
      → length bgds ≡ block_sectors fs.priv * 512
      → length buffer ≡ block_sectors fs.priv * 512
      → scanned dev scan t
          (commit dev t fs bgds i buffer)
          (ext2_read_block dev
            (commit dev t fs bgds i buffer)
            (commit dev t fs bgds i buffer).priv.first_bgd)
          i
        ≡ scan (t.in_group (commit dev t fs bgds i buffer).priv) buffer
  scanned-again scan t fs bgds i buffer w laid h l lb =
      let after : Fs Disk = commit dev t fs bgds i buffer in
      let here : Placed fs (bitmap_block t bgds i) = laid.bitmap i h in
      let first : after.priv.first_bgd ≡ fs.priv.first_bgd =
        ap (λ p. p.first_bgd) (priv-commit dev law t fs bgds i buffer here laid.bgd) in
      let place : bitmap_block t (ext2_read_block dev after after.priv.first_bgd) i
          ≡ bitmap_block t bgds i =
        ap (λ b. bitmap_block t (ext2_read_block dev after b) i) first
        ∙ ap (λ b. bitmap_block t b i) (read-commit_bgd dev law t fs bgds i buffer here laid.bgd l)
        ∙ bitmap_block-put16 t bgds i i (free_count t bgds i - 1) w in
      let kept : ext2_read_block dev after (bitmap_block t bgds i) ≡ buffer =
        read-commit dev law t fs bgds i buffer here laid.bgd (bitmap_block t bgds i) here
          (laid.differ i h)
        ∙ read_block-write_block dev law fs buffer (bitmap_block t bgds i) lb in
      ap (λ b. scan (t.in_group after.priv) (ext2_read_block dev after b)) place
      ∙ ap (λ b. scan (t.in_group after.priv) b) kept

  -- The second search does not give the first one's bit again.
  found-again :
      (scan : Scan) (t : Table) (fs : Fs Disk) (bgds : List ℕ) (i k : ℕ) (buffer : List ℕ)
      (gs : Fs Disk) (i2 k2 : ℕ) (buffer2 : List ℕ)
      → IsScan scan
      → IsTable t
      → IsLaidOut t fs bgds
      → i < fs.priv.number_of_bgs
      → length bgds ≡ block_sectors fs.priv * 512
      → scanned dev scan t fs bgds i ≡ some (k, buffer)
      → gs ≡ commit dev t fs bgds i buffer
      → i2 ≡ i
      → scanned dev scan t gs (ext2_read_block dev gs gs.priv.first_bgd) i2 ≡ some (k2, buffer2)
      → k2 ≢ k
  found-again scan t fs bgds i k buffer gs i2 k2 buffer2 is w laid h l e eg ei e2 same =
      let lb : length buffer ≡ block_sectors fs.priv * 512 =
        is.length-scan _ _ k buffer e ∙ length-read_block dev law fs (bitmap_block t bgds i) in
      let e3 : scan (t.in_group (commit dev t fs bgds i buffer).priv) buffer ≡ some (k2, buffer2) =
        sym (scanned-again scan t fs bgds i buffer w laid h l lb)
        ∙ subst
            (λ j.
              scanned dev scan t (commit dev t fs bgds i buffer)
                (ext2_read_block dev (commit dev t fs bgds i buffer)
                  (commit dev t fs bgds i buffer).priv.first_bgd)
                j
              ≡ some (k2, buffer2))
            ei
            (subst
              (λ a.
                scanned dev scan t a (ext2_read_block dev a a.priv.first_bgd) i2
                ≡ some (k2, buffer2))
              eg e2) in
      let clear : bit buffer k2 ≡ false = is.clear _ buffer k2 buffer2 e3 in
      let taken : bit buffer k ≡ true = is.taken _ _ k buffer e in
      let both : true ≡ false = sym taken ∙ ap (bit buffer) (sym same) ∙ clear in ground arith

  in_word :
      (i k per n : ℕ) → i < n → k < per → n * per < 0x100000000 → i * per + k + 1 < 0x100000000
  in_word i k per n h l few =
      let e : (i + 1) * per ≡ i * per + 1 * per = add-mul i 1 per in
      let m : (i + 1) * per ≤ n * per =
        subst (λ x. x ≤ n * per) (mul_comm per (i + 1))
          (subst (λ x. per * (i + 1) ≤ x) (mul_comm per n)
            (mul-le-mul_left per (omega (arith, h)))) in
      let one : 1 * per ≡ per = omega arith in omega (arith, e, m, l, one, few)

  different :
      (scan : Scan) (t : Table) (fs : Fs Disk) (g g2 : Got Disk)
      → IsScan scan
      → IsTable t
      → IsLaidOut t fs (ext2_read_block dev fs fs.priv.first_bgd)
      → g.rc ≢ neg 1
      → g2.rc ≢ neg 1
      → fs.priv.number_of_bgs * t.in_group fs.priv < 0x100000000
      → AllocRefines dev scan t fs
          (ext2_read_block dev fs fs.priv.first_bgd)
          0
          fs.priv.number_of_bgs
          g
      → AllocRefines dev scan t g.fs
          (ext2_read_block dev g.fs g.fs.priv.first_bgd)
          0
          g.fs.priv.number_of_bgs
          g2
      → g2.rc ≢ g.rc
  different scan t fs g g2 is w laid ok1 ok2 few (inr e) a2 same = ok1 (e.error)
  different scan t fs g g2 is w laid ok1 ok2 few (inl f) (inr e) same = ok2 (e.error)
  different scan t fs g g2 is w laid ok1 ok2 few (inl f) (inl f2) same =
      let bgds : List ℕ = ext2_read_block dev fs fs.priv.first_bgd in
      let per : ℕ = t.in_group fs.priv in
      let left : g.fs ≡ commit dev t fs bgds f.group f.bitmap = f.written in
      let per2 : t.in_group g.fs.priv ≡ per =
        ap (λ a. t.in_group a.priv) left
        ∙ ap t.in_group (
            priv-commit dev law t fs bgds f.group f.bitmap
              (laid.bitmap f.group (omega (arith, f.below))) laid.bgd)
        ∙ w.same_size fs.priv (sub32 (le32 fs.priv.sb t.sb_at) 1) in
      let small : f.index < per = is.inside _ _ _ _ f.found in
      let small2 : f2.index < per = subst (λ k. f2.index < k) per2 (is.inside _ _ _ _ f2.found) in
      let groups : g.fs.priv.number_of_bgs ≡ fs.priv.number_of_bgs =
        ap (λ a. a.priv.number_of_bgs) left
        ∙ ap (λ p. p.number_of_bgs)
            (priv-commit dev law t fs bgds f.group f.bitmap
              (laid.bitmap f.group (omega (arith, f.below))) laid.bgd) in
      let word : (f.group * per + f.index + 1) % 0x100000000 ≡ f.group * per + f.index + 1 =
        mod-eq_of_lt
          (in_word f.group f.index per fs.priv.number_of_bgs (omega (arith, f.below)) small few) in
      let word2 : (f2.group * per + f2.index + 1) % 0x100000000 ≡ f2.group * per + f2.index + 1 =
        mod-eq_of_lt (
          in_word f2.group f2.index per fs.priv.number_of_bgs (omega (arith, f2.below, groups))
            small2 few) in
      let number : f2.group * per + f2.index + 1 ≡ f.group * per + f.index + 1 =
        sym word2
        ∙ sym (subst (λ k. g2.rc ≡ (f2.group * k + f2.index + 1) % 0x100000000) per2 f2.number)
        ∙ same
        ∙ f.number
        ∙ word in
      let group : f2.group ≡ f.group =
        same_group f2.group f.group per f2.index f.index small2 small (omega (arith, number)) in
      found-again scan t fs bgds f.group f.index f.bitmap g.fs f2.group f2.index f2.bitmap is w laid
        (omega (arith, f.below)) (length-read_block dev law fs fs.priv.first_bgd) f.found left group
        f2.found (omega (arith, number, ap (λ k. k * per) group))

  abbrev pub AllConsistent : Scan → Table → Fs Disk → Type 0
  AllConsistent scan t fs =
      IsConsistent dev scan t fs (ext2_read_block dev fs fs.priv.first_bgd) 0 fs.priv.number_of_bgs

  -- Two allocations of a block in a row, with memory, on a filesystem of less than 2^32 blocks whose
  -- descriptors and bitmaps have places of their own, with a search of a bitmap that keeps its laws, where
  -- before each of the two every group that counts a free block has a clear bit: if both succeed, the
  -- second does not give the first one's block again.
  pub ext2_alloc_block-Fresh :
      (scan : Scan) (fs : Fs Disk) (fresh : ℕ → List ℕ)
      → IsScan scan
      → IsLaidOut block_table fs (ext2_read_block dev fs fs.priv.first_bgd)
      → fs.priv.number_of_bgs * block_table.in_group fs.priv < 0x100000000
      → AllConsistent scan block_table fs
      → AllConsistent scan block_table (ext2_alloc_block dev scan fs (steady fresh)).fs
      → (ext2_alloc_block dev scan fs (steady fresh)).rc ≢ neg 1
      → (ext2_alloc_block dev scan
          (ext2_alloc_block dev scan fs (steady fresh)).fs
          (steady fresh)).rc
        ≢ neg 1
      → (ext2_alloc_block dev scan
          (ext2_alloc_block dev scan fs (steady fresh)).fs
          (steady fresh)).rc
        ≢ (ext2_alloc_block dev scan fs (steady fresh)).rc
  unfolding ext2_alloc_block
  ext2_alloc_block-Fresh scan fs fresh is laid few right right2 ok1 ok2 =
      different scan block_table fs _ _ is block_table-IsTable laid ok1 ok2 few
        (alloc_from-AllocRefines dev scan block_table fs fresh right)
        (alloc_from-AllocRefines dev scan block_table
          (alloc_from dev scan block_table fs (steady fresh)).fs fresh right2)

  -- The same for inodes.
  pub ext2_alloc_inode-Fresh :
      (scan : Scan) (fs : Fs Disk) (fresh : ℕ → List ℕ)
      → IsScan scan
      → IsLaidOut inode_table fs (ext2_read_block dev fs fs.priv.first_bgd)
      → fs.priv.number_of_bgs * inode_table.in_group fs.priv < 0x100000000
      → AllConsistent scan inode_table fs
      → AllConsistent scan inode_table (ext2_alloc_inode dev scan fs (steady fresh)).fs
      → (ext2_alloc_inode dev scan fs (steady fresh)).rc ≢ neg 1
      → (ext2_alloc_inode dev scan
          (ext2_alloc_inode dev scan fs (steady fresh)).fs
          (steady fresh)).rc
        ≢ neg 1
      → (ext2_alloc_inode dev scan
          (ext2_alloc_inode dev scan fs (steady fresh)).fs
          (steady fresh)).rc
        ≢ (ext2_alloc_inode dev scan fs (steady fresh)).rc
  unfolding ext2_alloc_inode
  ext2_alloc_inode-Fresh scan fs fresh is laid few right right2 ok1 ok2 =
      different scan inode_table fs _ _ is inode_table-IsTable laid ok1 ok2 few
        (alloc_from-AllocRefines dev scan inode_table fs fresh right)
        (alloc_from-AllocRefines dev scan inode_table
          (alloc_from dev scan inode_table fs (steady fresh)).fs fresh right2)
