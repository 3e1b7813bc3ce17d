-- ===== src/Ext2/Sizes.antt =====
-- fs/ext2/inode.c: the sizes of a filesystem, which no operation on the block map changes.
use levos.Base.{ℕ, zero, suc, ◌≡◌, ◌≢◌, inl, inr, ap}
use levos.Base.{List, ltb, Bool-cases}
use levos.Base.{Option-cases, replicate, refl, if◌then◌else◌, arith, ◌==◌}
use levos.Ext2.Store.{Device, IsDevice, Fs, Heap, ok, next, block_sectors}
use levos.Ext2.Store.{ext2_read_block, ext2_write_block}
use levos.Ext2.Inode.{singly_block}
use levos.Ext2.Inode.{ext2_write_inode}
use levos.Ext2.Alloc.{
  Scan, Table, Got, block_table, free_count, commit, count_down, alloc_loop, alloc_from,
}
use levos.Ext2.Alloc.{ext2_write_superblock, ext2_alloc_block}
use levos.Ext2.Allocating.{scanned}
use levos.Ext2.Map.{set_entry, need_singly, set_singly}
use levos.Ext2.Blocks.{Placed, read_block-write_block_ne}

module _ {Disk : Type 0} (dev : Device Disk) (law : IsDevice dev) (scan : Scan) where
  -- the sizes that no operation changes
  pub record Same (fs gs : Fs Disk) : Type 0 where
    pub blocksize : gs.priv.blocksize ≡ fs.priv.blocksize
    pub sectors : gs.priv.sectors_per_block ≡ fs.priv.sectors_per_block

  pub Same-block_sectors :
      (fs gs : Fs Disk) → Same fs gs → block_sectors gs.priv ≡ block_sectors fs.priv
  unfolding block_sectors
  Same-block_sectors fs gs s = ap (λ n. if n == 0 then 1 else n) s.sectors

  commit-Same :
      (t : Table) (fs : Fs Disk) (bgds : List ℕ) (i : ℕ) (buffer : List ℕ)
      → Same fs (commit dev t fs bgds i buffer)
  unfolding commit ext2_write_superblock count_down ext2_write_block
  commit-Same t fs bgds i buffer = record { blocksize = refl; sectors = refl }

  alloc_loop-Same :
      (t : Table) (fs : Fs Disk) (bgds : List ℕ) (i n : ℕ) (h : Heap)
      → Same fs (alloc_loop dev scan t fs bgds i n h).fs
  unfolding alloc_loop
  alloc_loop-Same t fs bgds i zero h = record { blocksize = refl; sectors = refl }
  alloc_loop-Same t fs bgds i (suc n) h =
      let self : Same fs fs = record { blocksize = refl; sectors = refl } in
      elim (Bool-cases (ltb 0 (free_count t bgds i))) [
        | inr nothing ↦ rw nothing (alloc_loop-Same t fs bgds (suc i) n h)
        | inl counted ↦ elim (Bool-cases (ok h)) [
          | inr oom ↦ rw counted (rw oom self)
          | inl given ↦ elim (Option-cases (scanned dev scan t fs bgds i)) [
            | inl e ↦ rw counted (rw given (rw e (alloc_loop-Same t fs bgds (suc i) n (next h))))
            | inr (x, e) ↦ rw counted (rw given (rw e (commit-Same t fs bgds i x.1)))
          ]
        ]
      ]

  ext2_alloc_block-Same : (fs : Fs Disk) (h : Heap) → Same fs (ext2_alloc_block dev scan fs h).fs
  unfolding ext2_alloc_block alloc_from
  ext2_alloc_block-Same fs h = ground (
    arith,
    alloc_loop-Same block_table fs (ext2_read_block dev fs fs.priv.first_bgd) 0
        fs.priv.number_of_bgs (next h),
  )

  ext2_write_inode-Same :
      (fs gs : Fs Disk) (inode : List ℕ) (inode_no : ℕ) (h : Heap)
      → Same fs gs
      → Same fs (ext2_write_inode dev gs inode inode_no h)
  unfolding ext2_write_inode ext2_write_block
  ext2_write_inode-Same fs gs inode inode_no h s = ground arith

  ext2_write_block-Same :
      (fs gs : Fs Disk) (buf : List ℕ) (b : ℕ)
      → Same fs gs
      → Same fs (ext2_write_block dev gs buf b)
  unfolding ext2_write_block
  ext2_write_block-Same fs gs buf b s = record { blocksize = s.blocksize; sectors = s.sectors }

  pub need_singly-Same :
      (fs : Fs Disk) (inode : List ℕ) (inode_no : ℕ) (h : Heap)
      → Same fs (need_singly dev scan fs inode inode_no h).fs
  unfolding need_singly
  need_singly-Same fs inode inode_no h =
      let got : Got Disk = ext2_alloc_block dev scan fs h in
      let s : Same fs got.fs = ext2_alloc_block-Same fs h in
      let w : Same fs (ext2_write_inode dev got.fs (set_singly inode got.rc) inode_no got.heap) =
        ext2_write_inode-Same fs got.fs (set_singly inode got.rc) inode_no got.heap s in
      ground (
        arith,
        s,
        ext2_write_block-Same fs _ (replicate fs.priv.blocksize 0)
            (singly_block (set_singly inode got.rc)) w,
      )

  pub set_entry-Same :
      (fs gs : Fs Disk) (b i v : ℕ) → Same fs gs → Same fs (set_entry dev scan gs b i v)
  unfolding set_entry
  set_entry-Same fs gs b i v s = ext2_write_block-Same fs gs _ b s

  pub read-set_entry :
      (fs : Fs Disk) (b other i v : ℕ)
      → Placed fs b
      → Placed fs other
      → b ≢ other
      → ext2_read_block dev (set_entry dev scan fs b i v) other ≡ ext2_read_block dev fs other
  unfolding set_entry
  read-set_entry fs b other i v pb po differ =
      read_block-write_block_ne dev law fs _ b other pb po differ
