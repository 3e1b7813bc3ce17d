-- ===== src/Ext2/Alloc.antt =====
-- fs/ext2/block.c, fs/ext2/inode.c and fs/ext2/super.c: a free block or inode is found by the bitmaps of
-- the block groups. The search of a bitmap, lib/bitmap.c, is a parameter of the model.
use levos.Base.{ℕ, zero, suc, ◌+◌, ◌-◌, ◌*◌, ◌/◌, ◌%◌, ◌<◌, ◌≡◌, ◌≢◌, Bool, true, false}
use levos.Base.{List, Option, none, some, ltb, if◌then◌else◌, neg, sub32, test_bit, get_or, length}
use levos.Ext2.Store.{Device, Priv, Fs, Heap, ok, next, le16, le32, put16, put32}
use levos.Ext2.Store.{blocks_in_blockgroup, inodes_in_blockgroup, ext2_read_block, ext2_write_block}
use levos.Ext2.Inode.{enomem}

-- a bit of a bitmap
abbrev pub bit : List ℕ → ℕ → Bool
bit buf i = test_bit (i % 8) (get_or buf (i / 8) 0)

-- `bitmap_scan_and_flip(bm, 0, 1, false)` on a bitmap of `n` bits: the first clear bit and the bitmap
-- with it set
abbrev pub Scan : Type 0
Scan = ℕ → List ℕ → Option (ℕ × List ℕ)

-- What the search gives is a bit of the bitmap that was clear, and it sets that bit only.
pub record IsScan (scan : Scan) : Type 0 where
  pub inside : (n : ℕ) (buf : List ℕ) (k : ℕ) (new : List ℕ) → scan n buf ≡ some (k, new) → k < n
  pub clear :
      (n : ℕ) (buf : List ℕ) (k : ℕ) (new : List ℕ) → scan n buf ≡ some (k, new) → bit buf k ≡ false
  pub taken :
      (n : ℕ) (buf : List ℕ) (k : ℕ) (new : List ℕ) → scan n buf ≡ some (k, new) → bit new k ≡ true
  pub kept :
      (n : ℕ) (buf : List ℕ) (k : ℕ) (new : List ℕ) (j : ℕ)
      → scan n buf ≡ some (k, new)
      → j ≢ k
      → bit new j ≡ bit buf j
  pub length-scan :
      (n : ℕ) (buf : List ℕ) (k : ℕ) (new : List ℕ)
      → scan n buf ≡ some (k, new)
      → length new ≡ length buf

-- The two allocators differ in the fields that they use: the bitmap's block and the count of free ones
-- in the group's descriptor, the count in the superblock, and how many there are in a group.
pub record Table : Type 0 where
  pub bitmap_at : ℕ
  pub count_at : ℕ
  pub sb_at : ℕ
  pub in_group : Priv → ℕ

abbrev pub block_table : Table
block_table = record { bitmap_at = 0; count_at = 12; sb_at = 12; in_group = blocks_in_blockgroup }

abbrev pub inode_table : Table
inode_table = record { bitmap_at = 4; count_at = 14; sb_at = 16; in_group = inodes_in_blockgroup }

-- `bgd->block_of_…_usage_bitmap` and `bgd->num_of_unalloc_…` of the `i`-th group
abbrev pub bitmap_block : Table → List ℕ → ℕ → ℕ
bitmap_block t bgds i = le32 bgds (32 * i + t.bitmap_at)

abbrev pub free_count : Table → List ℕ → ℕ → ℕ
free_count t bgds i = le16 bgds (32 * i + t.count_at)

-- What an allocator returns: the number or an error, the filesystem and the heap. `fault`: the
-- descriptors were read after they were freed, and freed again.
pub record Got (Disk : Type 0) : Type 0 where
  pub rc : ℕ
  pub fs : Fs Disk
  pub heap : Heap
  pub fault : Bool

module _ {Disk : Type 0} (dev : Device Disk) where
  unfoldable pub ext2_write_superblock : Fs Disk → Fs Disk
  ext2_write_superblock fs = record fs { disk = dev.write fs.disk 2 2 fs.priv.sb }

  -- one fewer is free in the superblock
  unfoldable pub count_down : Table → Fs Disk → Fs Disk
  count_down t fs = record fs {
    priv = record fs.priv { sb = put32 fs.priv.sb t.sb_at (sub32 (le32 fs.priv.sb t.sb_at) 1) };
  }

  -- The bitmap, the superblock and the descriptors are written, in this order.
  unfoldable pub commit : Table → Fs Disk → List ℕ → ℕ → List ℕ → Fs Disk
  commit t fs bgds i buffer =
      ext2_write_block dev
        (ext2_write_superblock
          (count_down t (ext2_write_block dev fs buffer (bitmap_block t bgds i))))
        (put16 bgds (32 * i + t.count_at) (free_count t bgds i - 1)) fs.priv.first_bgd

  module _ (scan : Scan) where
    -- The loop over the groups. After a bitmap without a clear bit the descriptors' buffer is freed and the
    -- loop goes on with it: from then on C gives no meaning to the run, which `fault` says. The rest is what
    -- comes out if the memory still holds the descriptors.
    unfoldable pub alloc_loop : Table → Fs Disk → List ℕ → (i n : ℕ) → Heap → Got Disk
    alloc_loop t fs bgds i zero h = record { rc = neg 1; fs = fs; heap = h; fault = false }
    alloc_loop t fs bgds i (suc n) h =
        let rest : Heap → Got Disk = alloc_loop t fs bgds (suc i) n in
        if ltb 0 (free_count t bgds i)
        then if ok h
          then elim (scan (t.in_group fs.priv) (ext2_read_block dev fs (bitmap_block t bgds i))) [
            | none ↦ record (rest (next h)) { fault = true }
            | some (k, buffer) ↦ record {
              rc = (i * t.in_group fs.priv + k + 1) % 0x100000000;
              fs = commit t fs bgds i buffer;
              heap = next h;
              fault = false;
            }
          ]
          else record { rc = neg enomem; fs = fs; heap = next h; fault = false }
        else rest h

    unfoldable pub alloc_from : Table → Fs Disk → Heap → Got Disk
    alloc_from t fs h =
        if ok h
        then alloc_loop t fs (ext2_read_block dev fs fs.priv.first_bgd) 0 fs.priv.number_of_bgs
            (next h)
        else record { rc = neg enomem; fs = fs; heap = next h; fault = false }

    unfoldable pub ext2_alloc_block : Fs Disk → Heap → Got Disk
    ext2_alloc_block fs h = alloc_from block_table fs h

    unfoldable pub ext2_alloc_inode : Fs Disk → Heap → Got Disk
    ext2_alloc_inode fs h = alloc_from inode_table fs h
