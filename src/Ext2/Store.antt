-- ===== src/Ext2/Store.antt =====
-- fs/ext2/block.c and include/levos/ext2.h: the device as the filesystem sees it, the private data of a
-- mounted filesystem, and the reading and writing of a block. A buffer is the list of its bytes; the
-- fields of a packed structure are read and written at their offsets, the low byte first.
use levos.Base.{ℕ, ◌+◌, ◌*◌, ◌/◌, ◌%◌, ◌≤◌, ◌≡◌, ◌⊎◌, List, Bool, ◌++◌}
use levos.Base.{length, get_or, set, take, drop, alloc_ok, rest_of, ◌==◌, if◌then◌else◌, word}

-- `struct device` through `dev_seek` with `read` or `write`: a position and a count of 512-byte sectors
pub record Device (Disk : Type 0) : Type 0 where
  pub read : Disk → ℕ → ℕ → List ℕ
  pub write : Disk → ℕ → ℕ → List ℕ → Disk

-- What the filesystem relies on: a read gives whole sectors, and a write changes its own sectors only.
pub record IsDevice {Disk : Type 0} (dev : Device Disk) : Type 0 where
  pub length-read : (d : Disk) (pos n : ℕ) → length (dev.read d pos n) ≡ n * 512
  pub read-write :
      (d : Disk) (pos n : ℕ) (buf : List ℕ)
      → length buf ≡ n * 512
      → dev.read (dev.write d pos n buf) pos n ≡ buf
  pub read-write_ne :
      (d : Disk) (pos n at m : ℕ) (buf : List ℕ)
      → (pos + n ≤ at) ⊎ (at + m ≤ pos)
      → dev.read (dev.write d pos n buf) at m ≡ dev.read d at m

-- `struct ext2_priv_data`; the superblock is kept as its bytes
pub record Priv : Type 0 where
  pub sb : List ℕ
  pub first_bgd : ℕ
  pub number_of_bgs : ℕ
  pub blocksize : ℕ
  pub inodesize : ℕ
  pub sectors_per_block : ℕ
  pub inodes_per_block : ℕ

-- `struct filesystem`: the private data and what is on the device
pub record Fs (Disk : Type 0) : Type 0 where
  pub priv : Priv
  pub disk : Disk

-- `malloc`: its answers, and what a block of a size holds when it is given
pub record Heap : Type 0 where
  pub answers : List Bool
  pub fresh : ℕ → List ℕ

abbrev pub ok : Heap → Bool
ok h = alloc_ok h.answers

abbrev pub next : Heap → Heap
next h = record h { answers = rest_of h.answers }

abbrev pub le16 : List ℕ → ℕ → ℕ
le16 buf off = get_or buf off 0 + 256 * get_or buf (off + 1) 0

abbrev pub le32 : List ℕ → ℕ → ℕ
le32 buf off =
    get_or buf off 0
    + 256 * get_or buf (off + 1) 0
    + 65536 * get_or buf (off + 2) 0
    + 16777216 * get_or buf (off + 3) 0

unfoldable pub put16 : List ℕ → ℕ → ℕ → List ℕ
put16 buf off v = set (set buf off (v % 256)) (off + 1) (v / 256 % 256)

unfoldable pub put32 : List ℕ → ℕ → ℕ → List ℕ
put32 buf off v =
    set (set (set (set buf off (v % 256)) (off + 1) (v / 256 % 256)) (off + 2) (v / 65536 % 256))
      (off + 3) (v / 16777216 % 256)

-- `((uint32_t *) buf)[i]`
abbrev pub word_at : List ℕ → ℕ → ℕ
word_at buf i = le32 buf (4 * i)

-- `memcpy(to + pos, from, length from)`
abbrev pub memcpy : List ℕ → ℕ → List ℕ → List ℕ
memcpy to pos from = take pos to ++ (from ++ drop (pos + length from) to)

abbrev pub blocks_in_blockgroup : Priv → ℕ
blocks_in_blockgroup p = le32 p.sb 32

abbrev pub inodes_in_blockgroup : Priv → ℕ
inodes_in_blockgroup p = le32 p.sb 40

-- the sectors that a block is read and written by
unfoldable pub block_sectors : Priv → ℕ
block_sectors p = if p.sectors_per_block == 0 then 1 else p.sectors_per_block

module _ {Disk : Type 0} (dev : Device Disk) where
  unfoldable pub ext2_read_block : Fs Disk → ℕ → List ℕ
  ext2_read_block fs block =
      dev.read fs.disk (block * block_sectors fs.priv % word) (block_sectors fs.priv)

  unfoldable pub ext2_write_block : Fs Disk → List ℕ → ℕ → Fs Disk
  ext2_write_block fs buf block = record fs {
    disk = dev.write fs.disk (block * block_sectors fs.priv % word) (block_sectors fs.priv) buf;
  }
