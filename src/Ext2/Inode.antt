-- ===== src/Ext2/Inode.antt =====
-- fs/ext2/inode.c: an inode is read from and written to the inode table, and its block map is followed.
-- An inode is the list of its bytes, `struct ext2_inode` at its offsets.
use levos.Base.{ℕ, ◌+◌, ◌-◌, ◌*◌, ◌/◌, ◌%◌, Bool, List, ltb, leb, ◌==◌, if◌then◌else◌, neg, sub32}
use levos.Base.{take, drop}
use levos.Ext2.Store.{Device, Priv, Fs, Heap, ok, next, le32, word_at, memcpy}
use levos.Ext2.Store.{inodes_in_blockgroup, ext2_read_block, ext2_write_block}

abbrev pub enoent : ℕ
enoent = 2

abbrev pub enomem : ℕ
enomem = 12

abbrev pub einval : ℕ
einval = 22

abbrev pub enospc : ℕ
enospc = 28

abbrev pub enosys : ℕ
enosys = 38

abbrev pub erofs : ℕ
erofs = 30

-- the sign of an `int`, as a bit pattern
abbrev pub is_neg : ℕ → Bool
is_neg v = leb 0x80000000 v

abbrev pub inode_size : List ℕ → ℕ
inode_size i = le32 i 4

abbrev pub disk_sectors : List ℕ → ℕ
disk_sectors i = le32 i 28

abbrev pub singly_block : List ℕ → ℕ
singly_block i = le32 i 88

abbrev pub doubly_block : List ℕ → ℕ
doubly_block i = le32 i 92

abbrev pub triply_block : List ℕ → ℕ
triply_block i = le32 i 96

abbrev pub dbp : List ℕ → ℕ → ℕ
dbp i b = le32 i (40 + 4 * b)

-- `blocksize / sizeof(uint32_t)`
abbrev pub per_block : Priv → ℕ
per_block p = p.blocksize / 4

-- what a call that fills a buffer returns: its result, the buffer, and the rest of the heap's answers
pub record Filled : Type 0 where
  pub rc : ℕ
  pub buf : List ℕ
  pub heap : Heap

-- the block that holds an inode, by the descriptor of its group, and its offset there. A descriptor
-- past the block that was read is outside the buffer: it reads as 0.
abbrev pub table_block : Priv → List ℕ → ℕ → ℕ
table_block p bgds inode =
    le32 bgds (32 * (sub32 inode 1 / inodes_in_blockgroup p) + 8)
    + sub32 inode 1 % inodes_in_blockgroup p * p.inodesize / p.blocksize

abbrev pub table_offset : Priv → ℕ → ℕ
table_offset p inode = sub32 inode 1 % inodes_in_blockgroup p % p.inodes_per_block * p.inodesize

module _ {Disk : Type 0} (dev : Device Disk) where
  unfoldable pub ext2_read_inode : Fs Disk → List ℕ → ℕ → Heap → Filled
  ext2_read_inode fs buf inode h =
      if inode == 0
      then record { rc = neg 1; buf = buf; heap = h }
      else if ok h
      then record {
        rc = 0;
        buf = memcpy buf 0 (
            take fs.priv.inodesize (
              drop (table_offset fs.priv inode) (
                ext2_read_block dev fs
                  (table_block fs.priv (ext2_read_block dev fs fs.priv.first_bgd) inode))));
        heap = next h;
      }
      else record { rc = neg enomem; buf = buf; heap = next h }

  unfoldable pub ext2_write_inode : Fs Disk → List ℕ → ℕ → Heap → Fs Disk
  ext2_write_inode fs buf inode h =
      let final : ℕ = table_block fs.priv (ext2_read_block dev fs fs.priv.first_bgd) inode in
      if ok h
      then ext2_write_block dev fs
          (memcpy (ext2_read_block dev fs final) (table_offset fs.priv inode)
            (take fs.priv.inodesize buf))
          final
      else fs

  -- The entry of the block that the doubly block's entry names; the buffer is read after it is freed.
  unfoldable pub get_doubly : Fs Disk → List ℕ → ℕ → ℕ
  get_doubly fs ibuf i =
      let nblock : ℕ =
        word_at (ext2_read_block dev fs (doubly_block ibuf)) (i / per_block fs.priv) in
      if nblock == 0
      then neg 1
      else word_at (ext2_read_block dev fs nblock) (i - i / per_block fs.priv * per_block fs.priv)

  unfoldable pub ext2_inode_get_block : Fs Disk → List ℕ → ℕ → Heap → ℕ
  ext2_inode_get_block fs ibuf b h =
      let p : ℕ = per_block fs.priv in
      if ltb b 12
      then dbp ibuf b
      else if ltb b (12 + p)
      then if ok h
        then word_at (ext2_read_block dev fs (singly_block ibuf)) (b - 12)
        else neg enomem
      else if ltb b (12 + p + p * p)
      then if ok h then get_doubly fs ibuf (b - 12 - p) else neg enomem
      else neg enosys
