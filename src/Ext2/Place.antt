-- ===== src/Ext2/Place.antt =====
-- fs/ext2/dir.c: an entry is put behind the last entry of a directory block. A block is its bytes; sizes
-- have 16 bits.
use levos.Base.{ℕ, zero, suc, ◌+◌, ◌-◌, ◌/◌, ◌%◌, List, ◌∷◌, ◌++◌, Option, none, some, replicate}
use levos.Base.{◌>>=◌, leb, ◌==◌, if◌then◌else◌, neg, take, length}
use levos.Ext2.Store.{
  Device, Fs, Heap, ok, next, put16, le16, memcpy, ext2_read_block, ext2_write_block,
}
use levos.Ext2.Inode.{
  enomem, dbp, disk_sectors, inode_size, Filled, ext2_read_inode, ext2_write_inode,
}
use levos.Ext2.Alloc.{Scan}
use levos.Ext2.Map.{ext2_inode_add_block, set_size}
use levos.Ext2.Dir.{dir_inode, dir_size, dir_namelength}

abbrev pub __get_dirent_min_length : List ℕ → ℕ → ℕ
__get_dirent_min_length buf r = 8 + dir_namelength buf r

-- `while ((off + n) % m) n ++` on a number below `w`, in at most `fuel` turns
unfoldable pub pad_to : (w m off n fuel : ℕ) → ℕ
pad_to w m off n zero = n
pad_to w m off n (suc fuel) =
    let rest : ℕ = pad_to w m off ((n + 1) % w) fuel in if (off + n) % m == 0 then n else rest

-- the size of an entry is set
abbrev pub set_dir_size : List ℕ → ℕ → ℕ → List ℕ
set_dir_size buf r v = put16 buf (r + 4) v

unfoldable pub __minimize_dirent : List ℕ → ℕ → List ℕ
__minimize_dirent buf r = set_dir_size buf r (pad_to 65536 4 0 (__get_dirent_min_length buf r) 4)

unfoldable pub __maximize_dirent : List ℕ → (r soff blocksize : ℕ) → List ℕ
__maximize_dirent buf r soff blocksize =
    set_dir_size buf r (pad_to 65536 blocksize soff (dir_size buf r) blocksize)

-- The offset of the entry that reaches the end of the block. A size of 0 panics: `none`.
unfoldable pub __ext2_find_largest_dirent_space : List ℕ → (bs off n : ℕ) → Option ℕ
__ext2_find_largest_dirent_space buf bs off zero = none
__ext2_find_largest_dirent_space buf bs off (suc n) =
    let rest : Option ℕ = __ext2_find_largest_dirent_space buf bs (off + dir_size buf off) n in
    if dir_size buf off == 0
    then none
    else if leb bs (off + dir_size buf off)
    then some off
    else rest

-- The entry `dirent` is copied behind the entry at `before`, which is cut to what it needs. There is no
-- test for room: a copy over the end of the buffer is `none`.
unfoldable pub place_behind : List ℕ → (bs before : ℕ) → List ℕ → Option (List ℕ)
place_behind buf bs before dirent =
    let cut : List ℕ = __minimize_dirent buf before in
    let new : ℕ = before + dir_size cut before in
    let len : ℕ = __get_dirent_min_length dirent 0 in
    if leb (new + len) (length cut)
    then some (__maximize_dirent (memcpy cut new (take len dirent)) new new bs)
    else none

unfoldable pub place_in_block : List ℕ → ℕ → List ℕ → Option (List ℕ)
place_in_block buf bs dirent =
    __ext2_find_largest_dirent_space buf bs 0 bs >>= λ before. place_behind buf bs before dirent

-- the least multiple of 4 that `ext2_new_dirent` has room for the name and a 0 in
unfoldable pub ext2_new_dirent : ℕ → List ℕ → Option (List ℕ) → Option (List ℕ)
ext2_new_dirent inode name none = none
ext2_new_dirent inode name (some mem) =
    let rec_len : ℕ = pad_to 0x100000000 4 0 (8 + length name + 1) 4 in
    some (
      inode % 256
      ∷ inode / 256 % 256
      ∷ inode / 65536 % 256
      ∷ inode / 16777216 % 256
      ∷ rec_len % 256
      ∷ rec_len / 256 % 256
      ∷ length name % 256
      ∷ 0
      ∷ (name ++ replicate (rec_len - 8 - length name) 0))

abbrev pub hardlinks : List ℕ → ℕ
hardlinks i = le16 i 26

module _ {Disk : Type 0} (dev : Device Disk) (scan : Scan) where
  -- What is left to do when the entry is placed: one link more for the inode that it names. The result of
  -- `malloc` is not looked at: where it fails, a null pointer is followed, which is `none`.
  unfoldable pub placed_links : Fs Disk → List ℕ → (old_secs : ℕ) → Heap → Option (ℕ × Fs Disk)
  placed_links fs dirent old_secs h =
      let ino : ℕ = dir_inode dirent 0 in
      let r : Filled = ext2_read_inode dev fs (h.fresh fs.priv.inodesize) ino (next h) in
      let linked : List ℕ = put16 r.buf 26 (hardlinks r.buf + 1) in
      let grown : List ℕ =
        if disk_sectors linked == old_secs
        then linked
        else set_size linked ((inode_size linked + fs.priv.blocksize) % 0x100000000) in
      if ok h then some (0, ext2_write_inode dev fs grown ino r.heap) else none

  -- The first direct block that there is takes the entry; where there is none, a block is added. A
  -- directory has its first block behind `ext2_mkdir`, so the loop ends in its first turn.
  unfoldable pub __ext2_place_dirent : Fs Disk → List ℕ → ℕ → List ℕ → Heap → Option (ℕ × Fs Disk)
  __ext2_place_dirent fs inode ino dirent h =
      let bs : ℕ = fs.priv.blocksize in
      let old_secs : ℕ = disk_sectors inode in
      let whole : List ℕ = set_dir_size dirent 0 bs in
      let fresh_block : List ℕ =
        memcpy (replicate bs 0) 0 (take (__get_dirent_min_length whole 0) whole) in
      let grow : Option (ℕ × Fs Disk) =
        ext2_inode_add_block dev scan fs none ino inode (next (next h)) >>= λ m.
        placed_links (ext2_write_block dev m.fs fresh_block m.rc) whole old_secs m.heap in
      let fill : Option (ℕ × Fs Disk) =
        place_in_block (ext2_read_block dev fs (dbp inode 0)) bs dirent >>= λ b.
        placed_links (ext2_write_block dev fs b (dbp inode 0)) dirent old_secs (next h) in
      if ok h
      then if dbp inode 0 == 0 then if ok (next h) then grow else some (neg enomem, fs) else fill
      else some (neg enomem, fs)

  unfoldable pub ext2_place_dirent : Fs Disk → ℕ → List ℕ → Heap → Option (ℕ × Fs Disk)
  ext2_place_dirent fs ino dirent h =
      let r : Filled = ext2_read_inode dev fs (h.fresh fs.priv.inodesize) ino (next h) in
      if ok h then __ext2_place_dirent fs r.buf ino dirent r.heap else some (neg enomem, fs)
