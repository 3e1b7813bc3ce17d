-- ===== src/Ext2/Dir.antt =====
-- fs/ext2/dir.c and fs/ext2/file.c: a name is looked up in a directory, and a path from the root.
use levos.Base.{ℕ, zero, suc, ◌+◌, Bool, List, [], ◌∷◌, Option, none, some}
use levos.Base.{◌>>=◌, ltb, ◌==◌, ◌&&◌, ◌||◌, if◌then◌else◌, neg, take, drop, length, get_or}
use levos.Ext2.Store.{Device, Fs, Heap, ok, next, le16, le32, ext2_read_block}
use levos.Ext2.Inode.{enoent, enomem, is_neg, dbp, Filled, ext2_read_inode}
use levos.Vfs.Path.{same_string, tokens}

-- `struct ext2_dir` at an offset of a block
abbrev pub dir_inode : List ℕ → ℕ → ℕ
dir_inode buf r = le32 buf r

abbrev pub dir_size : List ℕ → ℕ → ℕ
dir_size buf r = le16 buf (r + 4)

abbrev pub dir_namelength : List ℕ → ℕ → ℕ
dir_namelength buf r = get_or buf (r + 6) 0

-- `namelength` bytes from behind `reserved` on
abbrev pub dir_name : List ℕ → ℕ → List ℕ
dir_name buf r = take (dir_namelength buf r) (drop (r + 8) buf)

-- `strlen(f) == d->namelength && strncmp(&d->reserved + 1, f, d->namelength) == 0`
abbrev pub is_named : List ℕ → List ℕ → ℕ → Bool
is_named f buf r = (length f == dir_namelength buf r) && same_string (dir_name buf r) f

-- The entries of a block from offset `r` on: `some` is what the call returns, `none` is that the loop is
-- left. The number of turns is bounded by `n`; an entry takes a byte at least.
unfoldable pub look : List ℕ → List ℕ → (bs n r : ℕ) → Option ℕ
look f buf bs zero r = none
look f buf bs (suc n) r =
    let rest : Option ℕ = look f buf bs n (r + dir_size buf r) in
    if ltb r bs
    then if is_named f buf r
      then some (if dir_inode buf r == 0 then neg enoent else dir_inode buf r)
      else if (dir_size buf r == 0) || (dir_namelength buf r == 0)
      then none
      else rest
    else none

module _ {Disk : Type 0} (dev : Device Disk) where
  -- `n` direct blocks from the `i`-th on; an empty first entry ends the directory
  unfoldable pub look_blocks : Fs Disk → List ℕ → List ℕ → (i n : ℕ) → ℕ
  look_blocks fs inode f i zero = neg enoent
  look_blocks fs inode f i (suc n) =
      let bs : ℕ = fs.priv.blocksize in
      let buf : List ℕ = ext2_read_block dev fs (dbp inode i) in
      let rest : ℕ = look_blocks fs inode f (suc i) n in
      if (dir_size buf 0 == 0) || (dir_namelength buf 0 == 0)
      then neg enoent
      else elim (look f buf bs bs 0) [ none ↦ rest | some k ↦ k ]

  -- The test for a directory is never true, and the answers of `malloc` are not looked at: where it
  -- fails, a null pointer is followed, which is `none`.
  unfoldable pub ext2_read_directory : Fs Disk → ℕ → List ℕ → Heap → Option ℕ
  ext2_read_directory fs dino f h =
      let r : Filled = ext2_read_inode dev fs (h.fresh fs.priv.inodesize) dino (next h) in
      if ok h && ok r.heap then some (look_blocks fs r.buf f 0 12) else none

  -- the heap behind a call of `ext2_read_directory`
  abbrev pub after_directory : Fs Disk → ℕ → Heap → Heap
  after_directory fs dino h =
      next (ext2_read_inode dev fs (h.fresh fs.priv.inodesize) dino (next h)).heap

  -- the loop over the tokens of a path
  unfoldable pub walk : Fs Disk → ℕ → List (List ℕ) → Heap → Option ℕ
  walk fs ino [] h = some ino
  walk fs ino (pch ∷ rest) h =
      let behind : Heap = after_directory fs ino h in
      ext2_read_directory fs ino pch h >>= λ k.
      let further : Option ℕ = walk fs k rest behind in
      if is_neg k then some (neg enoent) else further

  -- The root directory is inode 2.
  unfoldable pub ext2_find_file_inode : Fs Disk → List ℕ → Heap → Option ℕ
  ext2_find_file_inode fs path h =
      if ok h then walk fs 2 (tokens path) (next h) else some (neg enomem)
