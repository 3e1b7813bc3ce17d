-- ===== src/Ext2/File.antt =====
-- fs/ext2/file.c: the blocks of a file are read and written through its block map, and `read(2)` on a
-- file. The tests on NULL files are not made: a file is a value.
use levos.Base.{ℕ, suc, zero, ◌+◌, ◌-◌, ◌*◌, ◌/◌, ◌%◌, List, Option, none, some}
use levos.Base.{ltb, leb, ◌==◌, if◌then◌else◌, neg, add32, take, drop, []}
use levos.Ext2.Store.{Device, Fs, Heap, ok, next, word_at, memcpy, ext2_read_block}
use levos.Ext2.Store.{ext2_write_block}
use levos.Ext2.Inode.{enomem, einval, is_neg, inode_size, singly_block, doubly_block}
use levos.Ext2.Inode.{triply_block, dbp, per_block, Filled, ext2_read_inode}

-- what has been read: the caller's buffer, the block buffer, and the number of bytes
pub record Reading : Type 0 where
  pub out : List ℕ
  pub buffer : List ℕ
  pub total : ℕ
  pub heap : Heap

-- what `read` on a file returns: the result, the file's position, the caller's buffer
pub record ReadOut : Type 0 where
  pub rc : ℕ
  pub fpos : ℕ
  pub out : List ℕ

-- where the reading ends: behind the count, or at the end of the file
unfoldable pub clip_end : (fpos count size : ℕ) → ℕ
clip_end fpos count size = if ltb size (add32 fpos count) then size else add32 fpos count

module _ {Disk : Type 0} (dev : Device Disk) where
  -- the entry of a block of block numbers
  abbrev pub entry : Fs Disk → ℕ → ℕ → ℕ
  entry fs block i = word_at (ext2_read_block dev fs block) i

  -- the block that the doubly block leads to
  unfoldable pub doubly_leaf : Fs Disk → List ℕ → ℕ → ℕ
  doubly_leaf fs ibuf i =
      let p : ℕ = per_block fs.priv in
      entry fs (entry fs (doubly_block ibuf) (i / p)) (i - i / p * p)

  -- the block that the triply block leads to
  unfoldable pub triply_leaf : Fs Disk → List ℕ → ℕ → ℕ
  triply_leaf fs ibuf c =
      let p : ℕ = per_block fs.priv in
      let d : ℕ = c / (p * p) in
      let e : ℕ = c - d * p * p in
      entry fs (entry fs (entry fs (triply_block ibuf) d) (e / p)) (e - e / p * p)

  -- The inode number is tested first; past the blocks it knows, the buffer stays as it is.
  unfoldable pub ext2_file_read_block : Fs Disk → ℕ → List ℕ → List ℕ → ℕ → Heap → Filled
  ext2_file_read_block fs ino ibuf buf b h =
      let p : ℕ = per_block fs.priv in
      let got : ℕ → Heap → Filled =
        λ n k. record { rc = 0; buf = ext2_read_block dev fs n; heap = k } in
      let oom : Filled = record { rc = neg enomem; buf = buf; heap = next h } in
      if is_neg ino
      then record { rc = ino; buf = buf; heap = h }
      else if ltb b 12
      then got (dbp ibuf b) h
      else if ltb b (12 + p)
      then if ok h then got (entry fs (singly_block ibuf) (b - 12)) (next h) else oom
      else if ltb b (12 + p + p * p)
      then if ok h then got (doubly_leaf fs ibuf (b - 12 - p)) (next h) else oom
      else if ltb b (12 + p + p * p + p)
      then got (triply_leaf fs ibuf (b - 12 - p - p * p)) (next h)
      else record { rc = 0; buf = buf; heap = h }

  -- `ext2_file_read_block` into the block buffer, then `memcpy` of `n` bytes of it from `off`
  unfoldable pub read_part : Fs Disk → ℕ → List ℕ → (b pos off n : ℕ) → Reading → Reading
  read_part fs ino ibuf b pos off n s =
      let r : Filled = ext2_file_read_block fs ino ibuf s.buffer b s.heap in
      record {
        out = memcpy s.out pos (take n (drop off r.buf));
        buffer = r.buf;
        total = s.total + n;
        heap = r.heap;
      }

  -- a turn of the loop over the blocks, for an `fpos` that is not negative
  unfoldable pub read_step : Fs Disk → ℕ → List ℕ → (fpos blocks_read : ℕ) → Reading → Reading
  read_step fs ino ibuf fpos blocks_read s =
      let bs : ℕ = fs.priv.blocksize in
      let off : ℕ = fpos % bs in
      if blocks_read == 0
      then read_part fs ino ibuf (fpos / bs) 0 off (bs - off) s
      else read_part fs ino ibuf (fpos / bs + blocks_read) (bs * blocks_read - off) 0 bs s

  -- `n` turns, the first with `blocks_read`
  unfoldable pub read_loop : Fs Disk → ℕ → List ℕ → (fpos blocks_read n : ℕ) → Reading → Reading
  read_loop fs ino ibuf fpos r zero s = s
  read_loop fs ino ibuf fpos r (suc n) s =
      read_loop fs ino ibuf fpos (suc r) n (read_step fs ino ibuf fpos r s)

  -- the loop over the blocks before the last, and the part of the last, for an `end` behind `fpos`
  unfoldable pub read_blocks : Fs Disk → ℕ → List ℕ → (fpos end : ℕ) → Reading → Reading
  read_blocks fs ino ibuf fpos end s =
      let bs : ℕ = fs.priv.blocksize in
      let count : ℕ = end / bs - fpos / bs in
      let looped : Reading = read_loop fs ino ibuf fpos 0 count s in
      if fpos / bs == end / bs
      then read_part fs ino ibuf (fpos / bs) 0 (fpos % bs) (end - fpos) s
      else if end - end / bs * bs == 0
      then looped
      else read_part fs ino ibuf (end / bs) (bs * count - fpos % bs) 0 (end - end / bs * bs) looped

  -- A negative `fpos`: the first block, `fpos / bs`, is negative, and no block is before the last one
  -- as the loop compares them unsigned, so no turn is made. The last part is stored `-(fpos % bs)` bytes
  -- behind the start of the caller's buffer. Not covered is a position less than a block below 0, where
  -- `fpos / bs` is 0 and the code copies from in front of the block buffer.
  unfoldable pub read_negative : Fs Disk → ℕ → List ℕ → (fpos end : ℕ) → Reading → Reading
  read_negative fs ino ibuf fpos end s =
      let bs : ℕ = fs.priv.blocksize in
      if end - end / bs * bs == 0
      then s
      else read_part fs ino ibuf (end / bs) (neg fpos % bs) 0 (end - end / bs * bs) s

  -- `fpos` is an `int`, here the word that it is compared with the size as: it is negative from 2^31 on.
  unfoldable pub read_inode_file :
      Fs Disk → ℕ → List ℕ → (fpos : ℕ) → List ℕ → (count : ℕ) → Heap → ReadOut
  read_inode_file fs ino ibuf fpos buf count h =
      let end : ℕ = clip_end fpos count (inode_size ibuf) in
      let start : Reading = record {
        out = buf;
        buffer = h.fresh fs.priv.blocksize;
        total = 0;
        heap = next h;
      } in
      let r : Reading =
        if is_neg fpos
        then read_negative fs ino ibuf fpos end start
        else read_blocks fs ino ibuf fpos end start in
      if leb (inode_size ibuf) fpos
      then record { rc = 0; fpos = fpos; out = buf }
      else if ok h
      then record { rc = r.total; fpos = add32 fpos r.total; out = r.out }
      else record { rc = neg enomem; fpos = fpos; out = buf }

  unfoldable pub ext2_read_file : Fs Disk → ℕ → ℕ → Option (List ℕ) → ℕ → Heap → ReadOut
  ext2_read_file fs ino fpos none count h = record {
    rc = if count == 0 then 0 else neg einval;
    fpos = fpos;
    out = [];
  }
  ext2_read_file fs ino fpos (some buf) count h =
      let inode : Filled = ext2_read_inode dev fs (h.fresh fs.priv.inodesize) ino (next h) in
      if count == 0
      then record { rc = 0; fpos = fpos; out = buf }
      else if is_neg ino
      then record { rc = ino; fpos = fpos; out = buf }
      else if ok h
      then read_inode_file fs ino inode.buf fpos buf count inode.heap
      else record { rc = neg enomem; fpos = fpos; out = buf }

  -- Only the first three ranges are written; past them the kernel panics, which is `none`.
  unfoldable pub ext2_write_file_block : Fs Disk → List ℕ → ℕ → List ℕ → Heap → Option (Fs Disk)
  ext2_write_file_block fs inode b buf h =
      let p : ℕ = per_block fs.priv in
      if ltb b 12
      then some (ext2_write_block dev fs buf (dbp inode b))
      else if ltb b (12 + p)
      then if ok h
        then some (ext2_write_block dev fs buf (entry fs (singly_block inode) (b - 12)))
        else some fs
      else if ltb b (12 + p + p * p)
      then if ok h
        then some (ext2_write_block dev fs buf (doubly_leaf fs inode (b - 12 - p)))
        else some fs
      else none
