-- ===== src/Ext2/Write.antt =====
-- fs/ext2/file.c: `write(2)` on a file, truncation, and the status of a file.
use levos.Base.{ℕ, suc, zero, ◌+◌, ◌-◌, ◌*◌, ◌/◌, ◌%◌, List, Option, none, some}
use levos.Base.{◌>>=◌, ltb, ◌==◌, if◌then◌else◌, neg, add32, take, drop}
use levos.Ext2.Store.{Device, Fs, Heap, ok, next, memcpy, le16, put32, ext2_write_block}
use levos.Ext2.Inode.{enomem, einval, erofs, is_neg, inode_size, Filled, ext2_read_inode}
use levos.Ext2.Inode.{ext2_write_inode}
use levos.Ext2.Alloc.{Scan}
use levos.Ext2.Map.{ext2_inode_read_or_create, set_size, set_disk_sectors, set_dbp}

-- what has been written: the filesystem, the inode, the block buffer, and the number of bytes
pub record Writing (Disk : Type 0) : Type 0 where
  pub fs : Fs Disk
  pub inode : List ℕ
  pub buffer : List ℕ
  pub total : ℕ
  pub heap : Heap

-- A block could not be opened: the error that is returned.
pub data Written (Disk : Type 0) : Type 0 where
  wrote : Writing Disk → Written Disk
  failed : ℕ → Fs Disk → Written Disk

-- what `write` on a file leaves: the result, the file's position and length, the filesystem
pub record WriteOut (Disk : Type 0) : Type 0 where
  pub rc : ℕ
  pub fpos : ℕ
  pub len : ℕ
  pub fs : Fs Disk

module _ {Disk : Type 0} (dev : Device Disk) (scan : Scan) where
  -- the block is opened, `n` bytes of the data from `src` on go to `off`, and it is written back
  unfoldable pub write_part : ℕ → List ℕ → (b off src n : ℕ) → Writing Disk → Option (Written Disk)
  write_part ino given b off src n w =
      ext2_inode_read_or_create dev scan w.fs ino w.inode b w.buffer w.heap >>= λ o.
      let buffer : List ℕ = memcpy o.buf off (take n (drop src given)) in
      some (
        if is_neg o.rc
        then Written.failed o.rc o.fs
        else Written.wrote record {
          fs = ext2_write_block dev o.fs buffer o.rc;
          inode = o.inode;
          buffer = buffer;
          total = w.total + n;
          heap = o.heap;
        })

  abbrev pub go_on : Written Disk → (Writing Disk → Option (Written Disk)) → Option (Written Disk)
  go_on (Written.wrote w) f = f w
  go_on (Written.failed rc fs) f = some (Written.failed rc fs)

  unfoldable pub write_step :
      ℕ → List ℕ → (fpos blocks_read : ℕ) → Writing Disk → Option (Written Disk)
  write_step ino given fpos r w =
      let bs : ℕ = w.fs.priv.blocksize in
      let coff : ℕ = fpos % bs in
      if r == 0
      then write_part ino given (fpos / bs) coff 0 (bs - coff) w
      else write_part ino given (fpos / bs + r) 0 (bs * r - coff) bs w

  unfoldable pub write_loop :
      ℕ → List ℕ → (fpos blocks_read n : ℕ) → Writing Disk → Option (Written Disk)
  write_loop ino given fpos r zero w = some (Written.wrote w)
  write_loop ino given fpos r (suc n) w =
      write_step ino given fpos r w >>= λ x. go_on x (write_loop ino given fpos (suc r) n)

  unfoldable pub write_blocks : ℕ → List ℕ → (fpos end : ℕ) → Writing Disk → Option (Written Disk)
  write_blocks ino given fpos end w =
      let bs : ℕ = w.fs.priv.blocksize in
      let count : ℕ = end / bs - fpos / bs in
      let end_size : ℕ = end - end / bs * bs in
      if fpos / bs == end / bs
      then write_part ino given (fpos / bs) (fpos % bs) 0 (end - fpos) w
      else write_loop ino given fpos 0 count w >>= λ x.
          if end_size == 0
          then some x
          else go_on x (write_part ino given (end / bs) 0 (bs * count - fpos % bs) end_size)

  -- The inode is read again, and its size grows to the end of what was written.
  unfoldable pub write_done : ℕ → (fpos len end : ℕ) → Written Disk → WriteOut Disk
  write_done ino fpos len end (Written.failed rc fs) = record {
    rc = rc;
    fpos = fpos;
    len = len;
    fs = fs;
  }
  write_done ino fpos len end (Written.wrote w) =
      let r : Filled = ext2_read_inode dev w.fs w.inode ino w.heap in
      if ltb (inode_size r.buf) end
      then record {
        rc = w.total;
        fpos = fpos + w.total;
        len = end;
        fs = ext2_write_inode dev w.fs (set_size r.buf end) ino r.heap;
      }
      else record { rc = w.total; fpos = fpos + w.total; len = len; fs = w.fs }

  -- for an `fpos` that is not negative as an `int`
  unfoldable pub write_inode_file :
      Fs Disk → ℕ → (fpos len : ℕ) → List ℕ → ℕ → Filled → Option (WriteOut Disk)
  write_inode_file fs ino fpos len given count r =
      let oom : WriteOut Disk = record { rc = neg enomem; fpos = fpos; len = len; fs = fs } in
      let end : ℕ = add32 fpos count in
      let w : Writing Disk = record {
        fs = fs;
        inode = r.buf;
        buffer = r.heap.fresh fs.priv.blocksize;
        total = 0;
        heap = next r.heap;
      } in
      let body : Option (WriteOut Disk) =
        write_blocks ino given fpos end w >>= λ x. some (write_done ino fpos len end x) in
      if r.rc == 0 then (if ok r.heap then body else some oom) else some oom

  unfoldable pub ext2_write_file :
      Fs Disk → ℕ → (fpos len : ℕ) → Option (List ℕ) → ℕ → Heap → Option (WriteOut Disk)
  ext2_write_file fs ino fpos len none count h =
      some record { rc = if count == 0 then 0 else neg einval; fpos = fpos; len = len; fs = fs }
  ext2_write_file fs ino fpos len (some given) count h =
      let stop : ℕ → Option (WriteOut Disk) =
        λ rc. some record { rc = rc; fpos = fpos; len = len; fs = fs } in
      let r : Filled = ext2_read_inode dev fs (h.fresh fs.priv.inodesize) ino (next h) in
      let go : Option (WriteOut Disk) = write_inode_file fs ino fpos len given count r in
      if count == 0
      then stop 0
      else if is_neg ino
      then stop ino
      else if ok h
      then go
      else stop (neg enomem)

  -- `for (int i = 0; i < 12; i ++) inode_buf->dbp[i] = 0`, the last `n` of them
  abbrev pub clear_dbp : ℕ → List ℕ → List ℕ
  clear_dbp zero inode = inode
  clear_dbp (suc n) inode = clear_dbp n (set_dbp inode (11 - n) 0)

  -- Truncation to 0; the blocks are not freed.
  unfoldable pub ext2_truncate_file : Fs Disk → ℕ → (fpos len size : ℕ) → Heap → WriteOut Disk
  ext2_truncate_file fs ino fpos len size h =
      let r : Filled = ext2_read_inode dev fs (h.fresh fs.priv.inodesize) ino (next h) in
      let emptied : List ℕ = clear_dbp 12 (set_disk_sectors (set_size r.buf 0) 0) in
      let unmapped : List ℕ = put32 (put32 (put32 emptied 88 0) 92 0) 96 0 in
      if size == 0
      then if ok h
        then record { rc = 0; fpos = 0; len = 0; fs = ext2_write_inode dev fs unmapped ino r.heap }
        else record { rc = neg enomem; fpos = fpos; len = len; fs = fs }
      else record { rc = neg erofs; fpos = fpos; len = len; fs = fs }

-- `struct stat`, the fields that are not 0
pub record Stat : Type 0 where
  pub st_ino : ℕ
  pub st_mode : ℕ
  pub st_nlink : ℕ
  pub st_uid : ℕ
  pub st_gid : ℕ
  pub st_size : ℕ

module _ {Disk : Type 0} (dev : Device Disk) where
  -- `st_ino` has 16 bits.
  unfoldable pub ext2_file_fstat : Fs Disk → ℕ → Heap → ℕ × Option Stat
  ext2_file_fstat fs ino h =
      let i : List ℕ = (ext2_read_inode dev fs (h.fresh fs.priv.inodesize) ino (next h)).buf in
      if ok h
      then (
        0,
        some record {
          st_ino = ino % 65536;
          st_mode = le16 i 0;
          st_nlink = le16 i 26;
          st_uid = le16 i 2;
          st_gid = le16 i 24;
          st_size = inode_size i;
        },
      )
      else (neg enomem, none)
