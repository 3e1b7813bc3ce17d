-- ===== src/Ext2/Map.antt =====
-- fs/ext2/inode.c: the block map of an inode grows. A 32-bit result of the allocator is used as a block
-- number also when it is an error: the tests that should see it do not.
use levos.Base.{ℕ, zero, suc, ◌+◌, ◌-◌, ◌*◌, ◌/◌, List, Option, none, some, replicate}
use levos.Base.{◌>>=◌, ltb, leb, ◌==◌, ◌||◌, if◌then◌else◌, neg}
use mathlib.Core.Option
use levos.Ext2.Store.{Device, Fs, Heap, ok, next, word_at, put32, put16}
use levos.Ext2.Store.{ext2_read_block, ext2_write_block}
use levos.Ext2.Inode.{enomem, enospc, is_neg, disk_sectors, singly_block, doubly_block}
use levos.Ext2.Inode.{per_block, Filled, ext2_read_inode, ext2_write_inode, ext2_inode_get_block}
use levos.Ext2.Alloc.{Scan, Got, ext2_alloc_block, ext2_alloc_inode}

-- the setters of `struct ext2_inode`
abbrev pub set_size : List ℕ → ℕ → List ℕ
set_size i v = put32 i 4 v

abbrev pub set_disk_sectors : List ℕ → ℕ → List ℕ
set_disk_sectors i v = put32 i 28 v

abbrev pub set_dbp : List ℕ → ℕ → ℕ → List ℕ
set_dbp i b v = put32 i (40 + 4 * b) v

abbrev pub set_singly : List ℕ → ℕ → List ℕ
set_singly i v = put32 i 88 v

abbrev pub set_doubly : List ℕ → ℕ → List ℕ
set_doubly i v = put32 i 92 v

-- what `set_block_number` leaves: its result, the filesystem, the caller's inode and the heap
pub record Mapped (Disk : Type 0) : Type 0 where
  pub rc : ℕ
  pub fs : Fs Disk
  pub inode : List ℕ
  pub heap : Heap

-- what is read or created: the block's number or an error, the filesystem, the inode, the buffer
pub record Opened (Disk : Type 0) : Type 0 where
  pub rc : ℕ
  pub fs : Fs Disk
  pub inode : List ℕ
  pub buf : List ℕ
  pub heap : Heap

module _ {Disk : Type 0} (dev : Device Disk) (scan : Scan) where
  -- The singly indirect block is allocated and cleared if there is none. The heap is that behind the
  -- buffer `tmp`.
  unfoldable pub need_singly : Fs Disk → List ℕ → ℕ → Heap → Mapped Disk
  need_singly fs inode inode_no h =
      let got : Got Disk = ext2_alloc_block dev scan fs h in
      let grown : List ℕ = set_singly inode got.rc in
      if singly_block inode == 0
      then if got.rc == 0
        then record { rc = neg enospc; fs = got.fs; inode = inode; heap = got.heap }
        else record {
          rc = 0;
          fs =
              ext2_write_block dev (ext2_write_inode dev got.fs grown inode_no got.heap)
                (replicate fs.priv.blocksize 0) (singly_block grown);
          inode = grown;
          heap = next got.heap;
        }
      else record { rc = 0; fs = fs; inode = inode; heap = h }

  -- the entry of a block of block numbers is written
  unfoldable pub set_entry : Fs Disk → (block i v : ℕ) → Fs Disk
  set_entry fs block i v =
      ext2_write_block dev fs (put32 (ext2_read_block dev fs block) (4 * i) v) block

  unfoldable pub need_doubly : Fs Disk → List ℕ → ℕ → Heap → Mapped Disk
  need_doubly fs inode inode_no h =
      let got : Got Disk = ext2_alloc_block dev scan fs h in
      let grown : List ℕ = set_doubly inode got.rc in
      if doubly_block inode == 0
      then if got.rc == 0
        then record { rc = neg enospc; fs = got.fs; inode = inode; heap = got.heap }
        else record {
          rc = 0;
          fs = ext2_write_inode dev got.fs grown inode_no got.heap;
          inode = grown;
          heap = next got.heap;
        }
      else record { rc = 0; fs = fs; inode = inode; heap = h }

  -- the block below the `c`-th entry of the doubly indirect block, allocated if there is none
  unfoldable pub need_second : Fs Disk → List ℕ → ℕ → Heap → Mapped Disk
  need_second fs inode c h =
      let got : Got Disk = ext2_alloc_block dev scan fs h in
      if word_at (ext2_read_block dev fs (doubly_block inode)) c == 0
      then if got.rc == 0
        then record { rc = neg enospc; fs = got.fs; inode = inode; heap = got.heap }
        else record {
          rc = 0;
          fs =
              ext2_write_block dev got.fs
                (put32 (ext2_read_block dev fs (doubly_block inode)) (4 * c) got.rc)
                (doubly_block inode);
          inode = inode;
          heap = got.heap;
        }
      else record { rc = 0; fs = fs; inode = inode; heap = h }

  -- the second-level block gets its entry
  unfoldable pub set_second : Mapped Disk → (c d rblock : ℕ) → Mapped Disk
  set_second m c d rblock =
      if m.rc == 0
      then record m {
        fs = set_entry m.fs (word_at (ext2_read_block dev m.fs (doubly_block m.inode)) c) d rblock;
      }
      else m

  unfoldable pub set_doubly_number :
      Fs Disk → List ℕ → (inode_no i rblock : ℕ) → Heap → Option (Mapped Disk)
  set_doubly_number fs inode inode_no i rblock h =
      let p : ℕ = per_block fs.priv in
      let m : Mapped Disk = need_doubly fs inode inode_no h in
      if m.rc == 0
      then if ok m.heap
        then some (
            set_second (need_second m.fs m.inode (i / p) (next m.heap)) (i / p) (i - i / p * p)
              rblock)
        else none
      else some m

  -- Where `malloc` fails for the buffer, or the block is triply indirect, the kernel panics: `none`.
  unfoldable pub set_block_number :
      Fs Disk → List ℕ → (inode_no iblock rblock : ℕ) → Heap → Option (Mapped Disk)
  set_block_number fs inode inode_no iblock rblock h =
      let p : ℕ = per_block fs.priv in
      let direct : List ℕ = set_dbp inode iblock rblock in
      let m : Mapped Disk = need_singly fs inode inode_no (next h) in
      if ltb iblock 12
      then some record {
        rc = 0;
        fs = ext2_write_inode dev fs direct inode_no h;
        inode = direct;
        heap = next h;
      }
      else if ltb iblock (12 + p)
      then if ok h
        then if m.rc == 0
          then some (record m { fs = set_entry m.fs (singly_block m.inode) (iblock - 12) rblock })
          else some m
        else none
      else if ltb iblock (12 + p + p * p)
      then set_doubly_number fs inode inode_no (iblock - 12 - p) rblock h
      else none

  -- `block_no` is the result of the allocator, or its error; the map's own failure is not looked at.
  unfoldable pub fill_block : Mapped Disk → (inode_no block block_no : ℕ) → Mapped Disk
  fill_block m inode_no block block_no =
      let bs : ℕ = m.fs.priv.blocksize in
      let cleared : Fs Disk = ext2_write_block dev m.fs (replicate bs 0) block_no in
      let r : Filled = ext2_read_inode dev cleared m.inode inode_no (next m.heap) in
      let t : ℕ = (block + 1) * (bs / 512) in
      let grown : List ℕ = if ltb (disk_sectors r.buf) t then set_disk_sectors r.buf t else r.buf in
      if ok m.heap
      then record {
        rc = block_no;
        fs = ext2_write_inode dev cleared grown inode_no r.heap;
        inode = grown;
        heap = next r.heap;
      }
      else record m { rc = neg enomem; heap = next m.heap }

  -- `block_no < 0` is never true of an unsigned number.
  unfoldable pub allocate_inode_block :
      Fs Disk → List ℕ → (inode_no block : ℕ) → Heap → Option (Mapped Disk)
  allocate_inode_block fs inode inode_no block h =
      let got : Got Disk = ext2_alloc_block dev scan fs h in
      if got.rc == 0
      then some record { rc = neg enospc; fs = got.fs; inode = inode; heap = got.heap }
      else Option.map (λ m. fill_block m inode_no block got.rc)
          (set_block_number got.fs inode inode_no block got.rc got.heap)

  -- blocks `i`, `i + 1`, … of the loop, `n` of them; results are not looked at
  unfoldable pub add_loop : Fs Disk → List ℕ → (inode_no i n : ℕ) → Heap → Option (Mapped Disk)
  add_loop fs inode inode_no i zero h = some record { rc = 0; fs = fs; inode = inode; heap = h }
  add_loop fs inode inode_no i (suc n) h = do
    m ← allocate_inode_block fs inode inode_no i h
    add_loop m.fs m.inode inode_no (suc i) n m.heap

  -- Blocks up to `min - 2` are added before `min`, or one at the end for -1, which is `none` here.
  unfoldable pub ext2_inode_add_block :
      Fs Disk → Option ℕ → ℕ → List ℕ → Heap → Option (Mapped Disk)
  ext2_inode_add_block fs none ino inode h =
      allocate_inode_block fs inode ino (disk_sectors inode / (fs.priv.blocksize / 512)) h
  ext2_inode_add_block fs (some min) ino inode h = do
    let rblock : ℕ = disk_sectors inode / (fs.priv.blocksize / 512)
    m ← add_loop fs inode ino rblock (min - 1 - rblock) h
    allocate_inode_block m.fs m.inode ino min m.heap

  -- A block that did not exist is added; the buffer is not filled then.
  unfoldable pub ext2_inode_read_or_create :
      Fs Disk → ℕ → List ℕ → ℕ → List ℕ → Heap → Option (Opened Disk)
  ext2_inode_read_or_create fs ino inode b buf h =
      let p : ℕ = per_block fs.priv in
      let r : Filled = ext2_read_inode dev fs inode ino h in
      let the_block : ℕ = ext2_inode_get_block dev fs r.buf b r.heap in
      let behind : Heap = if ltb b 12 || leb (12 + p + p * p) b then r.heap else next r.heap in
      if is_neg the_block || (the_block == 0)
      then Option.map
          (λ m. record { rc = m.rc; fs = m.fs; inode = m.inode; buf = buf; heap = m.heap })
          (ext2_inode_add_block fs (some b) ino r.buf behind)
      else some record {
        rc = the_block;
        fs = fs;
        inode = r.buf;
        buf = ext2_read_block dev fs the_block;
        heap = behind;
      }

  -- `memset` and the fields of a new inode: a regular file with all permissions
  unfoldable pub ext2_new_inode : Fs Disk → List ℕ → Heap → Mapped Disk
  ext2_new_inode fs inode h =
      let got : Got Disk = ext2_alloc_inode dev scan fs h in
      let cleared : List ℕ = put16 (replicate fs.priv.inodesize 0) 0 0x8fff in
      if is_neg got.rc
      then record { rc = neg enospc; fs = got.fs; inode = inode; heap = got.heap }
      else record {
        rc = got.rc;
        fs = ext2_write_inode dev got.fs cleared got.rc got.heap;
        inode = cleared;
        heap = next got.heap;
      }
