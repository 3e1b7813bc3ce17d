-- ===== src/Ext2/Stored.antt =====
-- fs/ext2/inode.c and fs/ext2/file.c: an inode in its table, before and after a block of its file is
-- written.
use levos.Base.{ℕ, ◌+◌, ◌≤◌, ◌<◌, ◌≡◌, ◌≢◌, refl, ap, sym, ◌∙◌}
use levos.Base.{List, false, some, ltb, lt→ltb, arith}
use levos.Base.{length, take, drop, ◌++◌, length-take, length-drop, drop-all, append-nil, ne→==}
use levos.Ext2.Store.{Device, IsDevice, Fs, memcpy, ext2_read_block, ext2_write_block}
use levos.Ext2.Inode.{is_neg, inode_size, dbp, table_block, table_offset, ext2_read_inode}
use levos.Ext2.Inode.{ext2_inode_get_block}
use levos.Ext2.Tree.{steady}
use levos.Ext2.Parts.{IsWhole}
use levos.Ext2.Alloc.{Scan}
use levos.Ext2.Map.{ext2_inode_read_or_create}
use levos.Ext2.Write.{Writing, Written, write_done}
use levos.Ext2.Blocks.{Placed, read_block-write_block_ne, length-read_block}

pub ge→ltb : (a b : ℕ) → a ≤ b → ltb b a ≡ false
ge→ltb a b h = ground arith

module _ {Disk : Type 0} (dev : Device Disk) where
  -- the bytes of an inode in the inode table
  unfoldable pub inode_bytes : Fs Disk → ℕ → List ℕ
  inode_bytes fs ino = take fs.priv.inodesize (
      drop (table_offset fs.priv ino) (
        ext2_read_block dev fs
          (table_block fs.priv (ext2_read_block dev fs fs.priv.first_bgd) ino)))

  -- An inode in its table, and a direct block of its file that is neither the table nor the descriptors.
  pub record IsStored (fs : Fs Disk) (ino b : ℕ) : Type 0 where
    pub number : ino ≢ 0
    pub valid : is_neg ino ≡ false
    pub inside : table_offset fs.priv ino + fs.priv.inodesize ≤ fs.priv.blocksize
    pub direct : b < 12
    pub present : dbp (inode_bytes fs ino) b ≢ 0
    pub block : is_neg (dbp (inode_bytes fs ino) b) ≡ false
    pub contents : Placed fs (dbp (inode_bytes fs ino) b)
    pub bgd : Placed fs fs.priv.first_bgd
    pub table : Placed fs (table_block fs.priv (ext2_read_block dev fs fs.priv.first_bgd) ino)
    pub not_bgd : dbp (inode_bytes fs ino) b ≢ fs.priv.first_bgd
    pub not_table :
        dbp (inode_bytes fs ino) b
        ≢ table_block fs.priv (ext2_read_block dev fs fs.priv.first_bgd) ino

memcpy_whole : (to from : List ℕ) → length from ≡ length to → memcpy to 0 from ≡ from
memcpy_whole to from h =
    ap (λ l. from ++ l) (drop-all (0 + length from) to (omega (arith, h))) ∙ append-nil from

module _ {Disk : Type 0} (dev : Device Disk) (law : IsDevice dev) (scan : Scan) (fs : Fs Disk)
    (whole : IsWhole fs) where
  pub length-inode_bytes :
      (ino : ℕ)
      → table_offset fs.priv ino + fs.priv.inodesize ≤ fs.priv.blocksize
      → length (inode_bytes dev fs ino) ≡ fs.priv.inodesize
  unfolding inode_bytes
  length-inode_bytes ino h =
      let block : List ℕ =
        ext2_read_block dev fs
          (table_block fs.priv (ext2_read_block dev fs fs.priv.first_bgd) ino) in
      let l : length block ≡ fs.priv.blocksize = length-read_block dev law fs _ ∙ whole.sectors in
      length-take fs.priv.inodesize (drop (table_offset fs.priv ino) block)
        (omega (arith, length-drop (table_offset fs.priv ino) block, l, h))

  pub read_inode_bytes :
      (ino : ℕ) (buf : List ℕ) (fresh : ℕ → List ℕ)
      → ino ≢ 0
      → table_offset fs.priv ino + fs.priv.inodesize ≤ fs.priv.blocksize
      → length buf ≡ fs.priv.inodesize
      → ext2_read_inode dev fs buf ino (steady fresh)
        ≡ record { rc = 0; buf = inode_bytes dev fs ino; heap = steady fresh }
  unfolding ext2_read_inode inode_bytes
  read_inode_bytes ino buf fresh n h l = rw (ne→== ino 0 n) (
      ap (λ b. record { rc = 0; buf = b; heap = steady fresh })
        (memcpy_whole buf (inode_bytes dev fs ino) (length-inode_bytes ino h ∙ sym l)))

  -- A direct block that is there is read.
  pub open_direct :
      (ino b : ℕ) (inode buf : List ℕ) (fresh : ℕ → List ℕ)
      → IsStored dev fs ino b
      → length inode ≡ fs.priv.inodesize
      → ext2_inode_read_or_create dev scan fs ino inode b buf (steady fresh)
        ≡ some record {
          rc = dbp (inode_bytes dev fs ino) b;
          fs = fs;
          inode = inode_bytes dev fs ino;
          buf = ext2_read_block dev fs (dbp (inode_bytes dev fs ino) b);
          heap = steady fresh;
        }
  unfolding ext2_inode_read_or_create ext2_inode_get_block
  open_direct ino b inode buf fresh st l =
      rw (read_inode_bytes ino inode fresh st.number st.inside l)
        (rw (lt→ltb b 12 st.direct) (rw st.block (rw (ne→== _ 0 st.present) refl)))

  -- the block with the bytes from `off` on replaced
  abbrev pub patch : (ino b off : ℕ) → List ℕ → List ℕ
  patch ino b off given = memcpy (ext2_read_block dev fs (dbp (inode_bytes dev fs ino) b)) off given

  -- the filesystem with that block written
  abbrev pub patched : (ino b off : ℕ) → List ℕ → Fs Disk
  patched ino b off given =
      ext2_write_block dev fs (patch ino b off given) (dbp (inode_bytes dev fs ino) b)

  -- The inode is as it was.
  pub inode_bytes-patched :
      (ino b off : ℕ) (given : List ℕ)
      → IsStored dev fs ino b
      → inode_bytes dev (patched ino b off given) ino ≡ inode_bytes dev fs ino
  unfolding inode_bytes ext2_write_block
  inode_bytes-patched ino b off given st =
      let block : ℕ = dbp (inode_bytes dev fs ino) b in
      let bgds : ext2_read_block dev (patched ino b off given) fs.priv.first_bgd
          ≡ ext2_read_block dev fs fs.priv.first_bgd =
        read_block-write_block_ne dev law fs (patch ino b off given) block fs.priv.first_bgd
          st.contents st.bgd st.not_bgd in
      let table : ℕ = table_block fs.priv (ext2_read_block dev fs fs.priv.first_bgd) ino in
      let kept : ext2_read_block dev (patched ino b off given) table
          ≡ ext2_read_block dev fs table =
        read_block-write_block_ne dev law fs (patch ino b off given) block table st.contents
          st.table st.not_table in
      rw bgds (rw kept refl)

pub write_done_inside :
    {Disk : Type 0} (dev : Device Disk) (scan : Scan) (ino fpos len end : ℕ) (w : Writing Disk)
    → end ≤ inode_size (ext2_read_inode dev w.fs w.inode ino w.heap).buf
    → write_done dev scan ino fpos len end (Written.wrote w)
      ≡ record { rc = w.total; fpos = fpos + w.total; len = len; fs = w.fs }
unfolding write_done
write_done_inside dev scan ino fpos len end w h = rw (ge→ltb _ _ h) refl

pub patched-IsWhole :
    {Disk : Type 0} (dev : Device Disk) (fs : Fs Disk) (buf : List ℕ) (b : ℕ)
    → IsWhole fs
    → IsWhole (ext2_write_block dev fs buf b)
unfolding ext2_write_block
patched-IsWhole dev fs buf b w = record { sectors = w.sectors; positive = w.positive }
