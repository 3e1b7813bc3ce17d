-- ===== src/Ext2/Tree.antt =====
-- fs/ext2/file.c and fs/ext2/inode.c: the block map of a file as a tree of blocks of block numbers, and
-- the routines that follow it.
use levos.Base.{ℕ, zero, suc, ◌+◌, ◌-◌, ◌*◌, ◌/◌, ◌%◌, ◌<◌, ◌≡◌, ◌≢◌, refl, ap, sym}
use levos.Base.{List, [], false, some, ltb, if◌then◌else◌, ne→==, arith}
use levos.Base.{lt→ltb}
use levos.Ext2.Store.{Device, Fs, Heap, ext2_read_block, ext2_write_block}
use levos.Ext2.Inode.{singly_block, doubly_block, triply_block, dbp, per_block, is_neg}
use levos.Ext2.Inode.{ext2_inode_get_block, get_doubly}
use levos.Ext2.File.{entry, doubly_leaf, triply_leaf, ext2_file_read_block, ext2_write_file_block}
use native.Mathlib.Nat.{mul-one, mul_assoc, div-one, mod-eq-sub-div-mul}

-- a heap that gives memory whenever it is asked
abbrev pub steady : (ℕ → List ℕ) → Heap
steady fresh = record { answers = []; fresh = fresh }

-- the blocks below a block of block numbers at a depth
abbrev pub span : (p depth : ℕ) → ℕ
span p zero = 1
span p (suc n) = p * span p n

module _ {Disk : Type 0} (dev : Device Disk) (fs : Fs Disk) where
  -- the `i`-th block below `root`, by the digits of `i` in base `p`
  abbrev pub descend : (p depth root i : ℕ) → ℕ
  descend p zero root i = root
  descend p (suc n) root i = descend p n (entry dev fs root (i / span p n)) (i % span p n)

  -- the number of a file's block, for the blocks that a triply indirect block can name
  unfoldable pub file_block : List ℕ → ℕ → ℕ
  file_block ibuf b =
      let p : ℕ = per_block fs.priv in
      if ltb b 12
      then dbp ibuf b
      else if ltb b (12 + p)
      then descend p 1 (singly_block ibuf) (b - 12)
      else if ltb b (12 + p + p * p)
      then descend p 2 (doubly_block ibuf) (b - 12 - p)
      else descend p 3 (triply_block ibuf) (b - 12 - p - p * p)

  doubly_leaf-descend :
      (ibuf : List ℕ) (i : ℕ)
      → doubly_leaf dev fs ibuf i ≡ descend (per_block fs.priv) 2 (doubly_block ibuf) i
  unfolding doubly_leaf
  doubly_leaf-descend ibuf i =
      let p : ℕ = per_block fs.priv in
      rw (mul-one p) (rw (div-one (i % p)) (rw (mod-eq-sub-div-mul i p) refl))

  triply_leaf-descend :
      (ibuf : List ℕ) (i : ℕ)
      → triply_leaf dev fs ibuf i ≡ descend (per_block fs.priv) 3 (triply_block ibuf) i
  unfolding triply_leaf
  triply_leaf-descend ibuf i =
      let p : ℕ = per_block fs.priv in
      rw (mul-one p) (
        rw (div-one (i % (p * p) % p)) (
          rw (mul_assoc (i / (p * p)) p p) (
            rw (sym (mod-eq-sub-div-mul i (p * p)))
              (rw (sym (mod-eq-sub-div-mul (i % (p * p)) p)) refl))))

  -- With memory, a valid inode number and a block number below the first `p` of the triply indirect
  -- blocks, `ext2_file_read_block` reads the block that the tree of blocks gives.
  pub ext2_file_read_block_lem :
      (ino : ℕ) (ibuf buf : List ℕ) (b : ℕ) (fresh : ℕ → List ℕ)
      → is_neg ino ≡ false
      → b < 12 + per_block fs.priv + per_block fs.priv * per_block fs.priv + per_block fs.priv
      → ext2_file_read_block dev fs ino ibuf buf b (steady fresh)
        ≡ record { rc = 0; buf = ext2_read_block dev fs (file_block ibuf b); heap = steady fresh }
  unfolding ext2_file_read_block file_block
  ext2_file_read_block_lem ino ibuf buf b fresh valid h =
      let p : ℕ = per_block fs.priv in
      let single : descend p 1 (singly_block ibuf) (b - 12)
          ≡ entry dev fs (singly_block ibuf) (b - 12) =
        ap (entry dev fs (singly_block ibuf)) (div-one (b - 12)) in
      rw valid (
        rw single (
          rw (sym (doubly_leaf-descend ibuf (b - 12 - p))) (
            rw (sym (triply_leaf-descend ibuf (b - 12 - p - p * p)))
              (rw (lt→ltb _ _ h) (ground arith)))))

  -- With memory, `ext2_inode_get_block` gives the same block for the direct, singly and doubly indirect
  -- blocks, where an entry 0 of the doubly indirect block is an error.
  pub ext2_inode_get_block_lem :
      (ibuf : List ℕ) (b : ℕ) (fresh : ℕ → List ℕ)
      → b < 12 + per_block fs.priv + per_block fs.priv * per_block fs.priv
      → entry dev fs (doubly_block ibuf) ((b - 12 - per_block fs.priv) / per_block fs.priv) ≢ 0
      → ext2_inode_get_block dev fs ibuf b (steady fresh) ≡ file_block ibuf b
  unfolding ext2_inode_get_block file_block get_doubly doubly_leaf
  ext2_inode_get_block_lem ibuf b fresh h present =
      let p : ℕ = per_block fs.priv in
      let single : descend p 1 (singly_block ibuf) (b - 12)
          ≡ entry dev fs (singly_block ibuf) (b - 12) =
        ap (entry dev fs (singly_block ibuf)) (div-one (b - 12)) in
      rw single (
        rw (sym (doubly_leaf-descend ibuf (b - 12 - p)))
          (rw (ne→== _ _ present) (rw (lt→ltb _ _ h) (ground arith))))

  -- With memory, `ext2_write_file_block` writes the same block.
  pub ext2_write_file_block_lem :
      (ibuf : List ℕ) (b : ℕ) (buf : List ℕ) (fresh : ℕ → List ℕ)
      → b < 12 + per_block fs.priv + per_block fs.priv * per_block fs.priv
      → ext2_write_file_block dev fs ibuf b buf (steady fresh)
        ≡ some (ext2_write_block dev fs buf (file_block ibuf b))
  unfolding ext2_write_file_block file_block
  ext2_write_file_block_lem ibuf b buf fresh h =
      let p : ℕ = per_block fs.priv in
      let single : descend p 1 (singly_block ibuf) (b - 12)
          ≡ entry dev fs (singly_block ibuf) (b - 12) =
        ap (entry dev fs (singly_block ibuf)) (div-one (b - 12)) in
      rw single
        (rw (sym (doubly_leaf-descend ibuf (b - 12 - p))) (rw (lt→ltb _ _ h) (ground arith)))
