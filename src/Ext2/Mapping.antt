-- ===== src/Ext2/Mapping.antt =====
-- fs/ext2/inode.c: a block number that was put into the block map is found there.
use levos.Base.{ℕ, ◌+◌, ◌-◌, ◌*◌, ◌/◌, ◌≤◌, ◌<◌, ◌≡◌, ◌≢◌, ap, ◌∙◌}
use levos.Base.{List, true, false, some, ltb, lt→ltb, ne→==}
use levos.Base.{length, refl, arith}
use levos.Ext2.Store.{Device, IsDevice, Fs, put32, block_sectors, word_at}
use levos.Ext2.Store.{ext2_read_block}
use levos.Ext2.Inode.{ext2_inode_get_block, get_doubly, per_block, doubly_block}
use levos.Ext2.Tree.{steady}
use levos.Ext2.Parts.{IsWhole}
use levos.Ext2.Alloc.{Scan}
use levos.Ext2.Map.{Mapped, set_block_number, set_entry, set_doubly_number}
use levos.Ext2.Map.{need_doubly, need_second, set_second}
use levos.Ext2.Blocks.{Placed, read_block-write_block, length-put32, length-read_block, le32-put32}
use native.Mathlib.Nat.{mod-eq-sub-div-mul, mod-lt}
use levos.Ext2.Sizes.{Same, set_entry-Same, read-set_entry}

ge→ltb : (a b : ℕ) → a ≤ b → ltb b a ≡ false
ge→ltb a b h = ground arith

module _ {Disk : Type 0} (dev : Device Disk) where
  -- the block of block numbers that a doubly indirect block is under
  abbrev pub second_block : Fs Disk → List ℕ → ℕ → ℕ
  second_block fs inode iblock =
      word_at (ext2_read_block dev fs (doubly_block inode))
        ((iblock - 12 - per_block fs.priv) / per_block fs.priv)

module _ {Disk : Type 0} (dev : Device Disk) (law : IsDevice dev) (scan : Scan) where
  -- An entry that was written is read again.
  set_entry_lem :
      (fs : Fs Disk) (block i v : ℕ)
      → 4 * i + 3 < block_sectors fs.priv * 512
      → v < 0x100000000
      → word_at (ext2_read_block dev (set_entry dev scan fs block i v) block) i ≡ v
  unfolding set_entry
  set_entry_lem fs block i v inside small =
      let old : List ℕ = ext2_read_block dev fs block in
      let l : length old ≡ block_sectors fs.priv * 512 = length-read_block dev law fs block in
      ap (λ b. word_at b i)
        (read_block-write_block dev law fs (put32 old (4 * i) v) block
          (length-put32 old (4 * i) v ∙ l))
      ∙ le32-put32 old (4 * i) v (omega (arith, l, inside)) small

  get-set_doubly :
      (fs : Fs Disk) (inode : List ℕ) (iblock rblock : ℕ) (fresh : ℕ → List ℕ)
      → IsWhole fs
      → 12 + per_block fs.priv ≤ iblock
      → iblock < 12 + per_block fs.priv + per_block fs.priv * per_block fs.priv
      → rblock < 0x100000000
      → Placed fs (doubly_block inode)
      → second_block dev fs inode iblock ≢ 0
      → Placed fs (second_block dev fs inode iblock)
      → second_block dev fs inode iblock ≢ doubly_block inode
      → ext2_inode_get_block dev
          (set_entry dev scan fs
            (second_block dev fs inode iblock)
            (iblock
              - 12
              - per_block fs.priv
              - (iblock - 12 - per_block fs.priv) / per_block fs.priv * per_block fs.priv)
            rblock)
          inode
          iblock
          (steady fresh)
        ≡ rblock
  unfolding ext2_inode_get_block get_doubly
  get-set_doubly fs inode iblock rblock fresh whole above below small dp sn sp differ =
      let p : ℕ = per_block fs.priv in
      let i : ℕ = iblock - 12 - p in
      let gs : Fs Disk =
        set_entry dev scan fs (second_block dev fs inode iblock) (i - i / p * p) rblock in
      let self : Same dev law scan fs fs = record { blocksize = refl; sectors = refl } in
      let size : per_block gs.priv ≡ p =
        ap (λ n. n / 4)
          (set_entry-Same dev law scan fs fs (second_block dev fs inode iblock) (i - i / p * p)
            rblock self).blocksize in
      let first : ltb iblock 12 ≡ false = ge→ltb 12 iblock (omega (arith, above)) in
      let second : ltb iblock (12 + p) ≡ false = ge→ltb (12 + p) iblock above in
      let third : ltb iblock (12 + p + p * p) ≡ true = lt→ltb _ _ below in
      let table : ext2_read_block dev gs (doubly_block inode)
          ≡ ext2_read_block dev fs (doubly_block inode) =
        read-set_entry dev law scan fs (second_block dev fs inode iblock) (doubly_block inode)
          (i - i / p * p) rblock sp dp differ in
      let pos : 0 < p = omega (arith, whole.sectors, whole.positive) in
      let inside : 4 * (i - i / p * p) + 3 < block_sectors fs.priv * 512 =
        omega (arith, whole.sectors, mod-eq-sub-div-mul i p, mod-lt i pos) in
      rw size (
        rw first (
          rw second (
            rw third (
              rw table (
                rw (ne→== _ _ sn) (
                  set_entry_lem fs (second_block dev fs inode iblock) (i - i / p * p) rblock inside
                    small))))))

  -- For a doubly indirect block whose two blocks of block numbers exist and are distinct blocks with a place:
  -- `set_block_number` succeeds with memory, and `ext2_inode_get_block` finds the number that was set.
  pub get_block-set_block_number_doubly :
      (fs : Fs Disk) (inode : List ℕ) (inode_no iblock rblock : ℕ) (fresh : ℕ → List ℕ)
      → IsWhole fs
      → 12 + per_block fs.priv ≤ iblock
      → iblock < 12 + per_block fs.priv + per_block fs.priv * per_block fs.priv
      → rblock < 0x100000000
      → doubly_block inode ≢ 0
      → Placed fs (doubly_block inode)
      → second_block dev fs inode iblock ≢ 0
      → Placed fs (second_block dev fs inode iblock)
      → second_block dev fs inode iblock ≢ doubly_block inode
      → (m : Mapped Disk) × (set_block_number dev scan fs inode inode_no iblock rblock
            (steady fresh)
          ≡ some m)
        × (m.rc ≡ 0)
        × (ext2_inode_get_block dev m.fs m.inode iblock (steady fresh) ≡ rblock)
  unfolding set_block_number set_doubly_number need_doubly need_second set_second
  get_block-set_block_number_doubly fs inode inode_no iblock rblock fresh whole above below small dn
        dp sn sp differ =
      let p : ℕ = per_block fs.priv in
      let i : ℕ = iblock - 12 - p in
      let first : ltb iblock 12 ≡ false = ge→ltb 12 iblock (omega (arith, above)) in
      let second : ltb iblock (12 + p) ≡ false = ge→ltb (12 + p) iblock above in
      let third : ltb iblock (12 + p + p * p) ≡ true = lt→ltb _ _ below in
      let gs : Fs Disk =
        set_entry dev scan fs (second_block dev fs inode iblock) (i - i / p * p) rblock in
      (
        record { rc = 0; fs = gs; inode = inode; heap = steady fresh },
        rw first (rw second (rw third (rw (ne→== _ _ dn) (rw (ne→== _ _ sn) refl)))),
        refl,
        get-set_doubly fs inode iblock rblock fresh whole above below small dp sn sp differ,
      )
