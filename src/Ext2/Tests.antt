-- ===== src/Ext2/Tests.antt =====
-- fs/ext2 on small inputs, and the instances of its theorems.
mod Memory
mod Search
mod Names
use levos.Base.{
  ℕ, zero, suc, ◌+◌, ◌-◌, ◌*◌, ◌/◌, ◌%◌, ◌≤◌, ◌<◌, ◌≡◌, ◌≢◌, refl, ap, sym, ◌∙◌, min, neg, arith,
}
use levos.Base.{
  List, [], ◌∷◌, ◌++◌, true, false, some, ◌==◌, leb, ltb, if◌then◌else◌, get_or, replicate, drop,
}
use levos.Base.{length-replicate, ==→ne, ◌⊎◌, inl, inr, Option, none}
use levos.Vfs.Mount.{is_none}
use mathlib.Core.Bool.{false≢true}
use levos.Ext2.Store.{
  Fs, Priv, Heap, put32, put16, ext2_read_block, block_sectors, ext2_write_block,
}
use levos.Ext2.Inode.{
  inode_size, ext2_read_inode, Filled, per_block, ext2_inode_get_block, ext2_write_inode,
  doubly_block,
}
use levos.Ext2.File.{
  ext2_read_file, ReadOut, ext2_file_read_block, ext2_write_file_block, doubly_leaf,
}
use levos.Ext2.Tree.{
  steady, file_block, ext2_file_read_block_lem, ext2_inode_get_block_lem, ext2_write_file_block_lem,
}
use levos.Ext2.Bytes.{bytes}
use levos.Ext2.Parts.{IsWhole, file_byte}
use levos.Ext2.Reading.{ext2_read_file-bytes}
use levos.Ext2.Alloc.{
  block_table, bitmap_block, Got, alloc_loop, alloc_from, ext2_alloc_block, commit,
}
use levos.Ext2.Allocating.{IsConsistent}
use levos.Ext2.Alloc.{count_down, ext2_write_superblock}
use levos.Ext2.Commit.{IsLaidOut}
use levos.Ext2.Fresh.{ext2_alloc_block-Fresh}
use levos.Ext2.Map.{Mapped, set_block_number, set_dbp}
use levos.Ext2.Mapping.{get_block-set_block_number_doubly, second_block}
use levos.Ext2.Blocks.{Placed}
use levos.Ext2.Write.{ext2_write_file, WriteOut}
use levos.Ext2.Stored.{IsStored, inode_bytes}
use levos.Ext2.Writing.{ext2_read_file-ext2_write_file}
use levos.Ext2.Inode.{dbp, is_neg, table_block}
use levos.Base.{◌>>=◌}
use levos.Vfs.Path.{tokens}
use levos.Ext2.Dir.{look, ext2_find_file_inode}
use levos.Ext2.Place.{place_in_block, ext2_new_dirent, pad_to}
use levos.Ext2.Placed.{look-place_in_block}
use levos.Ext2.Lookup.{encode, Entry, encode_all, lookup, look-lookup}
use levos.Ext2.Walking.{go_from, ext2_find_file_inode-tokens}
use levos.Ext2.Tests.Memory.{memory, memory-IsDevice}
use levos.Ext2.Tests.Search.{first_free, first_free-IsScan}

-- Two groups: the bitmaps of blocks at 5 and 8, of inodes at 6 and 9, the inode tables at 7 and 10.
abbrev descriptors : List ℕ
descriptors =
    5
    ∷ 0
    ∷ 0
    ∷ 0
    ∷ 6
    ∷ 0
    ∷ 0
    ∷ 0
    ∷ 7
    ∷ 0
    ∷ 0
    ∷ 0
    ∷ 1
    ∷ 0
    ∷ 3
    ∷ 0
    ∷ (replicate 16 0 ++ (8 ∷ 0 ∷ 0 ∷ 0 ∷ 9 ∷ 0 ∷ 0 ∷ 0 ∷ 10 ∷ 0 ∷ 0 ∷ 0 ∷ 1 ∷ 0 ∷ 3 ∷ 0 ∷ []))

-- A file of 700 bytes in the blocks 11 and 12; the singly indirect block is 13, the doubly indirect 14.
abbrev inode_two : List ℕ
inode_two =
    0
    ∷ 128
    ∷ 0
    ∷ 0
    ∷ 188
    ∷ 2
    ∷ (replicate 34 0
        ++ (11
            ∷ 0
            ∷ 0
            ∷ 0
            ∷ 12
            ∷ 0
            ∷ 0
            ∷ 0
            ∷ (replicate 40 0 ++ (13 ∷ 0 ∷ 0 ∷ 0 ∷ 14 ∷ 0 ∷ 0 ∷ 0 ∷ replicate 32 0))))

-- Block 15 is the first below the doubly indirect block.
abbrev image : ℕ → ℕ
image k =
    if k / 512 == 4
    then get_or descriptors (k % 512) 0
    else if k / 512 == 7
    then if ltb (k % 512) 128 then 0 else get_or inode_two (k % 512 - 128) 0
    else if k == 14 * 512
    then 15
    else if k / 512 == 11
    then k % 512 % 10
    else 0

abbrev priv : Priv
priv = record {
  sb = replicate 32 0 ++ (8 ∷ 0 ∷ 0 ∷ 0 ∷ 0 ∷ 0 ∷ 0 ∷ 0 ∷ 8 ∷ 0 ∷ 0 ∷ 0 ∷ []);
  first_bgd = 4;
  number_of_bgs = 2;
  blocksize = 512;
  inodesize = 128;
  sectors_per_block = 1;
  inodes_per_block = 4;
}

abbrev fs : Fs (ℕ → ℕ)
fs = record { priv = priv; disk = image }

abbrev junk : ℕ → List ℕ
junk n = replicate n 7

abbrev heap : Heap
heap = steady junk

fs-IsWhole : IsWhole fs
unfolding block_sectors
fs-IsWhole = record { sectors = refl; positive = omega arith }

abbrev two : Filled
two = ext2_read_inode memory fs (junk 128) 2 heap

two_size : inode_size two.buf ≡ 700
unfolding ext2_read_inode ext2_read_block block_sectors
two_size = refl

two-read : two ≡ record { rc = 0; buf = two.buf; heap = heap }
unfolding ext2_read_inode
two-read = refl

ext2_read_file-bytes_example : ext2_read_file memory fs 2 690 (some (junk 12)) 20 heap ≡ record {
  rc = min 20 (inode_size two.buf - 690);
  fpos = 690 + min 20 (inode_size two.buf - 690);
  out =
      bytes (file_byte memory fs two.buf) 690 (min 20 (inode_size two.buf - 690))
      ++ drop (min 20 (inode_size two.buf - 690)) (junk 12);
}
ext2_read_file-bytes_example =
    ext2_read_file-bytes memory fs memory-IsDevice fs-IsWhole 2 690 20 (junk 12) junk two.buf refl
      two-read refl (omega arith) (omega (arith, two_size))

first-doubly :
    ext2_file_read_block memory fs 2 two.buf (junk 512) 140 heap
    ≡ record { rc = 0; buf = ext2_read_block memory fs 0; heap = heap }
unfolding ext2_file_read_block doubly_leaf ext2_read_inode ext2_read_block block_sectors
first-doubly = refl

found-ne-none : (o : Option (ℕ × List ℕ)) → is_none o ≡ false → o ≢ none
found-ne-none o f e = absurd (false≢true (sym f ∙ ap is_none e))

fs-IsConsistent : IsConsistent memory first_free block_table fs (ext2_read_block memory fs 4) 0 2
unfolding ext2_read_block block_sectors
fs-IsConsistent zero l h c = found-ne-none _ refl
fs-IsConsistent (suc zero) l h c = found-ne-none _ refl
fs-IsConsistent (suc (suc j)) l h c = absurd (omega arith)

placed : (b : ℕ) → 4 ≤ b → b < 100 → Placed fs b
unfolding block_sectors
placed b h k = record { fits = omega arith; behind = omega arith }

bitmap_cases :
    (i : ℕ)
    → i < 2
    → (bitmap_block block_table (ext2_read_block memory fs 4) i ≡ 5)
      ⊎ (bitmap_block block_table (ext2_read_block memory fs 4) i ≡ 8)
unfolding ext2_read_block block_sectors
bitmap_cases zero h = inl refl
bitmap_cases (suc zero) h = inr refl
bitmap_cases (suc (suc i)) h = absurd (omega arith)

fs-IsLaidOut : IsLaidOut block_table fs (ext2_read_block memory fs 4)
fs-IsLaidOut = record {
  bgd = placed 4 (omega arith) (omega arith);
  bitmap = λ i h.
      let c : (bitmap_block block_table (ext2_read_block memory fs 4) i ≡ 5)
          ⊎ (bitmap_block block_table (ext2_read_block memory fs 4) i ≡ 8) =
        bitmap_cases i h in
      placed (bitmap_block block_table (ext2_read_block memory fs 4) i) (omega (arith, c))
        (omega (arith, c));
  differ = λ i h e. absurd (omega (arith, bitmap_cases i h, e));
}

abbrev first : Got (ℕ → ℕ)
first = ext2_alloc_block memory first_free fs heap

abbrev second : Got (ℕ → ℕ)
second = ext2_alloc_block memory first_free first.fs heap

first_is : first.rc ≡ 1
unfolding ext2_alloc_block alloc_from alloc_loop ext2_read_block block_sectors
first_is = refl

second_is : second.rc ≡ 9
unfolding ext2_alloc_block alloc_from alloc_loop ext2_read_block block_sectors commit
    ext2_write_block ext2_write_superblock count_down put32 put16
second_is = refl

first-IsConsistent :
    IsConsistent memory first_free block_table first.fs
      (ext2_read_block memory first.fs first.fs.priv.first_bgd)
      0
      first.fs.priv.number_of_bgs
unfolding ext2_alloc_block alloc_from alloc_loop ext2_read_block block_sectors commit
    ext2_write_block ext2_write_superblock count_down put32 put16
first-IsConsistent zero l h c = absurd (omega (arith, c))
first-IsConsistent (suc zero) l h c = found-ne-none _ refl
first-IsConsistent (suc (suc j)) l h c = absurd (omega arith)

ext2_alloc_block-Fresh_example : second.rc ≢ first.rc
ext2_alloc_block-Fresh_example =
    ext2_alloc_block-Fresh memory memory-IsDevice first_free fs junk first_free-IsScan fs-IsLaidOut
      (omega arith) fs-IsConsistent first-IsConsistent (λ e. absurd (omega (arith, e, first_is)))
      (λ e. absurd (omega (arith, e, second_is)))

abbrev direct : Mapped (ℕ → ℕ)
direct = record {
  rc = 0;
  fs = ext2_write_inode memory fs (set_dbp two.buf 3 21) 2 heap;
  inode = set_dbp two.buf 3 21;
  heap = heap;
}

doubly_is : doubly_block two.buf ≡ 14
unfolding ext2_read_inode ext2_read_block block_sectors
doubly_is = refl

below_is : second_block memory fs two.buf 140 ≡ 15
unfolding ext2_read_inode ext2_read_block block_sectors
below_is = refl

get_block-set_block_number_doubly_example :
    (m : Mapped (ℕ → ℕ)) × (set_block_number memory first_free fs two.buf 2 140 21 heap ≡ some m)
    × (m.rc ≡ 0)
    × (ext2_inode_get_block memory m.fs m.inode 140 heap ≡ 21)
get_block-set_block_number_doubly_example =
    get_block-set_block_number_doubly memory memory-IsDevice first_free fs two.buf 2 140 21 junk
      fs-IsWhole (omega arith) (omega arith) (omega arith)
      (λ e. absurd (omega (arith, e, doubly_is)))
      (placed (doubly_block two.buf) (omega (arith, doubly_is)) (omega (arith, doubly_is)))
      (λ e. absurd (omega (arith, e, below_is)))
      (placed (second_block memory fs two.buf 140) (omega (arith, below_is))
        (omega (arith, below_is)))
      (λ e. absurd (omega (arith, e, below_is, doubly_is)))

data_is : dbp (inode_bytes memory fs 2) 0 ≡ 11
unfolding inode_bytes ext2_read_block block_sectors
data_is = refl

stored_size : inode_size (inode_bytes memory fs 2) ≡ 700
unfolding inode_bytes ext2_read_block block_sectors
stored_size = refl

table_is : table_block priv (ext2_read_block memory fs 4) 2 ≡ 7
unfolding ext2_read_block block_sectors
table_is = refl

fs-IsStored : IsStored memory fs 2 0
fs-IsStored = record {
  number = λ e. absurd (omega (arith, e));
  valid = refl;
  inside = omega arith;
  direct = omega arith;
  present = λ e. absurd (omega (arith, e, data_is));
  block = ap is_neg data_is;
  contents =
      placed (dbp (inode_bytes memory fs 2) 0) (omega (arith, data_is)) (omega (arith, data_is));
  bgd = placed 4 (omega arith) (omega arith);
  table =
      placed (table_block priv (ext2_read_block memory fs 4) 2) (omega (arith, table_is))
        (omega (arith, table_is));
  not_bgd = λ e. absurd (omega (arith, e, data_is));
  not_table = λ e. absurd (omega (arith, e, data_is, table_is));
}

abbrev given : List ℕ
given = 65 ∷ 66 ∷ 67 ∷ []

ext2_read_file-ext2_write_file_example :
    (after : Fs (ℕ → ℕ)) × (ext2_write_file memory first_free fs 2 20 700 (some given) 3 heap
      ≡ some record { rc = 3; fpos = 23; len = 700; fs = after })
    × (ext2_read_file memory after 2 20 (some (junk 5)) 3 heap
        ≡ record { rc = 3; fpos = 23; out = given ++ drop 3 (junk 5) })
ext2_read_file-ext2_write_file_example =
    ext2_read_file-ext2_write_file memory memory-IsDevice first_free fs fs-IsWhole 2 20 700 given
      (junk 5) junk fs-IsStored refl (omega arith) refl (omega arith) (omega arith)
      (omega (arith, stored_size)) (omega (arith, stored_size))
