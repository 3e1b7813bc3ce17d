-- ===== src/Ext2/Tests/Names.antt =====
-- fs/ext2/dir.c on small directory blocks, and the instances of its theorems.
use levos.Base.{ℕ, ◌≡◌, refl, arith}
use levos.Base.{List, [], ◌∷◌, some, replicate}
use levos.Ext2.Dir.{look}
use levos.Ext2.Place.{place_in_block, ext2_new_dirent, pad_to}
use levos.Ext2.Placed.{look-place_in_block}
use levos.Ext2.Lookup.{encode, Entry, encode_all, lookup, look-lookup}

-- "." and "ab" in a block of 28 bytes
abbrev names : List Entry
names =
    record { inode = 2; name = 46 ∷ []; free = replicate 3 0 }
    ∷ record { inode = 5; name = 97 ∷ 98 ∷ []; free = replicate 6 9 }
    ∷ []

abbrev ab : List ℕ
ab = 97 ∷ 98 ∷ []

ab_is : look ab (encode_all names) 28 28 0 ≡ some 5
unfolding look
ab_is = refl

look-lookup_example : look ab (encode_all names) 28 28 0 ≡ lookup names ab
look-lookup_example =
    look-lookup ab [] names 28 28
      (
        record { inode = omega arith; size = omega arith; name = omega arith; named = omega arith },
        (
          record {
            inode = omega arith;
            size = omega arith;
            name = omega arith;
            named = omega arith;
          },
          tt,
        ),
      )
      refl (omega arith)

abbrev roomy : Entry
roomy = record { inode = 5; name = ab; free = replicate 30 9 }

abbrev fresh_entry : Entry
fresh_entry = record { inode = 7; name = 120 ∷ []; free = replicate 3 0 }

abbrev dot : Entry
dot = record { inode = 2; name = 46 ∷ []; free = replicate 3 0 }

new-dirent : ext2_new_dirent 7 (120 ∷ []) (some []) ≡ some (encode fresh_entry)
unfolding ext2_new_dirent pad_to
new-dirent = refl

look-place_in_block_example :
    (block : List ℕ) × (place_in_block (encode_all (dot ∷ roomy ∷ [])) 52 (encode fresh_entry)
      ≡ some block)
    × (look (120 ∷ []) block 52 52 0 ≡ lookup (dot ∷ roomy ∷ fresh_entry ∷ []) (120 ∷ []))
look-place_in_block_example =
    look-place_in_block (dot ∷ []) roomy fresh_entry 52 (120 ∷ [])
      (
        record { inode = omega arith; size = omega arith; name = omega arith; named = omega arith },
        tt,
      )
      record { inode = omega arith; size = omega arith; name = omega arith; named = omega arith }
      record { inode = omega arith; size = omega arith; name = omega arith; named = omega arith }
      refl (omega arith) (omega arith)
