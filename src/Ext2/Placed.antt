-- ===== src/Ext2/Placed.antt =====
-- fs/ext2/dir.c: a name that is placed in a directory block is found there.
use levos.Base.{
  ℕ, zero, suc, ◌+◌, ◌-◌, ◌≤◌, ◌<◌, ◌≡◌, refl, ap, sym, ◌∙◌, subst, List, [], ◌∷◌, ◌++◌, some,
}
use levos.Base.{
  All, All-append, length, length-append, append-nil, append_assoc, arith, leb, le→leb, ne→==,
  false, true, ◌==◌, length-drop,
}
use levos.Ext2.Dir.{look}
use levos.Ext2.Lookup.{
  Entry, entry_size, encode, encode_all, IsEncodable, lookup, look-lookup, size-behind,
  length-encode,
}
use levos.Ext2.Place.{place_in_block, place_behind, __ext2_find_largest_dirent_space}
use levos.Ext2.Placing.{
  cut, cut_size, filling, left_over, cut_entry_size, length-left_over, place_behind_lem, gap,
}

lt→leb : {a b : ℕ} → b < a → leb a b ≡ false
lt→leb h = ground arith

encode_all-append : (xs ys : List Entry) → encode_all (xs ++ ys) ≡ encode_all xs ++ encode_all ys
encode_all-append [] ys = refl
encode_all-append (x ∷ xs) ys =
    ap (λ l. encode x ++ l) (encode_all-append xs ys)
    ∙ sym (append_assoc (encode x) (encode_all xs) (encode_all ys))

length-one : (e : Entry) → length (encode_all (e ∷ [])) ≡ entry_size e
length-one e = ap length (append-nil (encode e)) ∙ length-encode e

length-more :
    (x : Entry) (es : List Entry)
    → length (encode_all (x ∷ es)) ≡ entry_size x + length (encode_all es)
length-more x es =
    length-append (encode x) (encode_all es)
    ∙ ap (λ k. k + length (encode_all es)) (length-encode x)

some-bytes : (es : List Entry) (e : Entry) → 0 < length (encode_all (es ++ (e ∷ [])))
some-bytes [] e = omega (arith, length-one e)
some-bytes (x ∷ es) e = omega (arith, length-more x (es ++ (e ∷ [])))

-- The entry that reaches the end of a block is the last one.
find_largest-last :
    (pre : List ℕ) (es : List Entry) (e : Entry) (bs n : ℕ)
    → All IsEncodable es
    → IsEncodable e
    → length pre + length (encode_all (es ++ (e ∷ []))) ≡ bs
    → length (encode_all (es ++ (e ∷ []))) ≤ n
    → __ext2_find_largest_dirent_space (pre ++ encode_all (es ++ (e ∷ []))) bs (length pre) n
      ≡ some (length (pre ++ encode_all es))
unfolding __ext2_find_largest_dirent_space
find_largest-last pre es e bs zero a good l h = absurd (omega (arith, h, some-bytes es e))
find_largest-last pre [] e bs (suc n) a good l h =
    let there : (entry_size e == 0) ≡ false =
      ne→== (entry_size e) 0 (λ z. absurd (omega (arith, z))) in
    let end : leb bs (length pre + entry_size e) ≡ true =
      le→leb _ _ (omega (arith, l, length-one e)) in
    rw (size-behind pre [] e good) (rw there (rw end (ap some (ap length (sym (append-nil pre))))))
find_largest-last pre (x ∷ es) e bs (suc n) a good l h =
    let rest : List ℕ = encode_all (es ++ (e ∷ [])) in
    let there : (entry_size x == 0) ≡ false =
      ne→== (entry_size x) 0 (λ z. absurd (omega (arith, z))) in
    let sum : length (encode x ++ rest) ≡ entry_size x + length rest =
      length-more x (es ++ (e ∷ [])) in
    let on : leb bs (length pre + entry_size x) ≡ false =
      lt→leb (omega (arith, l, sum, some-bytes es e)) in
    let same : pre ++ (encode x ++ rest) ≡ (pre ++ encode x) ++ rest =
      sym (append_assoc pre (encode x) rest) in
    let at : length (pre ++ encode x) ≡ length pre + entry_size x =
      length-append pre (encode x) ∙ ap (λ k. length pre + k) (length-encode x) in
    let ih : __ext2_find_largest_dirent_space ((pre ++ encode x) ++ rest) bs
          (length (pre ++ encode x)) n
        ≡ some (length ((pre ++ encode x) ++ encode_all es)) =
      find_largest-last (pre ++ encode x) es e bs n a.1 good (omega (arith, l, sum, at))
        (omega (arith, h, sum)) in
    rw (size-behind pre rest x a.0) (
      rw there (
        rw on (
          subst
            (λ b.
              __ext2_find_largest_dirent_space b bs (length pre + entry_size x) n
              ≡ some (length (pre ++ encode_all (x ∷ es))))
            (sym same)
            (subst
              (λ k.
                __ext2_find_largest_dirent_space ((pre ++ encode x) ++ rest) bs k n
                ≡ some (length (pre ++ encode_all (x ∷ es))))
              at (ih ∙ ap (λ b. some (length b)) (append_assoc pre (encode x) (encode_all es)))))))

-- Only names and inodes count for a lookup.
lookup-cut :
    (es : List Entry) (e d : Entry) (f : List ℕ)
    → lookup (es ++ (cut e ∷ filling e d ∷ [])) f ≡ lookup (es ++ (e ∷ d ∷ [])) f
lookup-cut [] e d f = refl
lookup-cut (x ∷ es) e d f = rw (lookup-cut es e d f) refl

-- In a block of less than 2 ^ 16 bytes that is a list of entries, whose last entry has room for one more
-- behind what it needs itself: `place_in_block` succeeds, and the search of the directory then finds every
-- name that was there before, and the new one behind them.
pub look-place_in_block :
    (es : List Entry) (e d : Entry) (bs : ℕ) (f : List ℕ)
    → All IsEncodable es
    → IsEncodable e
    → IsEncodable d
    → length (encode_all (es ++ (e ∷ []))) ≡ bs
    → bs < 65536
    → cut_size e + entry_size d ≤ entry_size e
    → (block : List ℕ) × (place_in_block (encode_all (es ++ (e ∷ []))) bs (encode d) ≡ some block)
      × (look f block bs bs 0 ≡ lookup (es ++ (e ∷ d ∷ [])) f)
unfolding place_in_block
look-place_in_block es e d bs f a good new l small room =
    let front : List ℕ = encode_all es in
    let whole : encode_all (es ++ (e ∷ [])) ≡ front ++ encode e =
      encode_all-append es (e ∷ []) ∙ ap (λ k. front ++ k) (append-nil (encode e)) in
    let total : length front + entry_size e ≡ bs =
      omega (arith, sym l ∙ ap length whole ∙ length-append front (encode e), length-encode e) in
    let after : List Entry = es ++ (cut e ∷ filling e d ∷ []) in
    let block : encode_all after ≡ (front ++ encode (cut e)) ++ encode (filling e d) =
      encode_all-append es (cut e ∷ filling e d ∷ [])
      ∙ ap (λ k. front ++ (encode (cut e) ++ k)) (append-nil (encode (filling e d)))
      ∙ sym (append_assoc front (encode (cut e)) (encode (filling e d))) in
    let cut_is : entry_size (cut e) ≡ cut_size e =
      cut_entry_size front e d bs good new total small room in
    let left : length (left_over e) ≡ length e.free - gap (8 + length e.name) =
      length-left_over front e d bs good new total small room in
    let fill : entry_size (filling e d) + cut_size e ≡ entry_size e =
      omega (arith, length-drop (8 + length d.name) (left_over e), left, room) in
    let size : length (encode_all after) ≡ bs =
      ap length block
      ∙ length-append (front ++ encode (cut e)) (encode (filling e d))
      ∙ omega (
        arith,
        length-append front (encode (cut e)),
        length-encode (cut e),
        length-encode (filling e d),
        cut_is,
        fill,
        total,
      ) in
    let all : All IsEncodable after = All-append IsEncodable es (cut e ∷ filling e d ∷ []) a (
      record {
        inode = good.inode;
        size = omega (arith, cut_is, room, good.size);
        name = good.name;
        named = good.named;
      },
      (
        record {
          inode = new.inode;
          size = omega (arith, fill, good.size);
          name = new.name;
          named = new.named;
        },
        tt,
      ),
    ) in
    let found : __ext2_find_largest_dirent_space (encode_all (es ++ (e ∷ []))) bs 0 bs
        ≡ some (length front) =
      find_largest-last [] es e bs bs a good (omega (arith, l)) (omega (arith, l)) in
    let placed : place_behind (encode_all (es ++ (e ∷ []))) bs (length front) (encode d)
        ≡ some (encode_all after) =
      ap (λ b. place_behind b bs (length front) (encode d)) whole
      ∙ place_behind_lem front e d bs good new total small room
      ∙ ap some (sym block) in
    (
      encode_all after,
      rw found placed,
      look-lookup f [] after bs bs all size (omega (arith, size)) ∙ lookup-cut es e d f,
    )
