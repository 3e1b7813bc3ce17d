-- ===== src/Ext2/Lookup.antt =====
-- fs/ext2/dir.c: a directory block as a list of entries, and what the search finds in it.
use levos.Base.{ℕ, zero, suc, ◌+◌, ◌*◌, ◌/◌, ◌%◌, ◌≤◌, ◌<◌, ◌≡◌, refl, ap, ap₂, sym, ◌∙◌, subst}
use levos.Base.{
  List, [], ◌∷◌, ◌++◌, false, ◌&&◌, Option, none, some, ltb, lt→ltb, ne→==, if◌then◌else◌, arith,
}
use levos.Base.{length, get_or, length-append, All, ◌==◌, neg, append_assoc}
use levos.Ext2.Inode.{enoent}
use levos.Ext2.Bytes.{take-length-append, drop-length-append}
use levos.Ext2.Dir.{look, is_named, dir_inode, dir_size, dir_namelength, dir_name}
use levos.Vfs.Path.{same_string}

-- an entry: the inode's number, the name, and what stands in the bytes that are free behind it
pub record Entry : Type 0 where
  pub inode : ℕ
  pub name : List ℕ
  pub free : List ℕ

abbrev pub entry_size : Entry → ℕ
entry_size e = 8 + length e.name + length e.free

-- the bytes of an entry, as `struct ext2_dir` and the name behind it
abbrev pub encode : Entry → List ℕ
encode e =
    e.inode % 256
    ∷ e.inode / 256 % 256
    ∷ e.inode / 65536 % 256
    ∷ e.inode / 16777216 % 256
    ∷ entry_size e % 256
    ∷ entry_size e / 256 % 256
    ∷ length e.name
    ∷ 0
    ∷ (e.name ++ e.free)

abbrev pub encode_all : List Entry → List ℕ
encode_all [] = []
encode_all (e ∷ es) = encode e ++ encode_all es

-- an entry that the fields have room for, with a name
pub record IsEncodable (e : Entry) : Type 0 where
  pub inode : e.inode < 0x100000000
  pub size : entry_size e < 65536
  pub name : length e.name < 256
  pub named : 0 < length e.name

-- What a search gives: the inode of the first entry of the name, or the error if that is 0.
abbrev pub lookup : List Entry → List ℕ → Option ℕ
lookup [] f = none
lookup (e ∷ es) f =
    let rest : Option ℕ = lookup es f in
    if (length f == length e.name) && same_string e.name f
    then some (if e.inode == 0 then neg enoent else e.inode)
    else rest

pub length-encode : (e : Entry) → length (encode e) ≡ entry_size e
length-encode e = omega (arith, length-append e.name e.free)

-- A byte behind what stands before.
pub byte-behind :
    (pre buf : List ℕ) (i : ℕ) → get_or (pre ++ buf) (length pre + i) 0 ≡ get_or buf i 0
byte-behind [] buf i = ap (λ k. get_or buf k 0) (omega arith)
byte-behind (x ∷ pre) buf i =
    let e : suc (length pre) + i ≡ suc (length pre + i) = omega arith in
    rw e (byte-behind pre buf i)

ge→ltb : {a b : ℕ} → a ≤ b → ltb b a ≡ false
ge→ltb h = ground arith

pub two_digits : (v : ℕ) → v < 65536 → v % 256 + 256 * (v / 256 % 256) ≡ v
two_digits v h = omega arith

four_digits :
    (v : ℕ)
    → v < 0x100000000
    → v % 256 + 256 * (v / 256 % 256) + 65536 * (v / 65536 % 256) + 16777216 * (v / 16777216 % 256)
      ≡ v
four_digits v h = omega arith

module _ (pre post : List ℕ) (e : Entry) (fits : IsEncodable e) where
  -- The fields of the entry behind `pre` are those that were put.
  abbrev whole : List ℕ
  whole = pre ++ (encode e ++ post)

  pub namelength-behind : dir_namelength whole (length pre) ≡ length e.name
  namelength-behind = byte-behind pre (encode e ++ post) 6

  pub size-behind : dir_size whole (length pre) ≡ entry_size e
  size-behind =
      let a : get_or whole (length pre + 4) 0 ≡ entry_size e % 256 =
        byte-behind pre (encode e ++ post) 4 in
      let b : get_or whole (length pre + 4 + 1) 0 ≡ entry_size e / 256 % 256 =
        subst (λ k. get_or whole k 0 ≡ entry_size e / 256 % 256) (omega arith)
          (byte-behind pre (encode e ++ post) 5) in
      rw a (rw b (two_digits (entry_size e) fits.size))

  inode-behind : dir_inode whole (length pre) ≡ e.inode
  inode-behind =
      let a : get_or whole (length pre) 0 ≡ e.inode % 256 =
        subst (λ k. get_or whole k 0 ≡ e.inode % 256) (omega arith)
          (byte-behind pre (encode e ++ post) 0) in
      rw a (
        rw (byte-behind pre (encode e ++ post) 1) (
          rw (byte-behind pre (encode e ++ post) 2)
            (rw (byte-behind pre (encode e ++ post) 3) (four_digits e.inode fits.inode))))

  name-behind : dir_name whole (length pre) ≡ e.name
  name-behind = rw namelength-behind (
      rw (drop-length-append pre (encode e ++ post) 8)
        (rw (append_assoc e.name e.free post) (take-length-append e.name (e.free ++ post))))

  is_named-behind :
      (f : List ℕ)
      → is_named f whole (length pre) ≡ ((length f == length e.name) && same_string e.name f)
  is_named-behind f = ap₂ (λ n s. (length f == n) && same_string s f) namelength-behind name-behind

  -- the next entry
  look-behind :
      (f : List ℕ) (bs m : ℕ) (later : Option ℕ)
      → length pre < bs
      → look f whole bs m (length pre + entry_size e) ≡ later
      → look f whole bs (suc m) (length pre) ≡ (
          if (length f == length e.name) && same_string e.name f
          then some (if e.inode == 0 then neg enoent else e.inode)
          else later)
  unfolding look
  look-behind f bs m later h ih =
      let empty : (entry_size e == 0) ≡ false =
        ne→== (entry_size e) 0 (λ z. absurd (omega (arith, z))) in
      let unnamed : (length e.name == 0) ≡ false =
        ne→== (length e.name) 0 (λ z. absurd (omega (arith, z, fits.named))) in
      rw (lt→ltb _ _ h) (
        rw (is_named-behind f) (
          rw inode-behind
            (rw size-behind (rw namelength-behind (rw empty (rw unnamed (rw ih refl)))))))

-- On a block that is a list of entries, with a turn for each byte, the search of a directory finds what
-- `lookup` finds in the list; so the loop ends at the end of the block.
pub look-lookup :
    (f pre : List ℕ) (es : List Entry) (bs n : ℕ)
    → All IsEncodable es
    → length (pre ++ encode_all es) ≡ bs
    → length (encode_all es) ≤ n
    → look f (pre ++ encode_all es) bs n (length pre) ≡ lookup es f
unfolding look
look-lookup f pre [] bs zero a l h = refl
look-lookup f pre [] bs (suc n) a l h =
    let over : ltb (length pre) bs ≡ false = ge→ltb (omega (arith, l, length-append pre [])) in
    rw over refl
look-lookup f pre (e ∷ es) bs zero a l h =
    absurd (omega (arith, h, length-append (encode e) (encode_all es)))
look-lookup f pre (e ∷ es) bs (suc n) a l h =
    let total : length (encode e ++ encode_all es) ≡ entry_size e + length (encode_all es) =
      length-append (encode e) (encode_all es)
      ∙ ap (λ k. k + length (encode_all es)) (length-encode e) in
    let all : length pre + length (encode e ++ encode_all es) ≡ bs =
      sym (length-append pre (encode e ++ encode_all es)) ∙ l in
    let same : pre ++ (encode e ++ encode_all es) ≡ (pre ++ encode e) ++ encode_all es =
      sym (append_assoc pre (encode e) (encode_all es)) in
    let at : length (pre ++ encode e) ≡ length pre + entry_size e =
      length-append pre (encode e) ∙ ap (λ k. length pre + k) (length-encode e) in
    let ih : look f ((pre ++ encode e) ++ encode_all es) bs n (length (pre ++ encode e))
        ≡ lookup es f =
      look-lookup f (pre ++ encode e) es bs n a.1 (ap length (sym same) ∙ l)
        (omega (arith, h, total)) in
    look-behind pre (encode_all es) e a.0 f bs n (lookup es f) (omega (arith, all, total)) (
      subst (λ b. look f b bs n (length pre + entry_size e) ≡ lookup es f) (sym same)
        (subst (λ k. look f ((pre ++ encode e) ++ encode_all es) bs n k ≡ lookup es f) at ih))
