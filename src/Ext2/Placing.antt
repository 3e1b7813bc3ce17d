-- ===== src/Ext2/Placing.antt =====
-- fs/ext2/dir.c: an entry that is placed in a directory block is one more entry of its list.
use levos.Base.{ℕ, zero, suc, ◌+◌, ◌-◌, ◌/◌, ◌%◌, ◌≤◌, ◌<◌, ◌≡◌, ◌≢◌, refl, ap, sym, ◌∙◌, subst}
use levos.Base.{List, [], ◌∷◌, ◌++◌, true, false, some, leb, le→leb, ne→==, arith}
use levos.Base.{
  length, take, drop, get_or, set, length-append, length-take, length-drop, ◌==◌, append_assoc,
}
use levos.Base.{take-append-drop}
use levos.Ext2.Store.{put16, memcpy}
use levos.Ext2.Bytes.{take-length-append, drop-length-append}
use levos.Ext2.Dir.{dir_size}
use levos.Ext2.Lookup.{Entry, entry_size, encode, IsEncodable, byte-behind, two_digits}
use levos.Ext2.Lookup.{length-encode}
use levos.Ext2.Place.{pad_to, set_dir_size, __minimize_dirent, __maximize_dirent, place_behind}
use levos.Ext2.Place.{__get_dirent_min_length}
use native.Mathlib.Nat.{mod-eq_of_lt, mod_self}

-- The loop stops at the first number that is aligned.
pad_to_lem :
    (w m off d n fuel : ℕ)
    → d ≤ fuel
    → n + d < w
    → (off + (n + d)) % m ≡ 0
    → ((j : ℕ) → j < d → (off + (n + j)) % m ≢ 0)
    → pad_to w m off n fuel ≡ n + d
unfolding pad_to
pad_to_lem w m off zero n zero h small aligned before = omega arith
pad_to_lem w m off zero n (suc fuel) h small aligned before =
    let e : n + 0 ≡ n = omega arith in
    let z : (off + n) % m ≡ 0 = subst (λ k. (off + k) % m ≡ 0) e aligned in rw z (sym e)
pad_to_lem w m off (suc d) n zero h small aligned before = absurd (omega (arith, h))
pad_to_lem w m off (suc d) n (suc fuel) h small aligned before =
    let e : n + 0 ≡ n = omega arith in
    let first : ((off + n) % m == 0) ≡ false =
      ne→== _ 0 (subst (λ k. (off + k) % m ≢ 0) e (before 0 (omega arith))) in
    let up : (n + 1) % w ≡ n + 1 = mod-eq_of_lt (omega (arith, small)) in
    let sum : n + 1 + d ≡ n + suc d = omega arith in
    let step : (j : ℕ) → j < d → (off + (n + 1 + j)) % m ≢ 0 = λ j l.
      let s : n + suc j ≡ n + 1 + j = omega arith in
      subst (λ k. (off + k) % m ≢ 0) s (before (suc j) (omega (arith, l))) in
    rw first (
      rw up (
        pad_to_lem w m off d (n + 1) fuel (omega (arith, h)) (omega (arith, small))
          (subst (λ k. (off + k) % m ≡ 0) (sym sum) aligned) step
        ∙ sum))

-- the bytes up to a multiple of 4
abbrev pub gap : ℕ → ℕ
gap n = (4 - n % 4) % 4

pad_to-4 : (n : ℕ) → n + 3 < 65536 → pad_to 65536 4 0 n 4 ≡ n + gap n
pad_to-4 n h =
    pad_to_lem 65536 4 0 (gap n) n 4 (omega arith) (omega (arith, h)) (omega arith)
      (λ j l e. absurd (omega (arith, l, e)))

-- an entry grows to the end of its block
pad_to-end :
    (bs off n : ℕ) → 0 < n → off + n ≤ bs → bs < 65536 → pad_to 65536 bs off n bs ≡ bs - off
pad_to-end bs off n pos room small =
    let total : off + (n + (bs - off - n)) ≡ bs = omega (arith, room) in
    pad_to_lem 65536 bs off (bs - off - n) n bs (omega arith) (omega (arith, room, small))
      (rw total (mod_self bs))
      (λ j l e.
        let m : (off + (n + j)) % bs ≡ off + (n + j) = mod-eq_of_lt (omega (arith, l, room)) in
        absurd (omega (arith, m, e, pos)))
    ∙ omega (arith, room)

set-behind : (pre buf : List ℕ) (i v : ℕ) → set (pre ++ buf) (length pre + i) v ≡ pre ++ set buf i v
set-behind [] buf i v = ap (λ k. set buf k v) (omega arith)
set-behind (x ∷ pre) buf i v =
    let e : suc (length pre) + i ≡ suc (length pre + i) = omega arith in
    rw e (ap (λ l. x ∷ l) (set-behind pre buf i v))

put16-behind :
    (pre buf : List ℕ) (i v : ℕ) → put16 (pre ++ buf) (length pre + i) v ≡ pre ++ put16 buf i v
unfolding put16
put16-behind pre buf i v =
    let e : length pre + i + 1 ≡ length pre + (i + 1) = omega arith in
    rw (set-behind pre buf i (v % 256))
      (rw e (set-behind pre (set buf i (v % 256)) (i + 1) (v / 256 % 256)))

memcpy-behind : (q r t : List ℕ) → memcpy (q ++ r) (length q) t ≡ q ++ (t ++ drop (length t) r)
memcpy-behind q r t = rw (take-length-append q r) (rw (drop-length-append q r (length t)) refl)

-- an entry with a given size field
abbrev header : (inode size len : ℕ) → List ℕ → List ℕ
header inode size len tail =
    inode % 256
    ∷ inode / 256 % 256
    ∷ inode / 65536 % 256
    ∷ inode / 16777216 % 256
    ∷ size % 256
    ∷ size / 256 % 256
    ∷ len
    ∷ 0
    ∷ tail

take-header :
    (inode size len : ℕ) (tail : List ℕ) (n : ℕ)
    → take (8 + n) (header inode size len tail) ≡ header inode size len (take n tail)
take-header inode size len tail n =
    let e : 8 + n ≡ suc (suc (suc (suc (suc (suc (suc (suc n))))))) = omega arith in rw e refl

set-header :
    (pre : List ℕ) (inode size len v : ℕ) (tail : List ℕ)
    → set_dir_size (pre ++ header inode size len tail) (length pre) v
      ≡ pre ++ header inode v len tail
unfolding put16
set-header pre inode size len v tail = put16-behind pre (header inode size len tail) 4 v

size-header :
    (pre : List ℕ) (inode size len : ℕ) (tail : List ℕ)
    → size < 65536
    → dir_size (pre ++ header inode size len tail) (length pre) ≡ size
size-header pre inode size len tail small =
    let b : get_or (pre ++ header inode size len tail) (length pre + 4 + 1) 0 ≡ size / 256 % 256 =
      subst (λ k. get_or (pre ++ header inode size len tail) k 0 ≡ size / 256 % 256) (omega arith)
        (byte-behind pre (header inode size len tail) 5) in
    rw (byte-behind pre (header inode size len tail) 4) (rw b (two_digits size small))

-- An entry that is cut to what it needs, and the entry that takes what is left.
abbrev pub cut_size : Entry → ℕ
cut_size e = 8 + length e.name + gap (8 + length e.name)

abbrev pub cut : Entry → Entry
cut e = record e { free = take (gap (8 + length e.name)) e.free }

abbrev pub left_over : Entry → List ℕ
left_over e = drop (gap (8 + length e.name)) e.free

abbrev pub filling : Entry → Entry → Entry
filling e d = record d { free = drop (8 + length d.name) (left_over e) }

module _ (pre : List ℕ) (e d : Entry) (bs : ℕ) (good : IsEncodable e) (new : IsEncodable d)
    (total : length pre + entry_size e ≡ bs) (small : bs < 65536)
    (room : cut_size e + entry_size d ≤ entry_size e) where
  gap_fits : gap (8 + length e.name) ≤ length e.free
  gap_fits = omega (arith, room)

  length-cut : length (take (gap (8 + length e.name)) e.free) ≡ gap (8 + length e.name)
  length-cut = length-take _ e.free gap_fits

  pub length-left_over : length (left_over e) ≡ length e.free - gap (8 + length e.name)
  length-left_over = length-drop _ e.free

  pub cut_entry_size : entry_size (cut e) ≡ cut_size e
  cut_entry_size = ap (λ k. 8 + length e.name + k) length-cut

  -- the block with the entry cut
  minimized :
      __minimize_dirent (pre ++ encode e) (length pre) ≡ (pre ++ encode (cut e)) ++ left_over e
  unfolding __minimize_dirent
  minimized =
      let n : pad_to 65536 4 0 (8 + length e.name) 4 ≡ entry_size (cut e) =
        pad_to-4 (8 + length e.name) (omega (arith, good.name)) ∙ sym cut_entry_size in
      let len : __get_dirent_min_length (pre ++ encode e) (length pre) ≡ 8 + length e.name =
        ap (λ k. 8 + k) (byte-behind pre (encode e) 6) in
      let split : e.name ++ e.free
          ≡ (e.name ++ take (gap (8 + length e.name)) e.free) ++ left_over e =
        ap (λ l. e.name ++ l) (sym (take-append-drop (gap (8 + length e.name)) e.free))
        ∙ sym (append_assoc e.name (take (gap (8 + length e.name)) e.free) (left_over e)) in
      ap (λ k. set_dir_size (pre ++ encode e) (length pre) (pad_to 65536 4 0 k 4)) len
      ∙ ap (λ v. set_dir_size (pre ++ encode e) (length pre) v) n
      ∙ set-header pre e.inode (entry_size e) (length e.name) (entry_size (cut e))
          (e.name ++ e.free)
      ∙ ap (λ t. pre ++ header e.inode (entry_size (cut e)) (length e.name) t) split
      ∙ sym (append_assoc pre (encode (cut e)) (left_over e))

  front-size : length (pre ++ encode (cut e)) ≡ length pre + cut_size e
  front-size =
      length-append pre (encode (cut e))
      ∙ ap (λ k. length pre + k) (length-encode (cut e) ∙ cut_entry_size)

  -- The new entry behind the cut one fills the block.
  maximized :
      __maximize_dirent
        (memcpy
          ((pre ++ encode (cut e)) ++ left_over e)
          (length (pre ++ encode (cut e)))
          (take (8 + length d.name) (encode d)))
        (length (pre ++ encode (cut e)))
        (length (pre ++ encode (cut e)))
        bs
      ≡ (pre ++ encode (cut e)) ++ encode (filling e d)
  unfolding __maximize_dirent
  maximized =
      let q : List ℕ = pre ++ encode (cut e) in
      let name : take (length d.name) (d.name ++ d.free) ≡ d.name =
        take-length-append d.name d.free in
      let part : List ℕ = header d.inode (entry_size d) (length d.name) d.name in
      let len8 : length part ≡ 8 + length d.name = omega arith in
      let copied : memcpy (q ++ left_over e) (length q) (
            header d.inode (entry_size d) (length d.name) (take (length d.name) (d.name ++ d.free)))
          ≡ q
            ++ header d.inode (entry_size d) (length d.name)
                (d.name ++ drop (8 + length d.name) (left_over e)) =
        ap
          (λ t.
            memcpy (q ++ left_over e) (length q) (header d.inode (entry_size d) (length d.name) t))
          name
        ∙ memcpy-behind q (left_over e) part
        ∙ ap
            (λ k.
              q ++ header d.inode (entry_size d) (length d.name) (d.name ++ drop k (left_over e)))
            len8 in
      let tail : List ℕ = d.name ++ drop (8 + length d.name) (left_over e) in
      let x : memcpy (q ++ left_over e) (length q) (take (8 + length d.name) (encode d))
          ≡ q ++ header d.inode (entry_size d) (length d.name) tail =
        ap (λ t. memcpy (q ++ left_over e) (length q) t)
          (take-header d.inode (entry_size d) (length d.name) (d.name ++ d.free) (length d.name))
        ∙ copied in
      let full : bs - length q ≡ entry_size (filling e d) = omega (
        arith,
        total,
        front-size,
        room,
        length-left_over,
        length-drop (8 + length d.name) (left_over e),
      ) in
      let size : pad_to 65536 bs (length q) (entry_size d) bs ≡ entry_size (filling e d) =
        pad_to-end bs (length q) (entry_size d) (omega arith)
          (omega (arith, total, front-size, room)) small
        ∙ full in
      ap (λ b. set_dir_size b (length q) (pad_to 65536 bs (length q) (dir_size b (length q)) bs)) x
      ∙ ap
          (λ k.
            set_dir_size (q ++ header d.inode (entry_size d) (length d.name) tail) (length q)
              (pad_to 65536 bs (length q) k bs))
          (size-header q d.inode (entry_size d) (length d.name) tail new.size)
      ∙ ap
          (λ v. set_dir_size (q ++ header d.inode (entry_size d) (length d.name) tail) (length q) v)
          size
      ∙ set-header q d.inode (entry_size d) (length d.name) (entry_size (filling e d)) tail

  length-minimized : length ((pre ++ encode (cut e)) ++ left_over e) ≡ bs
  length-minimized = omega (
    arith,
    length-append (pre ++ encode (cut e)) (left_over e),
    front-size,
    length-left_over,
    gap_fits,
    total,
  )

  -- `place_behind` cuts the last entry of a block and fills the block with the new one.
  pub place_behind_lem :
      place_behind (pre ++ encode e) bs (length pre) (encode d)
      ≡ some ((pre ++ encode (cut e)) ++ encode (filling e d))
  unfolding place_behind
  place_behind_lem =
      let q : List ℕ = pre ++ encode (cut e) in
      let cut_small : entry_size (cut e) < 65536 = omega (arith, cut_entry_size, room, good.size) in
      let at : dir_size (q ++ left_over e) (length pre) ≡ entry_size (cut e) =
        subst (λ b. dir_size b (length pre) ≡ entry_size (cut e))
          (sym (append_assoc pre (encode (cut e)) (left_over e)))
          (size-header pre e.inode (entry_size (cut e)) (length e.name)
            ((e.name ++ take (gap (8 + length e.name)) e.free) ++ left_over e) cut_small) in
      let place : length pre + entry_size (cut e) ≡ length q =
        omega (arith, front-size, cut_entry_size) in
      let fits : leb (length q + (8 + length d.name)) (length (q ++ left_over e)) ≡ true =
        le→leb _ _ (omega (arith, length-minimized, front-size, room, total)) in
      rw minimized (rw at (rw place (rw fits (ap some maximized))))
