-- ===== src/Ext2/Reading.antt =====
-- fs/ext2/file.c: what `ext2_read_file` copies, against the bytes of the file.
use levos.Base.{ℕ, ◌+◌, ◌-◌, ◌*◌, ◌/◌, ◌%◌, ◌≤◌, ◌<◌, ◌≡◌, refl, ap, ap₂, sym, subst, ◌∙◌}
use levos.Base.{List, false, some, ◌==◌, arith, ne→==, ==→eq, ==→ne}
use levos.Base.{leb, add32, leb→le, leb→lt, le_trans, Bool-cases, inl, inr, min, drop, ◌++◌}
use levos.Ext2.Store.{Device, IsDevice, Fs}
use levos.Ext2.Inode.{per_block, is_neg, inode_size, ext2_read_inode}
use levos.Ext2.File.{
  read_inode_file, ext2_read_file, clip_end, Reading, read_part, read_loop, read_blocks,
}
use levos.Ext2.Tree.{steady}
use levos.Ext2.Bytes.{bytes}
use native.Mathlib.Nat.{mod-eq_of_lt, mod-lt, div-add-mod', mul-zero, mul-one}
use native.Mathlib.Nat.{
  add-mul, mul_comm, lt_of_mul-lt-mul_right, div-le_of_le-mul, le-div_iff_mul-le, mul-le-mul_left,
}
use levos.Ext2.Parts.{reach, IsWhole, file_byte, Done, progress, read_part-Done, read_loop-Done}

module _ {Disk : Type 0} (dev : Device Disk) (fs : Fs Disk) (law : IsDevice dev)
    (whole : IsWhole fs) where
  near-end :
      (b end : ℕ)
      → end ≤ fs.priv.blocksize * reach (per_block fs.priv)
      → b * fs.priv.blocksize < end
      → b < reach (per_block fs.priv)
  near-end b end h k =
      let bs : ℕ = fs.priv.blocksize in
      let r : ℕ = reach (per_block fs.priv) in
      let c : bs * r ≡ r * bs = mul_comm bs r in lt_of_mul-lt-mul_right bs (omega (arith, h, k, c))

  -- from the first block to the last, if they are not the same
  read_more-Done :
      (ino : ℕ) (ibuf o : List ℕ) (fresh : ℕ → List ℕ) (fpos end : ℕ) (s : Reading)
      → is_neg ino ≡ false
      → fpos < end
      → end ≤ fs.priv.blocksize * reach (per_block fs.priv)
      → fpos / fs.priv.blocksize < end / fs.priv.blocksize
      → Done dev fs ibuf o fresh fpos 0 s
      → Done dev fs ibuf o fresh fpos (end - fpos) (read_blocks dev fs ino ibuf fpos end s)
  unfolding read_blocks
  read_more-Done ino ibuf o fresh fpos end s valid some_left h apart done =
      let bs : ℕ = fs.priv.blocksize in
      let c : ℕ = end / bs - fpos / bs in
      let e : fpos / bs * bs + fpos % bs ≡ fpos = div-add-mod' fpos bs in
      let e2 : end / bs * bs + end % bs ≡ end = div-add-mod' end bs in
      let differ : (fpos / bs == end / bs) ≡ false =
        ne→== _ _ (λ k. absurd (omega (arith, k, apart))) in
      let sum : (c + fpos / bs) * bs ≡ c * bs + fpos / bs * bs = add-mul c (fpos / bs) bs in
      let all : c + fpos / bs ≡ end / bs = omega (arith, apart) in
      let sum2 : end / bs * bs ≡ bs * c + fpos / bs * bs =
        ap (λ k. k * bs) (sym all) ∙ sum ∙ ap (λ k. k + fpos / bs * bs) (mul_comm c bs) in
      let start : bs * 0 ≡ 0 = mul-zero bs in
      let none : progress dev fs law whole fpos 0 ≡ 0 = omega (arith, start) in
      let last : end / bs ≤ reach (per_block fs.priv) = div-le_of_le-mul bs h in
      let small : fpos % bs < bs = mod-lt fpos whole.positive in
      let wide : bs * 1 ≤ bs * c = mul-le-mul_left bs (omega (arith, apart)) in
      let one : bs * 1 ≡ bs = mul-one bs in
      let looped : Done dev fs ibuf o fresh fpos (progress dev fs law whole fpos c)
          (read_loop dev fs ino ibuf fpos 0 c s) =
        subst
          (λ k.
            Done dev fs ibuf o fresh fpos (progress dev fs law whole fpos k)
              (read_loop dev fs ino ibuf fpos 0 c s))
          (omega arith)
          (read_loop-Done dev fs law whole ino ibuf o fresh fpos 0 c s valid
            (omega (arith, last, all))
            (subst (λ k. Done dev fs ibuf o fresh fpos k s) (sym none) done)) in
      rw differ (elim (Bool-cases (end - end / bs * bs == 0)) [
        | inl exact ↦ rw exact (
            subst (λ k. Done dev fs ibuf o fresh fpos k (read_loop dev fs ino ibuf fpos 0 c s))
              (omega (arith, ==→eq _ _ exact, e, e2, sum2)) looped)
        | inr more ↦ rw more (
            subst
              (λ k. Done dev fs ibuf o fresh fpos k (
                read_part dev fs ino ibuf (end / bs) (progress dev fs law whole fpos c) 0
                  (end - end / bs * bs) (read_loop dev fs ino ibuf fpos 0 c s)))
              (omega (arith, e, e2, sum2, some_left, wide, one, small))
              (read_part-Done dev fs law whole ino ibuf o fresh fpos (end / bs) 0
                (end - end / bs * bs) (progress dev fs law whole fpos c)
                (read_loop dev fs ino ibuf fpos 0 c s) valid
                (near-end (end / bs) end h (omega (arith, e2, ==→ne _ _ more)))
                (omega (arith, e, e2, sum2, wide, one, small))
                (omega (arith, e2, mod-lt end whole.positive)) looped))
      ])

  read_blocks-Done :
      (ino : ℕ) (ibuf o : List ℕ) (fresh : ℕ → List ℕ) (fpos end : ℕ) (s : Reading)
      → is_neg ino ≡ false
      → fpos < end
      → end ≤ fs.priv.blocksize * reach (per_block fs.priv)
      → Done dev fs ibuf o fresh fpos 0 s
      → Done dev fs ibuf o fresh fpos (end - fpos) (read_blocks dev fs ino ibuf fpos end s)
  unfolding read_blocks
  read_blocks-Done ino ibuf o fresh fpos end s valid some_left h done =
      let bs : ℕ = fs.priv.blocksize in
      let e : fpos / bs * bs + fpos % bs ≡ fpos = div-add-mod' fpos bs in
      let e2 : end / bs * bs + end % bs ≡ end = div-add-mod' end bs in
      let small : end % bs < bs = mod-lt end whole.positive in
      elim (Bool-cases (fpos / bs == end / bs)) [
        | inl same ↦
            let first : fpos / bs ≡ end / bs = ==→eq _ _ same in
            let row : fpos / bs * bs ≡ end / bs * bs = ap (λ k. k * bs) first in
            rw same (
              subst
                (λ k.
                  Done dev fs ibuf o fresh fpos k
                    (read_part dev fs ino ibuf (fpos / bs) 0 (fpos % bs) (end - fpos) s))
                (omega arith)
                (read_part-Done dev fs law whole ino ibuf o fresh fpos (fpos / bs) (fpos % bs)
                  (end - fpos) 0 s valid (near-end (fpos / bs) end h (omega (arith, e, some_left)))
                  (omega (arith, e)) (omega (arith, e, e2, row, small)) done))
        | inr differ ↦
            read_more-Done ino ibuf o fresh fpos end s valid some_left h
              (omega (
                arith,
                ==→ne _ _ differ,
                (le-div_iff_mul-le {k = bs} {x = fpos / bs} {y = end} whole.positive).1
                    (omega (arith, e, some_left)),
              ))
              done
      ]

  abbrev nothing_read : List ℕ → (ℕ → List ℕ) → Reading
  nothing_read buf fresh = record {
    out = buf;
    buffer = fresh fs.priv.blocksize;
    total = 0;
    heap = steady fresh;
  }

  clip_end_lem :
      (fpos count size : ℕ)
      → 0 < count
      → fpos + count < 0x100000000
      → fpos < size
      → (fpos < clip_end fpos count size)
        × (clip_end fpos count size ≤ size)
        × (clip_end fpos count size - fpos ≡ min count (size - fpos))
  unfolding clip_end
  clip_end_lem fpos count size some_asked small left =
      let e : add32 fpos count ≡ fpos + count = mod-eq_of_lt small in rw e (ground arith)

  read_inode_file_lem :
      (ino : ℕ) (ibuf buf : List ℕ) (fresh : ℕ → List ℕ) (fpos count : ℕ)
      → is_neg ino ≡ false
      → is_neg fpos ≡ false
      → 0 < count
      → fpos + count < 0x100000000
      → inode_size ibuf ≤ fs.priv.blocksize * reach (per_block fs.priv)
      → read_inode_file dev fs ino ibuf fpos buf count (steady fresh) ≡ record {
        rc = min count (inode_size ibuf - fpos);
        fpos = fpos + min count (inode_size ibuf - fpos);
        out =
            bytes (file_byte dev fs ibuf) fpos (min count (inode_size ibuf - fpos))
            ++ drop (min count (inode_size ibuf - fpos)) buf;
      }
  unfolding read_inode_file clip_end
  read_inode_file_lem ino ibuf buf fresh fpos count valid plus some_asked small inside =
      let size : ℕ = inode_size ibuf in
      let n : ℕ = min count (size - fpos) in
      elim (Bool-cases (leb size fpos)) [
        | inl past ↦
            let none : n ≡ 0 = omega (arith, leb→le _ _ past) in
            rw past (rw none (ap (λ k. record { rc = 0; fpos = k; out = buf }) (omega arith)))
        | inr left ↦
            let end : ℕ = clip_end fpos count size in
            let clip : (fpos < end) × (end ≤ size) × (end - fpos ≡ n) =
              clip_end_lem fpos count size some_asked small (leb→lt _ _ left) in
            let done : Done dev fs ibuf buf fresh fpos n
                (read_blocks dev fs ino ibuf fpos end (nothing_read buf fresh)) =
              subst
                (λ k.
                  Done dev fs ibuf buf fresh fpos k
                    (read_blocks dev fs ino ibuf fpos end (nothing_read buf fresh)))
                clip.2
                (read_blocks-Done ino ibuf buf fresh fpos end (nothing_read buf fresh) valid clip.0
                  (le_trans clip.1 inside) record { out = refl; total = refl; heap = refl }) in
            let whole_word : add32 fpos n ≡ fpos + n = mod-eq_of_lt (omega (arith, small)) in
            rw (left, plus)
              (ap₂ (λ k o. record { rc = k; fpos = add32 fpos k; out = o }) done.total done.out
                ∙ ap
                    (λ k. record {
                      rc = n;
                      fpos = k;
                      out = bytes (file_byte dev fs ibuf) fpos n ++ drop n buf;
                    })
                    whole_word)
      ]

  -- On a device that keeps its laws, with blocks of whole sectors, with memory, for a valid inode number,
  -- a file whose size is within the blocks that can be reached, a position that is not negative as an
  -- `int`, and a position and count whose sum is below 2^32, `ext2_read_file` gives the bytes of the file from its position on, as many as were asked
  -- for and are left, leaves the rest of the caller's buffer as it was and moves the position behind them.
  pub ext2_read_file-bytes :
      (ino fpos count : ℕ) (buf : List ℕ) (fresh : ℕ → List ℕ) (ibuf : List ℕ)
      → is_neg ino ≡ false
      → ext2_read_inode dev fs (fresh fs.priv.inodesize) ino (steady fresh)
        ≡ record { rc = 0; buf = ibuf; heap = steady fresh }
      → is_neg fpos ≡ false
      → fpos + count < 0x100000000
      → inode_size ibuf ≤ fs.priv.blocksize * reach (per_block fs.priv)
      → ext2_read_file dev fs ino fpos (some buf) count (steady fresh) ≡ record {
        rc = min count (inode_size ibuf - fpos);
        fpos = fpos + min count (inode_size ibuf - fpos);
        out =
            bytes (file_byte dev fs ibuf) fpos (min count (inode_size ibuf - fpos))
            ++ drop (min count (inode_size ibuf - fpos)) buf;
      }
  unfolding ext2_read_file
  ext2_read_file-bytes ino fpos count buf fresh ibuf valid read plus small inside =
      let n : ℕ = min count (inode_size ibuf - fpos) in
      elim (Bool-cases (count == 0)) [
        | inl nothing ↦
            let none : n ≡ 0 = omega (arith, ==→eq _ _ nothing) in
            rw nothing (rw none (ap (λ k. record { rc = 0; fpos = k; out = buf }) (omega arith)))
        | inr some_asked ↦ rw some_asked (
            rw valid (
              rw read (
                read_inode_file_lem ino ibuf buf fresh fpos count valid plus
                  (omega (arith, ==→ne _ _ some_asked)) small inside)))
      ]
