-- ===== src/Ext2/Parts.antt =====
-- fs/ext2/file.c: the parts of blocks that `ext2_read_file` copies, one after the other.
use levos.Base.{ℕ, zero, suc, ◌+◌, ◌-◌, ◌*◌, ◌/◌, ◌%◌, ◌≤◌, ◌<◌, ◌≡◌, refl, ap, sym, subst, ◌∙◌}
use levos.Base.{List, false, ◌==◌, arith, length, ne→==}
use levos.Base.{get_or, take, drop, ◌++◌}
use levos.Ext2.Store.{Device, IsDevice, Fs, ext2_read_block, block_sectors, memcpy}
use levos.Ext2.Inode.{per_block, is_neg}
use levos.Ext2.File.{ext2_file_read_block, Reading, read_part, read_step, read_loop}
use levos.Ext2.Tree.{steady, file_block, ext2_file_read_block_lem}
use levos.Ext2.Bytes.{bytes, list-bytes, part-bytes, memcpy-bytes}
use native.Mathlib.Nat.{
  mul-add-div_right, div-eq_of_lt, mul-add-mod_self_right, mod-eq_of_lt, mod-lt, div-add-mod',
  mul-zero, mul-one, mul-suc,
}
use native.Mathlib.Nat.{add-mul, mul_comm}

-- the blocks of a file that can be read
abbrev pub reach : ℕ → ℕ
reach p = 12 + p + p * p + p

-- A block is a whole number of sectors.
pub record IsWhole {Disk : Type 0} (fs : Fs Disk) : Type 0 where
  pub sectors : block_sectors fs.priv * 512 ≡ fs.priv.blocksize
  pub positive : 0 < fs.priv.blocksize

module _ {Disk : Type 0} (dev : Device Disk) (fs : Fs Disk) where
  -- the byte of a file at a position
  unfoldable pub file_byte : List ℕ → ℕ → ℕ
  file_byte ibuf k =
      get_or (ext2_read_block dev fs (file_block dev fs ibuf (k / fs.priv.blocksize)))
        (k % fs.priv.blocksize) 0

  -- `n` bytes of the file from `fpos` on stand in the caller's buffer `o`.
  pub record Done (ibuf o : List ℕ) (fresh : ℕ → List ℕ) (fpos n : ℕ) (s : Reading) : Type 0 where
    pub out : s.out ≡ bytes (file_byte ibuf) fpos n ++ drop n o
    pub total : s.total ≡ n
    pub heap : s.heap ≡ steady fresh

module _ {Disk : Type 0} (dev : Device Disk) (fs : Fs Disk) (law : IsDevice dev)
    (whole : IsWhole fs) where
  length-read_block : (n : ℕ) → length (ext2_read_block dev fs n) ≡ fs.priv.blocksize
  unfolding ext2_read_block
  length-read_block n = law.length-read _ _ _ ∙ whole.sectors

  byte-within :
      (ibuf : List ℕ) (b i : ℕ)
      → i < fs.priv.blocksize
      → file_byte dev fs ibuf (b * fs.priv.blocksize + i)
        ≡ get_or (ext2_read_block dev fs (file_block dev fs ibuf b)) i 0
  unfolding file_byte
  byte-within ibuf b i h =
      let bs : ℕ = fs.priv.blocksize in
      let q : (b * bs + i) / bs ≡ b =
        mul-add-div_right whole.positive b i ∙ ap (λ k. b + k) (div-eq_of_lt h) ∙ omega arith in
      let r : (b * bs + i) % bs ≡ i = mul-add-mod_self_right b bs i ∙ mod-eq_of_lt h in
      rw q (rw r refl)

  block-bytes :
      (ibuf : List ℕ) (b : ℕ)
      → ext2_read_block dev fs (file_block dev fs ibuf b)
        ≡ bytes (file_byte dev fs ibuf) (b * fs.priv.blocksize) fs.priv.blocksize
  block-bytes ibuf b =
      let block : List ℕ = ext2_read_block dev fs (file_block dev fs ibuf b) in
      let l : length block ≡ fs.priv.blocksize = length-read_block _ in
      list-bytes (file_byte dev fs ibuf) block (b * fs.priv.blocksize)
        (λ i h. byte-within ibuf b i (subst (λ k. i < k) l h))
      ∙ ap (λ k. bytes (file_byte dev fs ibuf) (b * fs.priv.blocksize) k) l

  -- A part of a block is copied behind the bytes that are there.
  pub read_part-Done :
      (ino : ℕ) (ibuf o : List ℕ) (fresh : ℕ → List ℕ) (fpos b off n m : ℕ) (s : Reading)
      → is_neg ino ≡ false
      → b < reach (per_block fs.priv)
      → b * fs.priv.blocksize + off ≡ fpos + m
      → off + n ≤ fs.priv.blocksize
      → Done dev fs ibuf o fresh fpos m s
      → Done dev fs ibuf o fresh fpos (m + n) (read_part dev fs ino ibuf b m off n s)
  unfolding read_part
  read_part-Done ino ibuf o fresh fpos b off n m s valid near e room done =
      let f : ℕ → ℕ = file_byte dev fs ibuf in
      let read : ext2_file_read_block dev fs ino ibuf s.buffer b s.heap ≡ record {
        rc = 0;
        buf = bytes f (b * fs.priv.blocksize) fs.priv.blocksize;
        heap = steady fresh;
      } =
        rw done.heap (
          rw (sym (block-bytes ibuf b))
            (ext2_file_read_block_lem dev fs ino ibuf s.buffer b fresh valid near)) in
      let copied : memcpy s.out m
            (take n (drop off (bytes f (b * fs.priv.blocksize) fs.priv.blocksize)))
          ≡ bytes f fpos (m + n) ++ drop (m + n) o =
        rw done.out (
          rw (part-bytes f off n fs.priv.blocksize (b * fs.priv.blocksize) room)
            (rw e (memcpy-bytes f fpos m n o))) in
      record { out = rw read copied; total = ap (λ k. k + n) done.total; heap = rw read refl }

  -- the bytes that `r` turns of the loop have read
  abbrev pub progress : (fpos r : ℕ) → ℕ
  progress fpos r = fs.priv.blocksize * r - fpos % fs.priv.blocksize

  read_step-Done :
      (ino : ℕ) (ibuf o : List ℕ) (fresh : ℕ → List ℕ) (fpos r : ℕ) (s : Reading)
      → is_neg ino ≡ false
      → fpos / fs.priv.blocksize + r < reach (per_block fs.priv)
      → Done dev fs ibuf o fresh fpos (progress fpos r) s
      → Done dev fs ibuf o fresh fpos (progress fpos (suc r)) (read_step dev fs ino ibuf fpos r s)
  unfolding read_step
  read_step-Done ino ibuf o fresh fpos zero s valid near done =
      let bs : ℕ = fs.priv.blocksize in
      let small : fpos % bs < bs = mod-lt fpos whole.positive in
      let e : fpos / bs * bs + fpos % bs ≡ fpos = div-add-mod' fpos bs in
      let none : progress fpos 0 ≡ 0 = rw (mul-zero bs) (omega arith) in
      let first : 0 + (bs - fpos % bs) ≡ progress fpos 1 = rw (mul-one bs) (omega arith) in
      subst
        (λ k.
          Done dev fs ibuf o fresh fpos k
            (read_part dev fs ino ibuf (fpos / bs) 0 (fpos % bs) (bs - fpos % bs) s))
        first
        (read_part-Done ino ibuf o fresh fpos (fpos / bs) (fpos % bs) (bs - fpos % bs) 0 s valid
          (omega (arith, near)) (omega (arith, e)) (omega (arith, small))
          (subst (λ k. Done dev fs ibuf o fresh fpos k s) none done))
  read_step-Done ino ibuf o fresh fpos (suc r) s valid near done =
      let bs : ℕ = fs.priv.blocksize in
      let small : fpos % bs < bs = mod-lt fpos whole.positive in
      let e : fpos / bs * bs + fpos % bs ≡ fpos = div-add-mod' fpos bs in
      let m : bs * suc r ≡ bs * r + bs = mul-suc bs r in
      let turn : (suc r == 0) ≡ false = ne→== (suc r) 0 (λ h. absurd (omega arith)) in
      let m2 : bs * suc (suc r) ≡ bs * suc r + bs = mul-suc bs (suc r) in
      let q : (fpos / bs + suc r) * bs ≡ fpos / bs * bs + bs * suc r =
        add-mul (fpos / bs) (suc r) bs ∙ ap (λ k. fpos / bs * bs + k) (mul_comm (suc r) bs) in
      rw turn (
        subst
          (λ k.
            Done dev fs ibuf o fresh fpos k
              (read_part dev fs ino ibuf (fpos / bs + suc r) (progress fpos (suc r)) 0 bs s))
          (omega (arith, small, m, m2))
          (read_part-Done ino ibuf o fresh fpos (fpos / bs + suc r) 0 bs (progress fpos (suc r)) s
            valid near (omega (arith, e, q, m, small)) (omega arith) done))

  pub read_loop-Done :
      (ino : ℕ) (ibuf o : List ℕ) (fresh : ℕ → List ℕ) (fpos r n : ℕ) (s : Reading)
      → is_neg ino ≡ false
      → fpos / fs.priv.blocksize + (r + n) ≤ reach (per_block fs.priv)
      → Done dev fs ibuf o fresh fpos (progress fpos r) s
      → Done dev fs ibuf o fresh fpos (progress fpos (r + n)) (read_loop dev fs ino ibuf fpos r n s)
  unfolding read_loop
  read_loop-Done ino ibuf o fresh fpos r zero s valid near done =
      subst (λ k. Done dev fs ibuf o fresh fpos (progress fpos k) s) (omega arith) done
  read_loop-Done ino ibuf o fresh fpos r (suc n) s valid near done =
      let e : suc r + n ≡ r + suc n = omega arith in
      subst
        (λ k.
          Done dev fs ibuf o fresh fpos (progress fpos k)
            (read_loop dev fs ino ibuf fpos (suc r) n (read_step dev fs ino ibuf fpos r s)))
        e
        (read_loop-Done ino ibuf o fresh fpos (suc r) n (read_step dev fs ino ibuf fpos r s) valid
          (omega (arith, near))
          (read_step-Done ino ibuf o fresh fpos r s valid (omega (arith, near)) done))
