-- ===== src/Ext2/Writing.antt =====
-- fs/ext2/file.c: what `ext2_write_file` puts into a block of a file, `ext2_read_file` gives back.
use levos.Base.{
  ℕ, zero, suc, ◌+◌, ◌-◌, ◌*◌, ◌/◌, ◌%◌, ◌≤◌, ◌<◌, ◌≡◌, refl, ap, sym, ◌∙◌, subst, min,
}
use levos.Base.{◌∷◌, List, [], true, false, some, lt→ltb, ◌==◌, arith}
use levos.Base.{length, take, drop, ◌++◌, get_or, length-take, take-all, ne→==, add32}
use levos.Ext2.Store.{
  Device, IsDevice, Fs, memcpy, block_sectors, ext2_read_block, ext2_write_block,
}
use levos.Ext2.Inode.{inode_size, dbp, ext2_read_inode, per_block}
use levos.Ext2.File.{ext2_read_file}
use levos.Ext2.Inode.{is_neg}
use levos.Ext2.Tree.{steady, file_block}
use levos.Ext2.Bytes.{bytes, list-bytes}
use levos.Ext2.Parts.{IsWhole, file_byte, reach}
use levos.Ext2.Reading.{ext2_read_file-bytes}
use levos.Ext2.Alloc.{Scan}
use levos.Ext2.Write.{Writing, write_part, write_blocks, write_inode_file}
use levos.Ext2.Write.{ext2_write_file}
use levos.Ext2.Blocks.{read_block-write_block, length-read_block, length-memcpy}
use native.Mathlib.Nat.{mod-eq_of_lt, div-add-mod', add-mul, div-eq_of_lt-le}
use levos.Ext2.Stored.{
  IsStored, inode_bytes, write_done_inside, patched-IsWhole, length-inode_bytes, read_inode_bytes,
  open_direct, patch, patched, inode_bytes-patched,
}

module _ {Disk : Type 0} (dev : Device Disk) (law : IsDevice dev) (scan : Scan) (fs : Fs Disk)
    (whole : IsWhole fs) where
  -- the inode read after the write
  inode-patched :
      (ino b off : ℕ) (given : List ℕ) (fresh : ℕ → List ℕ)
      → IsStored dev fs ino b
      → (buf : List ℕ) → length buf ≡ fs.priv.inodesize
      → ext2_read_inode dev (patched dev law scan fs whole ino b off given) buf ino (steady fresh)
        ≡ record { rc = 0; buf = inode_bytes dev fs ino; heap = steady fresh }
  unfolding ext2_write_block
  inode-patched ino b off given fresh st buf l =
      let after : Fs Disk = patched dev law scan fs whole ino b off given in
      read_inode_bytes dev law scan after (patched-IsWhole dev fs _ _ whole) ino buf fresh st.number
        st.inside l
      ∙ ap (λ i. record { rc = 0; buf = i; heap = steady fresh })
          (inode_bytes-patched dev law scan fs whole ino b off given st)

  same-block :
      (fpos n : ℕ)
      → fpos % fs.priv.blocksize + n < fs.priv.blocksize
      → (fpos + n) / fs.priv.blocksize ≡ fpos / fs.priv.blocksize
  same-block fpos n within =
      let bs : ℕ = fs.priv.blocksize in
      let b : ℕ = fpos / bs in
      let e : b * bs + fpos % bs ≡ fpos = div-add-mod' fpos bs in
      let up : (b + 1) * bs ≡ b * bs + 1 * bs = add-mul b 1 bs in
      div-eq_of_lt-le {k = b} bs {m = fpos + n} (omega (arith, e)) (omega (arith, e, up, within))

  -- A write within one direct block, inside the file, changes that block and nothing else.
  write_direct :
      (ino fpos len : ℕ) (given : List ℕ) (fresh : ℕ → List ℕ)
      → IsStored dev fs ino (fpos / fs.priv.blocksize)
      → length (fresh fs.priv.inodesize) ≡ fs.priv.inodesize
      → 0 < length given
      → fpos + length given < 0x100000000
      → fpos % fs.priv.blocksize + length given < fs.priv.blocksize
      → fpos + length given ≤ inode_size (inode_bytes dev fs ino)
      → ext2_write_file dev scan fs ino fpos len (some given) (length given) (steady fresh)
        ≡ some record {
          rc = length given;
          fpos = fpos + length given;
          len = len;
          fs =
              patched dev law scan fs whole ino
                (fpos / fs.priv.blocksize)
                (fpos % fs.priv.blocksize)
                given;
        }
  unfolding ext2_write_file write_inode_file write_blocks write_part
  write_direct ino fpos len given fresh st lf some_given small within inside =
      let bs : ℕ = fs.priv.blocksize in
      let b : ℕ = fpos / bs in
      let n : ℕ = length given in
      let end : add32 fpos n ≡ fpos + n = mod-eq_of_lt small in
      let e : b * bs + fpos % bs ≡ fpos = div-add-mod' fpos bs in
      let same : (fpos + n) / bs ≡ b = same-block fpos n within in
      let one : (b == (fpos + n) / bs) ≡ true = rw same (ground arith) in
      let size : fpos + n - fpos ≡ n = omega arith in
      let all : take n given ≡ given = take-all n given (omega arith) in
      let li : length (inode_bytes dev fs ino) ≡ fs.priv.inodesize =
        length-inode_bytes dev law scan fs whole ino st.inside in
      let after : Fs Disk = patched dev law scan fs whole ino b (fpos % bs) given in
      let w : Writing Disk = record {
        fs = after;
        inode = inode_bytes dev fs ino;
        buffer = patch dev law scan fs whole ino b (fpos % bs) given;
        total = 0 + n;
        heap = steady fresh;
      } in
      let read : ext2_read_inode dev after (inode_bytes dev fs ino) ino (steady fresh)
          ≡ record { rc = 0; buf = inode_bytes dev fs ino; heap = steady fresh } =
        inode-patched ino b (fpos % bs) given fresh st (inode_bytes dev fs ino) li in
      let fits : fpos + n
          ≤ inode_size (ext2_read_inode dev after (inode_bytes dev fs ino) ino (steady fresh)).buf =
        subst (λ r. fpos + n ≤ inode_size r.buf) (sym read) inside in
      let total : 0 + n ≡ n = omega arith in
      let asked : (n == 0) ≡ false = ne→== n 0 (λ z. absurd (omega (arith, z, some_given))) in
      rw asked (
        rw st.valid (
          rw
            (read_inode_bytes dev law scan fs whole ino (fresh fs.priv.inodesize) fresh st.number
              st.inside lf)
            (rw end (
              rw one (
                rw
                  (open_direct dev law scan fs whole ino b (inode_bytes dev fs ino) (fresh bs) fresh
                    st li)
                  (rw st.block (
                    rw size (
                      rw all (
                        ap some (write_done_inside dev scan ino fpos len (fpos + n) w fits)
                        ∙ rw total refl)))))))))

get_or-append_right : (xs ys : List ℕ) (i : ℕ) → get_or (xs ++ ys) (length xs + i) 0 ≡ get_or ys i 0
get_or-append_right [] ys i = ap (λ k. get_or ys k 0) (omega arith)
get_or-append_right (x ∷ xs) ys i =
    let e : suc (length xs) + i ≡ suc (length xs + i) = omega arith in
    rw e (get_or-append_right xs ys i)

get_or-append_left :
    (xs ys : List ℕ) (i : ℕ) → i < length xs → get_or (xs ++ ys) i 0 ≡ get_or xs i 0
get_or-append_left [] ys i h = absurd (omega arith)
get_or-append_left (x ∷ xs) ys zero h = refl
get_or-append_left (x ∷ xs) ys (suc i) h = get_or-append_left xs ys i (omega arith)

-- A byte of what was copied.
get_or-memcpy :
    (to from : List ℕ) (pos i : ℕ)
    → pos ≤ length to
    → i < length from
    → get_or (memcpy to pos from) (pos + i) 0 ≡ get_or from i 0
get_or-memcpy to from pos i h l =
    let rest : List ℕ = from ++ drop (pos + length from) to in
    subst (λ k. get_or (take pos to ++ rest) (k + i) 0 ≡ get_or from i 0) (length-take pos to h)
      (get_or-append_right (take pos to) rest i
        ∙ get_or-append_left from (drop (pos + length from) to) i l)

file_block-direct :
    {Disk : Type 0} (dev : Device Disk) (fs : Fs Disk) (ibuf : List ℕ) (b : ℕ)
    → b < 12
    → file_block dev fs ibuf b ≡ dbp ibuf b
unfolding file_block
file_block-direct dev fs ibuf b h = rw (lt→ltb b 12 h) refl

module _ {Disk : Type 0} (dev : Device Disk) (law : IsDevice dev) (scan : Scan) (fs : Fs Disk)
    (whole : IsWhole fs) where
  -- A byte of the file, after the write.
  byte-patched :
      (ino fpos i : ℕ) (given : List ℕ)
      → IsStored dev fs ino (fpos / fs.priv.blocksize)
      → i < length given
      → fpos % fs.priv.blocksize + length given < fs.priv.blocksize
      → file_byte dev
          (patched dev law scan fs whole ino
            (fpos / fs.priv.blocksize)
            (fpos % fs.priv.blocksize)
            given)
          (inode_bytes dev fs ino)
          (fpos + i)
        ≡ get_or given i 0
  unfolding file_byte ext2_write_block
  byte-patched ino fpos i given st h within =
      let bs : ℕ = fs.priv.blocksize in
      let b : ℕ = fpos / bs in
      let off : ℕ = fpos % bs in
      let ibuf : List ℕ = inode_bytes dev fs ino in
      let after : Fs Disk = patched dev law scan fs whole ino b off given in
      let old : List ℕ = ext2_read_block dev fs (dbp ibuf b) in
      let lo : length old ≡ bs = length-read_block dev law fs (dbp ibuf b) ∙ whole.sectors in
      let q : (fpos + i) / bs ≡ b =
        same-block dev law scan fs whole fpos i (omega (arith, within, h)) in
      let e : b * bs + off ≡ fpos = div-add-mod' fpos bs in
      let r : (fpos + i) % bs ≡ off + i =
        let d : (fpos + i) / bs * bs + (fpos + i) % bs ≡ fpos + i = div-add-mod' (fpos + i) bs in
        let d2 : (fpos + i) / bs * bs ≡ b * bs = ap (λ k. k * bs) q in omega (arith, d, d2, e) in
      let lp : length (memcpy old off given) ≡ block_sectors fs.priv * 512 =
        length-memcpy old given off (omega (arith, lo, within)) ∙ lo ∙ sym whole.sectors in
      let again : ext2_read_block dev after (dbp ibuf b) ≡ memcpy old off given =
        read_block-write_block dev law fs (memcpy old off given) (dbp ibuf b) lp in
      rw q (
        rw r (
          rw (file_block-direct dev after ibuf b st.direct)
            (rw again (get_or-memcpy old given off i (omega (arith, lo, within)) h))))

  -- On a device that keeps its laws, with memory, for an inode and a direct block of its file that are apart
  -- on the disk: from a position that is not negative as an `int`, a write of bytes inside the file that do not reach the end of that block succeeds, and a
  -- read from the same position gives these bytes.
  pub ext2_read_file-ext2_write_file :
      (ino fpos len : ℕ) (given o : List ℕ) (fresh : ℕ → List ℕ)
      → IsStored dev fs ino (fpos / fs.priv.blocksize)
      → length (fresh fs.priv.inodesize) ≡ fs.priv.inodesize
      → 0 < length given
      → is_neg fpos ≡ false
      → fpos + length given < 0x100000000
      → fpos % fs.priv.blocksize + length given < fs.priv.blocksize
      → fpos + length given ≤ inode_size (inode_bytes dev fs ino)
      → inode_size (inode_bytes dev fs ino) ≤ fs.priv.blocksize * reach (per_block fs.priv)
      → (after : Fs Disk) × (ext2_write_file dev scan fs ino fpos len
            (some given)
            (length given)
            (steady fresh)
          ≡ some record { rc = length given; fpos = fpos + length given; len = len; fs = after })
        × (ext2_read_file dev after ino fpos (some o) (length given) (steady fresh) ≡ record {
          rc = length given;
          fpos = fpos + length given;
          out = given ++ drop (length given) o;
        })
  unfolding ext2_write_block
  ext2_read_file-ext2_write_file ino fpos len given o fresh st lf some_given plus small within
        inside near =
      let bs : ℕ = fs.priv.blocksize in
      let ibuf : List ℕ = inode_bytes dev fs ino in
      let after : Fs Disk = patched dev law scan fs whole ino (fpos / bs) (fpos % bs) given in
      let n : min (length given) (inode_size ibuf - fpos) ≡ length given = omega (arith, inside) in
      let back : bytes (file_byte dev after ibuf) fpos (length given) ≡ given = sym (
        list-bytes (file_byte dev after ibuf) given fpos
          (λ i h. byte-patched ino fpos i given st h within)) in
      (
        after,
        write_direct dev law scan fs whole ino fpos len given fresh st lf some_given small within
            inside,
        (ext2_read_file-bytes dev after law (patched-IsWhole dev fs _ _ whole) ino fpos
              (length given) o fresh ibuf st.valid
              (inode-patched dev law scan fs whole ino (fpos / bs) (fpos % bs) given fresh st
                (fresh fs.priv.inodesize) lf)
              plus small near
            ∙ rw n (rw back refl)),
      )
