-- ===== src/Ext2/Blocks.antt =====
-- fs/ext2/block.c: blocks that are written and read again, and the fields of a buffer.
use levos.Base.{ℕ, ◌+◌, ◌*◌, ◌/◌, ◌%◌, ◌≤◌, ◌<◌, ◌≡◌, ◌≢◌, ◌⊎◌, inl, inr, ◌∙◌}
use levos.Base.{
  List, length, get_or, set, get_or-set_self, get_or-set_ne, length-set, ltb, ltb→lt, ltb→le,
  Bool-cases, arith, take, drop,
}
use levos.Base.{length-append, length-take, length-drop, ◌++◌, refl}
use levos.Ext2.Store.{Device, IsDevice, Priv, Fs, ext2_read_block, ext2_write_block, block_sectors}
use levos.Ext2.Store.{le32, put16, put32, memcpy}
use native.Mathlib.Nat.{mod-eq_of_lt, mul-le-mul_right, add-mul}

pub length-put32 : (buf : List ℕ) (off v : ℕ) → length (put32 buf off v) ≡ length buf
unfolding put32
length-put32 buf off v = length-set _ _ _ ∙ length-set _ _ _ ∙ length-set _ _ _ ∙ length-set _ _ _

pub length-put16 : (buf : List ℕ) (off v : ℕ) → length (put16 buf off v) ≡ length buf
unfolding put16
length-put16 buf off v = length-set _ _ _ ∙ length-set _ _ _

pub length-memcpy :
    (to from : List ℕ) (pos : ℕ)
    → pos + length from ≤ length to
    → length (memcpy to pos from) ≡ length to
length-memcpy to from pos h = omega (
  arith,
  length-append (take pos to) (from ++ drop (pos + length from) to),
  length-append from (drop (pos + length from) to),
  length-take pos to (omega arith),
  length-drop (pos + length from) to,
)

digits32 :
    (v : ℕ)
    → v < 0x100000000
    → v % 256 + 256 * (v / 256 % 256) + 65536 * (v / 65536 % 256) + 16777216 * (v / 16777216 % 256)
      ≡ v
digits32 v h = omega arith

-- A word that was put is read again.
pub le32-put32 :
    (buf : List ℕ) (off v : ℕ)
    → off + 3 < length buf
    → v < 0x100000000
    → le32 (put32 buf off v) off ≡ v
unfolding put32
le32-put32 buf off v h small =
    let a : List ℕ = set buf off (v % 256) in
    let b : List ℕ = set a (off + 1) (v / 256 % 256) in
    let c : List ℕ = set b (off + 2) (v / 65536 % 256) in
    let la : length a ≡ length buf = length-set _ _ _ in
    let lb : length b ≡ length buf = length-set _ _ _ ∙ la in
    let lc : length c ≡ length buf = length-set _ _ _ ∙ lb in
    let d : List ℕ = set c (off + 3) (v / 16777216 % 256) in
    let d0 : get_or d off 0 ≡ v % 256 =
      get_or-set_ne c (off + 3) off _ 0 (λ e. absurd (omega (arith, e)))
      ∙ get_or-set_ne b (off + 2) off _ 0 (λ e. absurd (omega (arith, e)))
      ∙ get_or-set_ne a (off + 1) off _ 0 (λ e. absurd (omega (arith, e)))
      ∙ get_or-set_self buf off _ 0 (omega arith) in
    let d1 : get_or d (off + 1) 0 ≡ v / 256 % 256 =
      get_or-set_ne c (off + 3) (off + 1) _ 0 (λ e. absurd (omega (arith, e)))
      ∙ get_or-set_ne b (off + 2) (off + 1) _ 0 (λ e. absurd (omega (arith, e)))
      ∙ get_or-set_self a (off + 1) _ 0 (omega (arith, la)) in
    let d2 : get_or d (off + 2) 0 ≡ v / 65536 % 256 =
      get_or-set_ne c (off + 3) (off + 2) _ 0 (λ e. absurd (omega (arith, e)))
      ∙ get_or-set_self b (off + 2) _ 0 (omega (arith, lb)) in
    let d3 : get_or d (off + 3) 0 ≡ v / 16777216 % 256 =
      get_or-set_self c (off + 3) _ 0 (omega (arith, lc)) in
    rw d0 (rw d1 (rw d2 (rw d3 (digits32 v small))))

-- The bytes elsewhere stay.
get_or-put32 :
    (buf : List ℕ) (off v at : ℕ)
    → (at < off) ⊎ (off + 3 < at)
    → get_or (put32 buf off v) at 0 ≡ get_or buf at 0
unfolding put32
get_or-put32 buf off v at h =
    get_or-set_ne _ (off + 3) at _ 0 (λ e. absurd (omega (arith, e)))
    ∙ get_or-set_ne _ (off + 2) at _ 0 (λ e. absurd (omega (arith, e)))
    ∙ get_or-set_ne _ (off + 1) at _ 0 (λ e. absurd (omega (arith, e)))
    ∙ get_or-set_ne _ off at _ 0 (λ e. absurd (omega (arith, e)))

pub le32-put32_ne :
    (buf : List ℕ) (off v at : ℕ)
    → (at + 3 < off) ⊎ (off + 3 < at)
    → le32 (put32 buf off v) at ≡ le32 buf at
le32-put32_ne buf off v at (inl h) = rw (get_or-put32 buf off v at (inl (omega arith))) (
    rw (get_or-put32 buf off v (at + 1) (inl (omega arith))) (
      rw (get_or-put32 buf off v (at + 2) (inl (omega arith)))
        (rw (get_or-put32 buf off v (at + 3) (inl (omega arith))) refl)))
le32-put32_ne buf off v at (inr h) = rw (get_or-put32 buf off v at (inr (omega arith))) (
    rw (get_or-put32 buf off v (at + 1) (inr (omega arith))) (
      rw (get_or-put32 buf off v (at + 2) (inr (omega arith)))
        (rw (get_or-put32 buf off v (at + 3) (inr (omega arith))) refl)))

-- A block has a place of its own: its sectors have 32-bit numbers, behind the superblock's.
pub record Placed {Disk : Type 0} (fs : Fs Disk) (block : ℕ) : Type 0 where
  pub fits : block * block_sectors fs.priv + block_sectors fs.priv ≤ 0x100000000
  pub behind : 4 ≤ block * block_sectors fs.priv

apart :
    (a b n : ℕ)
    → a * n + n ≤ 0x100000000
    → b * n + n ≤ 0x100000000
    → 0 < n
    → a ≢ b
    → (a * n % 0x100000000 + n ≤ b * n % 0x100000000)
      ⊎ (b * n % 0x100000000 + n ≤ a * n % 0x100000000)
apart a b n fa fb some differ =
    let ea : a * n % 0x100000000 ≡ a * n = mod-eq_of_lt (omega arith) in
    let eb : b * n % 0x100000000 ≡ b * n = mod-eq_of_lt (omega arith) in
    rw ea (
      rw eb (elim (Bool-cases (ltb a b)) [
        | inl less ↦ inl (
            omega (
              arith,
              mul-le-mul_right {m = a + 1} {n = b} n (omega (arith, ltb→lt a b less)),
              add-mul a 1 n,
            ))
        | inr more ↦ inr (
            omega (
              arith,
              mul-le-mul_right {m = b + 1} {n = a} n (omega (arith, ltb→le a b more, differ)),
              add-mul b 1 n,
            ))
      ]))

pub block_sectors-pos : (p : Priv) → 0 < block_sectors p
unfolding block_sectors
block_sectors-pos p = ground arith

module _ {Disk : Type 0} (dev : Device Disk) (law : IsDevice dev) where
  -- A block that was written is read again.
  pub read_block-write_block :
      (fs : Fs Disk) (buf : List ℕ) (block : ℕ)
      → length buf ≡ block_sectors fs.priv * 512
      → ext2_read_block dev (ext2_write_block dev fs buf block) block ≡ buf
  unfolding ext2_read_block ext2_write_block
  read_block-write_block fs buf block h = law.read-write _ _ _ buf h

  -- A write leaves the other blocks.
  pub read_block-write_block_ne :
      (fs : Fs Disk) (buf : List ℕ) (block other : ℕ)
      → Placed fs block
      → Placed fs other
      → block ≢ other
      → ext2_read_block dev (ext2_write_block dev fs buf block) other ≡ ext2_read_block dev fs other
  unfolding ext2_read_block ext2_write_block
  read_block-write_block_ne fs buf block other b o differ =
      let n : ℕ = block_sectors fs.priv in
      law.read-write_ne _ _ _ _ _ buf
        (apart block other n b.fits o.fits (block_sectors-pos fs.priv) differ)

  pub length-read_block :
      (fs : Fs Disk) (block : ℕ)
      → length (ext2_read_block dev fs block) ≡ block_sectors fs.priv * 512
  unfolding ext2_read_block
  length-read_block fs block = law.length-read _ _ _
