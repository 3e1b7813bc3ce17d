-- ===== src/Ext2/Mount.antt =====
-- fs/ext2/super.c: a device is mounted: its superblock is read, and the sizes are computed from it.
use levos.Base.{ℕ, ◌+◌, ◌*◌, ◌/◌, ◌%◌, ◌^◌, ◌<◌, ◌≡◌, List, Bool, false, Option, none, some}
use levos.Base.{◌==◌, if◌then◌else◌, arith, ne→==}
use native.Mathlib.Nat.{mod-eq_of_lt, one-le-pow}
use levos.Ext2.Store.{Device, Priv, Fs, le16, le32, block_sectors}
use levos.Ext2.Parts.{IsWhole}

abbrev pub ext2_signature : ℕ
ext2_signature = 0xef53

-- `1024 << sb->blocksize_hint`
abbrev pub blocksize_of : List ℕ → ℕ
blocksize_of sb = 1024 * 2 ^ le32 sb 24 % 0x100000000

-- The last group is left out if it is not a whole one, unless it is the only one.
abbrev pub groups_of : List ℕ → ℕ
groups_of sb = let whole : ℕ = le32 sb 4 / le32 sb 32 in if whole == 0 then 1 else whole

abbrev pub inodesize_of : List ℕ → ℕ
inodesize_of sb = if le32 sb 88 == 0 then 128 else le32 sb 88

-- `struct ext2_priv_data` of a superblock
unfoldable pub priv_of : List ℕ → Priv
priv_of sb = record {
  sb = sb;
  first_bgd = le32 sb 20 + 1024 / blocksize_of sb;
  number_of_bgs = groups_of sb;
  blocksize = blocksize_of sb;
  inodesize = inodesize_of sb;
  sectors_per_block = blocksize_of sb / 512;
  inodes_per_block = blocksize_of sb / inodesize_of sb;
}

-- `is_block` is whether the device is one of blocks. The answers of `malloc` are not looked at.
unfoldable pub ext2_mount : {Disk : Type 0} → Device Disk → Bool → Disk → Option (Fs Disk)
ext2_mount dev is_block d =
    let sb : List ℕ = dev.read d 2 2 in
    if is_block
    then if le16 sb 56 == ext2_signature then some record { priv = priv_of sb; disk = d } else none
    else none

whole_sectors :
    (t : ℕ) → 0 < t → (if 1024 * t / 512 == 0 then 1 else 1024 * t / 512) * 512 ≡ 1024 * t
whole_sectors t pos =
    let e : 1024 * t / 512 ≡ 2 * t = omega arith in
    let some_sector : (2 * t == 0) ≡ false = ne→== _ 0 (λ z. absurd (omega (arith, z, pos))) in
    rw e (rw some_sector (omega arith))

-- A mounted filesystem has blocks of whole sectors, if the block size of its superblock has 32 bits.
pub ext2_mount-IsWhole :
    {Disk : Type 0} (dev : Device Disk) (d : Disk)
    → 1024 * 2 ^ le32 (dev.read d 2 2) 24 < 0x100000000
    → IsWhole (record { priv = priv_of (dev.read d 2 2); disk = d })
unfolding priv_of block_sectors
ext2_mount-IsWhole dev d small =
    let t : ℕ = 2 ^ le32 (dev.read d 2 2) 24 in
    let pos : 0 < t = one-le-pow (le32 (dev.read d 2 2) 24) 2 (omega arith) in
    let e : 1024 * t % 0x100000000 ≡ 1024 * t = mod-eq_of_lt small in
    record { sectors = rw e (whole_sectors t pos); positive = omega (arith, e, pos) }
