-- ===== src/Vfs/Mount.antt =====
-- fs/vfs.c: the filesystems that are registered and mounted, and the calls that are passed on to the
-- filesystem that a path is under. The operations of a filesystem are parameters.
use levos.Base.{ℕ, zero, suc, Bool, true, false, not, ◌&&◌, List, [], ◌∷◌, ◌++◌, Option, none, some}
use levos.Base.{◌==◌, if◌then◌else◌, length, take, drop, neg}
use levos.Vfs.Path.{same_string, separator}

-- `struct mount`: the filesystem and the device are names
pub record Mount : Type 0 where
  pub point : List ℕ
  pub fs : ℕ
  pub dev : ℕ

-- the tables of fs/vfs.c
pub record Vfs : Type 0 where
  pub mounts : List Mount
  pub root_mount : Option Mount
  pub fs_ops : List ℕ

abbrev pub root : List ℕ
root = separator ∷ []

-- `__check_mounts`: the first mount on exactly this point
unfoldable pub __check_mounts : List Mount → List ℕ → Option Mount
__check_mounts [] str = none
__check_mounts (m ∷ ms) str =
    let rest : Option Mount = __check_mounts ms str in
    if same_string m.point str then some m else rest

-- The loop of `find_mount` on the first `n` bytes of the path; a byte is cut off in each turn.
unfoldable pub shorten : Vfs → List ℕ → (n : ℕ) → Option Mount
shorten v path zero = v.root_mount
shorten v path (suc zero) = v.root_mount
shorten v path (suc (suc n)) =
    let rest : Option Mount = shorten v path (suc n) in
    elim (__check_mounts v.mounts (take (suc (suc n)) path)) [ none ↦ rest | some m ↦ some m ]

unfoldable pub find_mount : Vfs → List ℕ → Option Mount
find_mount v path = if same_string path root then v.root_mount else shorten v path (length path)

abbrev pub max_mounts : ℕ
max_mounts = 256

abbrev pub eagain : ℕ
eagain = 11

abbrev pub enxio : ℕ
enxio = 6

abbrev pub enomem : ℕ
enomem = 12

-- The answer of `malloc` comes first. `nmounts` is the length of the list, and `mounts` has room for
-- MAX_MOUNTS; that is not tested, and past it the list stands for what is written behind the array.
unfoldable pub __vfs_set_mount : Bool → List ℕ → (dev fs : ℕ) → Vfs → ℕ × Vfs
__vfs_set_mount mem p dev fs v =
    let m : Mount = record { point = p; fs = fs; dev = dev } in
    if mem
    then (
      0,
      record v {
        mounts = v.mounts ++ (m ∷ []);
        root_mount = if same_string p root then some m else v.root_mount;
      },
    )
    else (neg enomem, v)

-- `fs_ops_s[i]->mount(dev)`: NULL, or an error, is `none`
unfoldable pub vfs_mount_fs : (ℕ → ℕ → Option ℕ) → List ℕ → ℕ → Option ℕ
vfs_mount_fs mount [] dev = none
vfs_mount_fs mount (o ∷ os) dev =
    let rest : Option ℕ = vfs_mount_fs mount os dev in
    elim (mount o dev) [ none ↦ rest | some fs ↦ some fs ]

abbrev pub is_none {ℓ} : {A : Type ℓ} → Option A → Bool
is_none none = true
is_none (some x) = false

unfoldable pub vfs_mount : (ℕ → ℕ → Option ℕ) → Bool → List ℕ → ℕ → Vfs → ℕ × Vfs
vfs_mount mount mem path dev v =
    if is_none v.root_mount && not (same_string root path)
    then (neg eagain, v)
    else elim (vfs_mount_fs mount v.fs_ops dev) [
      | none ↦ (neg enxio, v)
      | some fs ↦ __vfs_set_mount mem path dev fs v
    ]

-- the path that is passed on to the filesystem of a mount
unfoldable pub exppath : Mount → List ℕ → List ℕ
exppath m path = if length path == length m.point then root else drop (length m.point) path

-- `vfs_stat` and `vfs_open` as calls of the filesystem: its name and the path that it is given. Without a
-- mount the kernel panics or follows a null pointer: `none`.
unfoldable pub passed_on : Vfs → List ℕ → Option (ℕ × List ℕ)
passed_on v path = elim (find_mount v path) [ none ↦ none | some m ↦ some (m.fs, exppath m path) ]

-- `vfs_create` and `vfs_mkdir` pass on the whole path.
unfoldable pub passed_whole : Vfs → List ℕ → Option (ℕ × List ℕ)
passed_whole v path = elim (find_mount v path) [ none ↦ none | some m ↦ some (m.fs, path) ]
