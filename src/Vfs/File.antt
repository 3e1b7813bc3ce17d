-- ===== src/Vfs/File.antt =====
-- fs/vfs.c: open files, their reference counts, and the files that a task closes when it executes a
-- program. A file's own close operation is an event: the number of times that it has run is kept.
use levos.Base.{ℕ, ◌+◌, Bool, false, ◌||◌, List, [], ◌∷◌, Option, none, some}
use levos.Base.{◌==◌, if◌then◌else◌, test_bit, sub32, ◌%◌}

-- `struct file`, as far as fs/vfs.c changes it, with the runs of its close operation
pub record File : Type 0 where
  pub fs : ℕ
  pub fpos : ℕ
  pub mode : ℕ
  pub isdir : ℕ
  pub length : ℕ
  pub type : ℕ
  pub refc : ℕ
  pub full_path : Option (List ℕ)
  pub respath : Option (List ℕ)
  pub closed : ℕ

unfoldable pub file_seek : File → ℕ → File
file_seek file pos = record file { fpos = pos }

-- The count is an `int`: it is kept as its bit pattern.
unfoldable pub vfs_close : File → File
vfs_close f =
    let refc : ℕ = sub32 f.refc 1 in
    if refc == 0
    then record f { refc = refc; full_path = none; closed = f.closed + 1 }
    else record f { refc = refc }

unfoldable pub vfs_inc_refc : File → File
vfs_inc_refc f = record f { refc = (f.refc + 1) % 0x100000000 }

-- What `vfs_open` does to the file that the filesystem opened.
unfoldable pub opened : List ℕ → File → File
opened path f = record f { refc = 1; full_path = some path }

-- The fields that are not copied, `mode` among them, stay what `malloc` gave, `fresh`.
unfoldable pub dup_file : File → Option File → Option File
dup_file f none = none
dup_file f (some fresh) = some record fresh {
  fs = f.fs;
  fpos = 0;
  isdir = f.isdir;
  respath = elim f.respath [ none ↦ fresh.respath | some p ↦ some p ];
  type = f.type;
  length = f.length;
  refc = 1;
  full_path = elim f.full_path [ none ↦ fresh.full_path | some p ↦ some p ];
  closed = 0;
}

-- a descriptor of a task: the file's name and the descriptor's flags
pub record Descriptor : Type 0 where
  pub file : Option ℕ
  pub flags : ℕ

abbrev pub o_cloexec : ℕ
o_cloexec = 18

-- `f && f->mode & O_CLOEXEC`
abbrev pub file_flag : (ℕ → File) → Option ℕ → Bool
file_flag files none = false
file_flag files (some f) = test_bit o_cloexec (files f).mode

-- `f && f->mode & O_CLOEXEC || flags & FD_CLOEXEC`
unfoldable pub closes_on_exec : (ℕ → File) → Descriptor → Bool
closes_on_exec files d = file_flag files d.file || test_bit 0 d.flags

abbrev pub update : (ℕ → File) → ℕ → File → ℕ → File
update files k f = λ i. if i == k then f else files i

-- The loop of `task_do_cloexec` over the descriptors. A descriptor with the flag and without a file makes
-- `vfs_close` follow a null pointer: `none`.
unfoldable pub task_do_cloexec :
    (ℕ → File) → List Descriptor → Option ((ℕ → File) × List Descriptor)
task_do_cloexec files [] = some (files, [])
task_do_cloexec files (d ∷ ds) =
    let after : ℕ → ℕ → File = λ k. update files k (vfs_close (files k)) in
    let keep : Option ((ℕ → File) × List Descriptor) = task_do_cloexec files ds in
    let drop : ℕ → Option ((ℕ → File) × List Descriptor) = λ k. task_do_cloexec (after k) ds in
    if closes_on_exec files d
    then elim d.file [
      | none ↦ none
      | some k ↦ elim (drop k) [
        | none ↦ none
        | some (fs, rest) ↦ some (fs, record { file = none; flags = 0 } ∷ rest)
      ]
    ]
    else elim keep [ none ↦ none | some (fs, rest) ↦ some (fs, d ∷ rest) ]
