-- ===== src/Vfs/Tests.antt =====
-- fs/vfs.c on small inputs, and the instances of its theorems.
use levos.Base.{ℕ, ◌≡◌, ◌≢◌, refl, sym, true, List, [], ◌∷◌, ◌++◌, Option, none, some}
use levos.Base.{arith, inl, inr, All, length, subst, ◌==◌, if◌then◌else◌}
use levos.Vfs.Path.{tokens, split, join, step, steps, __canonicalize_path}
use levos.Vfs.Canonical.{
  IsEntry, IsCanonical, __canonicalize_path-IsCanonical, __canonicalize_path-relative,
}
use levos.Vfs.Mount.{Mount, Vfs, root, find_mount, shorten, __check_mounts, vfs_mount}
use levos.Vfs.Longest.{MountedOn, UnderMount, find_mount-UnderMount}
use levos.Vfs.Mounting.{Mounted, vfs_mount-Mounted}
use levos.Vfs.File.{File, opened, Descriptor, task_do_cloexec, closes_on_exec}
use levos.Vfs.References.{Use, use_all, Balanced, opened-close}
use levos.Vfs.Closing.{Closed, task_do_cloexec-Closed}
use mathlib.Core.List.{cons≢nil}
use mathlib.Core.Bool.{false≢true}
use mathlib.Core.Option.{some-injective, none-ne-some}

-- "/usr/bin" and "../lib/./x"
abbrev usr_bin : List ℕ
usr_bin = 117 ∷ 115 ∷ 114 ∷ 47 ∷ 98 ∷ 105 ∷ 110 ∷ []

abbrev up_lib : List ℕ
up_lib = 46 ∷ 46 ∷ 47 ∷ 108 ∷ 105 ∷ 98 ∷ 47 ∷ 46 ∷ 47 ∷ 120 ∷ []

-- "/usr/lib/x"
canonical_is :
    __canonicalize_path (47 ∷ usr_bin) up_lib
    ≡ 47 ∷ 117 ∷ 115 ∷ 114 ∷ 47 ∷ 108 ∷ 105 ∷ 98 ∷ 47 ∷ 120 ∷ []
unfolding __canonicalize_path join steps step tokens split
canonical_is = refl

cwd-All : All IsEntry (tokens (47 ∷ usr_bin))
unfolding tokens split
cwd-All = (
  record {
    name = record {
      nonempty = λ e. cons≢nil e;
      plain = (
        λ e. absurd (omega (arith, e)),
        (λ e. absurd (omega (arith, e)), (λ e. absurd (omega (arith, e)), tt)),
      );
    };
    not_up = refl;
    not_dot = refl;
  },
  (
    record {
      name = record {
        nonempty = λ e. cons≢nil e;
        plain = (
          λ e. absurd (omega (arith, e)),
          (λ e. absurd (omega (arith, e)), (λ e. absurd (omega (arith, e)), tt)),
        );
      };
      not_up = refl;
      not_dot = refl;
    },
    tt,
  ),
)

__canonicalize_path-IsCanonical_example :
    IsCanonical (__canonicalize_path (47 ∷ usr_bin) up_lib)
    × (__canonicalize_path root (__canonicalize_path (47 ∷ usr_bin) up_lib)
        ≡ __canonicalize_path (47 ∷ usr_bin) up_lib)
__canonicalize_path-IsCanonical_example =
    __canonicalize_path-IsCanonical (47 ∷ usr_bin) up_lib root cwd-All

__canonicalize_path-relative_example :
    __canonicalize_path (47 ∷ usr_bin) up_lib
    ≡ __canonicalize_path root ((47 ∷ usr_bin) ++ (47 ∷ up_lib))
__canonicalize_path-relative_example = __canonicalize_path-relative usr_bin up_lib root refl cwd-All

-- filesystem 1 on the root and 2 on "/dev"
abbrev on_root : Mount
on_root = record { point = root; fs = 1; dev = 0 }

abbrev on_dev : Mount
on_dev = record { point = 47 ∷ 100 ∷ 101 ∷ 118 ∷ []; fs = 2; dev = 0 }

abbrev table : Vfs
table = record { mounts = on_root ∷ on_dev ∷ []; root_mount = some on_root; fs_ops = 5 ∷ 6 ∷ [] }

-- "/dev/tty"
abbrev dev_tty : List ℕ
dev_tty = 47 ∷ 100 ∷ 101 ∷ 118 ∷ 47 ∷ 116 ∷ 116 ∷ 121 ∷ []

tty-under : find_mount table dev_tty ≡ some on_dev
unfolding find_mount shorten __check_mounts
tty-under = refl

-- "/devices" is found on the mount on "/dev".
devices-under : find_mount table (47 ∷ 100 ∷ 101 ∷ 118 ∷ 105 ∷ 99 ∷ 101 ∷ 115 ∷ []) ≡ some on_dev
unfolding find_mount shorten __check_mounts
devices-under = refl

find_mount-UnderMount_example :
    (dev_tty ≡ root → find_mount table dev_tty ≡ table.root_mount)
    × (dev_tty ≢ root → UnderMount table dev_tty (length dev_tty) (find_mount table dev_tty))
find_mount-UnderMount_example = find_mount-UnderMount table dev_tty

free : ℕ → ℕ → Option ℕ
free o d = some 3

vfs_mount-Mounted_example : Mounted dev_tty 0 table (vfs_mount free true dev_tty 0 table)
vfs_mount-Mounted_example =
    vfs_mount-Mounted free true dev_tty 0 table
      record {
        bound = omega arith;
        rooted = inr refl;
        root_on = λ m e.
            subst (λ x. MountedOn table.mounts root x) (some-injective on_root m e)
              (refl, inl refl);
      }
      (omega arith)

abbrev file : File
file = record {
  fs = 2;
  fpos = 0;
  mode = 0x40000;
  isdir = 0;
  length = 0;
  type = 0;
  refc = 1;
  full_path = none;
  respath = none;
  closed = 0;
}

abbrev uses : List Use
uses = Use.inc ∷ Use.close ∷ Use.close ∷ []

uses-Balanced : Balanced 1 uses 0
uses-Balanced =
    Balanced.more 1 0 (Use.close ∷ Use.close ∷ []) (omega arith) (omega arith)
      (Balanced.less 1 0 (Use.close ∷ []) (Balanced.less 0 0 [] (Balanced.done 0)))

opened-close_example :
    ((use_all (opened dev_tty file) uses).refc ≡ 0)
    × ((use_all (opened dev_tty file) uses).closed ≡ (if 0 == 0 then 1 else 0))
opened-close_example = opened-close file dev_tty uses 0 refl uses-Balanced

abbrev descriptors : List Descriptor
descriptors = record { file = none; flags = 0 } ∷ record { file = some 4; flags = 1 } ∷ []

task_do_cloexec-Closed_example :
    Closed (λ k. file) descriptors (task_do_cloexec (λ k. file) descriptors)
unfolding closes_on_exec
task_do_cloexec-Closed_example =
    task_do_cloexec-Closed (λ k. file) descriptors
      ((λ e. absurd (false≢true e)), ((λ e n. none-ne-some 4 (sym n)), tt))
