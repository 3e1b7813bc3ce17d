-- ===== src/Ext2/Walking.antt =====
-- fs/ext2/file.c: a path is resolved part by part.
use levos.Base.{ℕ, ◌≡◌, refl, List, [], ◌∷◌, ◌++◌, false, Option, some, ◌>>=◌}
use levos.Base.{if◌then◌else◌, Bool-cases, Option-cases, inl, inr, ◌==◌}
use levos.Ext2.Store.{Device, Fs}
use levos.Ext2.Inode.{is_neg, ext2_read_inode}
use levos.Ext2.Tree.{steady}
use levos.Ext2.Dir.{ext2_read_directory, walk, ext2_find_file_inode, after_directory}
use levos.Vfs.Path.{separator, tokens}
use levos.Vfs.Tokens.{tokens-split}

module _ {Disk : Type 0} (dev : Device Disk) (fs : Fs Disk) (fresh : ℕ → List ℕ) where
  after-steady : (ino : ℕ) → after_directory dev fs ino (steady fresh) ≡ steady fresh
  unfolding ext2_read_inode
  after-steady ino = elim (Bool-cases (ino == 0)) [ inl e ↦ rw e refl | inr e ↦ rw e refl ]

  -- from an inode on, unless it is an error
  abbrev pub go_from : List (List ℕ) → ℕ → Option ℕ
  go_from ys k = if is_neg k then some k else walk dev fs k ys (steady fresh)

  walk-append :
      (ino : ℕ) (xs ys : List (List ℕ))
      → is_neg ino ≡ false
      → walk dev fs ino (xs ++ ys) (steady fresh)
        ≡ (walk dev fs ino xs (steady fresh) >>= go_from ys)
  unfolding walk
  walk-append ino [] ys valid = rw valid refl
  walk-append ino (x ∷ xs) ys valid =
      elim (Option-cases (ext2_read_directory dev fs ino x (steady fresh))) [
        | inl e ↦ rw e refl
        | inr (k, e) ↦ elim (Bool-cases (is_neg k)) [
          | inl bad ↦ rw e (rw bad refl)
          | inr good ↦ rw e (rw good (rw (after-steady ino) (walk-append k xs ys good)))
        ]
      ]

  -- With memory, the path of two parts with a separator between them is resolved by resolving the first
  -- part, and the names of the second from there; an error of the first part is the result.
  pub ext2_find_file_inode-tokens :
      (p q : List ℕ)
      → ext2_find_file_inode dev fs (p ++ (separator ∷ q)) (steady fresh)
        ≡ (ext2_find_file_inode dev fs p (steady fresh) >>= go_from (tokens q))
  unfolding ext2_find_file_inode
  ext2_find_file_inode-tokens p q = rw (tokens-split p q) (walk-append 2 (tokens p) (tokens q) refl)
