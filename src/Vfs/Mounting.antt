-- ===== src/Vfs/Mounting.antt =====
-- fs/vfs.c: the table of mounts over time, and the path that a mounted filesystem is given.
use levos.Base.{ℕ, ◌≤◌, ◌<◌, ◌≡◌, ◌≢◌, refl, ap, sym, ◌∙◌, Bool, true, false, ◌&&◌, not}
use levos.Base.{
  List, [], ◌∷◌, ◌++◌, Option, none, some, if◌then◌else◌, Bool-cases, Option-cases, inl, inr, ◌⊎◌,
}
use levos.Base.{arith, length, length-append, subst}
use levos.Vfs.Path.{same_string}
use levos.Vfs.Mount.{Mount, Vfs, root, find_mount, exppath}
use levos.Vfs.Mount.{__vfs_set_mount, vfs_mount, vfs_mount_fs, is_none, max_mounts}
use levos.Vfs.Longest.{
  same_string_self, Among, MountedOn, Nearest, UnderMount, find_mount-UnderMount, same_string→eq,
}
use mathlib.Core.Option.{some-injective}
use mathlib.Core.Bool.{true≢false}

-- What `vfs_stat` and `vfs_open`, and what `vfs_create` and `vfs_mkdir` call, by the mount of the path.
abbrev pub Calls : Vfs → List ℕ → Option (ℕ × List ℕ) → Option (ℕ × List ℕ) → Type 0
Calls v path rest whole =
    ((m : Mount) × Nearest v path (length path) m
      × ((r : List ℕ) × (rest ≡ some (m.fs, r))
          × (whole ≡ some (m.fs, path))
          × (((path ≡ m.point) × (r ≡ root))
              ⊎ ((length m.point < length path) × (path ≡ m.point ++ r)))))
    ⊎ ((v.root_mount ≡ none) × (rest ≡ none) × (whole ≡ none))
    ⊎ ((m : Mount) × (v.root_mount ≡ some m)
        × (rest ≡ some (m.fs, exppath m path))
        × (whole ≡ some (m.fs, path)))

-- The invariant of the tables: the array is not overrun, the root's mount is one of the table, on the
-- root, and there is one as soon as anything is mounted.
pub record IsMounted (v : Vfs) : Type 0 where
  pub bound : length v.mounts ≤ max_mounts
  pub rooted : (v.mounts ≡ []) ⊎ (is_none v.root_mount ≡ false)
  pub root_on : (m : Mount) → v.root_mount ≡ some m → MountedOn v.mounts root m

Among-append : (m : Mount) (ms : List Mount) (k : Mount) → Among m ms → Among m (ms ++ (k ∷ []))
Among-append m [] k h = absurd h
Among-append m (x ∷ ms) k (inl e) = inl e
Among-append m (x ∷ ms) k (inr h) = inr (Among-append m ms k h)

Among-last : (m : Mount) (ms : List Mount) → Among m (ms ++ (m ∷ []))
Among-last m [] = inl refl
Among-last m (x ∷ ms) = inr (Among-last m ms)

has_root : {a b : Bool} → b ≡ false → (a ≡ false) ⊎ (b ≡ true) → a ≡ false
has_root e (inl h) = h
has_root e (inr h) = absurd (true≢false (sym h ∙ e))

-- One more mount.
set-IsMounted :
    (v : Vfs) (p : List ℕ) (dev fs : ℕ)
    → IsMounted v
    → length v.mounts < max_mounts
    → (is_none v.root_mount ≡ false) ⊎ (same_string p root ≡ true)
    → IsMounted (record v {
      mounts = v.mounts ++ (record { point = p; fs = fs; dev = dev } ∷ []);
      root_mount =
          if same_string p root
          then some (record { point = p; fs = fs; dev = dev })
          else v.root_mount;
    })
set-IsMounted v p dev fs w room some_root =
    let k : Mount = record { point = p; fs = fs; dev = dev } in
    let l : length (v.mounts ++ (k ∷ [])) ≤ max_mounts =
      omega (arith, length-append v.mounts (k ∷ []), room) in
    elim (Bool-cases (same_string p root)) [
      | inl e ↦ rw e record {
        bound = l;
        rooted = inr refl;
        root_on = λ m h.
            subst (λ x. MountedOn (v.mounts ++ (k ∷ [])) root x) (some-injective k m h)
              (same_string→eq p root e, Among-last k v.mounts);
      }
      | inr e ↦ rw e record {
        bound = l;
        rooted = inr (has_root e some_root);
        root_on = λ m h. ((w.root_on m h).0, Among-append m v.mounts k (w.root_on m h).1);
      }
    ]

-- what a call of `vfs_mount` comes to, with the tables before it
abbrev pub Mounted : List ℕ → ℕ → Vfs → ℕ × Vfs → Type 0
Mounted path dev v r =
    IsMounted r.1
    × (((r.0 ≡ 0)
          × (is_none r.1.root_mount ≡ false)
          × ((fs : ℕ) × (r.1.mounts
                ≡ v.mounts ++ (record { point = path; fs = fs; dev = dev } ∷ []))))
        ⊎ ((r.0 ≢ 0) × (r.1 ≡ v)))

root-set :
    (o : Option Mount) (k : Mount) (b : Bool)
    → (is_none o ≡ false) ⊎ (b ≡ true)
    → is_none (if b then some k else o) ≡ false
root-set o k true h = refl
root-set o k false (inl h) = h
root-set o k false (inr h) = absurd (true≢false (sym h))

set-Mounted :
    (mem : Bool) (v : Vfs) (p : List ℕ) (dev fs : ℕ)
    → IsMounted v
    → length v.mounts < max_mounts
    → (is_none v.root_mount ≡ false) ⊎ (same_string p root ≡ true)
    → Mounted p dev v (__vfs_set_mount mem p dev fs v)
unfolding __vfs_set_mount
set-Mounted mem v p dev fs w room some_root =
    let k : Mount = record { point = p; fs = fs; dev = dev } in
    elim (Bool-cases mem) [
      | inr oom ↦ rw oom (w, inr ((λ e. absurd (omega (arith, e))), refl))
      | inl given ↦ rw given (
        set-IsMounted v p dev fs w room some_root,
        inl (refl, root-set v.root_mount k (same_string p root) some_root, (fs, refl)),
      )
    ]

may_mount :
    (v : Vfs) (path : List ℕ)
    → (is_none v.root_mount && not (same_string root path)) ≡ false
    → (is_none v.root_mount ≡ false) ⊎ (same_string path root ≡ true)
may_mount v path go = elim (Bool-cases (is_none v.root_mount)) [
  | inr e ↦ inl e
  | inl absent ↦ elim (Bool-cases (same_string root path)) [
    | inl e ↦ inr (
        subst (λ p. same_string p root ≡ true) (same_string→eq root path e) (same_string_self root))
    | inr e ↦ absurd (true≢false (rw (absent, e) at go))
  ]
]

-- While the table of mounts has room for one more, which the code does not test, `vfs_mount` keeps the
-- invariant of the tables. When it returns 0, the new mount stands at the end of the table and the root
-- has a mount; otherwise the tables are as they were.
pub vfs_mount-Mounted :
    (mount : ℕ → ℕ → Option ℕ) (mem : Bool) (path : List ℕ) (dev : ℕ) (v : Vfs)
    → IsMounted v
    → length v.mounts < max_mounts
    → Mounted path dev v (vfs_mount mount mem path dev v)
unfolding vfs_mount
vfs_mount-Mounted mount mem path dev v w room =
    elim (Bool-cases (is_none v.root_mount && not (same_string root path))) [
      | inl early ↦ rw early (w, inr ((λ e. absurd (omega (arith, e))), refl))
      | inr go ↦ elim (Option-cases (vfs_mount_fs mount v.fs_ops dev)) [
        | inl e ↦ rw go (rw e (w, inr ((λ e. absurd (omega (arith, e))), refl)))
        | inr (fs, e) ↦ rw go (rw e (set-Mounted mem v path dev fs w room (may_mount v path go)))
      ]
    ]

-- Once the root has a mount, every path is under a mount: `find_mount` does not give NULL.
find_mount-found :
    (v : Vfs) (path : List ℕ) → is_none v.root_mount ≡ false → is_none (find_mount v path) ≡ false
find_mount-found v path h =
    let both : (path ≡ root → find_mount v path ≡ v.root_mount)
        × (path ≢ root → UnderMount v path (length path) (find_mount v path)) =
      find_mount-UnderMount v path in
    elim (Bool-cases (same_string path root)) [
      | inl e ↦ ap is_none (both.0 (same_string→eq path root e)) ∙ h
      | inr e ↦
          let differ : path ≢ root =
            λ p. true≢false (sym (same_string_self path) ∙ ap (λ q. same_string path q) p ∙ e) in
          elim (both.1 differ) [ inl (m, f, near) ↦ ap is_none f | inr (f, all) ↦ ap is_none f ∙ h ]
    ]
