-- ===== src/Vfs/Closing.antt =====
-- fs/vfs.c: the descriptors that a task closes when it executes a program.
use levos.Base.{ℕ, zero, suc, ◌≡◌, ◌≢◌, refl, ap, sym, ◌∙◌, Bool, true, false, List, [], ◌∷◌}
use levos.Base.{
  Option, none, some, ◌==◌, if◌then◌else◌, Bool-cases, Option-cases, inl, inr, arith, All, ==→eq,
  test_bit, ◌&&◌, ◌||◌,
}
use levos.Vfs.File.{
  File, vfs_close, Descriptor, closes_on_exec, update, task_do_cloexec, o_cloexec, file_flag,
}

-- the descriptors that stay, the others emptied
abbrev pub survive : (ℕ → File) → List Descriptor → List Descriptor
survive files [] = []
survive files (d ∷ ds) =
    (if closes_on_exec files d then record { file = none; flags = 0 } else d) ∷ survive files ds

abbrev pub is_file : ℕ → Option ℕ → Bool
is_file k none = false
is_file k (some j) = k == j

-- how many of the descriptors that are closed are of a file
abbrev pub closes_of : (ℕ → File) → List Descriptor → ℕ → ℕ
closes_of files [] k = 0
closes_of files (d ∷ ds) k =
    let rest : ℕ = closes_of files ds k in
    if closes_on_exec files d && is_file k d.file then suc rest else rest

abbrev pub close_times : ℕ → File → File
close_times zero f = f
close_times (suc n) f = close_times n (vfs_close f)

SameModes : (ℕ → File) → (ℕ → File) → Type 0
SameModes fs gs = (i : ℕ) → (gs i).mode ≡ (fs i).mode

file_flag-SameModes :
    (fs gs : ℕ → File) (o : Option ℕ) → SameModes fs gs → file_flag gs o ≡ file_flag fs o
unfolding SameModes
file_flag-SameModes fs gs none h = refl
file_flag-SameModes fs gs (some k) h = ap (λ m. test_bit o_cloexec m) (h k)

closes_on_exec-SameModes :
    (fs gs : ℕ → File) (d : Descriptor)
    → SameModes fs gs
    → closes_on_exec gs d ≡ closes_on_exec fs d
unfolding closes_on_exec
closes_on_exec-SameModes fs gs d h =
    ap (λ b. b || test_bit 0 d.flags) (file_flag-SameModes fs gs d.file h)

survive-SameModes :
    (fs gs : ℕ → File) (ds : List Descriptor) → SameModes fs gs → survive gs ds ≡ survive fs ds
survive-SameModes fs gs [] h = refl
survive-SameModes fs gs (d ∷ ds) h =
    rw (closes_on_exec-SameModes fs gs d h) (rw (survive-SameModes fs gs ds h) refl)

closes_of-SameModes :
    (fs gs : ℕ → File) (ds : List Descriptor) (k : ℕ)
    → SameModes fs gs
    → closes_of gs ds k ≡ closes_of fs ds k
closes_of-SameModes fs gs [] k h = refl
closes_of-SameModes fs gs (d ∷ ds) k h =
    rw (closes_on_exec-SameModes fs gs d h) (rw (closes_of-SameModes fs gs ds k h) refl)

update-SameModes : (fs : ℕ → File) (k : ℕ) → SameModes fs (update fs k (vfs_close (fs k)))
unfolding SameModes vfs_close
update-SameModes fs k = λ i. elim (Bool-cases (i == k)) [
  | inr e ↦ rw e refl
  | inl e ↦ rw e (ground (arith, ap (λ j. (fs j).mode) (==→eq i k e)))
]

-- what `task_do_cloexec` has done
pub record Closed (files : ℕ → File) (ds : List Descriptor)
    (out : Option ((ℕ → File) × List Descriptor)) : Type 0 where
  pub after : ℕ → File
  pub result : out ≡ some (after, survive files ds)
  pub counts : (k : ℕ) → after k ≡ close_times (closes_of files ds k) (files k)

-- A descriptor that is closed has a file.
abbrev pub HasFile : (ℕ → File) → Descriptor → Type 0
HasFile files d = closes_on_exec files d ≡ true → d.file ≢ none

HasFile-SameModes :
    (fs gs : ℕ → File) (ds : List Descriptor)
    → SameModes fs gs
    → All (HasFile fs) ds
    → All (HasFile gs) ds
HasFile-SameModes fs gs [] h a = tt
HasFile-SameModes fs gs (d ∷ ds) h a =
    (λ e. a.0 (sym (closes_on_exec-SameModes fs gs d h) ∙ e), HasFile-SameModes fs gs ds h a.1)

-- one descriptor is closed, and the others behind it
closed-first :
    (files : ℕ → File) (d : Descriptor) (ds : List Descriptor) (k i : ℕ)
    → d.file ≡ some k
    → closes_on_exec files d ≡ true
    → close_times
        (closes_of (update files k (vfs_close (files k))) ds i)
        (update files k (vfs_close (files k)) i)
      ≡ close_times (closes_of files (d ∷ ds) i) (files i)
closed-first files d ds k i f e = rw e (
    rw f (
      rw
        (closes_of-SameModes files (update files k (vfs_close (files k))) ds i
          (update-SameModes files k))
        (elim (Bool-cases (i == k)) [
          | inl same ↦ rw same (
              ap (λ j. close_times (closes_of files ds i) (vfs_close (files j)))
                (sym (==→eq i k same)))
          | inr other ↦ rw other refl
        ])))

-- If every descriptor that is marked has a file, `task_do_cloexec` empties the marked descriptors and no
-- others, and gives up one reference of a file for each descriptor of it that is emptied.
pub task_do_cloexec-Closed :
    (files : ℕ → File) (ds : List Descriptor)
    → All (HasFile files) ds
    → Closed files ds (task_do_cloexec files ds)
unfolding task_do_cloexec
task_do_cloexec-Closed files [] a = record { after = files; result = refl; counts = λ k. refl }
task_do_cloexec-Closed files (d ∷ ds) a = elim (Bool-cases (closes_on_exec files d)) [
  | inr stays ↦
      let rest : Closed files ds (task_do_cloexec files ds) = task_do_cloexec-Closed files ds a.1 in
      record {
        after = rest.after;
        result = rw stays (rw rest.result refl);
        counts = λ k. rw stays (rest.counts k);
      }
  | inl marked ↦ elim (Option-cases d.file) [
    | inl gone ↦ absurd (a.0 marked gone)
    | inr (k, f) ↦
        let gs : ℕ → File = update files k (vfs_close (files k)) in
        let same : SameModes files gs = update-SameModes files k in
        let rest : Closed gs ds (task_do_cloexec gs ds) =
          task_do_cloexec-Closed gs ds (HasFile-SameModes files gs ds same a.1) in
        record {
          after = rest.after;
          result = rw marked (
              rw (f, task_do_cloexec)
                (rw rest.result (rw (survive-SameModes files gs ds same) refl)));
          counts = λ i. rest.counts i ∙ closed-first files d ds k i f marked;
        }
  ]
]
