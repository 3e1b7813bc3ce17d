-- ===== src/Vfs/Canonical.antt =====
-- fs/vfs.c: what `__canonicalize_path` gives.
use levos.Base.{ℕ, ◌≡◌, refl, ap, sym, ◌∙◌, true, false, List, [], ◌∷◌, ◌++◌}
use levos.Base.{All, All-append, Bool-cases, inl, inr, arith, append-nil, append_assoc}
use levos.Vfs.Path.{separator, tokens, join, same_string, path_up, path_dot, pop_back}
use levos.Vfs.Path.{step, steps, is_relative, __canonicalize_path}
use levos.Vfs.Tokens.{IsName, tokens-All, tokens-join, tokens-split}

-- a name that is neither of `.` and `..`
pub record IsEntry (s : List ℕ) : Type 0 where
  pub name : IsName s
  pub not_up : same_string s path_up ≡ false
  pub not_dot : same_string s path_dot ≡ false

-- A path in its canonical form: the root, or entries with a separator before each.
pub record IsCanonical (s : List ℕ) : Type 0 where
  pub entries : List (List ℕ)
  pub all : All IsEntry entries
  pub joined : s ≡ join entries

pop_back-All : (P : List ℕ → Type 0) (xs : List (List ℕ)) → All P xs → All P (pop_back xs)
pop_back-All P [] h = tt
pop_back-All P (x ∷ []) h = tt
pop_back-All P (x ∷ y ∷ ys) h = (h.0, pop_back-All P (y ∷ ys) h.1)

step-All :
    (out : List (List ℕ)) (pch : List ℕ) → All IsEntry out → IsName pch → All IsEntry (step out pch)
unfolding step
step-All out pch h n = elim (Bool-cases (same_string pch path_up)) [
  | inl up ↦ rw up (pop_back-All IsEntry out h)
  | inr up ↦ elim (Bool-cases (same_string pch path_dot)) [
    | inl dot ↦ rw up (rw dot h)
    | inr dot ↦ rw up (
        rw dot (
          All-append IsEntry out (pch ∷ []) h
            (record { name = n; not_up = up; not_dot = dot }, tt)))
  ]
]

steps-All : (out cs : List (List ℕ)) → All IsEntry out → All IsName cs → All IsEntry (steps out cs)
unfolding steps
steps-All out [] h n = h
steps-All out (c ∷ cs) h n = steps-All (step out c) cs (step-All out c h n.0) n.1

All-IsName : (cs : List (List ℕ)) → All IsEntry cs → All IsName cs
All-IsName [] h = tt
All-IsName (c ∷ cs) h = (h.0.name, All-IsName cs h.1)

-- Entries are pushed one behind the other.
steps-entries : (out cs : List (List ℕ)) → All IsEntry cs → steps out cs ≡ out ++ cs
unfolding steps step
steps-entries out [] h = sym (append-nil out)
steps-entries out (c ∷ cs) h =
    rw h.0.not_up
      (rw h.0.not_dot (steps-entries (out ++ (c ∷ [])) cs h.1 ∙ append_assoc out (c ∷ []) cs))

steps-append : (out xs ys : List (List ℕ)) → steps out (xs ++ ys) ≡ steps (steps out xs) ys
unfolding steps
steps-append out [] ys = refl
steps-append out (x ∷ xs) ys = steps-append (step out x) xs ys

absolute-join : (cs : List (List ℕ)) → is_relative (join cs) ≡ false
unfolding join
absolute-join [] = refl
absolute-join (s ∷ cs) = ground arith

-- A canonical path is left as it is, whatever the working directory.
__canonicalize_path-canonical : (cwd s : List ℕ) → IsCanonical s → __canonicalize_path cwd s ≡ s
unfolding __canonicalize_path
__canonicalize_path-canonical cwd s c = rw c.joined (
    rw (absolute-join c.entries) (
      rw (tokens-join c.entries (All-IsName c.entries c.all))
        (ap join (steps-entries [] c.entries c.all))))

canonicalized :
    (cwd input : List ℕ) → All IsEntry (tokens cwd) → IsCanonical (__canonicalize_path cwd input)
unfolding __canonicalize_path
canonicalized cwd input h = elim (Bool-cases (is_relative input)) [
  | inl e ↦ rw e record {
    entries = steps (tokens cwd) (tokens input);
    all = steps-All (tokens cwd) (tokens input) h (tokens-All input);
    joined = refl;
  }
  | inr e ↦ rw e record {
    entries = steps [] (tokens input);
    all = steps-All [] (tokens input) tt (tokens-All input);
    joined = refl;
  }
]

-- If the tokens of the working directory are entries, the result of `__canonicalize_path` is canonical:
-- absolute, with no `.`, no `..` and no empty name; and it is its own canonical form from any directory.
pub __canonicalize_path-IsCanonical :
    (cwd input other : List ℕ)
    → All IsEntry (tokens cwd)
    → IsCanonical (__canonicalize_path cwd input)
      × (__canonicalize_path other (__canonicalize_path cwd input) ≡ __canonicalize_path cwd input)
__canonicalize_path-IsCanonical cwd input other h =
    let c : IsCanonical (__canonicalize_path cwd input) = canonicalized cwd input h in
    (c, __canonicalize_path-canonical other (__canonicalize_path cwd input) c)

-- A relative path means what it means behind the working directory and a separator, if the working
-- directory is absolute and its tokens are entries.
pub __canonicalize_path-relative :
    (cwd input other : List ℕ)
    → is_relative input ≡ true
    → All IsEntry (tokens (separator ∷ cwd))
    → __canonicalize_path (separator ∷ cwd) input
      ≡ __canonicalize_path other ((separator ∷ cwd) ++ (separator ∷ input))
unfolding __canonicalize_path
__canonicalize_path-relative cwd input other rel h =
    let cs : List (List ℕ) = tokens (separator ∷ cwd) in
    rw rel (
      rw (tokens-split (separator ∷ cwd) input)
        (rw (steps-append [] cs (tokens input)) (rw (steps-entries [] cs h) refl)))
