-- ===== src/Vfs/Path.antt =====
-- fs/vfs.c: the canonical form of a path. A path is the list of its bytes, without the byte 0 at the end.
use levos.Base.{ℕ, ◌+◌, Bool, true, false, ◌&&◌, List, [], ◌∷◌, ◌++◌, ◌==◌, if◌then◌else◌, length}

abbrev pub separator : ℕ
separator = 47

-- `strcmp(a, b) == 0`
abbrev pub same_string : List ℕ → List ℕ → Bool
same_string [] [] = true
same_string [] (y ∷ ys) = false
same_string (x ∷ xs) [] = false
same_string (x ∷ xs) (y ∷ ys) = (x == y) && same_string xs ys

abbrev pub path_up : List ℕ
path_up = 46 ∷ 46 ∷ []

abbrev pub path_dot : List ℕ
path_dot = 46 ∷ []

-- a token before those behind it; an empty one is none
abbrev pub token : List ℕ → List (List ℕ) → List (List ℕ)
token [] rest = rest
token (c ∷ cs) rest = (c ∷ cs) ∷ rest

-- `strtok_r` with the separator, until it gives NULL: the bytes up to the first separator, and the tokens
-- behind it
unfoldable pub split : List ℕ → List ℕ × List (List ℕ)
split [] = ([], [])
split (c ∷ s) =
    let rest : List ℕ × List (List ℕ) = split s in
    if c == separator then ([], token rest.0 rest.1) else (c ∷ rest.0, rest.1)

unfoldable pub tokens : List ℕ → List (List ℕ)
tokens s = token (split s).0 (split s).1

-- `list_pop_back`, on an empty list nothing
abbrev pub pop_back {ℓ} : {A : Type ℓ} → List A → List A
pop_back [] = []
pop_back (x ∷ []) = []
pop_back (x ∷ y ∷ ys) = x ∷ pop_back (y ∷ ys)

-- a token of the new path
unfoldable pub step : List (List ℕ) → List ℕ → List (List ℕ)
step out pch =
    if same_string pch path_up
    then pop_back out
    else if same_string pch path_dot
    then out
    else out ++ (pch ∷ [])

unfoldable pub steps : List (List ℕ) → List (List ℕ) → List (List ℕ)
steps out [] = out
steps out (pch ∷ rest) = steps (step out pch) rest

-- the bytes that the elements take, with a separator each
abbrev pub joined_size : List (List ℕ) → ℕ
joined_size [] = 0
joined_size (s ∷ out) = length s + 1 + joined_size out

abbrev pub append_all : List (List ℕ) → List ℕ
append_all [] = []
append_all (s ∷ out) = (separator ∷ s) ++ append_all out

unfoldable pub join : List (List ℕ) → List ℕ
join out = if joined_size out == 0 then separator ∷ [] else append_all out

-- A path that does not begin with the separator goes on from the working directory.
abbrev pub is_relative : List ℕ → Bool
is_relative [] = false
is_relative (c ∷ s) = if c == separator then false else true

unfoldable pub __canonicalize_path : List ℕ → List ℕ → List ℕ
__canonicalize_path cwd input =
    join (steps (if is_relative input then tokens cwd else []) (tokens input))
