-- ===== src/Vfs/Tokens.antt =====
-- fs/vfs.c: the tokens of a path, and the path that they are joined to.
use levos.Base.{ℕ, ◌≡◌, ◌≢◌, refl, ap, false, List, [], ◌∷◌, ◌++◌}
use levos.Base.{All, ◌==◌, ne→==, ==→ne, Bool-cases, inl, inr, arith, append-nil}
use mathlib.Core.List.{cons≢nil}
use levos.Vfs.Path.{separator, token, split, tokens, joined_size, append_all, join}

-- a name in a directory: not empty, and without a separator
pub record IsName (s : List ℕ) : Type 0 where
  pub nonempty : s ≢ []
  pub plain : All (λ c. c ≢ separator) s

-- Behind a separator the tokens begin anew.
split-append :
    (s t : List ℕ) → All (λ c. c ≢ separator) s → split (s ++ (separator ∷ t)) ≡ (s, tokens t)
unfolding split tokens
split-append [] t h = refl
split-append (c ∷ s) t h = rw (ne→== c separator h.0) (rw (split-append s t h.1) refl)

split-plain : (s : List ℕ) → All (λ c. c ≢ separator) s → split s ≡ (s, [])
unfolding split
split-plain [] h = refl
split-plain (c ∷ s) h = rw (ne→== c separator h.0) (rw (split-plain s h.1) refl)

token-name : (s : List ℕ) (rest : List (List ℕ)) → s ≢ [] → token s rest ≡ s ∷ rest
token-name [] rest h = absurd (h refl)
token-name (c ∷ s) rest h = refl

-- The tokens of joined names are the names.
pub tokens-append_all : (cs : List (List ℕ)) → All IsName cs → tokens (append_all cs) ≡ cs
unfolding tokens split
tokens-append_all [] h = refl
tokens-append_all (s ∷ []) h =
    rw (append-nil s) (rw (split-plain s h.0.plain) (token-name s [] h.0.nonempty))
tokens-append_all (s ∷ t ∷ cs) h =
    let later : tokens (append_all (t ∷ cs)) ≡ t ∷ cs = tokens-append_all (t ∷ cs) h.1 in
    rw (split-append s (t ++ append_all cs) h.0.plain)
      (rw later (token-name s (t ∷ cs) h.0.nonempty))

token-All :
    (s : List ℕ) (rest : List (List ℕ))
    → All (λ c. c ≢ separator) s
    → All IsName rest
    → All IsName (token s rest)
token-All [] rest p h = h
token-All (c ∷ s) rest p h = (record { nonempty = λ e. cons≢nil e; plain = p }, h)

split-All : (s : List ℕ) → All (λ c. c ≢ separator) (split s).0 × All IsName (split s).1
unfolding split
split-All [] = (tt, tt)
split-All (c ∷ s) =
    let rest : All (λ x. x ≢ separator) (split s).0 × All IsName (split s).1 = split-All s in
    elim (Bool-cases (c == separator)) [
      | inl e ↦ rw e (tt, token-All (split s).0 (split s).1 rest.0 rest.1)
      | inr e ↦ rw e ((==→ne _ _ e, rest.0), rest.1)
    ]

-- Every token is a name.
pub tokens-All : (s : List ℕ) → All IsName (tokens s)
unfolding tokens
tokens-All s = token-All (split s).0 (split s).1 (split-All s).0 (split-All s).1

joined_size-some : (s : List ℕ) (cs : List (List ℕ)) → (joined_size (s ∷ cs) == 0) ≡ false
joined_size-some s cs = ne→== (joined_size (s ∷ cs)) 0 (λ e. absurd (omega (arith, e)))

-- The tokens of a joined path are the names that were joined.
pub tokens-join : (cs : List (List ℕ)) → All IsName cs → tokens (join cs) ≡ cs
unfolding join tokens split
tokens-join [] h = refl
tokens-join (s ∷ cs) h = rw (joined_size-some s cs) (tokens-append_all (s ∷ cs) h)

token-append : (s : List ℕ) (a b : List (List ℕ)) → token s (a ++ b) ≡ token s a ++ b
token-append [] a b = refl
token-append (c ∷ s) a b = refl

split-join : (s t : List ℕ) → split (s ++ (separator ∷ t)) ≡ ((split s).0, (split s).1 ++ tokens t)
unfolding split tokens
split-join [] t = refl
split-join (c ∷ s) t = elim (Bool-cases (c == separator)) [
  | inl e ↦
      rw e
        (rw (split-join s t) (ap (λ l. ([], l)) (token-append (split s).0 (split s).1 (tokens t))))
  | inr e ↦ rw e (rw (split-join s t) refl)
]

-- A path and one behind a separator have the tokens of both.
pub tokens-split : (s t : List ℕ) → tokens (s ++ (separator ∷ t)) ≡ tokens s ++ tokens t
unfolding tokens
tokens-split s t = rw (split-join s t) (token-append (split s).0 (split s).1 (tokens t))
