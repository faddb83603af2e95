-- ===== src/Vfs/Paths.antt =====
-- The paths of src/kernel/VFS/VFS.c as lists of names.
use amq_os.Vfs.{
  Vfs, Operations, max_filename, slash, file_directory, is_root, tokens_from, tokenize_path,
  vfs_finddir, resolve_from, vfs_resolve_path,
}
use mathlib.Core.List.{append_assoc, append-nil}
use amq_os.Prelude.{
  ℕ, ◌+◌, ◌-◌, ◌<◌, ◌≡◌, refl, sym, ap, ◌∙◌, Bool, true, false, not, Option, none, some, List, [],
  ◌∷◌, ◌++◌, arith, ltb, ◌==◌, if◌then◌else◌, length, contains, length-append,
}

-- A name that a path can hold: not empty, of 255 characters at most and without a slash.
pub record IsName (t : List ℕ) : Type 0 where
  pub some_length : 0 < length t
  pub fits : length t < max_filename
  pub plain : contains slash t ≡ false

abbrev pub AllNames : List (List ℕ) → Type 0
AllNames [] = Unit
AllNames (t ∷ ts) = IsName t × AllNames ts

-- The path with these names.
abbrev pub join_path : List (List ℕ) → List ℕ
join_path [] = []
join_path (t ∷ ts) = slash ∷ t ++ join_path ts

-- The characters of a name are added to the token.
pub tokens_from-name :
    (t s token : List ℕ)
    → contains slash t ≡ false
    → length token + length t < max_filename
    → tokens_from (t ++ s) token ≡ tokens_from s (token ++ t)
unfolding tokens_from
tokens_from-name [] s token p h = ap (tokens_from s) (sym (append-nil token))
tokens_from-name (c ∷ t) s token p h =
    rw (no_slash, room)
      (tokens_from-name t s (token ++ c ∷ []) (ground arith)
          (omega (arith, length-append token (c ∷ [])))
        ∙ ap (tokens_from s) (append_assoc token (c ∷ []) t))
  where
    no_slash : (c == slash) ≡ false
    no_slash = ground arith

    room : ltb (length token) (max_filename - 1) ≡ true
    room = ground arith

-- A token and the names behind it.
tokens_from-join_path :
    (ts : List (List ℕ)) (token : List ℕ)
    → AllNames ts
    → 0 < length token
    → tokens_from (join_path ts) token ≡ token ∷ ts
unfolding tokens_from
tokens_from-join_path [] token a h = rw (nonempty) refl
  where
    nonempty : (length token == 0) ≡ false
    nonempty = ground arith
tokens_from-join_path (t ∷ ts) token (n, a) h = rw nonempty (
    ap (λ q. token ∷ q)
      (tokens_from-name t (join_path ts) [] n.plain (omega (arith, n.fits))
        ∙ tokens_from-join_path ts t a n.some_length))
  where
    nonempty : (length token == 0) ≡ false
    nonempty = ground arith

-- Names that are joined to a path are what `tokenize_path` reads from it.
pub tokenize_path-join_path : (ts : List (List ℕ)) → AllNames ts → tokenize_path (join_path ts) ≡ ts
unfolding tokenize_path
tokenize_path-join_path [] a = refl
tokenize_path-join_path (t ∷ ts) (n, a) =
    tokens_from-name t (join_path ts) [] n.plain (omega (arith, n.fits))
    ∙ tokens_from-join_path ts t a n.some_length

-- A path of one name or more is not "/".
pub is_root-join_path :
    (t : List ℕ) (ts : List (List ℕ)) → IsName t → is_root (join_path (t ∷ ts)) ≡ false
is_root-join_path [] ts n = absurd (omega (arith, n.some_length))
is_root-join_path (c ∷ t) ts n = refl

module _ {S N : Type 0} (o : Operations S N) (v : Vfs S N) (root : N)
    (at : v.root_node ≡ some root) where
  -- A path of names is resolved name by name from the root.
  pub vfs_resolve_path-join_path :
      (s : S) (t : List ℕ) (ts : List (List ℕ))
      → AllNames (t ∷ ts)
      → vfs_resolve_path o v s (join_path (t ∷ ts)) ≡ resolve_from o s root (t ∷ ts)
  unfolding vfs_resolve_path
  vfs_resolve_path-join_path s t ts (n, a) =
      rw (at, is_root-join_path t ts n, tokenize_path-join_path (t ∷ ts) (n, a)) refl

  -- "/" is the root.
  pub vfs_resolve_path-slash : (s : S) → vfs_resolve_path o v s (slash ∷ []) ≡ some root
  unfolding vfs_resolve_path
  vfs_resolve_path-slash s = rw at refl

module _ {S N : Type 0} (o : Operations S N) (s : S) where
  -- What a lookup leads to is the start of the rest.
  abbrev pub then_resolve : Option N → List (List ℕ) → Option N
  then_resolve none us = none
  then_resolve (some d) us = resolve_from o s d us

  -- One name of the loop.
  abbrev enter : Bool → Option N → List (List ℕ) → Option N
  enter b r ts = if b then none else elim r [ none ↦ none | some n ↦ resolve_from o s n ts ]

  pub resolve_from-append :
      (node : N) (ts us : List (List ℕ))
      → resolve_from o s node (ts ++ us) ≡ then_resolve (resolve_from o s node ts) us
  unfolding resolve_from
  resolve_from-append node [] us = refl
  resolve_from-append node (t ∷ ts) us =
      by_entry (not (o.type node == file_directory)) (vfs_finddir o s node t)
        (λ n. resolve_from-append n ts us)
    where
      by_entry :
          (b : Bool) (r : Option N)
          → ((n : N) → resolve_from o s n (ts ++ us) ≡ then_resolve (resolve_from o s n ts) us)
          → enter b r (ts ++ us) ≡ then_resolve (enter b r ts) us
      by_entry true r h = refl
      by_entry false none h = refl
      by_entry false (some n) h = h n
