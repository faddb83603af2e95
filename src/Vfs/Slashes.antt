-- ===== src/Vfs/Slashes.antt =====
-- src/kernel/VFS/VFS.c: the last slash of a path.
use amq_os.Vfs.{max_filename, slash, is_absolute, last_slash, name_in}
use amq_os.Vfs.Paths.{IsName, AllNames, join_path}
use mathlib.Core.List.{append_assoc, append-nil}
use amq_os.Prelude.{
  ℕ, zero, suc, ◌+◌, ◌-◌, ◌≤◌, ◌≡◌, refl, sym, ap, ◌∙◌, true, false, Option, some, List, [], ◌∷◌,
  ◌++◌, arith, ◌==◌, if◌then◌else◌, length, take, drop, contains,
}

last_slash-plain :
    (t : List ℕ) (i : ℕ) (found : Option ℕ)
    → contains slash t ≡ false
    → last_slash t i found ≡ found
unfolding last_slash
last_slash-plain [] i found p = refl
last_slash-plain (c ∷ t) i found p = rw no_slash (last_slash-plain t (i + 1) found (ground arith))
  where
    no_slash : (c == slash) ≡ false
    no_slash = ground arith

-- The last slash of a path stands in front of its last name.
pub last_slash-name :
    (p name : List ℕ) (i : ℕ) (found : Option ℕ)
    → contains slash name ≡ false
    → last_slash (p ++ slash ∷ name) i found ≡ some (i + length p)
unfolding last_slash
last_slash-name [] name i found h = last_slash-plain name (i + 1) (some i) h ∙ ap some same
  where
    same : i ≡ i + 0
    same = omega arith
last_slash-name (c ∷ p) name i found h =
    last_slash-name p name (i + 1) (if c == slash then some i else found) h ∙ ap some same
  where
    same : i + 1 + length p ≡ i + suc (length p)
    same = omega arith

pub take-length : (p q : List ℕ) → take (length p) (p ++ q) ≡ p
take-length [] q = refl
take-length (c ∷ p) q = ap (λ t. c ∷ t) (take-length p q)

drop-length : (p : List ℕ) (c : ℕ) (q : List ℕ) → drop (suc (length p)) (p ++ c ∷ q) ≡ q
drop-length [] c q = refl
drop-length (d ∷ p) c q = drop-length p c q

take_short : (n : ℕ) (s : List ℕ) → length s ≤ n → take n s ≡ s
take_short zero [] h = refl
take_short zero (c ∷ s) h = absurd (omega arith)
take_short (suc n) [] h = refl
take_short (suc n) (c ∷ s) h = ap (λ t. c ∷ t) (take_short n s (omega arith))

-- The path of names and one more.
pub join_path-append :
    (ts : List (List ℕ)) (name : List ℕ)
    → join_path (ts ++ name ∷ []) ≡ join_path ts ++ slash ∷ name
join_path-append [] name = ap (λ t. slash ∷ t) (append-nil name)
join_path-append (t ∷ ts) name =
    ap (λ q. slash ∷ t ++ q) (join_path-append ts name)
    ∙ ap (λ q. slash ∷ q) (sym (append_assoc t (join_path ts) (slash ∷ name)))

pub is_absolute-append :
    (ts : List (List ℕ)) (name : List ℕ) → is_absolute (join_path ts ++ slash ∷ name) ≡ true
is_absolute-append [] name = refl
is_absolute-append (t ∷ ts) name = refl

pub AllNames-append :
    (ts : List (List ℕ)) (name : List ℕ) → AllNames ts → IsName name → AllNames (ts ++ name ∷ [])
AllNames-append [] name a n = (n, tt)
AllNames-append (t ∷ ts) name (h, a) n = (h, AllNames-append ts name a n)

-- The name behind the last slash.
pub name_in-append : (p name : List ℕ) → IsName name → name_in (p ++ slash ∷ name) (length p) ≡ name
name_in-append p name n =
    ap (λ k. take (max_filename - 1) (drop k (p ++ slash ∷ name))) behind
    ∙ ap (take (max_filename - 1)) (drop-length p slash name)
    ∙ take_short (max_filename - 1) name (omega (arith, n.fits))
  where
    behind : length p + 1 ≡ suc (length p)
    behind = omega arith
