-- ===== src/Vfs/Reading.antt =====
-- Reading an open file of src/kernel/VFS/VFS.c piece by piece.
use amq_os.Vfs.{Vfs, Operations, FileDescriptor, is_open, set_file, vfs_read, moved, node_read}
use amq_os.Prelude.{
  ℕ, zero, suc, ◌+◌, ◌^◌, ◌<◌, ◌≡◌, refl, sym, ap, ◌∙◌, true, some, List, [], ◌∷◌, ◌++◌, arith, u32,
  length, take, drop, update_self, length-append, length-take, length-drop,
}

-- The piece of a content from a position on.
abbrev pub piece : List ℕ → ℕ → ℕ → List ℕ
piece content size position = take size (drop position content)

drop-drop {ℓ} : {A : Type ℓ} (a b : ℕ) (xs : List A) → drop b (drop a xs) ≡ drop (a + b) xs
drop-drop zero b xs = ap (λ n. drop n xs) same
  where
    same : b ≡ 0 + b
    same = omega arith
drop-drop {A} (suc a) b [] = drop_nil b ∙ ap (λ n. drop {A = A} n []) more
  where
    drop_nil : (n : ℕ) → drop {A = A} n [] ≡ drop {A = A} (suc (a + b)) []
    drop_nil zero = refl
    drop_nil (suc n) = refl

    more : suc (a + b) ≡ suc a + b
    more = omega arith
drop-drop (suc a) b (x ∷ xs) = drop-drop a b xs ∙ ap (λ n. drop n (x ∷ xs)) more
  where
    more : suc (a + b) ≡ suc a + b
    more = omega arith

-- Two pieces one behind the other are one.
take-take {ℓ} :
    {A : Type ℓ} (a b : ℕ) (xs : List A)
    → take a xs ++ take b (drop (length (take a xs)) xs) ≡ take (a + b) xs
take-take zero b xs = ap (λ n. take n xs) same
  where
    same : b ≡ 0 + b
    same = omega arith
take-take {A} (suc a) b [] = take_nil b ∙ ap (λ n. take {A = A} n []) more
  where
    take_nil : (n : ℕ) → take {A = A} n [] ≡ take {A = A} (suc (a + b)) []
    take_nil zero = refl
    take_nil (suc n) = refl

    more : suc (a + b) ≡ suc a + b
    more = omega arith
take-take (suc a) b (x ∷ xs) = ap (λ q. x ∷ q) (take-take a b xs) ∙ ap (λ n. take n (x ∷ xs)) more
  where
    more : suc (a + b) ≡ suc a + b
    more = omega arith

module _ {S N : Type 0} (o : Operations S N) (s : S) where
  -- The file behind a node has this content: a read that ends below 2^32 gives the bytes from the
  -- position on, as many as there are.
  abbrev pub Holds : N → List ℕ → Type 0
  Holds n content =
      (size position : ℕ)
      → position + size < 2 ^ 32
      → node_read o s (some n) size position
        ≡ (some (length (piece content size position)), piece content size position)

  vfs_read-Holds :
      (v : Vfs S N) (fd size position : ℕ) (n : N) (content : List ℕ)
      → is_open v fd ≡ true
      → (v.fd_table fd).node ≡ some n
      → (v.fd_table fd).position ≡ position
      → Holds n content
      → position + size < 2 ^ 32
      → let p = piece content size position in
        vfs_read o v s fd size
        ≡ (some (length p), p, set_file v fd (moved (v.fd_table fd) (some (length p))))
  unfolding vfs_read
  vfs_read-Holds v fd size position n content e f g h word =
      opened
      ∙ ap (λ r. (r.0, r.1, set_file v fd (moved file r.0)))
          (ap (λ m. node_read o s m size file.position) f
            ∙ ap (λ p. node_read o s (some n) size p) g
            ∙ h size position word)
    where
      file : FileDescriptor N
      file = v.fd_table fd

      opened : vfs_read o v s fd size ≡ (
          let (count, bytes) = node_read o s file.node size file.position in
          (count, bytes, set_file v fd (moved file count)))
      opened = rw e refl

  -- Where the file system gives the content of the file, for reads that end below 2^32, the content is
  -- shorter than 2^31 bytes, and `a + b` bytes from the position on end below 2^32: reading `a` bytes of
  -- an open file and then `b` gives the same bytes as reading `a + b` at once, and leaves the same
  -- position.
  pub vfs_read-twice :
      (v : Vfs S N) (fd a b : ℕ) (n : N) (content : List ℕ)
      → is_open v fd ≡ true
      → (v.fd_table fd).node ≡ some n
      → Holds n content
      → length content < 2 ^ 31
      → (v.fd_table fd).position + (a + b) < 2 ^ 32
      → let (first, x, v') = vfs_read o v s fd a in
        let (second, y, v'') = vfs_read o v' s fd b in
        let (whole, z, w) = vfs_read o v s fd (a + b) in
        (x ++ y ≡ z) × ((v''.fd_table fd).position ≡ (w.fd_table fd).position)
  vfs_read-twice v fd a b n content e f h small start =
      let p = (v.fd_table fd).position in
      let x = piece content a p in
      let k = length x in
      let file = moved (v.fd_table fd) (some k) in
      let v1 = set_file v fd file in
      let at1 : v1.fd_table fd ≡ file = update_self v.fd_table fd file in
      let on : is_open v1 fd ≡ true = rw at1 e in
      let y = piece content b (u32 (p + k)) in
      let file' = moved (v1.fd_table fd) (some (length y)) in
      let eq1 = vfs_read-Holds v fd a p n content e f refl h (omega arith) in
      let eq2 =
        vfs_read-Holds v1 fd b (u32 (p + k)) n content on (ap (λ m. m.node) at1 ∙ f)
          (ap (λ m. m.position) at1) h (omega (arith, length-take a (drop p content))) in
      let eq3 = vfs_read-Holds v fd (a + b) p n content e f refl h start in
      let z = piece content (a + b) p in
      let room : u32 (p + k) ≡ p + k =
        omega (arith, length-take a (drop p content), length-drop p content) in
      let joined : x ++ y ≡ z =
        ap (λ q. x ++ take b (drop q content)) room
        ∙ ap (λ q. x ++ take b q) (sym (drop-drop p k content))
        ∙ take-take a b (drop p content) in
      let total : k + length y ≡ length z = sym (length-append x y) ∙ ap length joined in
      let wrap : u32 (u32 (p + k) + length y) ≡ u32 (p + length z) = omega (arith, total) in
      let second = ap (λ w. vfs_read o w s fd b) (ap (λ r. r.2) eq1) ∙ eq2 in
      (
        ap (λ q. q ++ (vfs_read o (vfs_read o v s fd a).2 s fd b).1) (ap (λ r. r.1) eq1)
            ∙ ap (λ q. x ++ q) (ap (λ r. r.1) second)
            ∙ joined
            ∙ sym (ap (λ r. r.1) eq3),
        ap (λ r. (r.2.fd_table fd).position) second
            ∙ ap (λ m. m.position) (update_self v1.fd_table fd file')
            ∙ ap (λ m. u32 (m.position + length y)) at1
            ∙ wrap
            ∙ sym (
                ap (λ m. m.position)
                  (update_self v.fd_table fd (moved (v.fd_table fd) (some (length z)))))
            ∙ sym (ap (λ r. (r.2.fd_table fd).position) eq3),
      )
