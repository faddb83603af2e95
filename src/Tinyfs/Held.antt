-- ===== src/Tinyfs/Held.antt =====
-- The files of src/kernel/VFS/tinyfs.c, read through src/kernel/VFS/VFS.c, have their bytes as content.
use amq_os.Tinyfs.{Node, Dirent}
use amq_os.Tinyfs.Disk.{Layout}
use amq_os.Tinyfs.Content.{least, tinyfs_read}
use amq_os.Tinyfs.Writing.{RawBytes}
use amq_os.Tinyfs.Mounted.{Volume, bytes_from, bytes_read, tinyfs_vfs_ops}
use amq_os.Tinyfs.Reading.{Covers, byte_at, tinyfs_read_lem}
use amq_os.Vfs.Reading.{Holds, piece}
use amq_os.Prelude.{
  ℕ, zero, suc, ◌+◌, ◌-◌, ◌<◌, ◌≡◌, refl, sym, ap, ◌∙◌, inl, inr, Option, some, List, ◌∷◌, arith,
  leb, Bool-cases, length, take, drop,
}

bytes_from-at : (b : ℕ → ℕ) (i k n m : ℕ) → i ≡ k → n ≡ m → bytes_from b i n ≡ bytes_from b k m
bytes_from-at b i k n m e f = ap (λ x. bytes_from b x n) e ∙ ap (bytes_from b k) f

drop-bytes_from : (b : ℕ → ℕ) (i n p : ℕ) → drop p (bytes_from b i n) ≡ bytes_from b (i + p) (n - p)
drop-bytes_from b i n zero = bytes_from-at b i (i + 0) n (n - 0) (omega arith) (omega arith)
drop-bytes_from b i zero (suc p) = ap (bytes_from b (i + suc p)) less
  where
    less : 0 ≡ 0 - suc p
    less = omega arith
drop-bytes_from b i (suc n) (suc p) =
    drop-bytes_from b (i + 1) n p
    ∙ bytes_from-at b (i + 1 + p) (i + suc p) (n - p) (suc n - suc p) (omega arith) (omega arith)

take-bytes_from : (b : ℕ → ℕ) (i n m : ℕ) → take m (bytes_from b i n) ≡ bytes_from b i (least m n)
take-bytes_from b i n zero = bytes_from-at b i i 0 (least 0 n) refl (ground arith)
take-bytes_from b i zero (suc m) = bytes_from-at b i i 0 (least (suc m) 0) refl (ground arith)
take-bytes_from b i (suc n) (suc m) =
    ap (λ l. b i ∷ l) (take-bytes_from b (i + 1) n m)
    ∙ bytes_from-at b i i (suc (least m n)) (least (suc m) (suc n)) refl (ground arith)

bytes_from-same :
    (f g : ℕ → ℕ) (i k n : ℕ)
    → ((j : ℕ) → j < n → f (i + j) ≡ g (k + j))
    → bytes_from f i n ≡ bytes_from g k n
bytes_from-same f g i k zero h = refl
bytes_from-same f g i k (suc n) h =
    ap (λ x. x ∷ bytes_from f (i + 1) n) (same 0 i k (omega arith) (omega arith) (omega arith))
    ∙ ap (λ l. g k ∷ l)
        (bytes_from-same f g (i + 1) (k + 1) n
          (λ j lt. same (suc j) (i + 1 + j) (k + 1 + j) (omega arith) (omega arith) (omega arith)))
  where
    same : (j x y : ℕ) → j < suc n → i + j ≡ x → k + j ≡ y → f x ≡ g y
    same j x y lt e d = ap f (sym e) ∙ h j lt ∙ ap g d

length-bytes_from : (b : ℕ → ℕ) (i n : ℕ) → length (bytes_from b i n) ≡ n
length-bytes_from b i zero = refl
length-bytes_from b i (suc n) = ap suc (length-bytes_from b (i + 1) n)

module _ (L : Layout) (w : RawBytes L.Sector) (s : Volume L.Sector) (e : ℕ) where
  -- The bytes of the file of an entry.
  abbrev pub content_of : List ℕ
  content_of =
      let entry = s.tables.dirents e in
      bytes_from (byte_at w.bytes s.tables s.drive entry.first_block) 0 entry.size

  pub length-content_of : length content_of ≡ (s.tables.dirents e).size
  length-content_of =
      length-bytes_from (byte_at w.bytes s.tables s.drive (s.tables.dirents e).first_block) 0
        (s.tables.dirents e).size

  piece-content_of :
      (size position : ℕ)
      → piece content_of size position
        ≡ bytes_from
            (byte_at w.bytes s.tables s.drive (s.tables.dirents e).first_block)
            position
            (least size ((s.tables.dirents e).size - position))
  piece-content_of size position =
      let entry = s.tables.dirents e in
      let byte = byte_at w.bytes s.tables s.drive entry.first_block in
      ap (take size) (drop-bytes_from byte 0 entry.size position)
      ∙ take-bytes_from byte (0 + position) (entry.size - position) size
      ∙ bytes_from-at byte (0 + position) position (least size (entry.size - position))
          (least size (entry.size - position)) (omega arith) refl

  -- tinyfs gives the content of a file whose chain has a readable block for each of its bytes.
  pub tinyfs_vfs_ops-Holds :
      (n : Node)
      → n.entry ≡ some e
      → Covers s.tables s.drive (s.tables.dirents e).first_block (s.tables.dirents e).size
      → Holds (tinyfs_vfs_ops L w) s n content_of
  unfolding tinyfs_read
  tinyfs_vfs_ops-Holds n at c size position word =
      ap (λ o. bytes_read (tinyfs_read w.bytes s.tables s.drive o (λ i. 0) size position)) at
      ∙ elim (Bool-cases (leb entry.size position)) [
        | inl f ↦
            let none_left : least size (entry.size - position) ≡ 0 = ground arith in
            let nothing : tinyfs_read w.bytes s.tables s.drive (some e) (λ i. 0) size position
                ≡ some (0, λ i. 0) =
              rw f refl in
            ap bytes_read nothing
            ∙ sym (
                ap given (piece-content_of size position ∙ ap (bytes_from byte position) none_left))
        | inr f ↦
            let r =
              tinyfs_read_lem w.bytes s.tables s.drive entry.first_block e size position (λ i. 0)
                refl c (ground arith) word in
            let long = least size (entry.size - position) in
            ap bytes_read r.whole
            ∙ ap (λ l. (some long, l))
                (bytes_from-same r.filled byte 0 position long (λ j lt.
                  let here : 0 + j ≡ j = omega arith in
                  ap r.filled here ∙ r.inside j (omega arith) lt))
            ∙ ap (λ m. (some m, bytes_from byte position long))
                (sym (length-bytes_from byte position long))
            ∙ sym (ap given (piece-content_of size position))
      ]
    where
      entry : Dirent
      entry = s.tables.dirents e

      byte : ℕ → ℕ
      byte = byte_at w.bytes s.tables s.drive (s.tables.dirents e).first_block

      given : List ℕ → Option ℕ × List ℕ
      given p = (some (length p), p)
