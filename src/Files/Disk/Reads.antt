-- ===== src/Files/Disk/Reads.antt =====
-- Reads after changes of the disk that internal/files and internal/converter work on.
use llm_file_gateway.Prelude.{
  ◌≡◌, refl, sym, ap, subst, Bool, true, false, not, none, some, [], ◌∷◌, arith, select, inl, inr,
  Bool-cases, if◌then◌else◌,
}
use llm_file_gateway.Prelude.Text.{eq_iff, eq_refl}
use llm_file_gateway.Store.{FilePath}
use llm_file_gateway.Files.Disk.{
  Disk, Bytes, same_path, is_below, remove_all, read_file, write_file,
}

pub same_path_refl : (path : FilePath) → same_path path path ≡ true
same_path_refl [] = refl
same_path_refl (element ∷ path) = rw (eq_refl element) (same_path_refl path)

pub same_path→eq : (p q : FilePath) → same_path p q ≡ true → p ≡ q
same_path→eq [] [] h = refl
same_path→eq [] (b ∷ q) h = absurd (cc h)
same_path→eq (a ∷ p) [] h = absurd (cc h)
same_path→eq (a ∷ p) (b ∷ q) h =
    let e : p ≡ q = same_path→eq p q (ground (arith, h)) in
    let heads : a ≡ b = (eq_iff a b).0 (ground (arith, h)) in cc (e, heads)

-- What is kept reads as before.
pub read_file-select :
    (keep : FilePath → Bool) (path : FilePath) (disk : Disk)
    → keep path ≡ true
    → read_file path (select (λ entry. keep entry.0) disk) ≡ read_file path disk
read_file-select keep path [] h = refl
read_file-select keep path ((other, content) ∷ disk) h = elim (Bool-cases (same_path path other)) [
  | inl e ↦
      let kept : keep other ≡ true = subst (λ p. keep p ≡ true) (same_path→eq path other e) h in
      rw (kept, e) refl
  | inr e ↦ elim (Bool-cases (keep other)) [
    | inl kept ↦ rw (kept, e) (read_file-select keep path disk h)
    | inr dropped ↦ rw (dropped, e) (read_file-select keep path disk h)
  ]
]

-- What is not there is not there afterwards.
pub read_file-select-none :
    (keep : FilePath → Bool) (path : FilePath) (disk : Disk)
    → read_file path disk ≡ none
    → read_file path (select (λ entry. keep entry.0) disk) ≡ none
read_file-select-none keep path [] h = refl
read_file-select-none keep path ((other, content) ∷ disk) h =
    elim (Bool-cases (same_path path other)) [
      | inl e ↦ absurd (ground (arith, h, e))
      | inr e ↦
          let rest = read_file-select-none keep path disk (ground (arith, h, e)) in
          elim (Bool-cases (keep other)) [
            | inl kept ↦ rw (kept, e) rest
            | inr dropped ↦ rw dropped rest
          ]
    ]

pub read_file-write_file :
    (path : FilePath) (content : Bytes) (disk : Disk)
    → read_file path (write_file path content disk) ≡ some content
read_file-write_file path content disk = rw (same_path_refl path) refl

pub read_file-write_file_other :
    (path other : FilePath) (content : Bytes) (disk : Disk)
    → same_path other path ≡ false
    → read_file path (write_file other content disk) ≡ read_file path disk
read_file-write_file_other path other content disk h = elim (Bool-cases (same_path path other)) [
  | inl e ↦ absurd (
      cc (
        h,
        same_path_refl path,
        subst (λ p. same_path p path ≡ same_path path path) (same_path→eq path other e) refl,
      ))
  | inr e ↦ rw e (read_file-select (λ p. not (same_path other p)) path disk (rw h refl))
]

same_path-is_below : (dir p q : FilePath) → same_path p q ≡ true → is_below dir q ≡ is_below dir p
same_path-is_below dir p q e = ap (is_below dir) (sym (same_path→eq p q e))

-- A read after a removal.
pub read_file-remove_all :
    (dir path : FilePath) (disk : Disk)
    → read_file path (remove_all dir disk)
      ≡ (if is_below dir path then none else read_file path disk)
read_file-remove_all dir path [] = ground arith
read_file-remove_all dir path ((other, content) ∷ disk) =
    ground (arith, read_file-remove_all dir path disk, same_path-is_below dir path other)
