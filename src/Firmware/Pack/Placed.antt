-- ===== src/Firmware/Pack/Placed.antt =====
-- The table of a packed file, and where the files of pack-fir.c are.
use magic_lantern.Common.{
  ℕ, ◌+◌, ◌*◌, ◌^◌, ◌<◌, ◌≡◌, refl, sym, ap, subst, ◌∙◌, Bool-cases, inl, inr, List, [], ◌∷◌, ◌++◌,
  length, length-append, append_assoc, append-nil, Option, none, some, arith, ◌==◌, if◌then◌else◌,
}
use magic_lantern.Common.Word.{u32}
use magic_lantern.Firmware.Stream.{concat}
use magic_lantern.Firmware.Pack.{
  FileRec, Copied, copy_from, f_filecpy, Pack, add_file, Input, add_files, place_recs,
  make_pack_head, f_cksum, rec_bytes, make_image,
}

-- The bytes of a file, none if it cannot be opened.
abbrev pub bytes_of : Option (List (List ℕ)) → List ℕ
bytes_of none = []
bytes_of (some file) = concat file

-- The files that get a place, with their names: those that are opened and not empty.
abbrev pub packed : List Input → List (List ℕ × List ℕ)
packed [] = []
packed (f ∷ fs) =
    let rest = packed fs in if length (bytes_of f.0) == 0 then rest else (bytes_of f.0, f.1) ∷ rest

-- Records with the lengths and names of the files, whose bytes these are one after another.
abbrev IsCut : List (List ℕ × List ℕ) → List FileRec → List ℕ → Type 0
IsCut [] [] out = out ≡ []
IsCut (f ∷ fs) (r ∷ rs) out =
    (r.lenght ≡ length f.0)
    × (r.name ≡ f.1)
    × ((back : List ℕ) × (out ≡ f.0 ++ back) × IsCut fs rs back)
IsCut [] (_ ∷ _) out = ⊥
IsCut (_ ∷ _) [] out = ⊥

-- The records of a table, one for each of the files, in their order: with its name and its length, and with the place where
-- it begins, when these bytes stand from the place `at` on.
abbrev pub IsPlaced : ℕ → List (List ℕ × List ℕ) → List FileRec → List ℕ → Type 0
IsPlaced at [] [] out = out ≡ []
IsPlaced at (f ∷ fs) (r ∷ rs) out =
    (r.offset ≡ at)
    × (r.lenght ≡ length f.0)
    × (r.name ≡ f.1)
    × ((back : List ℕ) × (out ≡ f.0 ++ back) × IsPlaced (at + length f.0) fs rs back)
IsPlaced at [] (_ ∷ _) out = ⊥
IsPlaced at (_ ∷ _) [] out = ⊥

copy_from_out : (file : List (List ℕ)) (c : Copied) → (copy_from c file).out ≡ c.out ++ concat file
unfolding copy_from
copy_from_out [] c = sym (append-nil c.out)
copy_from_out (buf ∷ more) c = copy_from_out more _ ∙ append_assoc c.out buf (concat more)

copy_from_len :
    (file : List (List ℕ)) (c : Copied)
    → c.len + length (concat file) < 2 ^ 32
    → (copy_from c file).len ≡ c.len + length (concat file)
unfolding copy_from
copy_from_len [] c h = omega arith
copy_from_len (buf ∷ more) c h =
    let total = length-append buf (concat more) in
    copy_from_len more _ (omega (arith, h, total)) ∙ omega (arith, h, total)

snoc-IsCut :
    (fs : List (List ℕ × List ℕ)) (rs : List FileRec) (out new name : List ℕ) (r : FileRec)
    → IsCut fs rs out
    → r.lenght ≡ length new
    → r.name ≡ name
    → IsCut (fs ++ ((new, name) ∷ [])) (rs ++ (r ∷ [])) (out ++ new)
snoc-IsCut [] [] out new name r h e n =
    (e, n, ([], ap (λ z. z ++ new) h ∙ sym (append-nil new), refl))
snoc-IsCut [] (_ ∷ _) out new name r h e n = absurd h
snoc-IsCut (_ ∷ _) [] out new name r h e n = absurd h
snoc-IsCut (f ∷ fs) (q ∷ rs) out new name r (size, called, (back, cut, more)) e n = (
  size,
  called,
  (
    back ++ new,
    ap (λ z. z ++ new) cut ∙ append_assoc f.0 back new,
    snoc-IsCut fs rs back new name r more e n,
  ),
)

no_bytes : (xs : List ℕ) → length xs ≡ 0 → xs ≡ []
no_bytes [] h = refl
no_bytes (x ∷ xs) h = absurd (omega (arith, h))

abbrev pub sizes : List Input → ℕ
sizes [] = 0
sizes (f ∷ fs) = length (bytes_of f.0) + sizes fs

add_file-IsCut :
    (fs : List (List ℕ × List ℕ)) (f : Input) (p : Pack)
    → length (bytes_of f.0) < 2 ^ 32
    → IsCut fs p.recs p.out
    → IsCut (fs ++ packed (f ∷ [])) (add_file f.0 f.1 p).recs (add_file f.0 f.1 p).out
unfolding add_file
add_file-IsCut fs (none, name) p h v = subst (λ z. IsCut z p.recs p.out) (sym (append-nil fs)) v
add_file-IsCut fs (some file, name) p h v =
    let c = f_filecpy p.out file in
    let out : c.out ≡ p.out ++ concat file =
      copy_from_out file (record { sum = 0; len = 0; out = p.out }) in
    let len : c.len ≡ length (concat file) =
      copy_from_len file (record { sum = 0; len = 0; out = p.out }) (omega (arith, h))
      ∙ omega arith in
    elim (Bool-cases (length (concat file) == 0)) [
      | inl e ↦
          let empty : concat file ≡ [] = no_bytes (concat file) (ground (arith, e)) in
          let same : p.out ≡ c.out = sym (out ∙ ap (λ z. p.out ++ z) empty ∙ append-nil p.out) in
          rw (len, e)
            (subst (λ z. IsCut z p.recs c.out) (sym (append-nil fs))
              (subst (IsCut fs p.recs) same v))
      | inr e ↦ rw (len, e, out) (snoc-IsCut fs p.recs p.out (concat file) name _ v refl refl)
    ]

packed-append :
    (before : List (List ℕ × List ℕ)) (f : Input) (fs : List Input)
    → (before ++ packed (f ∷ [])) ++ packed fs ≡ before ++ packed (f ∷ fs)
packed-append before f fs = elim (Bool-cases (length (bytes_of f.0) == 0)) [
  | inl e ↦ rw e (ap (λ z. z ++ packed fs) (append-nil before))
  | inr e ↦ rw e (append_assoc before ((bytes_of f.0, f.1) ∷ []) (packed fs))
]

add_files-IsCut :
    (before : List (List ℕ × List ℕ)) (fs : List Input) (p : Pack)
    → sizes fs < 2 ^ 32
    → IsCut before p.recs p.out
    → IsCut (before ++ packed fs) (add_files fs p).recs (add_files fs p).out
unfolding add_files
add_files-IsCut before [] p h v = subst (λ z. IsCut z p.recs p.out) (sym (append-nil before)) v
add_files-IsCut before (f ∷ fs) p h v =
    let t = add_files fs (add_file f.0 f.1 p) in
    subst (λ z. IsCut z t.recs t.out) (packed-append before f fs)
      (add_files-IsCut (before ++ packed (f ∷ [])) fs (add_file f.0 f.1 p) (omega (arith, h))
        (add_file-IsCut before f p (omega (arith, h)) v))

place_recs-IsPlaced :
    (fs : List (List ℕ × List ℕ)) (rs : List FileRec) (out : List ℕ) (offset lenght cksum : ℕ)
    → IsCut fs rs out
    → lenght + offset + length out < 2 ^ 32
    → IsPlaced (lenght + offset) fs (place_recs offset lenght cksum rs).0 out
unfolding place_recs
place_recs-IsPlaced [] [] out offset lenght cksum h fits = h
place_recs-IsPlaced [] (_ ∷ _) out offset lenght cksum h fits = absurd h
place_recs-IsPlaced (_ ∷ _) [] out offset lenght cksum h fits = absurd h
place_recs-IsPlaced (f ∷ fs) (r ∷ rs) out offset lenght cksum (size, called, (back, cut, more))
      fits =
    let total : length out ≡ length f.0 + length back = ap length cut ∙ length-append f.0 back in
    let here : u32 (lenght + offset) ≡ lenght + offset = omega (arith, fits) in
    let on : u32 (lenght + r.lenght) + offset ≡ lenght + offset + length f.0 =
      omega (arith, fits, total, size) in
    let cksum' = u32 (cksum + f_cksum (rec_bytes (record r { offset = u32 (lenght + offset) }))) in
    let table = (place_recs offset (u32 (lenght + r.lenght)) cksum' rs).0 in
    let later : IsPlaced (u32 (lenght + r.lenght) + offset) fs table back =
      place_recs-IsPlaced fs rs back offset (u32 (lenght + r.lenght)) cksum' more
        (omega (arith, fits, total, size)) in
    (here, size, called, (back, cut, subst (λ z. IsPlaced z fs table back) on later))

-- In a file that fits 32 bits, the table has a record for each of the files that could be opened and are not empty, in
-- their order: with its name, its length and the offset, from the header of the pack on, of where its bytes begin; the
-- files follow one another with nothing between them, from the end of the table to the end.
pub make_image-IsPlaced :
    (version : List ℕ) (loader : Option (List (List ℕ))) (files : List Input)
    → let i = make_image version loader files in
      sizes files < 2 ^ 32
      → i.pack_head.pack_offset + length i.pack < 2 ^ 32
      → IsPlaced (24 + 40 * i.pack_head.rec_num) (packed files) i.table i.pack
unfolding make_image make_pack_head copy_from
make_image-IsPlaced version loader files small fits =
    let p = add_files files (record { cksum = 0; recs = []; out = [] }) in
    let at : 0 + (length p.recs * 40 + 24) ≡ 24 + 40 * length p.recs = omega arith in
    let table = (place_recs (length p.recs * 40 + 24) 0 p.cksum p.recs).0 in
    subst (λ z. IsPlaced z (packed files) table p.out) at
      (place_recs-IsPlaced (packed files) p.recs p.out (length p.recs * 40 + 24) 0 p.cksum
        (add_files-IsCut [] files (record { cksum = 0; recs = []; out = [] }) small refl)
        (omega (arith, fits)))
