-- ===== src/Firmware/Dissect.antt =====
-- The parts that dissect_fw.c takes a firmware file apart into. Its tables are those of decrypt-block.c.
use magic_lantern.Common.{
  ℕ, zero, suc, ◌+◌, ◌-◌, ◌*◌, ◌/◌, ◌^◌, ◌≤◌, ◌<◌, ◌≡◌, refl, sym, ap, ◌∙◌, Bool, true, false, List,
  [], ◌∷◌, ◌++◌, arith, take, drop, take-append-drop, append_assoc, if◌then◌else◌,
}
use magic_lantern.Common.Text.{All}
use magic_lantern.Firmware.{entry, dissect_getoffsets, key, decrypt_from, next_offset}
use magic_lantern.Firmware.Stream.{xor_bytes, key-lt}

pub data Part : Type 0 where
  header : Part
  flasher : Part
  data_head : Part
  data_body : Part

abbrev pub hdr_size : ℕ
hdr_size = 0x120

-- `decrypt_block` of dissect_fw.c, with its own offsets.
unfoldable pub dissect_block : List ℕ → ℕ → List ℕ
dissect_block buf base =
    let (offset1, offset2) = dissect_getoffsets base in decrypt_from offset1 offset2 buf

-- What is written to the file of a part. `data_offset` and `data_len` are the fields of the header, and the file has at
-- least 0x18 bytes from the offset on.
unfoldable pub part_bytes : ℕ → ℕ → List ℕ → Part → List ℕ
unfolding dissect_block
part_bytes data_offset data_len image header = take hdr_size image
part_bytes data_offset data_len image flasher =
    dissect_block (take (data_offset - hdr_size) (drop hdr_size image)) data_len
part_bytes data_offset data_len image data_head = take 0x18 (drop data_offset image)
part_bytes data_offset data_len image data_body = drop 0x18 (drop data_offset image)

-- The rows of the report for the words of the header: the offset and the word, `left` rows from the word `i` on.
unfoldable pub report_rows : ℕ → ℕ → List ℕ → List (ℕ × ℕ)
report_rows zero i image = []
report_rows (suc left) i image =
    let word =
      entry image (i * 4)
      + entry image (i * 4 + 1) * 2 ^ 8
      + entry image (i * 4 + 2) * 2 ^ 16
      + entry image (i * 4 + 3) * 2 ^ 24 in
    (i * 4, word) ∷ report_rows left (suc i) image

-- The parts in their order, up to the first whose file cannot be created: whether that is all, and those written.
unfoldable pub write_parts :
    (Part → Bool) → (Part → List ℕ) → List Part → Bool × List (Part × List ℕ)
write_parts opens bytes [] = (true, [])
write_parts opens bytes (p ∷ parts) =
    let (all, rest) = write_parts opens bytes parts in
    if opens p then (all, (p, bytes p) ∷ rest) else (false, [])

-- `main`, after the input and the report are opened: success, the parts, and the rows of the report, which come after the
-- first part.
unfoldable pub dissect : (Part → Bool) → ℕ → ℕ → List ℕ → Bool × List (Part × List ℕ) × List (ℕ × ℕ)
unfolding part_bytes write_parts report_rows
dissect opens data_offset data_len image =
    let (all, written) =
      write_parts opens (part_bytes data_offset data_len image)
        (header ∷ flasher ∷ data_head ∷ data_body ∷ []) in
    (all, written, if opens header then report_rows (hdr_size / 4) 0 image else [])

-- Decryption undoes itself, wherever it starts in the tables.
decrypt_from_twice :
    (offset1 offset2 : ℕ) (buf : List ℕ)
    → All (λ c. c < 256) buf
    → decrypt_from offset1 offset2 (decrypt_from offset1 offset2 buf) ≡ buf
unfolding decrypt_from
decrypt_from_twice offset1 offset2 [] h = refl
decrypt_from_twice offset1 offset2 (c ∷ buf) h =
    let back = (xor_bytes c (key offset1 offset2) h.0 (key-lt offset1 offset2)).0 in
    let rest = decrypt_from_twice (next_offset 512 offset1) (next_offset 513 offset2) buf h.1 in
    rw (back, rest) refl

All-take : (n : ℕ) (xs : List ℕ) → All (λ c. c < 256) xs → All (λ c. c < 256) (take n xs)
All-take zero xs h = tt
All-take (suc n) [] h = tt
All-take (suc n) (x ∷ xs) h = (h.0, All-take n xs h.1)

All-drop : (n : ℕ) (xs : List ℕ) → All (λ c. c < 256) xs → All (λ c. c < 256) (drop n xs)
All-drop zero xs h = h
All-drop (suc n) [] h = tt
All-drop (suc n) (x ∷ xs) h = All-drop n xs h.1

drop_nil : (n : ℕ) → drop {A = ℕ} n [] ≡ []
drop_nil zero = refl
drop_nil (suc n) = refl

drop-drop : (n m : ℕ) (xs : List ℕ) → drop m (drop n xs) ≡ drop (n + m) xs
drop-drop zero m xs = ap (λ k. drop k xs) (omega arith)
drop-drop (suc n) m [] = drop_nil m ∙ sym (drop_nil (suc n + m))
drop-drop (suc n) m (x ∷ xs) =
    let next : suc (n + m) ≡ suc n + m = omega arith in
    drop-drop n m xs ∙ ap (λ k. drop k (x ∷ xs)) next

-- Where every file can be created, the dissection of a file of bytes succeeds, and its four parts, the flasher encrypted
-- again, are the file from its beginning to its end.
pub dissect-dissect_block :
    (opens : Part → Bool) (data_offset data_len : ℕ) (image : List ℕ)
    → ((p : Part) → opens p ≡ true)
    → hdr_size ≤ data_offset
    → All (λ c. c < 256) image
    → let part = part_bytes data_offset data_len image in
      let (all, written, rows) = dissect opens data_offset data_len image in
      (all ≡ true)
      × (written
          ≡ (header, part header)
            ∷ (flasher, part flasher)
            ∷ (data_head, part data_head)
            ∷ (data_body, part data_body)
            ∷ [])
      × (part header ++ dissect_block (part flasher) data_len ++ part data_head ++ part data_body
          ≡ image)
unfolding dissect write_parts part_bytes dissect_block
dissect-dissect_block opens data_offset data_len image opened order bytes =
    let rest = drop hdr_size image in
    let middle = take (data_offset - hdr_size) rest in
    let tail = drop data_offset image in
    let (offset1, offset2) = dissect_getoffsets data_len in
    let back : dissect_block (dissect_block middle data_len) data_len ≡ middle =
      decrypt_from_twice offset1 offset2 middle
        (All-take (data_offset - hdr_size) rest (All-drop hdr_size image bytes)) in
    let place : hdr_size + (data_offset - hdr_size) ≡ data_offset = omega (arith, order) in
    let after : drop (data_offset - hdr_size) rest ≡ tail =
      drop-drop hdr_size (data_offset - hdr_size) image ∙ ap (λ k. drop k image) place in
    (
      rw (opened header, opened flasher, opened data_head, opened data_body) refl,
      rw (opened header, opened flasher, opened data_head, opened data_body) refl,
      ap (λ m. take hdr_size image ++ m ++ take 0x18 tail ++ drop 0x18 tail) back
          ∙ append_assoc (take hdr_size image ++ middle) (take 0x18 tail) (drop 0x18 tail)
          ∙ ap (λ t. take hdr_size image ++ middle ++ t) (take-append-drop 0x18 tail ∙ sym after)
          ∙ append_assoc (take hdr_size image) middle (drop (data_offset - hdr_size) rest)
          ∙ ap (λ t. take hdr_size image ++ t) (take-append-drop (data_offset - hdr_size) rest)
          ∙ take-append-drop hdr_size image,
    )
