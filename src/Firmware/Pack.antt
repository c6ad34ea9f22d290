-- ===== src/Firmware/Pack.antt =====
-- pack-fir.c: a firmware file is put together from its parts. `t_dword` is a word of 32 bits, and a structure is written
-- as its bytes, the lowest first.
pub mod Checksum
pub mod Placed
use magic_lantern.Common.{
  ℕ, zero, suc, ◌+◌, ◌-◌, ◌*◌, ◌/◌, ◌%◌, ◌^◌, List, [], ◌∷◌, ◌++◌, length, Option, none, some,
  replicate, ◌==◌, if◌then◌else◌,
}
use magic_lantern.Common.Word.{u32}

abbrev pub dword : ℕ → List ℕ
dword n = n % 256 ∷ n / 2 ^ 8 % 256 ∷ n / 2 ^ 16 % 256 ∷ n / 2 ^ 24 % 256 ∷ []

pub record MainHead : Type 0 where
  pub version : List ℕ
  pub cksum : ℕ
  pub first_offset : ℕ
  pub second_offset : ℕ

pub record PackHead : Type 0 where
  pub cksum : ℕ
  pub rec_num : ℕ
  pub table_offset : ℕ
  pub pack_offset : ℕ
  pub table_lenght : ℕ
  pub pack_lenght : ℕ

-- `flags` is never set, and is 0.
pub record FileRec : Type 0 where
  pub offset : ℕ
  pub lenght : ℕ
  pub name : List ℕ

unfoldable pub main_bytes : MainHead → List ℕ
main_bytes h =
    dword 0x80000250
    ++ replicate 12 0
    ++ h.version
    ++ dword h.cksum
    ++ dword h.first_offset
    ++ dword h.second_offset
    ++ dword 0

unfoldable pub pack_bytes : PackHead → List ℕ
pack_bytes h =
    dword h.cksum
    ++ dword h.rec_num
    ++ dword h.table_offset
    ++ dword h.pack_offset
    ++ dword h.table_lenght
    ++ dword h.pack_lenght

unfoldable pub rec_bytes : FileRec → List ℕ
rec_bytes r = dword 0 ++ dword r.offset ++ dword r.lenght ++ r.name

unfoldable pub table_bytes : List FileRec → List ℕ
table_bytes [] = []
table_bytes (r ∷ rs) = rec_bytes r ++ table_bytes rs

-- `f_cksum`, its loop with the sum so far.
unfoldable pub cksum_from : ℕ → List ℕ → ℕ
cksum_from sum [] = sum
cksum_from sum (c ∷ p) = cksum_from (u32 (sum + c)) p

abbrev pub f_cksum : List ℕ → ℕ
f_cksum p = cksum_from 0 p

-- `CK`, for a word.
abbrev pub ck : ℕ → ℕ
ck x = 2 ^ 32 - 1 - x

-- What a copy has counted and written.
pub record Copied : Type 0 where
  pub sum : ℕ
  pub len : ℕ
  pub out : List ℕ

-- The loop of `f_filecpy`, over the pieces that `fread` gives.
unfoldable pub copy_from : Copied → List (List ℕ) → Copied
copy_from c [] = c
copy_from c (buf ∷ more) =
    copy_from
      (record {
        sum = u32 (c.sum + f_cksum buf);
        len = u32 (c.len + length buf);
        out = c.out ++ buf;
      })
      more

abbrev pub f_filecpy : List ℕ → List (List ℕ) → Copied
f_filecpy out file = copy_from (record { sum = 0; len = 0; out = out }) file

-- The files of the pack: the sum of their bytes, their records with no offset yet, and what is written.
pub record Pack : Type 0 where
  pub cksum : ℕ
  pub recs : List FileRec
  pub out : List ℕ

-- `f_add` with the `i++` after it. `none` is a file that cannot be opened. A record counts if its length is not 0.
unfoldable pub add_file : Option (List (List ℕ)) → List ℕ → Pack → Pack
add_file none name p = p
add_file (some file) name p =
    let c = f_filecpy p.out file in
    record {
      cksum = u32 (p.cksum + c.sum);
      recs =
          if c.len == 0
          then p.recs
          else p.recs ++ (record { offset = 0; lenght = c.len; name = name } ∷ []);
      out = c.out;
    }

-- The pieces that `fread` gives, and the name in 28 bytes.
abbrev pub Input : Type 0
Input = Option (List (List ℕ)) × List ℕ

unfoldable pub add_files : List Input → Pack → Pack
add_files [] p = p
add_files (f ∷ fs) p = add_files fs (add_file f.0 f.1 p)

-- The loop over the records: each gets its offset, `packLenght` is moved on, and their bytes are added to the sum.
unfoldable pub place_recs : ℕ → ℕ → ℕ → List FileRec → List FileRec × (ℕ × ℕ)
place_recs pack_offset pack_lenght cksum [] = ([], (pack_lenght, cksum))
place_recs pack_offset pack_lenght cksum (r ∷ rs) =
    let placed = record r { offset = u32 (pack_lenght + pack_offset) } in
    let (more, end) =
      place_recs pack_offset (u32 (pack_lenght + r.lenght))
        (u32 (cksum + f_cksum (rec_bytes placed))) rs in
    (placed ∷ more, end)

-- A file that is packed; `loader` is what was written between the two headers.
pub record Image : Type 0 where
  pub main_head : MainHead
  pub loader : List ℕ
  pub pack_head : PackHead
  pub table : List FileRec
  pub pack : List ℕ

unfoldable pub image_bytes : Image → List ℕ
image_bytes i =
    main_bytes i.main_head ++ i.loader ++ pack_bytes i.pack_head ++ table_bytes i.table ++ i.pack

unfoldable pub make_pack_head : Pack → List FileRec × PackHead
make_pack_head p =
    let table_lenght = length p.recs * 40 in
    let pack_offset = table_lenght + 24 in
    let (table, (pack_lenght, cksum)) = place_recs pack_offset 0 p.cksum p.recs in
    let head : PackHead = record {
      cksum = 0;
      rec_num = length p.recs;
      table_offset = 24;
      pack_offset = pack_offset;
      table_lenght = table_lenght;
      pack_lenght = pack_lenght;
    } in
    (table, record head { cksum = ck (u32 (cksum + f_cksum (pack_bytes head))) })

abbrev pub loader_of : Option (List (List ℕ)) → Copied
loader_of none = record { sum = 0; len = 0; out = [] }
loader_of (some file) = f_filecpy [] file

-- `main`, for a version of 16 bytes, the loader, and the files of the pack. The pack is read back in one piece.
unfoldable pub make_image : List ℕ → Option (List (List ℕ)) → List Input → Image
make_image version loader files =
    let p = add_files files (record { cksum = 0; recs = []; out = [] }) in
    let (table, pack_head) = make_pack_head p in
    let l = loader_of loader in
    let copied = f_filecpy [] (p.out ∷ []) in
    let head : MainHead = record {
      version = version;
      cksum = 0;
      first_offset = 48;
      second_offset = u32 (48 + l.len);
    } in
    let cksum = u32 (
      l.sum
      + copied.sum
      + f_cksum (main_bytes head)
      + f_cksum (pack_bytes pack_head)
      + f_cksum (table_bytes table)) in
    record {
      main_head = record head { cksum = ck cksum };
      loader = l.out;
      pack_head = pack_head;
      table = table;
      pack = copied.out;
    }
