-- ===== src/Firmware/Stream.antt =====
-- The bytes of a block and of a stream of decrypt-block.c, and their keys.
use Prim.Native.Nat.{bit_xor}
use magic_lantern.Common.{
  ℕ, zero, suc, ◌+◌, ◌*◌, ◌/◌, ◌%◌, ◌^◌, ◌<◌, ◌≡◌, refl, sym, ap, ◌∙◌, Bool, true, List, [], ◌∷◌,
  ◌++◌, length, length-append, arith, ltb, ◌==◌, ◌&&◌,
}
use magic_lantern.Common.Word.{u32}
use magic_lantern.Common.Text.{All}
use magic_lantern.Common.Range.{passes, passes_each}
use magic_lantern.Firmware.Tables.{crypt1, crypt2}
use magic_lantern.Firmware.{entry, key, next_offset, decrypt_from, decrypt_block, decrypt_stream}
use magic_lantern.Firmware.Offsets.{getoffsets_lem}

-- The key of the byte at an offset of the file: the tables repeat after 512 and 513 bytes.
unfoldable pub key_at : ℕ → ℕ
key_at offset = key (offset % 512) (offset % 513)

unfoldable pub with_keys : ℕ → List ℕ → List ℕ
with_keys offset [] = []
with_keys offset (c ∷ buf) = bit_xor c (key_at offset) ∷ with_keys (offset + 1) buf

abbrev pub concat : List (List ℕ) → List ℕ
concat [] = []
concat (xs ∷ more) = xs ++ concat more

decrypt_from-with_keys :
    (buf : List ℕ) (n : ℕ) → decrypt_from (n % 512) (n % 513) buf ≡ with_keys n buf
unfolding decrypt_from with_keys key_at
decrypt_from-with_keys [] n = refl
decrypt_from-with_keys (c ∷ buf) n =
    let one : next_offset 512 (n % 512) ≡ (n + 1) % 512 = ground arith in
    let two : next_offset 513 (n % 513) ≡ (n + 1) % 513 = ground arith in
    ap (λ rest. bit_xor c (key (n % 512) (n % 513)) ∷ rest)
      (ap (λ o. decrypt_from o (next_offset 513 (n % 513)) buf) one
        ∙ ap (λ o. decrypt_from ((n + 1) % 512) o buf) two
        ∙ decrypt_from-with_keys buf (n + 1))

-- A block at an offset of 32 bits: the offsets into the tables stay inside of them, and each byte is changed by the
-- key of its place in the file.
decrypt_block-with_keys :
    (buf : List ℕ) (base : ℕ) → base < 2 ^ 32 → decrypt_block buf base ≡ with_keys base buf
unfolding decrypt_block
decrypt_block-with_keys buf base h =
    ap (λ o. decrypt_from o.0 o.1 buf) (getoffsets_lem base h) ∙ decrypt_from-with_keys buf base

with_keys-append :
    (xs ys : List ℕ) (n : ℕ)
    → with_keys n (xs ++ ys) ≡ with_keys n xs ++ with_keys (n + length xs) ys
unfolding with_keys
with_keys-append [] ys n = ap (λ z. with_keys z ys) (the_sum n)
  where
    the_sum : (n : ℕ) → n ≡ n + 0
    the_sum n = omega arith
with_keys-append (x ∷ xs) ys n =
    let sum : n + 1 + length xs ≡ n + suc (length xs) = omega arith in
    ap (λ rest. bit_xor x (key_at n) ∷ rest)
      (with_keys-append xs ys (n + 1) ∙ ap (λ z. with_keys (n + 1) xs ++ with_keys z ys) sum)

decrypt_stream-with_keys :
    (bufs : List (List ℕ)) (offset : ℕ)
    → offset + length (concat bufs) < 2 ^ 32
    → decrypt_stream bufs offset ≡ with_keys offset (concat bufs)
unfolding decrypt_stream with_keys
decrypt_stream-with_keys [] offset h = refl
decrypt_stream-with_keys (buf ∷ more) offset h =
    let total = length-append buf (concat more) in
    let in_word : u32 (offset + length buf) ≡ offset + length buf = omega (arith, h, total) in
    ap (λ z. decrypt_block buf offset ++ decrypt_stream more z) in_word
    ∙ ap (λ z. z ++ decrypt_stream more (offset + length buf))
        (decrypt_block-with_keys buf offset (omega (arith, h, total)))
    ∙ ap (λ z. with_keys offset buf ++ z)
        (decrypt_stream-with_keys more (offset + length buf) (omega (arith, h, total)))
    ∙ sym (with_keys-append buf (concat more) offset)

-- However a stream is cut into pieces by the reads, what is written is the whole, decrypted as one block, if its
-- offsets do not exceed 32 bits.
pub decrypt_stream-decrypt_block :
    (bufs : List (List ℕ)) (offset : ℕ)
    → offset + length (concat bufs) < 2 ^ 32
    → decrypt_stream bufs offset ≡ decrypt_block (concat bufs) offset
decrypt_stream-decrypt_block bufs offset h =
    decrypt_stream-with_keys bufs offset h
    ∙ sym (decrypt_block-with_keys (concat bufs) offset (omega (arith, h)))

-- Two bytes: the second takes itself off again, and the result is a byte.
xor_table :
    passes
      (λ n.
        (bit_xor (bit_xor (n / 256) (n % 256)) (n % 256) == n / 256)
        && ltb (bit_xor (n / 256) (n % 256)) 256)
      65536
    ≡ true
unfolding passes
xor_table = refl

pub xor_bytes : (b k : ℕ) → b < 256 → k < 256 → (bit_xor (bit_xor b k) k ≡ b) × (bit_xor b k < 256)
xor_bytes b k hb hk =
    let tested =
      passes_each
        (λ n.
          (bit_xor (bit_xor (n / 256) (n % 256)) (n % 256) == n / 256)
          && ltb (bit_xor (n / 256) (n % 256)) 256)
        65536 xor_table (b * 256 + k) (omega (arith, hb, hk)) in
    let high : (b * 256 + k) / 256 ≡ b = omega (arith, hk) in
    let low : (b * 256 + k) % 256 ≡ k = omega (arith, hk) in
    bytes_of b k (sym (rw (high, low) refl) ∙ tested)
  where
    bytes_of :
        (b k : ℕ)
        → ((bit_xor (bit_xor b k) k == b) && ltb (bit_xor b k) 256) ≡ true
        → (bit_xor (bit_xor b k) k ≡ b) × (bit_xor b k < 256)
    bytes_of b k h = ground (arith, h)

entry-lt : (xs : List ℕ) (i : ℕ) → All (λ x. ltb x 256 ≡ true) xs → entry xs i < 256
entry-lt [] i h = omega arith
entry-lt (x ∷ xs) zero h = ground (arith, h.0)
entry-lt (x ∷ xs) (suc i) h = entry-lt xs i h.1

are_bytes : List ℕ → Bool
are_bytes [] = true
are_bytes (x ∷ xs) = ltb x 256 && are_bytes xs

are_bytes-All : (xs : List ℕ) → are_bytes xs ≡ true → All (λ x. ltb x 256 ≡ true) xs
unfolding are_bytes
are_bytes-All [] h = tt
are_bytes-All (x ∷ xs) h = (ground (arith, h), are_bytes-All xs (ground (arith, h)))

tables : (are_bytes crypt1 ≡ true) × (are_bytes crypt2 ≡ true)
unfolding are_bytes
tables = (refl, refl)

pub key-lt : (offset1 offset2 : ℕ) → key offset1 offset2 < 256
unfolding key
key-lt offset1 offset2 =
    let one = entry-lt crypt1 offset1 (are_bytes-All crypt1 tables.0) in
    let two = entry-lt crypt2 offset2 (are_bytes-All crypt2 tables.1) in
    (xor_bytes _ 0x37 (xor_bytes _ _ one two).1 (omega arith)).1

with_keys_twice :
    (buf : List ℕ) (n : ℕ) → All (λ c. c < 256) buf → with_keys n (with_keys n buf) ≡ buf
unfolding with_keys key_at
with_keys_twice [] n h = refl
with_keys_twice (c ∷ buf) n h =
    let back = (xor_bytes c (key_at n) h.0 (key-lt (n % 512) (n % 513))).0 in
    ap (λ z. z ∷ with_keys (n + 1) (with_keys (n + 1) buf)) back
    ∙ ap (λ rest. c ∷ rest) (with_keys_twice buf (n + 1) h.1)

-- Decrypting a block of bytes twice at the same offset of 32 bits gives it back: the same program encrypts.
decrypt_block_twice :
    (buf : List ℕ) (base : ℕ)
    → base < 2 ^ 32
    → All (λ c. c < 256) buf
    → decrypt_block (decrypt_block buf base) base ≡ buf
decrypt_block_twice buf base h bytes =
    decrypt_block-with_keys (decrypt_block buf base) base h
    ∙ ap (with_keys base) (decrypt_block-with_keys buf base h)
    ∙ with_keys_twice buf base bytes
