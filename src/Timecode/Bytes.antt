-- ===== src/Timecode/Bytes.antt =====
-- One byte: eight bits, least significant first, are stored as that byte.
use magic_lantern.Common.{
  ℕ, zero, suc, ◌+◌, ◌*◌, ◌/◌, ◌%◌, ◌≤◌, ◌<◌, ◌≡◌, refl, ap, ◌∙◌, true, false, Bool, ◌&&◌, List, [],
  ◌∷◌, ◌++◌, arith, set, ltb, ◌==◌, ==_iff, if◌then◌else◌, replicate, length,
}
use magic_lantern.Common.Text.{All}
use magic_lantern.Timecode.{Decoder, reverse_bits, store_byte, push_bit}

-- Bits in the order in which they come, with what `tc_sample` returns at each.
unfoldable pub feed : List ℕ → Decoder → Decoder × List Bool
feed [] s = (s, [])
feed (b ∷ bs) s = let (t, r) = push_bit b s in let (u, rs) = feed bs t in (u, r ∷ rs)

-- A byte on the wire, least significant bit first.
abbrev pub bits : ℕ → List ℕ
bits v =
    v % 2
    ∷ v / 2 % 2
    ∷ v / 4 % 2
    ∷ v / 8 % 2
    ∷ v / 16 % 2
    ∷ v / 32 % 2
    ∷ v / 64 % 2
    ∷ v / 128 % 2
    ∷ []

-- The word after some bits.
abbrev shift_in : ℕ → List ℕ → ℕ
shift_in w [] = w
shift_in w (b ∷ bs) = shift_in (w * 2 + b) bs

all_below : ℕ → (ℕ → Bool) → Bool
all_below zero p = true
all_below (suc n) p = p n && all_below n p

all_below-eq_true : (n : ℕ) (p : ℕ → Bool) (x : ℕ) → all_below n p ≡ true → x < n → p x ≡ true
unfolding all_below
all_below-eq_true zero p x h lt = absurd (omega arith)
all_below-eq_true (suc n) p x h lt = ground (arith, all_below-eq_true n p x)

reversed_table : all_below 256 (λ v. reverse_bits (shift_in 1 (bits v)) == v) ≡ true
unfolding all_below reverse_bits
reversed_table = refl

-- The byte that is stored for the eight bits of `v` is `v`.
reversed : (v : ℕ) → v < 256 → reverse_bits (shift_in 1 (bits v)) ≡ v
reversed v h = (==_iff _ v).0 (all_below-eq_true 256 _ v reversed_table h)

push_bit_wait :
    (b : ℕ) (s : Decoder)
    → s.synced ≡ true
    → b < 2
    → s.word < 128
    → push_bit b s ≡ (record s { word = s.word * 2 + b }, false)
unfolding push_bit
push_bit_wait b s y h w = ground arith

push_bit_full :
    (b : ℕ) (s : Decoder)
    → s.synced ≡ true
    → b < 2
    → 128 ≤ s.word
    → s.word < 256
    → push_bit b s ≡ store_byte (record s { word = s.word * 2 + b })
unfolding push_bit
push_bit_full b s y h w w' = ground arith

-- The state after a byte, and whether it ends the frame.
abbrev pub stored : ℕ → Decoder → Decoder
stored v s = record s {
  frame = set s.frame s.byte_count v;
  byte_count = s.byte_count + 1;
  word = 1;
  synced = ltb (s.byte_count + 1) 8;
}

le-shift_in : (w : ℕ) (bs : List ℕ) → w ≤ shift_in w bs
le-shift_in w [] = omega arith
le-shift_in w (b ∷ bs) = omega (arith, le-shift_in (w * 2 + b) bs)

-- Bits up to the one that fills the word.
feed_until :
    (bs : List ℕ) (c : ℕ) (s : Decoder)
    → s.synced ≡ true
    → All (λ b. b < 2) bs
    → c < 2
    → 128 ≤ shift_in s.word bs
    → shift_in s.word bs < 256
    → let r = store_byte (record s { word = shift_in s.word bs * 2 + c }) in
      feed (bs ++ (c ∷ [])) s ≡ (r.0, replicate (length bs) false ++ (r.1 ∷ []))
unfolding feed
feed_until [] c s y h k low high = rw (push_bit_full c s y k low high) refl
feed_until (b ∷ bs) c s y h k low high =
    rw (push_bit_wait b s y h.0 (omega (arith, le-shift_in (s.word * 2 + b) bs)))
      (rw (feed_until bs c (record s { word = s.word * 2 + b }) y h.1 k low high) refl)

store_byte-stored :
    (v w : ℕ) (s : Decoder)
    → s.synced ≡ true
    → reverse_bits w ≡ v
    → store_byte (record s { word = w })
      ≡ (stored v s, if ltb (s.byte_count + 1) 8 then false else true)
unfolding store_byte
store_byte-stored v w s y e = ground (arith, y, e)

pub feed-bits :
    (v : ℕ) (s : Decoder)
    → v < 256
    → s.synced ≡ true
    → s.word ≡ 1
    → feed (bits v) s
      ≡ (stored v s, replicate 7 false ++ ((if ltb (s.byte_count + 1) 8 then false else true) ∷ []))
feed-bits v s h y w =
    feed_until
      (v % 2 ∷ v / 2 % 2 ∷ v / 4 % 2 ∷ v / 8 % 2 ∷ v / 16 % 2 ∷ v / 32 % 2 ∷ v / 64 % 2 ∷ [])
      (v / 128 % 2) s y (omega arith) (omega arith) (omega arith) (omega arith)
    ∙ rw
        (store_byte-stored v _ s y
          (ap (λ (x : ℕ). reverse_bits (shift_in x (bits v))) w ∙ reversed v h))
        refl
