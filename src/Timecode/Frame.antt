-- ===== src/Timecode/Frame.antt =====
-- Whole frames: the sync word, then eight bytes.
use magic_lantern.Common.{
  ℕ, zero, suc, ◌+◌, ◌*◌, ◌%◌, ◌^◌, ◌<◌, ◌≡◌, ◌≢◌, refl, sym, ap, ◌∙◌, true, false, Bool, List, [],
  ◌∷◌, ◌++◌, append_assoc, arith, set, ltb, if◌then◌else◌, replicate, length, length-append,
  Bool-cases, inl, inr,
}
use magic_lantern.Common.Text.{All}
use magic_lantern.Timecode.{Decoder, push_bit}
use magic_lantern.Timecode.Bytes.{feed, bits, feed-bits, stored}

feed-append :
    (xs ys : List ℕ) (s : Decoder)
    → feed (xs ++ ys) s ≡ ((feed ys (feed xs s).0).0, (feed xs s).1 ++ (feed ys (feed xs s).0).1)
unfolding feed
feed-append [] ys s = refl
feed-append (b ∷ xs) ys s = rw (feed-append xs ys (push_bit b s).0) refl

-- The bits of the bytes of a frame.
abbrev pub data_bits : List ℕ → List ℕ
data_bits [] = []
data_bits (v ∷ vs) = bits v ++ data_bits vs

-- 0x3FFD, as it is sent: 0011 1111 1111 1101.
abbrev pub sync_bits : List ℕ
sync_bits = 0 ∷ 0 ∷ 1 ∷ 1 ∷ 1 ∷ 1 ∷ 1 ∷ 1 ∷ 1 ∷ 1 ∷ 1 ∷ 1 ∷ 1 ∷ 1 ∷ 0 ∷ 1 ∷ []

-- The words that the decoder sees are not the sync word.
abbrev Quiet : ℕ → List ℕ → Type 0
Quiet w [] = Unit
Quiet w (b ∷ bs) = ((w * 2 + b) % 2 ^ 32 % 2 ^ 16 ≢ 0x3FFD) × Quiet ((w * 2 + b) % 2 ^ 32) bs

abbrev hunted : ℕ → List ℕ → ℕ
hunted w [] = w
hunted w (b ∷ bs) = hunted ((w * 2 + b) % 2 ^ 32) bs

push_bit_hunt :
    (b : ℕ) (s : Decoder)
    → s.synced ≡ false
    → (s.word * 2 + b) % 2 ^ 32 % 2 ^ 16 ≢ 0x3FFD
    → push_bit b s ≡ (record s { word = (s.word * 2 + b) % 2 ^ 32 }, false)
unfolding push_bit
push_bit_hunt b s y h = ground (arith, y, h)

push_bit_lock :
    (b : ℕ) (s : Decoder)
    → s.synced ≡ false
    → (s.word * 2 + b) % 2 ^ 32 % 2 ^ 16 ≡ 0x3FFD
    → push_bit b s ≡ (record s { word = 1; synced = true; byte_count = 0 }, false)
unfolding push_bit
push_bit_lock b s y h = ground (arith, y, h)

feed_hunt :
    (bs : List ℕ) (c : ℕ) (s : Decoder)
    → s.synced ≡ false
    → Quiet s.word bs
    → (hunted s.word bs * 2 + c) % 2 ^ 32 % 2 ^ 16 ≡ 0x3FFD
    → feed (bs ++ (c ∷ [])) s
      ≡ (record s { word = 1; synced = true; byte_count = 0 }, replicate (suc (length bs)) false)
unfolding feed
feed_hunt [] c s y q h = rw (push_bit_lock c s y h) refl
feed_hunt (b ∷ bs) c s y q h =
    rw (push_bit_hunt b s y q.0)
      (rw (feed_hunt bs c (record s { word = (s.word * 2 + b) % 2 ^ 32 }) y q.1 h) refl)

abbrev hunt_bits : List ℕ
hunt_bits = 0 ∷ 0 ∷ 1 ∷ 1 ∷ 1 ∷ 1 ∷ 1 ∷ 1 ∷ 1 ∷ 1 ∷ 1 ∷ 1 ∷ 1 ∷ 1 ∷ 0 ∷ []

hunt-Quiet : (w : ℕ) → Quiet w hunt_bits
hunt-Quiet w = omega arith

hunt_end : (w : ℕ) → (hunted w hunt_bits * 2 + 1) % 2 ^ 32 % 2 ^ 16 ≡ 0x3FFD
hunt_end w = omega arith

-- A decoder that hunts is locked by the sync word, whatever it saw before.
pub feed-sync_bits :
    (s : Decoder)
    → s.synced ≡ false
    → feed sync_bits s ≡ (record s { word = 1; synced = true; byte_count = 0 }, replicate 16 false)
feed-sync_bits s y = feed_hunt hunt_bits 1 s y (hunt-Quiet s.word) (hunt_end s.word)

-- The frame after bytes are written from place `k` on.
abbrev overwrite : ℕ → List ℕ → List ℕ → List ℕ
overwrite k frame [] = frame
overwrite k frame (v ∷ vs) = overwrite (k + 1) (set frame k v) vs

set-append :
    (pre : List ℕ) (x : ℕ) (post : List ℕ) (v : ℕ)
    → set (pre ++ (x ∷ post)) (length pre) v ≡ pre ++ (v ∷ post)
set-append [] x post v = refl
set-append (p ∷ pre) x post v = ap (λ l. p ∷ l) (set-append pre x post v)

overwrite-append :
    (pre post vs : List ℕ) (k : ℕ)
    → k ≡ length pre
    → length post ≡ length vs
    → overwrite k (pre ++ post) vs ≡ pre ++ vs
overwrite-append pre [] [] k e h = refl
overwrite-append pre [] (v ∷ vs) k e h = absurd (omega (arith, h))
overwrite-append pre (x ∷ post) [] k e h = absurd (omega (arith, h))
overwrite-append pre (x ∷ post) (v ∷ vs) k e h =
    ap (λ l. overwrite (k + 1) l vs)
      (rw e (set-append pre x post v) ∙ sym (append_assoc pre (v ∷ []) post))
    ∙ overwrite-append (pre ++ (v ∷ [])) post vs (k + 1)
        (omega (arith, e, length-append pre (v ∷ []))) (omega (arith, h))
    ∙ append_assoc pre (v ∷ []) vs

-- What is returned for the bits of `n + 1` bytes: 1 at the last.
abbrev returns : ℕ → List Bool
returns zero = replicate 7 false ++ (true ∷ [])
returns (suc n) = replicate 8 false ++ returns n

feed_bytes :
    (v : ℕ) (vs : List ℕ) (s : Decoder)
    → All (λ u. u < 256) (v ∷ vs)
    → s.synced ≡ true
    → s.word ≡ 1
    → s.byte_count + length (v ∷ vs) ≡ 8
    → feed (data_bits (v ∷ vs)) s ≡ (
      record s {
        frame = overwrite s.byte_count s.frame (v ∷ vs);
        byte_count = 8;
        word = 1;
        synced = false;
      },
      returns (length vs),
    )
feed_bytes v [] s h y w k =
    let last : s.byte_count + 1 ≡ 8 = omega (arith, k) in feed-bits v s h.0 y w ∙ rw last refl
feed_bytes v (u ∷ vs) s h y w k =
    let more : ltb (s.byte_count + 1) 8 ≡ true = ground (arith, k) in
    feed-append (bits v) (data_bits (u ∷ vs)) s
    ∙ rw (feed-bits v s h.0 y w)
        (rw (feed_bytes u vs (stored v s) h.1 more refl (omega (arith, k))) (rw more refl))

-- What is returned for one frame: 1 at its last bit.
abbrev pub frame_returns : List Bool
frame_returns = replicate 79 false ++ (true ∷ [])

-- A frame on the wire.
abbrev pub frame_bits : List ℕ → List ℕ
frame_bits vs = sync_bits ++ data_bits vs

-- The sync word and eight bytes, sent to a decoder that hunts, leave exactly these bytes in the frame and
-- the decoder hunting again; the result is 1 at the last of the 80 bits and at no other.
pub feed-frame_bits :
    (vs : List ℕ) (s : Decoder)
    → All (λ v. v < 256) vs
    → length vs ≡ 8
    → length s.frame ≡ 8
    → s.synced ≡ false
    → feed (frame_bits vs) s
      ≡ (record s { frame = vs; byte_count = 8; word = 1; synced = false }, frame_returns)
feed-frame_bits [] s h l f y = absurd (omega (arith, l))
feed-frame_bits (v ∷ vs) s h l f y =
    let n : length vs ≡ 7 = omega (arith, l) in
    feed-append sync_bits (data_bits (v ∷ vs)) s
    ∙ rw (feed-sync_bits s y) (
        rw
          (feed_bytes v vs (record s { word = 1; synced = true; byte_count = 0 }) h refl refl
            (omega (arith, l)))
          (rw (n, overwrite-append [] s.frame (v ∷ vs) 0 refl (f ∙ sym l)) refl))

-- A stream of frames on the wire, and the frames that are complete after each.
abbrev pub stream : List (List ℕ) → List ℕ
stream [] = []
stream (vs ∷ frames) = frame_bits vs ++ stream frames

-- The frames that `process_timecode` sees: `smpte_frame` wherever the result is 1.
unfoldable pub seen : List ℕ → Decoder → List (List ℕ)
seen [] s = []
seen (b ∷ bs) s =
    let (t, complete) = push_bit b s in
    let rest = seen bs t in if complete then t.frame ∷ rest else rest

seen-append :
    (xs ys : List ℕ) (s : Decoder) → seen (xs ++ ys) s ≡ seen xs s ++ seen ys (feed xs s).0
unfolding seen feed
seen-append [] ys s = refl
seen-append (b ∷ xs) ys s = elim (Bool-cases (push_bit b s).1) [
  | inl e ↦ rw e (ap (λ l. (push_bit b s).0.frame ∷ l) (seen-append xs ys (push_bit b s).0))
  | inr e ↦ rw e (seen-append xs ys (push_bit b s).0)
]

seen_last :
    (xs : List ℕ) (s : Decoder) (n : ℕ)
    → (feed xs s).1 ≡ replicate n false ++ (true ∷ [])
    → seen xs s ≡ (feed xs s).0.frame ∷ []
unfolding seen feed
seen_last [] s zero e = cc
seen_last [] s (suc n) e = cc
seen_last (b ∷ []) s zero e = let complete : (push_bit b s).1 ≡ true = cc in rw complete refl
seen_last (b ∷ c ∷ xs) s zero e = cc
seen_last (b ∷ xs) s (suc n) e =
    let wait : (push_bit b s).1 ≡ false = cc in
    let later : (feed xs (push_bit b s).0).1 ≡ replicate n false ++ (true ∷ []) = cc in
    rw wait (seen_last xs (push_bit b s).0 n later)

seen-frame_bits :
    (vs : List ℕ) (s : Decoder)
    → All (λ v. v < 256) vs
    → length vs ≡ 8
    → length s.frame ≡ 8
    → s.synced ≡ false
    → seen (frame_bits vs) s ≡ vs ∷ []
seen-frame_bits vs s h l f y =
    let whole = feed-frame_bits vs s h l f y in
    seen_last (frame_bits vs) s 79 (ap (λ (r : Decoder × List Bool). r.1) whole)
    ∙ ap (λ (r : Decoder × List Bool). r.0.frame ∷ []) whole

-- From a decoder that hunts, a stream of frames is decoded to exactly these frames, in order.
pub seen-stream :
    (frames : List (List ℕ)) (s : Decoder)
    → All (λ vs. All (λ v. v < 256) vs × (length vs ≡ 8)) frames
    → length s.frame ≡ 8
    → s.synced ≡ false
    → seen (stream frames) s ≡ frames
seen-stream [] s h f y = unfold seen in refl
seen-stream (vs ∷ frames) s h f y =
    seen-append (frame_bits vs) (stream frames) s
    ∙ rw (seen-frame_bits vs s h.0.0 h.0.1 f y, feed-frame_bits vs s h.0.0 h.0.1 f y)
        (ap (λ l. vs ∷ l)
          (seen-stream frames (record s { frame = vs; byte_count = 8; word = 1; synced = false })
            h.1 h.0.1 refl))
