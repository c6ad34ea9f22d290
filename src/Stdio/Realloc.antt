-- ===== src/Stdio/Realloc.antt =====
-- `realloc` of stdio.c. The memory is seen by words, and the size of a block, in bytes, stands in the word before it.
use magic_lantern.Common.{
  ℕ, ◌+◌, ◌-◌, ◌/◌, ◌%◌, ◌≤◌, ◌<◌, ◌≡◌, ◌≢◌, refl, ◌∙◌, ◌⊎◌, inl, inr, true, false, not, Bool-cases,
  List, [], ◌∷◌, arith, ltb, ◌==◌, if◌then◌else◌,
}
use magic_lantern.Common.Memory.{copy_words, AreApart, copy_words_inside}

pub data Call : Type 0 where
  malloc : ℕ → Call
  free : ℕ → Call

-- What `malloc` of the firmware does: the block that it returns (0 is NULL), and the memory afterwards.
pub record Allocated : Type 0 where
  pub place : ℕ
  pub memory : ℕ → ℕ

-- What `realloc` returns, the calls that it makes, and the memory.
pub record Returned : Type 0 where
  pub place : ℕ
  pub calls : List Call
  pub memory : ℕ → ℕ

abbrev pub size_of : ℕ → (ℕ → ℕ) → ℕ
size_of buf memory = memory (buf - 1)

-- The allocation of the firmware.
pub record Heap : Type 0 where
  pub malloc : ℕ → (ℕ → ℕ) → Allocated
  pub free : ℕ → (ℕ → ℕ) → ℕ → ℕ

unfoldable pub realloc : Heap → ℕ → ℕ → (ℕ → ℕ) → Returned
realloc heap buf new_size memory =
    let a = heap.malloc new_size memory in
    if buf == 0
    then record { place = a.place; calls = malloc new_size ∷ []; memory = a.memory }
    else if new_size == 0
    then record { place = 0; calls = free buf ∷ []; memory = heap.free buf memory }
    else if not (size_of buf memory % 4 == 0)
    then record { place = 0; calls = []; memory = memory }
    else if ltb new_size (size_of buf memory)
    then record { place = buf; calls = []; memory = memory }
    else if a.place == 0
    then record { place = 0; calls = malloc new_size ∷ []; memory = a.memory }
    else record {
      place = a.place;
      calls = malloc new_size ∷ [];
      memory = copy_words (size_of buf a.memory / 4) buf a.place a.memory;
    }

-- The bytes of a block are kept from one memory to another, where it may have another place.
abbrev pub Keeps : ℕ → ℕ → (ℕ → ℕ) → ℕ → (ℕ → ℕ) → Type 0
Keeps n buf memory place after = place ≢ 0 → (i : ℕ) → i < n → after (place + i) ≡ memory (buf + i)

-- The copy of a block that `malloc` has left as it was.
copied_lem :
    (buf : ℕ) (memory : ℕ → ℕ) (a : Allocated)
    → ((k : ℕ) → buf - 1 ≤ k → k < buf + size_of buf memory / 4 → a.memory k ≡ memory k)
    → AreApart (size_of buf memory / 4) buf a.place
    → 0 < size_of buf memory / 4
    → Keeps
        (size_of buf memory / 4)
        buf
        memory
        a.place
        (copy_words (size_of buf a.memory / 4) buf a.place a.memory)
copied_lem buf memory a same apart some_word live i h =
    let size : size_of buf a.memory ≡ size_of buf memory =
      same (buf - 1) (omega arith) (omega (arith, some_word)) in
    rw size (
      copy_words_inside (size_of buf memory / 4) buf a.place a.memory i apart h
      ∙ same (buf + i) (omega arith) (omega (arith, h)))

-- For a block whose size is a number of whole words, and a `malloc` that leaves its words as they are and returns NULL
-- or a block beside it: wherever the block is afterwards, at the same place or at a new one, its words are what they were.
-- NULL is returned only for a new size of 0 or where `malloc` fails.
pub realloc-size_of :
    (heap : Heap) (buf new_size : ℕ) (memory : ℕ → ℕ)
    → buf ≢ 0
    → size_of buf memory % 4 ≡ 0
    → ((k : ℕ)
        → buf - 1 ≤ k
        → k < buf + size_of buf memory / 4
        → (heap.malloc new_size memory).memory k ≡ memory k)
    → AreApart (size_of buf memory / 4) buf (heap.malloc new_size memory).place
    → let r = realloc heap buf new_size memory in
      Keeps (size_of buf memory / 4) buf memory r.place r.memory
      × (r.place ≡ 0 → (new_size ≡ 0) ⊎ ((heap.malloc new_size memory).place ≡ 0))
unfolding realloc
realloc-size_of heap buf new_size memory live whole same apart =
    let here : (buf == 0) ≡ false = ground (arith, live) in
    let valid : (size_of buf memory % 4 == 0) ≡ true = ground (arith, whole) in
    elim (Bool-cases (new_size == 0)) [
      | inl e ↦
          rw (here, e) ((λ placed i h. absurd (placed refl)), (λ none. inl (ground (arith, e))))
      | inr e ↦ elim (Bool-cases (ltb new_size (size_of buf memory))) [
        | inl f ↦ rw (here, e, valid, f) ((λ placed i h. refl), (λ none. absurd (live none)))
        | inr f ↦ elim (Bool-cases ((heap.malloc new_size memory).place == 0)) [
          | inl g ↦
              rw (here, e, valid, f, g)
                ((λ placed i h. absurd (placed refl)), (λ none. inr (ground (arith, g))))
          | inr g ↦
              rw (here, e, valid, f, g)
                (
                  (λ placed i h.
                      copied_lem buf memory (heap.malloc new_size memory) same apart
                        (omega (arith, h)) placed i h),
                  (λ none. inr none),
                )
        ]
      ]
    ]
