-- ===== src/Bracket/Exposures.antt =====
-- What the camera does under the commands of one bracket.
use magic_lantern.Common.{
  ℕ, zero, suc, ◌+◌, ◌/◌, ◌<◌, ◌≡◌, refl, ap, ◌∙◌, some, List, [], ◌∷◌, arith, length, get_elem?,
  Bool-cases, leb→le, inl, inr,
}
use magic_lantern.Common.Int.{ℤ, pos, pos_part, neg_part, neg_ℕ, leb_ℤ, ◌+ℤ◌, ◌*ℤ◌, int_laws}
use magic_lantern.Bracket.{Settings, Command, set_ae, take_picture, exposures, bracket}
use magic_lantern.Bracket.Presses.{IsValid}

-- The AE value in force at each picture.
abbrev pub shots : ℤ → List Command → List ℤ
shots ae [] = []
shots ae (set_ae v ∷ cs) = shots v cs
shots ae (take_picture w ∷ cs) = ae ∷ shots ae cs

-- The AE value in force at the end.
abbrev pub final_ae : ℤ → List Command → ℤ
final_ae ae [] = ae
final_ae ae (set_ae v ∷ cs) = final_ae v cs
final_ae ae (take_picture w ∷ cs) = final_ae ae cs

-- `n` pictures from AE `low` up in steps of `step`, and `ae` restored.
pub record IsLadder (cs : List Command) (n : ℕ) (ae step i : ℤ) : Type 0 where
  pub pictures : (cur : ℤ) → length (shots cur cs) ≡ n
  pub values :
      (cur : ℤ) (k : ℕ) → k < n → get_elem? (shots cur cs) k ≡ some (ae +ℤ step *ℤ (i +ℤ pos k))
  pub restored : (cur : ℤ) → final_ae cur cs ≡ ae

IsLadder-cons :
    (cs : List Command) (n : ℕ) (ae step i : ℤ)
    → IsLadder cs n ae step (i +ℤ pos 1)
    → IsLadder (set_ae (ae +ℤ step *ℤ i) ∷ take_picture 1000 ∷ cs) (suc n) ae step i
IsLadder-cons cs n ae step i l = record {
  pictures = λ cur. ap suc (l.pictures (ae +ℤ step *ℤ i));
  values = values';
  restored = λ cur. l.restored (ae +ℤ step *ℤ i);
}
  where
    values' :
        (cur : ℤ) (k : ℕ)
        → k < suc n
        → get_elem? (shots cur (set_ae (ae +ℤ step *ℤ i) ∷ take_picture 1000 ∷ cs)) k
          ≡ some (ae +ℤ step *ℤ (i +ℤ pos k))
    values' cur zero h = ap (λ z. some (ae +ℤ step *ℤ z)) (omega int_laws)
    values' cur (suc k) h =
        l.values (ae +ℤ step *ℤ i) k (omega arith)
        ∙ ap (λ z. some (ae +ℤ step *ℤ z)) (omega int_laws)

exposures-IsLadder :
    (fuel n : ℕ) (i hi ae step : ℤ)
    → n < fuel
    → pos_part hi + neg_part i + 1 ≡ pos_part i + neg_part hi + n
    → (cs : List Command) × (exposures fuel i hi ae step ≡ some cs) × IsLadder cs n ae step i
unfolding exposures
exposures-IsLadder zero n i hi ae step f e = absurd (omega arith)
exposures-IsLadder (suc fuel) zero i hi ae step f e = elim (Bool-cases (leb_ℤ i hi)) [
  | inl le ↦ absurd (omega (arith, leb→le _ _ le))
  | inr gt ↦ (
    set_ae ae ∷ [],
    rw gt,
    record { pictures = λ cur. refl; values = λ cur k h. elim h [ ]; restored = λ cur. refl },
  )
]
exposures-IsLadder (suc fuel) (suc n) i hi ae step f e = elim (Bool-cases (leb_ℤ i hi)) [
  | inl le ↦
      let (cs, eq, l) =
        exposures-IsLadder fuel n (i +ℤ pos 1) hi ae step (omega arith) (omega int_laws) in
      (
        set_ae (ae +ℤ step *ℤ i) ∷ take_picture 1000 ∷ cs,
        rw (le, eq) refl,
        IsLadder-cons cs n ae step i l,
      )
  | inr gt ↦ absurd (ground arith)
]

-- A bracket of an odd number of pictures takes exactly `ae_count` of them, the k-th at AE value
-- `ae + ae_step * (k - ae_count/2)`, and leaves the camera at `ae`; the loop ends.
pub bracket-IsLadder :
    (s : Settings) (ae : ℤ)
    → IsValid s
    → (cs : List Command) × (bracket s ae ≡ some cs)
      × IsLadder cs s.ae_count ae (pos s.ae_step) (neg_ℕ (s.ae_count / 2))
unfolding bracket
bracket-IsLadder s ae v =
    exposures-IsLadder (s.ae_count + 2) s.ae_count _ _ ae (pos s.ae_step) (omega arith)
      (ground (arith, v.odd))
