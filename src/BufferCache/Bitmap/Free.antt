-- ===== src/BufferCache/Bitmap/Free.antt =====
-- pkg/buffercache/bitmap.go: the free cells.
use mathlib.Core.Option.{none, some}
use baker.Common.{
  ℕ, zero, suc, ◌+◌, ◌-◌, ◌*◌, ◌/◌, ◌%◌, ◌≤◌, ◌<◌, Bool, true, false, not, Bool-cases,
  if◌then◌else◌, ◌==◌, ==_iff, ◌≡◌, ◌≢◌, refl, sym, ap, ap₂, some-injective, Option-cases, ◌∙◌, ◌⊎◌,
  inl, inr, arith,
}
use baker.BufferCache.Bitmap.{
  Word, Bitmap, leading_zeros, find_first_zero64, find_from, find_free_cell, is_set, write_bit,
  set_bit, clear_bit, make,
}

-- All the bits of a word are clear, or the highest one that is set is above the leading zeros.
leading_zeros-cases :
    (n : ℕ) (x : Word)
    → (leading_zeros n x ≡ n) × ((i : ℕ) → i < n → x i ≡ false)
      ⊎ (leading_zeros n x < n) × (x (n - 1 - leading_zeros n x) ≡ true)
leading_zeros-cases zero x = inl (unfold leading_zeros in refl, λ i h. absurd (omega arith))
leading_zeros-cases (suc n) x = elim (Bool-cases (x n)) [
  | inl e ↦ inr (set_here e)
  | inr e ↦ elim (leading_zeros-cases n x) [
    | inl (p, q) ↦ inl (clear_here e ∙ ap suc p, λ i h. below e q i h)
    | inr (p, q) ↦ inr (omega (arith, clear_here e), ap x (omega (arith, clear_here e)) ∙ q)
  ]
]
  where
    clear_here : x n ≡ false → leading_zeros (suc n) x ≡ suc (leading_zeros n x)
    clear_here e = unfold leading_zeros in rw e refl

    set_here :
        x n ≡ true
        → (leading_zeros (suc n) x < suc n) × (x (suc n - 1 - leading_zeros (suc n) x) ≡ true)
    set_here e = unfold leading_zeros in rw e (omega arith, ap x {y = n} (omega arith) ∙ e)

    below : x n ≡ false → ((i : ℕ) → i < n → x i ≡ false) → (i : ℕ) → i < suc n → x i ≡ false
    below e q i h = elim (Bool-cases (i == n)) [
      | inl d ↦ ap x ((==_iff i n).0 d) ∙ e
      | inr d ↦ q i (ground (arith, d))
    ]

leading_zeros-top : (n : ℕ) (x : Word) → leading_zeros (suc n) x ≢ 0 → x n ≡ false
unfolding leading_zeros
leading_zeros-top n x h = ground arith

not-false : {b : Bool} → not b ≡ false → b ≡ true
not-false {b} h = ground arith

not-true : {b : Bool} → not b ≡ true → b ≡ false
not-true {b} h = ground arith

pub find_first_zero64-some :
    (x : Word) (i : ℕ) → find_first_zero64 x ≡ some i → (i < 64) × (x i ≡ false)
find_first_zero64-some x i h =
    by_top (leading_zeros 64 x) refl (leading_zeros-cases 64 (λ k. not (x k)))
  where
    chosen :
        (l m : ℕ)
        → (if not (l == 0) then some 63 else if m == 64 then none else some (63 - m)) ≡ some i
        → (l ≢ 0) × (i ≡ 63) ⊎ (m ≢ 64) × (i ≡ 63 - m)
    chosen l m e = ground arith

    by_top :
        (l : ℕ)
        → leading_zeros 64 x ≡ l
        → (leading_zeros 64 (λ k. not (x k)) ≡ 64) × ((k : ℕ) → k < 64 → not (x k) ≡ false)
          ⊎ (leading_zeros 64 (λ k. not (x k)) < 64)
            × (not (x (64 - 1 - leading_zeros 64 (λ k. not (x k)))) ≡ true)
        → (i < 64) × (x i ≡ false)
    by_top l e c =
        elim (chosen (leading_zeros 64 x) (leading_zeros 64 (λ k. not (x k)))
          (unfold find_first_zero64 in h)) [
            | inl (p, q) ↦ (omega (arith, q), ap x q ∙ leading_zeros-top 63 x p)
            | inr (p, q) ↦ elim c [
              | inl (a, b) ↦ absurd (p a)
              | inr (a, b) ↦ (
                omega (arith, q),
                ap x {y = 64 - 1 - leading_zeros 64 (λ k. not (x k))} (omega (arith, q))
                    ∙ not-true b,
              )
            ]
          ]

pub find_first_zero64-none : (x : Word) → find_first_zero64 x ≡ none → (i : ℕ) → i < 64 → x i ≡ true
find_first_zero64-none x h i l = elim (leading_zeros-cases 64 (λ k. not (x k))) [
  | inl (a, b) ↦ not-false (b i l)
  | inr (a, b) ↦ absurd (
      chosen (leading_zeros 64 x) (leading_zeros 64 (λ k. not (x k))) a
        (unfold find_first_zero64 in h))
]
  where
    chosen :
        (l m : ℕ)
        → m < 64
        → (if not (l == 0) then some 63 else if m == 64 then none else some (63 - m)) ≡ none
        → ⊥
    chosen l m p e = ground arith

module _ (n k : ℕ) (bm : Bitmap) where
  find_from_here :
      (x : ℕ) → find_first_zero64 (bm.word k) ≡ some x → find_from (suc n) k bm ≡ some (k * 64 + x)
  unfolding find_from
  find_from_here x e = rw (find_from, e) refl

  find_from_next :
      find_first_zero64 (bm.word k) ≡ none → find_from (suc n) k bm ≡ find_from n (k + 1) bm
  unfolding find_from
  find_from_next e = rw (find_from, e) refl

  is_set_here : (x : ℕ) → x < 64 → is_set bm (k * 64 + x) ≡ bm.word k x
  unfolding is_set
  is_set_here x h = ap₂ bm.word {x = (k * 64 + x) / 64} (omega arith) (omega arith)

find_from-some :
    (n k i : ℕ) (bm : Bitmap)
    → find_from n k bm ≡ some i
    → (i < (k + n) * 64) × (is_set bm i ≡ false)
find_from-some zero k i bm h = unfold find_from in ground arith
find_from-some (suc n) k i bm h = elim (Option-cases (find_first_zero64 (bm.word k))) [
  | inl e ↦
      let (p, q) = find_from-some n (k + 1) i bm (sym (find_from_next n k bm e) ∙ h) in
      (omega (arith, p), q)
  | inr (x, e) ↦
      let (p, q) = find_first_zero64-some (bm.word k) x e in
      let r : k * 64 + x ≡ i = some-injective (sym (find_from_here n k bm x e) ∙ h) in
      (omega (arith, p, r), ap (is_set bm) (sym r) ∙ is_set_here n k bm x p ∙ q)
]

find_from-none :
    (n k : ℕ) (bm : Bitmap)
    → find_from n k bm ≡ none
    → (j i : ℕ) → k ≤ j
    → j < k + n
    → i < 64
    → bm.word j i ≡ true
find_from-none zero k bm h j i p q l = absurd (omega arith)
find_from-none (suc n) k bm h j i p q l = elim (Option-cases (find_first_zero64 (bm.word k))) [
  | inl e ↦ elim (Bool-cases (k == j)) [
    | inl d ↦
        ap (λ t. bm.word t i) (sym ((==_iff k j).0 d)) ∙ find_first_zero64-none (bm.word k) e i l
    | inr d ↦
        find_from-none n (k + 1) bm (sym (find_from_next n k bm e) ∙ h) j i (ground (arith, d))
          (omega arith) l
  ]
  | inr (x, e) ↦ cc (find_from_here n k bm x e)
]

-- A free cell that is found is one of the bitmap's, and it is free.
pub find_free_cell-some :
    (bm : Bitmap) (i : ℕ)
    → find_free_cell bm ≡ some i
    → (i < bm.nwords * 64) × (is_set bm i ≡ false)
find_free_cell-some bm i h =
    let (p, q) = find_from-some bm.nwords 0 i bm (unfold find_free_cell in h) in
    (omega (arith, p), q)

-- None is found only if all are taken.
pub find_free_cell-none :
    (bm : Bitmap) → find_free_cell bm ≡ none → (i : ℕ) → i < bm.nwords * 64 → is_set bm i ≡ true
unfolding is_set
find_free_cell-none bm h i l =
    find_from-none bm.nwords 0 bm (unfold find_free_cell in h) (i / 64) (i % 64) (omega arith)
      (omega arith) (omega arith)

pub is_set-write_bit :
    (bm : Bitmap) (i j : ℕ) (b : Bool)
    → is_set (write_bit bm i b) j ≡ (if i == j then b else is_set bm j)
unfolding is_set write_bit
is_set-write_bit bm i j b = elim (Bool-cases (i == j)) [
  | inl e ↦ rw (e, (==_iff i j).0 e) (ground arith)
  | inr e ↦ ground (arith, e)
]

module _ (bm : Bitmap) (i : ℕ) where
  pub is_set-set_bit : (j : ℕ) → is_set (set_bit bm i) j ≡ (if i == j then true else is_set bm j)
  is_set-set_bit j = unfold set_bit in is_set-write_bit bm i j true

  pub is_set-clear_bit :
      (j : ℕ) → is_set (clear_bit bm i) j ≡ (if i == j then false else is_set bm j)
  is_set-clear_bit j = unfold clear_bit in is_set-write_bit bm i j false

  pub nwords-set_bit : (set_bit bm i).nwords ≡ bm.nwords
  unfolding set_bit
  nwords-set_bit = refl

  pub nwords-clear_bit : (clear_bit bm i).nwords ≡ bm.nwords
  unfolding clear_bit
  nwords-clear_bit = refl

pub is_set-make : (n j : ℕ) → is_set (make n) j ≡ false
unfolding is_set make
is_set-make n j = refl

pub nwords-make : (n : ℕ) → (make n).nwords ≡ n
unfolding make
nwords-make n = refl
