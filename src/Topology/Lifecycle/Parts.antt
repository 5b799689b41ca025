-- ===== src/Topology/Lifecycle/Parts.antt =====
-- topology.go: one goroutine among the others, and one record in the channels.
use mathlib.Core.Option.{none, some}
use baker.Common.{
  Bytes, List, [], ◌∷◌, ◌++◌, map, ℕ, suc, ◌+◌, ◌≤◌, ◌<◌, Bool-cases, length, All, ◌==◌, ==_iff,
  ◌≡◌, refl, ap, sym, subst, Option-cases, ◌⊎◌, inl, inr, arith,
}
use baker.Topology.{OutputRecord}
use baker.Topology.Lifecycle.{Outputting, queued, receive, channel_of}

pub All-map {ℓ κ μ} :
    {A : Type ℓ} {Q : A → Type κ} {R : A → Type μ} (xs : List A)
    → ((x : A) → Q x → R x)
    → All Q xs
    → All R xs
All-map [] f h = tt
All-map (x ∷ xs) f (q, h) = (f x q, All-map xs f h)

-- One element of a list
module _ {ℓ κ} {A : Type ℓ} (Q : A → Type κ) where
  pub All-at : (front back : List A) (x : A) → All Q (front ++ x ∷ back) → Q x
  All-at [] back x (q, h) = q
  All-at (a ∷ front) back x (q, h) = All-at front back x h

  pub All-replace :
      (front back : List A) (x y : A)
      → (Q x → Q y)
      → All Q (front ++ x ∷ back)
      → All Q (front ++ y ∷ back)
  All-replace [] back x y f (q, h) = (f q, h)
  All-replace (a ∷ front) back x y f (q, h) = (q, All-replace front back x y f h)

pub map_replace :
    (front back : List Outputting) (x y : Outputting)
    → channel_of x ≡ channel_of y
    → map channel_of (front ++ x ∷ back) ≡ map channel_of (front ++ y ∷ back)
map_replace [] back x y e = ap (λ c. c ∷ map channel_of back) e
map_replace (z ∷ front) back x y e = ap (λ cs. channel_of z ∷ cs) (map_replace front back x y e)

pub chunk_cases : (cs : List Bytes) → (cs ≡ []) ⊎ ((d : Bytes) × (ds : List Bytes) × (cs ≡ d ∷ ds))
chunk_cases [] = inl refl
chunk_cases (c ∷ cs) = inr (c, cs, refl)

pub queued-none : (c : ℕ) (rs : List OutputRecord) → receive c rs ≡ none → queued c rs ≡ 0
queued-none c [] e = refl
queued-none c (r ∷ rs) e = ground (arith, queued-none c rs)

pub queued_here : (r : OutputRecord) (rs : List OutputRecord) → 0 < queued r.channel (r ∷ rs)
queued_here r rs = rw ((==_iff r.channel r.channel).1 refl) (omega arith)

pub receive-some :
    (c : ℕ) (rs : List OutputRecord)
    → 0 < queued c rs
    → (x : OutputRecord × List OutputRecord) × (receive c rs ≡ some x)
receive-some c [] h = absurd (omega (arith, h))
receive-some c (r ∷ rs) h = elim (Bool-cases (r.channel == c)) [
  | inl e ↦ ((r, rs), rw e refl)
  | inr e ↦ let (x, call) = receive-some c rs (ground arith) in ((x.0, r ∷ x.1), rw (e, call) refl)
]

-- A record is received from the front, or from behind a record of another channel.
receive_cases :
    (c : ℕ) (q : OutputRecord) (rs : List OutputRecord) (r : OutputRecord)
    (rest : List OutputRecord)
    → receive c (q ∷ rs) ≡ some (r, rest)
    → (rest ≡ rs)
      ⊎ ((more : List OutputRecord) × (receive c rs ≡ some (r, more)) × (rest ≡ q ∷ more))
receive_cases c q rs r rest e = elim (Bool-cases (q.channel == c)) [
  | inl front ↦ inl cc
  | inr behind ↦ elim (Option-cases (receive c rs)) [
    | inl none_left ↦ cc
    | inr (x, call) ↦ inr (x.1, cc, cc)
  ]
]

-- What is left when a record was received
pub receive-queued :
    (c d : ℕ) (rs : List OutputRecord) (r : OutputRecord) (rest : List OutputRecord)
    → receive c rs ≡ some (r, rest)
    → queued d rest ≤ queued d rs
receive-queued c d [] r rest e = cc
receive-queued c d (q ∷ rs) r rest e = elim (receive_cases c q rs r rest e) [
  | inl same ↦ omega (arith, ap (queued d) same)
  | inr (more, call, joined) ↦
      omega (arith, ap (queued d) joined, receive-queued c d rs r more call)
]

pub receive-All {κ} :
    (Q : OutputRecord → Type κ) (c : ℕ) (rs : List OutputRecord) (r : OutputRecord)
    (rest : List OutputRecord)
    → receive c rs ≡ some (r, rest)
    → All Q rs
    → All Q rest
receive-All Q c [] r rest e h = cc
receive-All Q c (q ∷ rs) r rest e (here, h) = elim (receive_cases c q rs r rest e) [
  | inl same ↦ subst (All Q) (sym same) h
  | inr (more, call, joined) ↦ subst (All Q) (sym joined) (here, receive-All Q c rs r more call h)
]

pub receive-length :
    (c : ℕ) (rs : List OutputRecord) (r : OutputRecord) (rest : List OutputRecord)
    → receive c rs ≡ some (r, rest)
    → suc (length rest) ≡ length rs
receive-length c [] r rest e = cc
receive-length c (q ∷ rs) r rest e = elim (receive_cases c q rs r rest e) [
  | inl same ↦ ap (λ u. suc (length u)) same
  | inr (more, call, joined) ↦ omega (arith, ap length joined, receive-length c rs r more call)
]

-- A measure of a list, by its elements
abbrev pub total {ℓ} : {A : Type ℓ} → (A → ℕ) → List A → ℕ
total w [] = 0
total w (x ∷ xs) = w x + total w xs

pub total-at {ℓ} :
    {A : Type ℓ} (w : A → ℕ) (front back : List A) (x : A)
    → total w (front ++ x ∷ back) ≡ w x + (total w front + total w back)
total-at w [] back x = omega arith
total-at w (a ∷ front) back x = omega (arith, total-at w front back x)
