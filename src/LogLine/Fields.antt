-- ===== src/LogLine/Fields.antt =====
-- logline.go: `Set` and `Get`.
use baker.Common.{
  suc, ◌+◌, ◌%◌, ◌<◌, ◌≡◌, ◌≢◌, ◌⊎◌, inl, inr, arith, Bool-cases, ◌==◌, if◌then◌else◌, ok,
}
use baker.Record.{FieldIndex, Slice}
use baker.LogLine.{LogLine, update, get_parsed, get, set}
use baker.LogLine.Invariant.{IsValid}

module _ {V : Type 0} where
  -- `Set` can take one more modification of the field, or a modification of another field.
  abbrev pub HasRoom : LogLine V → FieldIndex → Type 0
  HasRoom l f = (l.wmask f ≢ 0) ⊎ (l.wcnt < 255)

  -- The two ways in which `Set` succeeds: the field was modified before, or takes the next place.
  abbrev pub overwritten : LogLine V → FieldIndex → Slice → LogLine V
  overwritten l f v = record l { wdata = update l.wdata (l.wmask f) v }

  abbrev pub added : LogLine V → FieldIndex → Slice → LogLine V
  added l f v = record l {
    wcnt = suc l.wcnt;
    wmask = update l.wmask f (suc l.wcnt);
    wdata = update l.wdata (suc l.wcnt) v;
  }

  set_old :
      (l : LogLine V) (f : FieldIndex) (v : Slice)
      → f < 3100
      → l.wmask f ≢ 0
      → set l f v ≡ ok (overwritten l f v)
  unfolding set
  set_old l f v b h = ground arith

  pub set_new :
      (l : LogLine V) (f : FieldIndex) (v : Slice)
      → f < 3100
      → l.wmask f ≡ 0
      → l.wcnt < 255
      → set l f v ≡ ok (added l f v)
  unfolding set
  set_new l f v b h r = let e : (l.wcnt + 1) % 256 ≡ suc l.wcnt = omega arith in ground arith

  pub set_cases :
      (l : LogLine V) (f : FieldIndex) (v : Slice) {l' : LogLine V}
      → IsValid l
      → set l f v ≡ ok l'
      → ((l.wmask f ≢ 0) × (l' ≡ overwritten l f v))
        ⊎ ((l.wmask f ≡ 0) × (l.wcnt < 255) × (l' ≡ added l f v))
  unfolding set
  set_cases l f v h e = ground (arith, h.wcnt_byte)

  overwritten-IsValid :
      (l : LogLine V) (f : FieldIndex) (v : Slice) → IsValid l → IsValid (overwritten l f v)
  overwritten-IsValid l f v h = record {
    idx_start = h.idx_start;
    idx_position = h.idx_position;
    no_line = h.no_line;
    wcnt_byte = h.wcnt_byte;
    wmask_bound = h.wmask_bound;
    wmask_injective = h.wmask_injective;
  }

  added-IsValid :
      (l : LogLine V) (f : FieldIndex) (v : Slice)
      → IsValid l
      → l.wcnt < 255
      → IsValid (added l f v)
  unfolding update
  added-IsValid l f v h r = record {
    idx_start = h.idx_start;
    idx_position = h.idx_position;
    no_line = h.no_line;
    wcnt_byte = omega arith;
    wmask_bound = λ g. ground (arith, h.wmask_bound g);
    wmask_injective =
        λ g k e ne. ground (arith, h.wmask_injective g k, h.wmask_bound g, h.wmask_bound k);
  }

  -- `Set` keeps a valid line valid.
  pub set-IsValid :
      (l : LogLine V) (f : FieldIndex) (v : Slice) {l' : LogLine V}
      → IsValid l
      → set l f v ≡ ok l'
      → IsValid l'
  set-IsValid l f v h e = elim (set_cases l f v h e) [
    | inl p ↦ rw p.1 (overwritten-IsValid l f v h)
    | inr p ↦ rw p.2 (added-IsValid l f v h p.1)
  ]

  -- `Set` with room does not panic.
  pub set_total :
      (l : LogLine V) (f : FieldIndex) (v : Slice)
      → f < 3100
      → HasRoom l f
      → (l' : LogLine V) × (set l f v ≡ ok l')
  set_total l f v b (inl old) = (overwritten l f v, set_old l f v b old)
  set_total l f v b (inr room) = elim (Bool-cases (l.wmask f == 0)) [
    | inl e ↦ (added l f v, set_new l f v b (ground arith) room)
    | inr e ↦ (overwritten l f v, set_old l f v b (ground arith))
  ]

  -- After `Set` the field has the value, and every other field what it had.
  pub get-set :
      (l : LogLine V) (f g : FieldIndex) (v : Slice) {l' : LogLine V}
      → IsValid l
      → set l f v ≡ ok l'
      → get l' g ≡ (if f == g then ok v else get l g)
  unfolding set get get_parsed
  get-set l f g v h e =
      ground (arith, h.wmask_bound g, h.wmask_bound f, h.wmask_injective f g, h.wcnt_byte)
