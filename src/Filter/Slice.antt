-- ===== src/Filter/Slice.antt =====
-- filter/slice.go
pub mod Bounds
use mathlib.Core.Option.{Option, none, some}
use baker.Common.{
  Bytes, List, [], ◌∷◌, ℕ, ℤ, pos, ltbℤ, eqbℤ, Result, ok, err, bad_config, ◌>>=◌, Bool, true,
  false, not, if◌then◌else◌, ◌&&◌, ◌||◌,
}
use baker.Record.{FieldIndex, Slice, nil, bytes, content, len}
use baker.RecordType.{RecordType}
use baker.LogLine.{slice_range}
use baker.Filter.Names.{FieldByName, resolve, Outcome}

pub record Config : Type 0 where
  pub src : Bytes
  pub dst : Bytes
  pub start_idx : ℤ
  pub end_idx : ℤ

pub record SliceFilter : Type 0 where
  pub src : FieldIndex
  pub dst : FieldIndex
  pub start_idx : ℤ
  pub end_idx : ℤ

unfoldable pub new : FieldByName → Config → Result SliceFilter
unfolding resolve ltbℤ
new field_by_name cfg = do
  src ← resolve field_by_name cfg.src
  dst ← resolve field_by_name cfg.dst
  if not (ltbℤ cfg.start_idx cfg.end_idx) && ltbℤ (pos 0) cfg.end_idx
      then err bad_config
      else ok (record { src = src; dst = dst; start_idx = cfg.start_idx; end_idx = cfg.end_idx })

-- `append(empty, s...)` on a nil `empty`: nil if there is nothing to append.
abbrev pub appended : Bytes → Slice
appended [] = nil
appended (c ∷ cs) = bytes (c ∷ cs)

-- `src[start:end]` with the indexes that the code puts in place of those given.
unfoldable pub slice : SliceFilter → Slice → Result Slice
unfolding ltbℤ eqbℤ slice_range
slice f src =
    let last =
      if ltbℤ (pos (len src)) f.end_idx || eqbℤ f.end_idx (pos 0)
      then pos (len src)
      else f.end_idx in
    let first = if not (ltbℤ f.start_idx (pos (len src))) then pos (len src) else f.start_idx in
    slice_range src first last

module _ {V : Type 0} (T : RecordType V) where
  open T use {Rec, get, set}

  unfoldable pub process : SliceFilter → Rec → Outcome SliceFilter Rec
  process f r = do
    src ← get r f.src
    part ← slice f src
    r' ← set r f.dst (appended (content part))
    ok (f, some r')
