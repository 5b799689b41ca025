-- ===== src/Filter/UrlEscape.antt =====
-- filter/url_escape.go
use mathlib.Core.Option.{none, some}
use baker.Common.{Bytes, ℕ, Result, ok, ◌>>=◌, Bool, true, false}
use baker.Record.{FieldIndex, Slice, nil, bytes, content}
use baker.RecordType.{RecordType}
use baker.Filter.Names.{FieldByName, resolve, Outcome}
use baker.Filter.External.{External}

pub record Config : Type 0 where
  pub src_field : Bytes
  pub dst_field : Bytes
  pub unescape : Bool

-- The counter of filtered lines is never changed.
pub record UrlEscape : Type 0 where
  pub num_filtered_lines : ℕ
  pub src : FieldIndex
  pub dst : FieldIndex
  pub convert : Bytes → Slice

-- The function `process` of the constructor: nil where the text cannot be unescaped.
unfoldable pub converter : {V : Type 0} → External V → Bool → Bytes → Slice
converter x false s = bytes (x.query_escape s)
converter x true s = elim (x.query_unescape s) [ none ↦ nil | some u ↦ bytes u ]

unfoldable pub new : {V : Type 0} → External V → FieldByName → Config → Result UrlEscape
unfolding resolve converter
new x field_by_name cfg = do
  src ← resolve field_by_name cfg.src_field
  dst ← resolve field_by_name cfg.dst_field
  let convert = λ (s : Bytes). converter x cfg.unescape s
  ok (record { num_filtered_lines = 0; src = src; dst = dst; convert = convert })

module _ {V : Type 0} (T : RecordType V) where
  open T use {Rec, get, set}

  unfoldable pub process : UrlEscape → Rec → Outcome UrlEscape Rec
  process f l = do v ← get l f.src; l' ← set l f.dst (f.convert (content v)); ok (f, some l')
