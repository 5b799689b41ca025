-- ===== src/Filter/UrlParam.antt =====
-- filter/url_param.go
use mathlib.Core.Option.{Option, none, some}
use baker.Common.{Bytes, [], Result, ok, ◌>>=◌}
use baker.Record.{FieldIndex, bytes, content}
use baker.RecordType.{RecordType}
use baker.Filter.Names.{FieldByName, resolve, Outcome}
use baker.Filter.External.{External}

pub record Config : Type 0 where
  pub src_field : Bytes
  pub dst_field : Bytes
  pub param : Bytes

pub record UrlParam : Type 0 where
  pub src_field : FieldIndex
  pub dst_field : FieldIndex
  pub param : Bytes

unfoldable pub new : FieldByName → Config → Result UrlParam
unfolding resolve
new field_by_name cfg = do
  src ← resolve field_by_name cfg.src_field
  dst ← resolve field_by_name cfg.dst_field
  ok (record { src_field = src; dst_field = dst; param = cfg.param })

-- The empty string for what is not a URL
abbrev pub or_empty : Option Bytes → Bytes
or_empty none = []
or_empty (some s) = s

module _ {V : Type 0} (T : RecordType V) (x : External V) where
  open T use {Rec, get, set}

  unfoldable pub process : UrlParam → Rec → Outcome UrlParam Rec
  process f l = do
    v ← get l f.src_field
    l' ← set l f.dst_field (bytes (or_empty (x.query_param (content v) f.param)))
    ok (f, some l')
