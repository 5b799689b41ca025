-- ===== src/Filter/CountAndTag.antt =====
-- filter/count_and_tag.go. What the metrics client receives is the list of its calls, the last one
-- first.
use mathlib.Core.Option.{some}
use baker.Common.{Bytes, List, [], ◌∷◌, ◌++◌, ℕ, Result, ok, ◌>>=◌, if◌then◌else◌, length, ◌==◌}
use baker.Record.{FieldIndex, content}
use baker.RecordType.{RecordType}
use baker.Filter.Names.{FieldByName, resolve, Outcome}
use baker.Filter.External.{External}

pub record Config : Type 0 where
  pub metric : Bytes
  pub field : Bytes
  pub default_value : Bytes

-- A call of DeltaCountWithTags
pub record DeltaCount : Type 0 where
  pub name : Bytes
  pub delta : ℕ
  pub tags : List Bytes

pub record CountAndTag : Type 0 where
  pub metrics : List DeltaCount
  pub fidx : FieldIndex
  pub default_tags : List Bytes
  pub tag_prefix : Bytes
  pub metric_name : Bytes

unfoldable pub new : {V : Type 0} → External V → FieldByName → Config → Result CountAndTag
unfolding resolve
new x field_by_name cfg = do
  f ← resolve field_by_name cfg.field
  let prefix = x.to_lower cfg.field ++ b':' ∷ []
  ok (record {
    metrics = [];
    fidx = f;
    default_tags = (prefix ++ cfg.default_value) ∷ [];
    tag_prefix = prefix;
    metric_name = x.to_lower cfg.metric;
  })

-- The tags of a record with this value
unfoldable pub tags_of : CountAndTag → Bytes → List Bytes
tags_of f v = if length v == 0 then f.default_tags else (f.tag_prefix ++ v) ∷ []

module _ {V : Type 0} (T : RecordType V) where
  open T use {Rec, get}

  unfoldable pub process : CountAndTag → Rec → Outcome CountAndTag Rec
  unfolding tags_of
  process f l = do
    v ← get l f.fidx
    let call : DeltaCount = record { name = f.metric_name; delta = 1; tags = tags_of f (content v) }
    ok (record f { metrics = call ∷ f.metrics }, some l)
