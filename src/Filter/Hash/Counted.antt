-- ===== src/Filter/Hash/Counted.antt =====
-- filter/hash.go: the statistics.
use mathlib.Core.Option.{Option, none, some}
use baker.Common.{Bytes, ◌+◌, Result, returned, ok, ok-injective, ◌≡◌, sym, ap, ◌∙◌, arith}
use baker.Record.{bytes}
use baker.RecordType.{RecordType}
use baker.Filter.Interface.{dropped}
use baker.Filter.Hash.{Hash, write_encoded, encode_hashed}

module _ {V : Type 0} (T : RecordType V) where
  dropped-counts :
      (h g : Hash) (o : Option T.Rec)
      → ◌≡◌ {A = Result (Hash × Option T.Rec)}
          (ok (record h { num_filtered_lines = h.num_filtered_lines + 1 }, none))
          (ok (g, o))
      → g.num_filtered_lines ≡ h.num_filtered_lines + dropped o
  dropped-counts h g o e =
      let q = ok-injective e in
      sym (ap (λ t. t.0.num_filtered_lines) q) ∙ omega (arith, ap (λ t. dropped t.1) q)

  written-counts :
      (h g : Hash) (r : T.Rec) (b : Option Bytes) (o : Option T.Rec)
      → write_encoded T h r b ≡ ok (g, o)
      → g.num_filtered_lines ≡ h.num_filtered_lines + dropped o
  unfolding write_encoded
  written-counts h g r none o e = dropped-counts h g o e
  written-counts h g r (some b) o e =
      let a = returned (T.set r h.dst (bytes b)) _ e in
      let q = ok-injective a.rest in
      sym (ap (λ t. t.0.num_filtered_lines) q) ∙ omega (arith, ap (λ t. dropped t.1) q)

  -- Each record that the filter drops is counted.
  pub hashed-counts :
      (h g : Hash) (r : T.Rec) (b : Option Bytes) (o : Option T.Rec)
      → encode_hashed T h r b ≡ ok (g, o)
      → g.num_filtered_lines ≡ h.num_filtered_lines + dropped o
  unfolding encode_hashed
  hashed-counts h g r none o e = dropped-counts h g o e
  hashed-counts h g r (some b) o e = written-counts h g r (h.encode b) o e
