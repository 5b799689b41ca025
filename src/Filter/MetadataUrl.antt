-- ===== src/Filter/MetadataUrl.antt =====
-- filter/metadata_url.go
pub mod Cached
use mathlib.Core.Option.{Option, none, some}
use baker.Common.{
  Bytes, List, [], ◌∷◌, ◌++◌, ℕ, zero, suc, ◌+◌, ◌-◌, ◌/◌, ◌%◌, ℤ, pos, negsuc, Result, ok, err,
  panic, bad_config, unknown_field, ◌>>=◌, Bool, true, false, not, equal, if◌then◌else◌, length,
  ◌==◌, ◌&&◌, ◌||◌, ltb, leb,
}
use baker.Record.{FieldIndex, Slice, nil, bytes, content, len}
use baker.RecordType.{RecordType}
use baker.Filter.Names.{FieldByName, resolve, resolve_all, Outcome}
use baker.Filter.External.{External, JsonView, number, text, boolean, other}
use baker.Filter.MetadataCache.{MetadataCache, load, store}
use baker.Filter.SetStringFromUrl.{metadata_url}

-- The filter embeds a cache of the texts of the URLs that it met.
pub record MetadataUrl : Type 0 where
  pub dst : FieldIndex
  pub urls : MetadataCache Bytes

unfoldable pub new : FieldByName → Bytes → Result MetadataUrl
unfolding resolve
new field_by_name name = do
  f ← resolve field_by_name name
  ok (record { dst = f; urls = record { cache = []; nentries = 0 } })

module _ {V : Type 0} (T : RecordType V) (x : External V) where
  open T use {Rec, set, meta}

  -- The text of a URL, from the cache or else computed and stored.
  unfoldable pub url_text : MetadataUrl → ℕ → MetadataUrl × Bytes
  unfolding load store
  url_text f url = elim (load f.urls url) [
    | some s ↦ (f, s)
    | none ↦ (record f { urls = store f.urls url (x.url_string url) }, x.url_string url)
  ]

  -- No URL: the field is cleared.
  unfoldable pub clear_url : MetadataUrl → Rec → Outcome MetadataUrl Rec
  clear_url f l = do l' ← set l f.dst nil; ok (f, some l')

  -- `v.(*url.URL)`, which may be a nil pointer
  unfoldable pub write_url : MetadataUrl → Rec → Option (Option ℕ) → Outcome MetadataUrl Rec
  unfolding clear_url url_text
  write_url f l none = panic
  write_url f l (some none) = clear_url f l
  write_url f l (some (some url)) = do
    l' ← set l f.dst (bytes (url_text f url).1)
    ok ((url_text f url).0, some l')

  unfoldable pub write_meta : MetadataUrl → Rec → Option V → Outcome MetadataUrl Rec
  unfolding clear_url write_url
  write_meta f l none = clear_url f l
  write_meta f l (some v) = write_url f l (x.as_url v)

  unfoldable pub process : MetadataUrl → Rec → Outcome MetadataUrl Rec
  unfolding write_meta
  process f l = write_meta f l (meta l metadata_url)
