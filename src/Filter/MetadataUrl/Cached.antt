-- ===== src/Filter/MetadataUrl/Cached.antt =====
-- filter/metadata_url.go: what the cache of texts holds, and what the filter writes.
use mathlib.Core.Path.{subst}
use mathlib.Core.Option.{Option, none, some}
use baker.Common.{
  Bytes, List, [], ◌∷◌, ℕ, ◌≤◌, Result, returned, ok, ok-injective, panic, ◌>>=◌, Bool-cases,
  length, ◌==◌, ==_iff, All, ◌≡◌, refl, sym, ap, ◌∙◌, inl, inr, arith,
}
use baker.Record.{FieldIndex, nil, bytes}
use baker.RecordType.{RecordType}
use baker.Filter.External.{External}
use baker.Filter.MetadataCache.{MetadataCache, find, load, clear, make_room, load_or_store, store}
use baker.Filter.SetStringFromUrl.{metadata_url}
use baker.Filter.MetadataUrl.{MetadataUrl, url_text, clear_url, write_url, write_meta, process}

module _ {V : Type 0} (x : External V) where
  -- Each entry is the text of its URL, and the entries are counted and at most 100.
  pub record IsCached (c : MetadataCache Bytes) : Type 0 where
    pub exact : All (λ p. p.1 ≡ x.url_string p.0) c.cache
    pub counted : c.nentries ≡ length c.cache
    pub bounded : length c.cache ≤ 100

  find-exact :
      (m : List (ℕ × Bytes)) (u : ℕ) (s : Bytes)
      → All (λ p. p.1 ≡ x.url_string p.0) m
      → find m u ≡ some s
      → s ≡ x.url_string u
  unfolding find
  find-exact [] u s h e = cc
  find-exact ((k, v) ∷ m) u s h e = elim (Bool-cases (k == u)) [
    | inl p ↦ ground (arith, h.0, (==_iff k u).0 p)
    | inr p ↦ find-exact m u s h.1 (ground arith)
  ]

  make_room-IsCached :
      (c : MetadataCache Bytes)
      → IsCached c
      → IsCached (make_room c) × (length (make_room c).cache ≤ 99)
  unfolding make_room clear
  make_room-IsCached c h = elim (Bool-cases (c.nentries == 100)) [
    | inl e ↦ rw e (
      record { exact = tt; counted = omega (arith, h.counted); bounded = omega arith },
      omega arith,
    )
    | inr e ↦ rw e (h, ground (arith, h.counted, h.bounded))
  ]

  load_or_store-IsCached :
      (c : MetadataCache Bytes) (u : ℕ) (o : Option Bytes)
      → find c.cache u ≡ o
      → IsCached c
      → length c.cache ≤ 99
      → IsCached (load_or_store c u (x.url_string u))
  unfolding load_or_store
  load_or_store-IsCached c u (some s) e h l = rw (load_or_store, e) h
  load_or_store-IsCached c u none e h l =
      rw (load_or_store, e)
        (record {
          exact = (refl, h.exact);
          counted = omega (arith, h.counted);
          bounded = omega (arith, l);
        })

  store-IsCached :
      (c : MetadataCache Bytes) (u : ℕ) → IsCached c → IsCached (store c u (x.url_string u))
  unfolding store
  store-IsCached c u h =
      let r = make_room-IsCached c h in load_or_store-IsCached (make_room c) u _ refl r.0 r.1

  -- The text is that of the URL, also where it comes from the cache.
  url_text-exact :
      (T : RecordType V) (f : MetadataUrl) (u : ℕ) (o : Option Bytes)
      → find f.urls.cache u ≡ o
      → IsCached f.urls
      → ((url_text T x f u).1 ≡ x.url_string u)
        × IsCached (url_text T x f u).0.urls
        × ((url_text T x f u).0.dst ≡ f.dst)
  unfolding url_text load
  url_text-exact T f u (some s) e h =
      rw (url_text, e) (find-exact f.urls.cache u s h.exact e, h, refl)
  url_text-exact T f u none e h = rw (url_text, e) (refl, store-IsCached f.urls u h, refl)

module _ {V : Type 0} (T : RecordType V) (x : External V) where
  -- What the filter does without a cache.
  plain_url : FieldIndex → T.Rec → Option (Option ℕ) → Result T.Rec
  plain_url dst l none = panic
  plain_url dst l (some none) = T.set l dst nil
  plain_url dst l (some (some url)) = T.set l dst (bytes (x.url_string url))

  plain_meta : FieldIndex → T.Rec → Option V → Result T.Rec
  plain_meta dst l none = T.set l dst nil
  plain_meta dst l (some v) = plain_url dst l (x.as_url v)

  unfoldable pub plain : FieldIndex → T.Rec → Result T.Rec
  unfolding plain_meta plain_url
  plain dst l = plain_meta dst l (T.meta l metadata_url)

  -- The record as it is without a cache, and the cache kept.
  record Kept (f f' : MetadataUrl) (r : Result T.Rec) (o : Option T.Rec) : Type 0 where
    l' : T.Rec
    plainly : r ≡ ok l'
    passed : o ≡ some l'
    cached : IsCached x f'.urls
    same_field : f'.dst ≡ f.dst

  kept :
      (f f' g : MetadataUrl) (m : Result T.Rec) (o : Option T.Rec)
      → ◌≡◌ {A = Result (MetadataUrl × Option T.Rec)} (m >>= λ l'. ok (g, some l')) (ok (f', o))
      → IsCached x g.urls
      → g.dst ≡ f.dst
      → Kept f f' m o
  kept f f' g m o e h d =
      let a = returned m _ e in
      let q = ok-injective a.rest in
      record {
        l' = a.value;
        plainly = a.call;
        passed = sym (ap (λ t. t.1) q);
        cached = subst (λ t. IsCached x t.0.urls) q h;
        same_field = sym (ap (λ t. t.0.dst) q) ∙ d;
      }

  write_url-Kept :
      (f f' : MetadataUrl) (l : T.Rec) (p : Option (Option ℕ)) (o : Option T.Rec)
      → IsCached x f.urls
      → write_url T x f l p ≡ ok (f', o)
      → Kept f f' (plain_url f.dst l p) o
  unfolding write_url clear_url plain_url
  write_url-Kept f f' l none o h e = cc
  write_url-Kept f f' l (some none) o h e = kept f f' f (T.set l f.dst nil) o e h refl
  write_url-Kept f f' l (some (some url)) o h e =
      let (same, cached, field) = url_text-exact x T f url _ refl h in
      subst (λ s. Kept f f' (T.set l f.dst (bytes s)) o) same
        (kept f f' (url_text T x f url).0 (T.set l f.dst (bytes (url_text T x f url).1)) o e cached
          field)

  write_meta-Kept :
      (f f' : MetadataUrl) (l : T.Rec) (m : Option V) (o : Option T.Rec)
      → IsCached x f.urls
      → write_meta T x f l m ≡ ok (f', o)
      → Kept f f' (plain_meta f.dst l m) o
  unfolding write_meta clear_url plain_meta
  write_meta-Kept f f' l none o h e = kept f f' f (T.set l f.dst nil) o e h refl
  write_meta-Kept f f' l (some v) o h e = write_url-Kept f f' l (x.as_url v) o h e

  -- With a cache whose entries are the texts of their URLs, `Process` hands on the record that it would
  -- without a cache, and leaves such a cache, of at most 100 entries.
  pub process-plain :
      (f f' : MetadataUrl) (l : T.Rec) (o : Option T.Rec)
      → IsCached x f.urls
      → process T x f l ≡ ok (f', o)
      → (l' : T.Rec) × (plain f.dst l ≡ ok l') × (o ≡ some l') × IsCached x f'.urls
  unfolding process plain
  process-plain f f' l o h e =
      let k = write_meta-Kept f f' l (T.meta l metadata_url) o h e in
      (k.l', k.plainly, k.passed, k.cached)
