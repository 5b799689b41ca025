-- ===== src/Config/Select/Known.antt =====
-- config.go: which names of components a configuration is accepted with.
use mathlib.Core.Option.{Option, none, some}
use baker.Common.{
  Bytes, List, [], ◌∷◌, ℕ, suc, Result, ok, err, bad_config, panic, out_of_fuel, Bool, Bool-cases,
  true, false, ◌&&◌, ◌||◌, if◌then◌else◌, ◌≡◌, refl, inl, inr, arith,
}
use baker.Config.Select.{
  Kind, filter_kind, input_kind, output_kind, upload_kind, metrics_kind, user_kind, Toml, Chosen,
  Available, Descs, find_desc, find_descs, find_metrics, find_all, decode_filters, decode_optional,
  decode_user, select_components,
}

-- A toml whose sections are all there and decoded
pub record IsDecoded (o : Toml) : Type 0 where
  pub sections : (kind : Kind) (n : ℕ) (d : Bytes) → o.decodes kind n d ≡ true
  pub configured : (n : ℕ) → o.configured n ≡ true
  pub keys : o.undecoded ≡ []

-- Whether a call returns a value or an error, or panics
pub data Verdict : Type 0 where
  accepted refused crashed : Verdict

abbrev pub verdict : {A : Type 0} → Result A → Verdict
verdict (ok a) = accepted
verdict (err e) = refused
verdict panic = crashed
verdict out_of_fuel = crashed

module _ (o : Toml) where
  abbrev pub is_known : Bytes → List Bytes → Bool
  is_known name [] = false
  is_known name (d ∷ ds) = o.equal_fold d name || is_known name ds

  abbrev pub are_known : List Bytes → List Bytes → Bool
  are_known [] ds = true
  are_known (name ∷ names) ds = is_known name ds && are_known names ds

  -- A name that may be missing
  abbrev pub is_known_if : Bytes → List Bytes → Bool
  is_known_if [] ds = true
  is_known_if (b ∷ bs) ds = is_known (b ∷ bs) ds

  -- The components that have to be there before the sections are decoded
  abbrev pub finds : Chosen → Available → Bool
  finds c a =
      is_known c.input a.inputs
      && (are_known c.filters a.filters
          && (is_known c.output a.outputs && is_known_if c.metrics a.metrics))

  find_desc-is_known :
      (name : Bytes) (ds : List Bytes)
      → is_known name ds ≡ true
      → (d : Bytes) × (find_desc o name ds ≡ some d)
  find_desc-is_known name [] h = cc
  find_desc-is_known name (d ∷ ds) h = elim (Bool-cases (o.equal_fold d name)) [
    | inl e ↦ (d, rw e refl)
    | inr e ↦ let (x, call) = find_desc-is_known name ds (ground arith) in (x, rw (e, call) refl)
  ]

  find_desc-unknown :
      (name : Bytes) (ds : List Bytes) → is_known name ds ≡ false → find_desc o name ds ≡ none
  find_desc-unknown name [] h = refl
  find_desc-unknown name (d ∷ ds) h = ground (arith, find_desc-unknown name ds)

  find_descs-are_known :
      (names ds : List Bytes)
      → are_known names ds ≡ true
      → (fs : List Bytes) × (find_descs o names ds ≡ ok fs)
  unfolding find_descs
  find_descs-are_known [] ds h = ([], refl)
  find_descs-are_known (name ∷ names) ds h =
      let (d, call) = find_desc-is_known name ds (ground arith) in
      let (fs, rest) = find_descs-are_known names ds (ground arith) in
      (d ∷ fs, rw (call, rest) refl)

  find_descs-unknown :
      (names ds : List Bytes) → are_known names ds ≡ false → find_descs o names ds ≡ err bad_config
  unfolding find_descs
  find_descs-unknown [] ds h = cc
  find_descs-unknown (name ∷ names) ds h = elim (Bool-cases (is_known name ds)) [
    | inl here ↦
        let (d, call) = find_desc-is_known name ds here in
        let rest = find_descs-unknown names ds (ground arith) in rw (call, rest) refl
    | inr away ↦ rw (find_desc-unknown name ds away) refl
  ]

  find_metrics-known :
      (h : IsDecoded o) (name : Bytes) (ds : List Bytes)
      → is_known_if name ds ≡ true
      → (m : Option Bytes) × (find_metrics o name ds ≡ ok m)
        × (decode_optional o metrics_kind name m ≡ ok true)
  unfolding find_metrics
  find_metrics-known h [] ds k = (none, refl, refl)
  find_metrics-known h (b ∷ bs) ds k =
      let (d, call) = find_desc-is_known (b ∷ bs) ds k in
      (some d, rw call refl, rw (h.sections metrics_kind 0 d) refl)

  find_metrics-unknown :
      (name : Bytes) (ds : List Bytes)
      → is_known_if name ds ≡ false
      → find_metrics o name ds ≡ err bad_config
  unfolding find_metrics
  find_metrics-unknown [] ds k = cc
  find_metrics-unknown (b ∷ bs) ds k = rw (find_desc-unknown (b ∷ bs) ds k) refl

  decode_upload-known :
      (h : IsDecoded o) (name : Bytes) (ds : List Bytes)
      → is_known_if name ds ≡ true
      → decode_optional o upload_kind name (find_desc o name ds) ≡ ok true
  decode_upload-known h [] ds k = refl
  decode_upload-known h (b ∷ bs) ds k =
      let (d, call) = find_desc-is_known (b ∷ bs) ds k in
      rw call (rw (h.sections upload_kind 0 d) refl)

  decode_upload-unknown :
      (name : Bytes) (ds : List Bytes)
      → is_known_if name ds ≡ false
      → decode_optional o upload_kind name (find_desc o name ds) ≡ panic
  decode_upload-unknown [] ds k = cc
  decode_upload-unknown (b ∷ bs) ds k = rw (find_desc-unknown (b ∷ bs) ds k) refl

  decode_filters-ok : (h : IsDecoded o) (n : ℕ) (ds : List Bytes) → decode_filters o n ds ≡ ok true
  unfolding decode_filters
  decode_filters-ok h n [] = refl
  decode_filters-ok h n (d ∷ ds) = rw (h.sections filter_kind n d) (decode_filters-ok h (suc n) ds)

  decode_user-known :
      (h : IsDecoded o) (n : ℕ) (names ds : List Bytes)
      → are_known names ds ≡ true
      → decode_user o n names ds ≡ ok true
  unfolding decode_user
  decode_user-known h n [] ds k = refl
  decode_user-known h n (name ∷ names) ds k =
      let (d, call) = find_desc-is_known name ds (ground arith) in
      rw call (
        rw (h.configured n, h.sections user_kind n d)
          (decode_user-known h (suc n) names ds (ground arith)))

  decode_user-unknown :
      (h : IsDecoded o) (n : ℕ) (names ds : List Bytes)
      → are_known names ds ≡ false
      → decode_user o n names ds ≡ err bad_config
  unfolding decode_user
  decode_user-unknown h n [] ds k = cc
  decode_user-unknown h n (name ∷ names) ds k = elim (Bool-cases (is_known name ds)) [
    | inl here ↦
        let (d, call) = find_desc-is_known name ds here in
        rw call (
          rw (h.configured n, h.sections user_kind n d)
            (decode_user-unknown h (suc n) names ds (ground arith)))
    | inr away ↦ rw (find_desc-unknown name ds away) refl
  ]

  -- What the look-up leaves for the sections
  abbrev IsFound : Chosen → Available → Descs → Type 0
  IsFound c a f =
      (f.upload ≡ find_desc o c.upload a.uploads)
      × (decode_optional o metrics_kind c.metrics f.metrics ≡ ok true)

  find_all-finds :
      (h : IsDecoded o) (c : Chosen) (a : Available)
      → finds c a ≡ true
      → (f : Descs) × (find_all o c a ≡ ok f) × IsFound c a f
  unfolding find_all
  find_all-finds h c a k =
      let (input, i) = find_desc-is_known c.input a.inputs (ground arith) in
      let (filters, fs) = find_descs-are_known c.filters a.filters (ground arith) in
      let (output, u) = find_desc-is_known c.output a.outputs (ground arith) in
      let (metrics, m, decoded) = find_metrics-known h c.metrics a.metrics (ground arith) in
      (
        record {
          input = input;
          filters = filters;
          output = output;
          upload = find_desc o c.upload a.uploads;
          metrics = metrics;
        },
        rw i (rw fs (rw u (rw m refl))),
        (refl, decoded),
      )

  find_all-unknown :
      (h : IsDecoded o) (c : Chosen) (a : Available)
      → finds c a ≡ false
      → find_all o c a ≡ err bad_config
  unfolding find_all
  find_all-unknown h c a k = elim (Bool-cases (is_known c.input a.inputs)) [
    | inr away ↦ rw (find_desc-unknown c.input a.inputs away) refl
    | inl input ↦
        let (_, i) = find_desc-is_known c.input a.inputs input in
        elim (Bool-cases (are_known c.filters a.filters)) [
          | inr away ↦ rw i (rw (find_descs-unknown c.filters a.filters away) refl)
          | inl filters ↦
              let (_, fs) = find_descs-are_known c.filters a.filters filters in
              elim (Bool-cases (is_known c.output a.outputs)) [
                | inr away ↦ rw i (rw fs (rw (find_desc-unknown c.output a.outputs away) refl))
                | inl output ↦
                    let (_, u) = find_desc-is_known c.output a.outputs output in
                    let away = find_metrics-unknown c.metrics a.metrics (ground arith) in
                    rw i (rw fs (rw u (rw away refl)))
              ]
        ]
  ]

  -- Once the components are found, the uploads and the user-specific entries are left.
  select_found :
      (h : IsDecoded o) (c : Chosen) (a : Available)
      → finds c a ≡ true
      → verdict (select_components o c a) ≡ (
          if is_known_if c.upload a.uploads
          then (if are_known c.user a.user then accepted else refused)
          else crashed)
  unfolding select_components
  select_found h c a k =
      let (f, call, (upload, metrics)) = find_all-finds h c a k in
      let input = h.sections input_kind 0 f.input in
      let filters = decode_filters-ok h 0 f.filters in
      let output = h.sections output_kind 0 f.output in
      elim (Bool-cases (is_known_if c.upload a.uploads)) [
        | inr away ↦ rw away (
            rw call (
              rw input (
                rw filters (
                  rw output
                    (rw upload (rw (decode_upload-unknown c.upload a.uploads away) refl))))))
        | inl there ↦ elim (Bool-cases (are_known c.user a.user)) [
          | inr away ↦
              rw (there, away)
                (rw call (
                  rw input (
                    rw filters (
                      rw output (
                        rw upload (
                          rw (decode_upload-known h c.upload a.uploads there) (
                            rw metrics (rw (decode_user-unknown h 0 c.user a.user away) refl))))))))
          | inl all ↦
              rw (there, all)
                (rw call (
                  rw input (
                    rw filters (
                      rw output (
                        rw upload (
                          rw (decode_upload-known h c.upload a.uploads there) (
                            rw metrics
                              (rw (decode_user-known h 0 c.user a.user all) (rw h.keys refl)))))))))
        ]
      ]

-- Let all sections be there and decoded, and no key be left over. Then the look-up of components in
-- NewConfigFromToml (before the mapping of fields, the validation and the defaults, which may still refuse)
-- refuses a configuration with an error if the name of its input, a filter, its output or its metrics,
-- which may be missing, is that of no component; else it panics if the name of its upload is that of no
-- component; else it refuses it if the name of a user-specific entry is, and otherwise accepts it.
pub select_components-verdict :
    (o : Toml) (c : Chosen) (a : Available)
    → IsDecoded o
    → verdict (select_components o c a) ≡ (
        if finds o c a
        then (if is_known_if o c.upload a.uploads
            then (if are_known o c.user a.user then accepted else refused)
            else crashed)
        else refused)
unfolding select_components
select_components-verdict o c a h = elim (Bool-cases (finds o c a)) [
  | inl k ↦ rw k (select_found o h c a k)
  | inr k ↦ rw k (rw (find_all-unknown o h c a k) refl)
]
