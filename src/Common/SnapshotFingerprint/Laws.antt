-- ===== src/Common/SnapshotFingerprint/Laws.antt =====
-- When a snapshot is stale, and that one which was stamped again is not.
use text.Mathlib.Text.{is_lt}
use Prim.Native.String.{compare}
use reqstool_client.Prelude.{
  length-append, arith, leb, ◌+◌, false, sym, ◌++◌, ◌∙◌, length, refl, inr, none, ap, inl, some,
  zero, nat_eq, Bool-cases, ==_refl, Option-cases, ◌∷◌, suc, All, map, true, ◌≡◌, Option, [],
  String, List, ℕ,
}
use reqstool_client.Common.SnapshotFingerprint.{
  reasons_of, is_non_empty, SnapshotFingerprint, is_stale, restamp_glob, capture_glob, restamped,
  stale_reasons, collect_reasons, GlobSpec, restamp, glob_changed, first_changed, sort_by, itself,
  stamp_changed, path_of, capture, Reason, FileStamp, insert_by, same_paths,
}
use mathlib.Core.List.{append_assoc, append-nil}

-- `xs[:n]`
abbrev pub take {ℓ} : {A : Type ℓ} → ℕ → List A → List A
take zero xs = []
take (suc n) [] = []
take (suc n) (x ∷ xs) = x ∷ take n xs

-- The reasons that are there
abbrev reasons_in : List (Option Reason) → List Reason
reasons_in [] = []
reasons_in (none ∷ found) = reasons_in found
reasons_in (some reason ∷ found) = reason ∷ reasons_in found

same_paths_refl : (paths : List String) → same_paths paths paths ≡ true
unfolding same_paths
same_paths_refl [] = refl
same_paths_refl (p ∷ paths) = rw (==_refl p) (same_paths_refl paths)

map-insert_by :
    (x : FileStamp) (ys : List FileStamp)
    → map path_of (insert_by path_of x ys) ≡ insert_by itself x.path (map path_of ys)
unfolding insert_by
map-insert_by x [] = refl
map-insert_by x (y ∷ ys) = elim (Bool-cases (is_lt (compare y.path x.path))) [
  | inl less ↦ rw less (ap (λ paths. y.path ∷ paths) (map-insert_by x ys))
  | inr not_less ↦ rw not_less
]

All-insert_by :
    (P : FileStamp → Type 0) (x : FileStamp) (ys : List FileStamp)
    → P x
    → All P ys
    → All P (insert_by path_of x ys)
unfolding insert_by
All-insert_by P x [] h k = (h, tt)
All-insert_by P x (y ∷ ys) h (k, ks) = elim (Bool-cases (is_lt (compare y.path x.path))) [
  | inl less ↦ rw less (k, All-insert_by P x ys h ks)
  | inr not_less ↦ rw not_less (h, (k, ks))
]

module _ (stat : String → Option (ℕ × ℕ)) (rglob : String → String → Option (List String)) where
  path-capture : (path kind urn : String) → (capture stat rglob path kind urn).path ≡ path
  unfolding capture
  path-capture path kind urn = elim (Option-cases (stat path)) [
    | inl missing ↦ rw missing
    | inr (st, found) ↦ rw found
  ]

  -- A stamp that was just captured is as the file.
  stamp_changed-capture :
      (path kind urn : String) → stamp_changed stat rglob (capture stat rglob path kind urn) ≡ none
  unfolding capture stamp_changed nat_eq
  stamp_changed-capture path kind urn = elim (Option-cases (stat path)) [
    | inl missing ↦ rw (missing, missing)
    | inr (st, found) ↦ rw (found, found, ==_refl st.0, ==_refl st.1)
  ]

  map-captured :
      (urn : String) (paths : List String)
      → map path_of
          (sort_by path_of (map (λ path. capture stat rglob path "test_results" urn) paths))
        ≡ sort_by itself paths
  unfolding sort_by
  map-captured urn [] = refl
  map-captured urn (p ∷ paths) =
      let sorted =
        sort_by path_of (map (λ path. capture stat rglob path "test_results" urn) paths) in
      map-insert_by (capture stat rglob p "test_results" urn) sorted
      ∙ rw (path-capture p "test_results" urn, map-captured urn paths)

  All-captured :
      (urn : String) (paths : List String)
      → All
          (λ s. stamp_changed stat rglob s ≡ none)
          (sort_by path_of (map (λ path. capture stat rglob path "test_results" urn) paths))
  unfolding sort_by
  All-captured urn [] = tt
  All-captured urn (p ∷ paths) =
      All-insert_by (λ s. stamp_changed stat rglob s ≡ none)
        (capture stat rglob p "test_results" urn)
        (sort_by path_of (map (λ path. capture stat rglob path "test_results" urn) paths))
        (stamp_changed-capture p "test_results" urn) (All-captured urn paths)

  first_changed-none :
      (stamps : List FileStamp)
      → All (λ s. stamp_changed stat rglob s ≡ none) stamps
      → first_changed stat rglob stamps ≡ none
  unfolding first_changed
  first_changed-none [] h = refl
  first_changed-none (s ∷ stamps) (h, hs) = rw (h, first_changed-none stamps hs)

  -- A pattern that was just resolved still resolves so.
  glob_changed-restamp_glob :
      (g : GlobSpec) (paths : List String)
      → rglob g.root g.pattern ≡ some paths
      → glob_changed stat rglob (restamp_glob stat rglob g) ≡ none
  unfolding glob_changed capture_glob
  glob_changed-restamp_glob g paths found =
      rw (found, map-captured g.urn paths, same_paths_refl (sort_by itself paths))
        (first_changed-none
          (sort_by path_of (map (λ path. capture stat rglob path "test_results" g.urn) paths))
          (All-captured g.urn paths))

  reasons_in-stamps :
      (stamps : List FileStamp) (found : List (Option Reason))
      → reasons_in (map (stamp_changed stat rglob) (map (restamp stat rglob) stamps) ++ found)
        ≡ reasons_in found
  reasons_in-stamps [] found = refl
  reasons_in-stamps (s ∷ stamps) found =
      rw (stamp_changed-capture s.path s.kind s.urn) (reasons_in-stamps stamps found)

  reasons_in-globs :
      (globs : List GlobSpec)
      → All (λ (g : GlobSpec). (paths : List String) × (rglob g.root g.pattern ≡ some paths)) globs
      → reasons_in (map (glob_changed stat rglob) (map (restamp_glob stat rglob) globs)) ≡ []
  reasons_in-globs [] h = refl
  reasons_in-globs (g ∷ globs) ((paths, found), h) =
      rw (glob_changed-restamp_glob g paths found) (reasons_in-globs globs h)

  collect_reasons-none :
      (found : List (Option Reason)) (reasons : List Reason)
      → collect_reasons stat rglob none found reasons ≡ reasons ++ reasons_in found
  unfolding collect_reasons
  collect_reasons-none [] reasons = sym (append-nil reasons)
  collect_reasons-none (none ∷ found) reasons = collect_reasons-none found reasons
  collect_reasons-none (some r ∷ found) reasons =
      collect_reasons-none found (reasons ++ r ∷ [])
      ∙ append_assoc reasons (r ∷ []) (reasons_in found)

  -- With room for `suc m` more reasons
  collect_reasons-take :
      (found : List (Option Reason)) (reasons : List Reason) (limit m : ℕ)
      → limit ≡ length reasons + suc m
      → collect_reasons stat rglob (some limit) found reasons
        ≡ reasons ++ take (suc m) (reasons_in found)
  unfolding collect_reasons
  collect_reasons-take [] reasons limit m e = sym (append-nil reasons)
  collect_reasons-take (none ∷ found) reasons limit m e =
      collect_reasons-take found reasons limit m e
  collect_reasons-take (some r ∷ found) reasons limit zero e =
      let full : leb limit (length (reasons ++ r ∷ [])) ≡ true =
        ground (arith, length-append reasons (r ∷ [])) in
      rw full
  collect_reasons-take (some r ∷ found) reasons limit (suc m) e =
      let room : leb limit (length (reasons ++ r ∷ [])) ≡ false =
        ground (arith, length-append reasons (r ∷ [])) in
      let left : limit ≡ length (reasons ++ r ∷ []) + suc m =
        omega (arith, length-append reasons (r ∷ [])) in
      rw room (
        collect_reasons-take found (reasons ++ r ∷ []) limit m left
        ∙ append_assoc reasons (r ∷ []) (take (suc m) (reasons_in found)))

  -- With a limit of at least one, the reasons are the first ones of all reasons, up to the limit; and the
  -- snapshot is stale exactly if there is a reason at all.
  pub stale_reasons-take :
      (f : SnapshotFingerprint) (n : ℕ)
      → (stale_reasons stat rglob f (some (suc n)) ≡ take (suc n) (stale_reasons stat rglob f none))
        × (is_stale stat rglob f ≡ is_non_empty stat rglob (stale_reasons stat rglob f none))
  unfolding stale_reasons is_stale
  stale_reasons-take f n =
      let found = reasons_of stat rglob f.stamps f.globs in
      let every = collect_reasons-none found [] in
      (
        collect_reasons-take found [] (suc n) n (omega arith) ∙ ap (take (suc n)) (sym every),
        ap (is_non_empty stat rglob) (collect_reasons-take found [] 1 0 (omega arith))
            ∙ non_empty_take (reasons_in found)
            ∙ ap (is_non_empty stat rglob) (sym every),
      )
    where
      non_empty_take :
          (rs : List Reason) → is_non_empty stat rglob (take 1 rs) ≡ is_non_empty stat rglob rs
      non_empty_take [] = refl
      non_empty_take (r ∷ rs) = refl

  -- A snapshot that is stamped again is fresh, as long as the files stay as they are and every pattern
  -- can be resolved.
  pub is_stale-restamped :
      (f : SnapshotFingerprint)
      → All
          (λ (g : GlobSpec). (paths : List String) × (rglob g.root g.pattern ≡ some paths))
          f.globs
      → is_stale stat rglob (restamped stat rglob f) ≡ false
  unfolding restamped stale_reasons
  is_stale-restamped f h =
      (stale_reasons-take (restamped stat rglob f) 0).1
      ∙ ap (is_non_empty stat rglob) (
          collect_reasons-none
            (reasons_of stat rglob (restamped stat rglob f).stamps (restamped stat rglob f).globs)
            []
          ∙ reasons_in-stamps f.stamps
              (map (glob_changed stat rglob) (map (restamp_glob stat rglob) f.globs))
          ∙ reasons_in-globs f.globs h)
