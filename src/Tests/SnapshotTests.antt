-- ===== src/Tests/SnapshotTests.antt =====
-- Tests of the snapshot fingerprints, on a small file system.
use native.Mathlib.Decide.{ℕ_discrete}
use reqstool_client.Prelude.{
  refl, if◌then◌else◌, false, [], ◌≡◌, ◌∷◌, none, List, ℕ, some, string_eq, true, Option, String,
  ◌==◌,
}
use reqstool_client.Common.SnapshotFingerprint.{
  is_non_empty, results_changed, capture, no_annotations_file, modified, restamped, is_stale,
  warnings, stale_reasons, SnapshotFingerprint,
}
use reqstool_client.Common.SnapshotFingerprint.Laws.{stale_reasons-take, is_stale-restamped, take}

abbrev stat : String → Option (ℕ × ℕ)
stat path =
    if path == "requirements.yml"
    then some (7, 100)
    else if path == "a.xml"
    then some (8, 10)
    else none

abbrev rglob : String → String → Option (List String)
rglob root pattern = some ("b.xml" ∷ "a.xml" ∷ [])

-- requirements.yml has changed since, annotations.yml is still missing, and b.xml is new.
abbrev old : SnapshotFingerprint
old = record {
  stamps =
      record {
        path = "requirements.yml";
        kind = "requirements";
        urn = "ms";
        exists = true;
        mtime_ns = 6;
        size = 100;
      }
      ∷ record {
        path = "annotations.yml";
        kind = "annotations";
        urn = "ms";
        exists = false;
        mtime_ns = 0;
        size = 0;
      }
      ∷ [];
  globs =
      record {
        root = ".";
        pattern = "*.xml";
        urn = "ms";
        matched = capture stat rglob "a.xml" "test_results" "ms" ∷ [];
      }
      ∷ [];
}

stale_reasons-old :
    stale_reasons stat rglob old none
    ≡ modified "requirements.yml" ∷ results_changed "*.xml" "." 1 0 ∷ []
unfolding stale_reasons string_eq ℕ_discrete
stale_reasons-old = refl

-- A limit of zero is passed over by one.
stale_reasons-zero : stale_reasons stat rglob old (some 0) ≡ modified "requirements.yml" ∷ []
unfolding stale_reasons string_eq ℕ_discrete
stale_reasons-zero = refl

warnings-old : warnings old (some "ms") ≡ no_annotations_file "ms" "annotations.yml" ∷ []
unfolding warnings
warnings-old = refl

stale_reasons-take_example :
    (stale_reasons stat rglob old (some 1) ≡ take 1 (stale_reasons stat rglob old none))
    × (is_stale stat rglob old ≡ is_non_empty stat rglob (stale_reasons stat rglob old none))
stale_reasons-take_example = stale_reasons-take stat rglob old 0

is_stale-restamped_example : is_stale stat rglob (restamped stat rglob old) ≡ false
is_stale-restamped_example = is_stale-restamped stat rglob old (("b.xml" ∷ "a.xml" ∷ [], refl), tt)
