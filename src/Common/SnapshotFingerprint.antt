-- ===== src/Common/SnapshotFingerprint.antt =====
-- common/snapshot_fingerprint.py: what was read of the file system, and whether it has changed. The file
-- system is given: `os.stat`, and `Path.rglob`, which may raise `OSError`.
pub mod Laws
use text.Mathlib.Text.{is_lt}
use Prim.Native.String.{compare}
use reqstool_client.Prelude.{
  leb, not, true, contains, if◌then◌else◌, [], some, none, map, nat_eq, false, length, ◌∷◌, Bool,
  Option, ℕ, string_eq, List, String, ◌||◌, ◌&&◌, ◌++◌, ◌==◌, ◌+◌,
}

-- `FileStamp`
pub record FileStamp : Type 0 where
  pub path : String
  pub kind : String
  pub urn : String
  pub exists : Bool
  pub mtime_ns : ℕ
  pub size : ℕ

-- `GlobSpec`
pub record GlobSpec : Type 0 where
  pub root : String
  pub pattern : String
  pub urn : String
  pub matched : List FileStamp

-- `SnapshotFingerprint`
pub record SnapshotFingerprint : Type 0 where
  pub stamps : List FileStamp
  pub globs : List GlobSpec

-- Why a snapshot is stale, with what the text names
pub data Reason : Type 0 where
  removed added modified : String → Reason
  unreadable : String → String → Reason
  results_changed : String → String → ℕ → ℕ → Reason
  of_test_result : Reason → Reason

-- What makes an answer misleading, with what the text names
pub data SnapshotWarning : Type 0 where
  matched_no_files : String → String → String → SnapshotWarning
  no_annotations_file : String → String → SnapshotWarning

-- `sorted(xs, key=key)`
unfoldable pub insert_by {ℓ} : {A : Type ℓ} → (A → String) → A → List A → List A
insert_by key x [] = x ∷ []
insert_by key x (y ∷ ys) =
    let later = insert_by key x ys in
    if is_lt (compare (key y) (key x)) then y ∷ later else x ∷ y ∷ ys

unfoldable pub sort_by {ℓ} : {A : Type ℓ} → (A → String) → List A → List A
unfolding insert_by
sort_by key [] = []
sort_by key (x ∷ xs) = insert_by key x (sort_by key xs)

abbrev pub itself : String → String
itself path = path

abbrev pub path_of : FileStamp → String
path_of s = s.path

-- `len(set(a) - set(b))`
unfoldable pub count_only_in : List String → List String → ℕ
unfolding string_eq
count_only_in [] b = 0
count_only_in (x ∷ a) b = (if contains a x || contains b x then 0 else 1) + count_only_in a b

unfoldable pub same_paths : List String → List String → Bool
unfolding string_eq
same_paths [] [] = true
same_paths (x ∷ a) (y ∷ b) = x == y && same_paths a b
same_paths _ _ = false

-- `SnapshotFingerprint.merge`
unfoldable pub merge : List SnapshotFingerprint → SnapshotFingerprint
merge [] = record { stamps = []; globs = [] }
merge (part ∷ parts) =
    let rest = merge parts in
    record { stamps = part.stamps ++ rest.stamps; globs = part.globs ++ rest.globs }

-- `tracked_file_count`
unfoldable pub count_matched : List GlobSpec → ℕ
count_matched [] = 0
count_matched (g ∷ globs) = length g.matched + count_matched globs

unfoldable pub tracked_file_count : SnapshotFingerprint → ℕ
unfolding count_matched
tracked_file_count f = length f.stamps + count_matched f.globs

-- `warnings`
abbrev is_empty : List FileStamp → Bool
is_empty [] = true
is_empty (s ∷ stamps) = false

unfoldable pub glob_warnings : List GlobSpec → List SnapshotWarning
glob_warnings [] = []
glob_warnings (g ∷ globs) =
    let rest = glob_warnings globs in
    if is_empty g.matched then matched_no_files g.urn g.pattern g.root ∷ rest else rest

abbrev is_primary : Option String → String → Bool
is_primary none urn = false
is_primary (some primary_urn) urn = urn == primary_urn

unfoldable pub stamp_warnings : Option String → List FileStamp → List SnapshotWarning
unfolding string_eq
stamp_warnings primary_urn [] = []
stamp_warnings primary_urn (s ∷ stamps) =
    let rest = stamp_warnings primary_urn stamps in
    if s.kind == "annotations" && (not s.exists && is_primary primary_urn s.urn)
    then no_annotations_file s.urn s.path ∷ rest
    else rest

unfoldable pub warnings : SnapshotFingerprint → Option String → List SnapshotWarning
unfolding glob_warnings stamp_warnings
warnings f primary_urn = glob_warnings f.globs ++ stamp_warnings primary_urn f.stamps

module _ (stat : String → Option (ℕ × ℕ)) (rglob : String → String → Option (List String)) where
  abbrev stamp_of : String → String → String → Option (ℕ × ℕ) → FileStamp
  stamp_of path kind urn none = record {
    path = path;
    kind = kind;
    urn = urn;
    exists = false;
    mtime_ns = 0;
    size = 0;
  }
  stamp_of path kind urn (some (mtime, size)) = record {
    path = path;
    kind = kind;
    urn = urn;
    exists = true;
    mtime_ns = mtime;
    size = size;
  }

  -- `FileStamp.capture`
  unfoldable pub capture : String → String → String → FileStamp
  capture path kind urn = stamp_of path kind urn (stat path)

  -- `FileStamp.changed_on_disk`
  abbrev pub compare_stamps : FileStamp → FileStamp → Option Reason
  compare_stamps s current =
      if (current.exists && not s.exists) || (not current.exists && s.exists)
      then some (if s.exists then removed s.path else added s.path)
      else if current.exists
          && (not (current.mtime_ns == s.mtime_ns) || not (current.size == s.size))
      then some (modified s.path)
      else none

  unfoldable pub stamp_changed : FileStamp → Option Reason
  unfolding capture nat_eq
  stamp_changed s = compare_stamps s (capture s.path s.kind s.urn)

  abbrev captured : String → String → FileStamp
  captured urn path = capture path "test_results" urn

  -- `GlobSpec.capture`
  unfoldable pub capture_glob : String → String → String → List String → GlobSpec
  unfolding capture sort_by
  capture_glob root pattern urn matched_paths = record {
    root = root;
    pattern = pattern;
    urn = urn;
    matched = sort_by path_of (map (captured urn) matched_paths);
  }

  abbrev or_else : Option Reason → Option Reason → Option Reason
  or_else none r = r
  or_else (some reason) r = some (of_test_result reason)

  unfoldable pub first_changed : List FileStamp → Option Reason
  unfolding stamp_changed
  first_changed [] = none
  first_changed (s ∷ stamps) = or_else (stamp_changed s) (first_changed stamps)

  abbrev pub compare_paths : GlobSpec → List String → List String → Option Reason
  compare_paths g current matched_paths =
      if not (same_paths current matched_paths)
      then some (
          results_changed g.pattern g.root (count_only_in current matched_paths)
            (count_only_in matched_paths current))
      else first_changed g.matched

  abbrev pub resolve_glob : GlobSpec → Option (List String) → Option Reason
  resolve_glob g none = some (unreadable g.pattern g.root)
  resolve_glob g (some current) = compare_paths g (sort_by itself current) (map path_of g.matched)

  -- `GlobSpec.changed_on_disk`
  unfoldable pub glob_changed : GlobSpec → Option Reason
  unfolding sort_by same_paths count_only_in first_changed
  glob_changed g = resolve_glob g (rglob g.root g.pattern)

  abbrev pub reasons_of : List FileStamp → List GlobSpec → List (Option Reason)
  reasons_of stamps globs = map stamp_changed stamps ++ map glob_changed globs

  abbrev pub reached : Option ℕ → List Reason → Bool
  reached none reasons = false
  reached (some limit) reasons = leb limit (length reasons)

  -- The loop of `stale_reasons`
  unfoldable pub collect_reasons : Option ℕ → List (Option Reason) → List Reason → List Reason
  collect_reasons limit [] reasons = reasons
  collect_reasons limit (none ∷ found) reasons = collect_reasons limit found reasons
  collect_reasons limit (some reason ∷ found) reasons =
      let now = reasons ++ reason ∷ [] in
      let rest = collect_reasons limit found now in if reached limit now then now else rest

  -- `stale_reasons`
  unfoldable pub stale_reasons : SnapshotFingerprint → Option ℕ → List Reason
  unfolding collect_reasons stamp_changed glob_changed
  stale_reasons f limit = collect_reasons limit (reasons_of f.stamps f.globs) []

  abbrev pub is_non_empty : List Reason → Bool
  is_non_empty [] = false
  is_non_empty (r ∷ reasons) = true

  -- `is_stale`
  unfoldable pub is_stale : SnapshotFingerprint → Bool
  unfolding stale_reasons
  is_stale f = is_non_empty (stale_reasons f (some 1))

  abbrev paths_or : List String → Option (List String) → List String
  paths_or paths none = paths
  paths_or paths (some found) = found

  abbrev pub restamp_glob : GlobSpec → GlobSpec
  restamp_glob g =
      capture_glob g.root g.pattern g.urn
        (paths_or (map path_of g.matched) (rglob g.root g.pattern))

  abbrev pub restamp : FileStamp → FileStamp
  restamp s = capture s.path s.kind s.urn

  -- `restamped`
  unfoldable pub restamped : SnapshotFingerprint → SnapshotFingerprint
  unfolding capture capture_glob
  restamped f = record { stamps = map restamp f.stamps; globs = map restamp_glob f.globs }
