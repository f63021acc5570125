-- ===== src/Versions.antt =====
-- tako_vm/version.py and the versions of job types in tako_vm/storage.py. The table is the list of its
-- rows in an order that SQL does not fix where a query has no ORDER BY.
use tako_vm.Prelude.{
  ℕ, suc, zero, Option, none, some, Bool, true, false, not, ◌&&◌, ◌||◌, List, [], ◌∷◌, ◌++◌, length,
  take, drop, leb, ltb, if◌then◌else◌, ◌==◌, is_some,
}
use tako_vm.Security.{Text, same_text, has_char, is_digit, between, all_chars}
use tako_vm.Texts.{codes, starts_with, split_once}
pub mod Reference

-- JobVersion
pub record JobVersion : Type 0 where
  pub job_type_name : Text
  pub version_tag : Option Text
  pub digest : Text
  pub built_at : ℕ
  pub built_by : Option Text
  pub dockerfile_hash : Text
  pub requirements_hash : Text
  pub image_ref : Text

unfoldable pub short_digest : JobVersion → Text
short_digest v = take 12 v.digest

unfoldable pub full_ref : JobVersion → Text
unfolding short_digest codes
full_ref v = v.job_type_name ++ codes "@sha256:" ++ short_digest v

-- save_version: a row of the digest is replaced, a new one is added.
unfoldable pub save_version : List JobVersion → JobVersion → List JobVersion
unfolding same_text
save_version [] v = v ∷ []
save_version (w ∷ t) v =
    let rest = save_version t v in if same_text w.digest v.digest then v ∷ t else w ∷ rest

-- `SELECT * FROM job_versions WHERE job_type_name = …` with a further condition.
unfoldable pub matching : (JobVersion → Bool) → Text → List JobVersion → List JobVersion
unfolding same_text
matching test name [] = []
matching test name (v ∷ t) =
    let rest = matching test name t in
    if same_text v.job_type_name name && test v then v ∷ rest else rest

-- A version, none, or the ValueError of an invalid or ambiguous digest.
pub data Found : Type 0 where
  found : JobVersion → Found
  missing ambiguous invalid : Found

abbrev pub first : List JobVersion → Found
first [] = missing
first (v ∷ vs) = found v

-- The rows that LIMIT 2 leaves.
abbrev pub only : List JobVersion → Found
only [] = missing
only (v ∷ []) = found v
only (v ∷ w ∷ vs) = ambiguous

-- _DIGEST_RE, for whole texts.
abbrev pub is_hex : ℕ → Bool
is_hex c = is_digit c || between 97 102 c

unfoldable pub is_digest : Text → Bool
unfolding all_chars
is_digest d = leb 12 (length d) && leb (length d) 64 && all_chars is_hex d

unfoldable pub get_version_by_digest : List JobVersion → Text → Text → Found
unfolding is_digest matching starts_with same_text
get_version_by_digest t name digest =
    if not (is_digest digest)
    then invalid
    else if ltb (length digest) 64
    then only (matching (λ v. starts_with digest v.digest) name t)
    else first (matching (λ v. same_text v.digest digest) name t)

abbrev pub has_tag : Text → Option Text → Bool
unfolding same_text
has_tag tag none = false
has_tag tag (some t) = same_text t tag

unfoldable pub get_version_by_tag : List JobVersion → Text → Text → Found
unfolding matching same_text
get_version_by_tag t name tag = first (matching (λ v. has_tag tag v.version_tag) name t)

-- `ORDER BY built_at DESC`
unfoldable pub insert : JobVersion → List JobVersion → List JobVersion
insert v [] = v ∷ []
insert v (w ∷ ws) =
    let rest = insert v ws in if leb w.built_at v.built_at then v ∷ w ∷ ws else w ∷ rest

unfoldable pub newest_first : List JobVersion → List JobVersion
unfolding insert
newest_first [] = []
newest_first (v ∷ vs) = insert v (newest_first vs)

unfoldable pub list_versions : List JobVersion → Text → List JobVersion
unfolding matching newest_first
list_versions t name = newest_first (matching (λ v. true) name t)

unfoldable pub get_latest_version : List JobVersion → Text → Found
unfolding list_versions
get_latest_version t name = first (list_versions t name)

unfoldable pub by_spec : List JobVersion → Text → Text → Found
unfolding starts_with codes get_version_by_digest get_version_by_tag
by_spec t name spec =
    if starts_with (codes "sha256:") spec
    then get_version_by_digest t name (drop 7 spec)
    else get_version_by_tag t name spec

-- VersionManager.resolve
unfoldable pub resolve : List JobVersion → Text → Text × Found
unfolding split_once by_spec get_latest_version
resolve t ref = elim (split_once 64 ref) [
  | none ↦ (ref, get_latest_version t ref)
  | some (name, spec) ↦ (name, by_spec t name spec)
]

-- VersionManager.version_exists; `none` is its ValueError.
abbrev pub exists_of : Found → Option Bool
exists_of (found v) = some true
exists_of missing = some false
exists_of ambiguous = none
exists_of invalid = none

unfoldable pub version_exists : List JobVersion → Text → Text → Option Bool
unfolding by_spec
version_exists t name spec = exists_of (by_spec t name spec)

unfoldable pub parse_job_type_ref : Text → Text × Option Text
unfolding split_once
parse_job_type_ref ref = elim (split_once 64 ref) [
  | none ↦ (ref, none)
  | some (name, spec) ↦ (name, some spec)
]
