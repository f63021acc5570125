-- ===== src/Execution/Worker/Artifacts.antt =====
-- tako_vm/execution/worker.py: _collect_artifacts.
use tako_vm.Prelude.{
  ℕ, ◌+◌, ◌≤◌, String, Option, none, some, true, false, List, [], ◌∷◌, ◌≡◌, refl, arith, ltb,
  Bool-cases, inl, inr, Bool, not, ◌||◌, if◌then◌else◌,
}
use tako_vm.Models.Record.{Artifact}
use tako_vm.Security.{is_safe_filename}
use tako_vm.Texts.{codes}
use Prim.Native.String

-- An entry of the output directory. `copied` is its hash where the copy succeeds.
pub record Entry : Type 0 where
  pub name : String
  pub is_symlink : Bool
  pub is_file : Bool
  pub size : ℕ
  pub copied : Option String

abbrev pub storage_key : String → String → String
storage_key job_id name = String.◌++◌ "runs/" (String.◌++◌ job_id (String.◌++◌ "/artifacts/" name))

abbrev pub artifact_of : String → Entry → String → Artifact
artifact_of job_id e hash = record {
  name = e.name;
  size_bytes = e.size;
  sha256 = hash;
  content_type = none;
  storage_key = storage_key job_id e.name;
}

abbrev pub is_skipped : ℕ → Entry → Bool
is_skipped max_artifact e =
    e.is_symlink
    || not e.is_file
    || not (is_safe_filename (codes e.name))
    || ltb max_artifact e.size

-- The list with the artifact of a copied entry, and without that of a failed copy.
abbrev pub add_copied :
    String → Entry → Option String → List Artifact → List Artifact → List Artifact
add_copied job_id e none rest more = rest
add_copied job_id e (some hash) rest more = artifact_of job_id e hash ∷ more

module _ (job_id : String) (max_artifact max_total : ℕ) where
  -- The loop over the directory, with the bytes kept so far.
  unfoldable pub collect_from : ℕ → List Entry → List Artifact
  unfolding is_safe_filename codes
  collect_from total [] = []
  collect_from total (e ∷ es) =
      let rest = collect_from total es in
      let more = collect_from (total + e.size) es in
      if is_skipped max_artifact e
      then rest
      else if ltb max_total (total + e.size)
      then []
      else add_copied job_id e e.copied rest more

  unfoldable pub collect_artifacts : List Entry → List Artifact
  unfolding collect_from
  collect_artifacts es = collect_from 0 es

unfoldable pub total_bytes : List Artifact → ℕ
total_bytes [] = 0
total_bytes (a ∷ as_) = a.size_bytes + total_bytes as_

-- An artifact comes from an entry of the directory that is a regular file with a safe name.
pub record IsKept (job_id : String) (max_artifact : ℕ) (e : Entry) (a : Artifact) : Type 0 where
  pub is_file : e.is_file ≡ true
  pub is_no_symlink : e.is_symlink ≡ false
  pub is_safe : is_safe_filename (codes e.name) ≡ true
  pub is_small : e.size ≤ max_artifact
  pub hash : String
  pub copied : e.copied ≡ some hash
  pub artifact : a ≡ artifact_of job_id e hash

-- A selection of the entries, in their order.
pub data Selects (job_id : String) (max_artifact : ℕ) : List Entry → List Artifact → Type 0 where
  ends : (es : List Entry) → Selects job_id max_artifact es []
  takes :
      (e : Entry) (es : List Entry) (a : Artifact) (as_ : List Artifact)
      → IsKept job_id max_artifact e a
      → Selects job_id max_artifact es as_
      → Selects job_id max_artifact (e ∷ es) (a ∷ as_)
  leaves :
      (e : Entry) (es : List Entry) (as_ : List Artifact)
      → Selects job_id max_artifact es as_
      → Selects job_id max_artifact (e ∷ es) as_

module _ (job_id : String) (max_artifact max_total : ℕ) where
  taken :
      (e : Entry) (hash : String)
      → e.copied ≡ some hash
      → is_skipped max_artifact e ≡ false
      → IsKept job_id max_artifact e (artifact_of job_id e hash)
  taken e hash c h = record {
    is_file = ground (arith, h);
    is_no_symlink = ground (arith, h);
    is_safe = ground (arith, h);
    is_small = ground (arith, h);
    hash = hash;
    copied = c;
    artifact = refl;
  }

  add_copied-Selects :
      (e : Entry) (es : List Entry) (total : ℕ) (rest more : List Artifact) (copied : Option String)
      → e.copied ≡ copied
      → is_skipped max_artifact e ≡ false
      → (Selects job_id max_artifact es rest) × (total + total_bytes rest ≤ max_total)
      → (Selects job_id max_artifact es more) × (total + e.size + total_bytes more ≤ max_total)
      → (Selects job_id max_artifact (e ∷ es) (add_copied job_id e copied rest more))
        × (total + total_bytes (add_copied job_id e copied rest more) ≤ max_total)
  unfolding total_bytes
  add_copied-Selects e es total rest more none c usable r m = (leaves e es rest r.0, r.1)
  add_copied-Selects e es total rest more (some hash) c usable r m =
      (takes e es _ more (taken e hash c usable) m.0, omega (arith, m.1))

  collect-Selects :
      (total : ℕ) (es : List Entry)
      → total ≤ max_total
      → (Selects job_id max_artifact es (collect_from job_id max_artifact max_total total es))
        × (total + total_bytes (collect_from job_id max_artifact max_total total es) ≤ max_total)
  unfolding collect_from total_bytes
  collect-Selects total [] le = (ends [], omega arith)
  collect-Selects total (e ∷ es) le =
      let rest = collect-Selects total es le in
      elim (Bool-cases (is_skipped max_artifact e)) [
        | inl skipped ↦ rw skipped (leaves e es _ rest.0, rest.1)
        | inr usable ↦ elim (Bool-cases (ltb max_total (total + e.size))) [
          | inl over ↦ rw (usable, over) (ends (e ∷ es), ground (arith, le))
          | inr fits ↦
              let more = collect-Selects (total + e.size) es (ground (arith, fits)) in
              rw (usable, fits) (add_copied-Selects e es total _ _ e.copied refl usable rest more)
        ]
      ]

  -- The artifacts that are collected stand for entries of the directory in their order, each a
  -- regular file that is no symlink, has a safe name, is within the limit of one file and was
  -- copied; their sizes together are within the total limit.
  pub collect_artifacts_lem :
      (es : List Entry)
      → (Selects job_id max_artifact es (collect_artifacts job_id max_artifact max_total es))
        × (total_bytes (collect_artifacts job_id max_artifact max_total es) ≤ max_total)
  unfolding collect_artifacts
  collect_artifacts_lem es = let r = collect-Selects 0 es (omega arith) in (r.0, omega (arith, r.1))
