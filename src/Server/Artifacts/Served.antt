-- ===== src/Server/Artifacts/Served.antt =====
-- tako_vm/server/app.py: which files download_artifact serves.
use tako_vm.Prelude.{
  IsAmong, first, later, ℕ, ◌≤◌, String, Option, none, some, Bool, true, false, List, [], ◌∷◌, ◌≡◌,
  refl, sym, ap, ◌∙◌, arith, str_eq, eq_iff, Bool-cases, inl, inr,
}
use mathlib.Core.Option.{some-injective}
use mathlib.Core.Path.{subst}
use tako_vm.Models.Record.{ExecutionRecord, Artifact}
use tako_vm.Security.{is_safe_filename}
use tako_vm.Texts.{codes}
use tako_vm.Execution.Worker.Artifacts.{
  Entry, storage_key, collect_artifacts, IsKept, Selects, ends, takes, leaves,
  collect_artifacts_lem,
}
use tako_vm.Server.Replay.{FilePath, is_under, find_artifact}
use tako_vm.Server.Artifacts.{
  ArtifactReply, file, metadata, type_or_default, listed_artifact, download_listed, described,
  download_artifact, artifact_metadata,
}

abbrev path_of : ArtifactReply → FilePath
path_of (file path type name etag) = path
path_of _ = []

abbrev type_of : ArtifactReply → String
type_of (file path type name etag) = type
type_of _ = ""

abbrev etag_of : ArtifactReply → String
etag_of (file path type name etag) = etag
etag_of _ = ""

abbrev name_of : ArtifactReply → String
name_of (file path type name etag) = name
name_of _ = ""

pub find_artifact-name :
    (name : String) (items : List Artifact) (a : Artifact)
    → find_artifact name items ≡ some a
    → a.name ≡ name
unfolding find_artifact
find_artifact-name name [] a found = absurd (ground (arith, found))
find_artifact-name name (x ∷ items) a found =
    ground (arith, found, eq_iff x.name name, find_artifact-name name items a)

listed_artifact-name :
    (record_ : Option ExecutionRecord) (name : String) (a : Artifact)
    → listed_artifact record_ name ≡ some a
    → a.name ≡ name
listed_artifact-name none name a found = absurd (ground (arith, found))
listed_artifact-name (some r) name a found = find_artifact-name name r.artifacts a found

module _ (canonical : String → FilePath) (data_dir : FilePath) (exists : FilePath → Bool)
    (name : String) (path : FilePath) (type filename etag : String) where
  -- The artifact behind a served file.
  pub record IsSource (a : Artifact) : Type 0 where
    pub is_named : a.name ≡ name
    pub is_resolved : path ≡ canonical a.storage_key
    pub is_inside : is_under data_dir path ≡ true
    pub is_there : exists path ≡ true
    pub is_typed : type ≡ type_or_default a.content_type
    pub is_titled : filename ≡ name
    pub is_tagged : etag ≡ a.sha256

  of_file :
      (a : Artifact)
      → a.name ≡ name
      → is_under data_dir (canonical a.storage_key) ≡ true
      → exists (canonical a.storage_key) ≡ true
      → file (canonical a.storage_key) (type_or_default a.content_type) name a.sha256
        ≡ file path type filename etag
      → IsSource a
  of_file a named inside present e = record {
    is_named = named;
    is_resolved = sym (ap path_of e);
    is_inside = ap (is_under data_dir) (sym (ap path_of e)) ∙ inside;
    is_there = ap exists (sym (ap path_of e)) ∙ present;
    is_typed = sym (ap type_of e);
    is_titled = sym (ap name_of e);
    is_tagged = sym (ap etag_of e);
  }

  download_listed-IsSource :
      (o : Option Artifact)
      → ((a : Artifact) → o ≡ some a → a.name ≡ name)
      → download_listed canonical data_dir exists name o ≡ file path type filename etag
      → (a : Artifact) × (o ≡ some a) × IsSource a
  download_listed-IsSource none named e = absurd (ground (arith, e))
  download_listed-IsSource (some a) named e =
      elim (Bool-cases (is_under data_dir (canonical a.storage_key))) [
        | inr outside ↦ absurd (ground (arith, rw outside at e))
        | inl inside ↦ elim (Bool-cases (exists (canonical a.storage_key))) [
          | inr absent ↦ absurd (ground (arith, rw (inside, absent) at e))
          | inl present ↦
              (a, refl, of_file a (named a refl) inside present (rw (inside, present) at e))
        ]
      ]

  -- If download_artifact serves a file, whatever keys the record has, then the file is present and
  -- lies under the data directory, it is where the key of a listed artifact of that name resolves
  -- to, and artifact_metadata answers with that artifact's size and the same type and ETag.
  pub download_artifact-IsConfined :
      (record_ : Option ExecutionRecord)
      → download_artifact canonical data_dir exists record_ name ≡ file path type filename etag
      → (a : Artifact) × (listed_artifact record_ name ≡ some a)
        × IsSource a
        × (artifact_metadata record_ name ≡ metadata a.size_bytes type etag)
  unfolding download_artifact artifact_metadata
  download_artifact-IsConfined record_ e =
      let (a, found, source) =
        download_listed-IsSource (listed_artifact record_ name) (listed_artifact-name record_ name)
          e in
      (
        a,
        found,
        source,
        ap described found
            ∙ ap (λ y. metadata a.size_bytes y a.sha256) (sym source.is_typed)
            ∙ ap (metadata a.size_bytes type) (sym source.is_tagged),
      )

module _ (job_id : String) (max_artifact : ℕ) where
  -- The entry that an artifact was copied from.
  Selects-IsAmong :
      (name : String) (a : Artifact) (es : List Entry) (items : List Artifact)
      → Selects job_id max_artifact es items
      → find_artifact name items ≡ some a
      → (e : Entry) × IsAmong e es × IsKept job_id max_artifact e a
  unfolding find_artifact
  Selects-IsAmong name a es items (ends _) found = absurd (ground (arith, found))
  Selects-IsAmong name a es items (takes e rest x more kept selects) found =
      elim (Bool-cases (str_eq x.name name)) [
        | inl same ↦ (
          e,
          first rest,
          subst (IsKept job_id max_artifact e) (some-injective x a (rw same at found)) kept,
        )
        | inr other ↦
            let (e', among, kept') = Selects-IsAmong name a rest more selects (rw other at found) in
            (e', later e rest among, kept')
      ]
  Selects-IsAmong name a es items (leaves e rest more selects) found =
      let (e', among, kept') = Selects-IsAmong name a rest more selects found in
      (e', later e rest among, kept')

  module _ (canonical : String → FilePath) (data_dir : FilePath) (exists : FilePath → Bool)
      (max_total : ℕ) (es : List Entry) (record_ : ExecutionRecord)
      (collected : record_.artifacts ≡ collect_artifacts job_id max_artifact max_total es) where
    found-source :
        (name : String) (a : Artifact)
        → find_artifact name record_.artifacts ≡ some a
        → (e : Entry) × IsAmong e es × IsKept job_id max_artifact e a
    found-source name a found =
        Selects-IsAmong name a es _ (collect_artifacts_lem job_id max_artifact max_total es).0
          (ap (find_artifact name) (sym collected) ∙ found)

    -- If a record has the artifacts that _collect_artifacts made from an output directory, then a
    -- file that download_artifact serves for it lies under the data directory, where the key of
    -- the job and the name resolves to, and the directory has an entry of that name that was
    -- copied with the hash that is the ETag: a regular file, no symlink, with a safe name and
    -- within the limit of one file.
    pub download_artifact-collected :
        (name : String) (path : FilePath) (type filename etag : String)
        → download_artifact canonical data_dir exists (some record_) name
          ≡ file path type filename etag
        → (is_under data_dir path ≡ true)
          × (path ≡ canonical (storage_key job_id name))
          × ((e : Entry) × IsAmong e es
              × (e.name ≡ name)
              × (e.copied ≡ some etag)
              × (e.is_file ≡ true)
              × (e.is_symlink ≡ false)
              × (is_safe_filename (codes e.name) ≡ true)
              × (e.size ≤ max_artifact))
    download_artifact-collected name path type filename etag served =
        let (a, found, source, described_) =
          download_artifact-IsConfined canonical data_dir exists name path type filename etag
            (some record_) served in
        let (e, among, kept) = found-source name a found in
        let same_name : e.name ≡ name =
          sym (ap (λ (x : Artifact). x.name) kept.artifact) ∙ source.is_named in
        (
          source.is_inside,
          source.is_resolved
              ∙ ap (λ (x : Artifact). canonical x.storage_key) kept.artifact
              ∙ ap (λ n. canonical (storage_key job_id n)) same_name,
          (
            e,
            among,
            same_name,
            kept.copied
                ∙ ap some
                    (sym (ap (λ (x : Artifact). x.sha256) kept.artifact) ∙ sym source.is_tagged),
            kept.is_file,
            kept.is_no_symlink,
            kept.is_safe,
            kept.is_small,
          ),
        )
