-- ===== src/Server/Artifacts.antt =====
-- tako_vm/server/app.py: download_artifact and artifact_metadata. As in Server/Replay, `canonical`
-- gives the resolved path of a key under the data directory.
use tako_vm.Prelude.{ℕ, String, Option, none, some, Bool, if◌then◌else◌, str_eq, not}
use tako_vm.Models.Record.{ExecutionRecord, Artifact}
use tako_vm.Server.Replay.{FilePath, is_under, find_artifact}
pub mod Served

-- A FileResponse with its path, media type, file name and ETag; a Response with the length, the type
-- and the ETag; or an error's status.
pub data ArtifactReply : Type 0 where
  file : FilePath → (media_type filename etag : String) → ArtifactReply
  metadata : ℕ → (content_type etag : String) → ArtifactReply
  error : ℕ → ArtifactReply

-- `content_type or "application/octet-stream"`
abbrev pub type_or_default : Option String → String
type_or_default none = "application/octet-stream"
type_or_default (some type) = if str_eq type "" then "application/octet-stream" else type

-- The manifest's entry of a name, in what get_record gives; a missing job and a missing name are
-- answered alike.
abbrev pub listed_artifact : Option ExecutionRecord → String → Option Artifact
listed_artifact none name = none
listed_artifact (some record_) name = find_artifact name record_.artifacts

module _ (canonical : String → FilePath) (data_dir : FilePath) (exists : FilePath → Bool) where
  -- From _resolve_under_data_dir on.
  abbrev pub download_listed : String → Option Artifact → ArtifactReply
  download_listed name none = error 404
  download_listed name (some a) =
      if not (is_under data_dir (canonical a.storage_key))
      then error 400
      else if not (exists (canonical a.storage_key))
      then error 404
      else file (canonical a.storage_key) (type_or_default a.content_type) name a.sha256

  unfoldable pub download_artifact : Option ExecutionRecord → String → ArtifactReply
  unfolding find_artifact is_under
  download_artifact record_ name = download_listed name (listed_artifact record_ name)

abbrev pub described : Option Artifact → ArtifactReply
described none = error 404
described (some a) = metadata a.size_bytes (type_or_default a.content_type) a.sha256

unfoldable pub artifact_metadata : Option ExecutionRecord → String → ArtifactReply
unfolding find_artifact
artifact_metadata record_ name = described (listed_artifact record_ name)
