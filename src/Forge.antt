-- ===== src/Forge.antt =====
-- super-engine-forge/src/lib.rs: the releases of a code host, and its client, a parameter.
use super_engine.Prelude.{ℕ, Bool, true, false, List, Text, Result}

pub data ReleaseKind : Type 0 where
  published draft prerelease : ReleaseKind

pub record ReleaseAsset : Type 0 where
  pub name : Text
  pub download_url : Text
  pub size : ℕ

pub record Release : Type 0 where
  pub tag : Text
  pub kind : ReleaseKind
  pub assets : List ReleaseAsset

abbrev pub published_kind : ReleaseKind → Bool
published_kind published = true
published_kind _ = false

unfoldable pub is_published : Release → Bool
is_published r = published_kind r.kind

-- One answer of a client to each request, an error by its text.
pub record ForgeClient : Type 0 where
  pub list_releases : Result (List Release) Text
  pub download : (url : Text) (max_bytes : ℕ) → Result (List ℕ) Text
