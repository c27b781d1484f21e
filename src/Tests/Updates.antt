-- ===== src/Tests/Updates.antt =====
-- A product of version 1 whose code host lists versions 2 and 3, the last with an installer.
use super_engine.Prelude.{
  ℕ, ◌≡◌, refl, false, Option, none, some, [], ◌∷◌, Text, text, ok, err, leb, ◌++◌, arith,
}
use super_engine.Auth.Scopes.{ProductSpec}
use super_engine.Forge.{published, Release, ForgeClient}
use super_engine.Spec.Version.{Semver, IsOrdered, parse_version}
use super_engine.Spec.Checksums.{parse_sha256sums, listed}
use super_engine.SelfUpdate.{
  auto, InstallerAsset, new, select_candidate, resolve_installer_asset, find_installer_asset,
  installer_name, run_check, effective_beta_optin_for,
}
use super_engine.SelfUpdate.Candidate.{IsCandidate, select_candidate-IsCandidate}
use super_engine.SelfUpdate.Offer.{Call, calls, IsOffered, calls-IsOffered}

-- Versions of one digit.
abbrev digit : Text → Option ℕ
digit [] = none
digit (c ∷ []) = some c
digit (c ∷ d ∷ s) = none

abbrev digits : Semver ℕ
digits = record { parse = digit; le = leb; is_prerelease = λ v. false }

digits-IsOrdered : IsOrdered digits
digits-IsOrdered = record {
  total = λ v w h. grind arith;
  trans = λ u v w h k. grind arith;
  self = λ v. grind arith;
}

abbrev hex : Text
hex = text "aaaaaaaaaaaaaaaaaaaaaaaaaaaaaaaaaaaaaaaaaaaaaaaaaaaaaaaaaaaaaaaa"

abbrev product : ProductSpec
product = record {
  display_name = text "App";
  slug = text "app";
  short_name = text "app";
  env_prefix = text "APP";
  tcp_port = 8000;
  repo = text "r";
  index_url = text "i";
  scopes = [];
  topics = [];
}

abbrev second : Release
second = record { tag = text "2"; kind = published; assets = [] }

abbrev third : Release
third = record {
  tag = text "v3";
  kind = published;
  assets =
      record { name = text "app-install-x86"; download_url = text "u"; size = 10 }
      ∷ record { name = text "SHA256SUMS"; download_url = text "s"; size = 80 }
      ∷ [];
}

abbrev client : ForgeClient
client = record {
  list_releases = ok (third ∷ second ∷ []);
  download = λ url max_bytes. ok (hex ++ text "  app-install-x86");
}

newest : select_candidate digits (third ∷ second ∷ []) false ≡ some third
unfolding select_candidate parse_version
newest = refl

select_candidate-IsCandidate_example :
    IsCandidate digits digits-IsOrdered false (third ∷ second ∷ []) (some third)
unfolding select_candidate parse_version
select_candidate-IsCandidate_example =
    select_candidate-IsCandidate digits digits-IsOrdered false (third ∷ second ∷ [])

abbrev offer : InstallerAsset
offer = record { name = text "app-install-x86"; url = text "u"; size = 10; sha256 = hex }

abbrev good_call : Call
good_call = record { before = 0; client = client; optin = auto; now = text "noon" }

abbrev failed_call : Call
failed_call = record {
  before = 1;
  client = record {
    list_releases = err (text "offline");
    download = λ url max_bytes. err (text "offline");
  };
  optin = auto;
  now = text "later";
}

offered :
    (calls some digits
      (some (text "x86"))
      (failed_call ∷ good_call ∷ [])
      (new product (text "1"))).state.status.installer_asset
    ≡ some offer
unfolding run_check effective_beta_optin_for parse_version select_candidate
    super_engine.Spec.Version.update_available resolve_installer_asset find_installer_asset
    super_engine.Prelude.list_beq installer_name listed parse_sha256sums
offered = refl

calls-IsOffered_example :
    IsOffered some digits
      (some (text "x86"))
      product
      (text "1")
      (failed_call ∷ good_call ∷ [])
      (calls some digits
        (some (text "x86"))
        (failed_call ∷ good_call ∷ [])
        (new product (text "1"))).state.status
      offer
calls-IsOffered_example =
    calls-IsOffered some digits (some (text "x86")) product (text "1")
      (failed_call ∷ good_call ∷ []) offer offered
