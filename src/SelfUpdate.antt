-- ===== src/SelfUpdate.antt =====
-- super-engine-daemon/src/self_update.rs: whether the product has a newer release, and the installer to
-- offer for it. The target triple of the build, the clock and the code host are arguments.
pub mod Candidate
pub mod Offer
pub mod Verified
use super_engine.Prelude.{
  ℕ, ◌*◌, ◌+◌, ◌%◌, ◌^◌, Bool, true, false, not, ◌&&◌, Option, none, some, List, [], ◌∷◌, ◌++◌,
  ◌==◌, nat_eq, bytes_eq, option_eq_of, if◌then◌else◌, Text, text, Result, ok, err, find,
}
use super_engine.Auth.Scopes.{ProductSpec}
use super_engine.Forge.{
  ReleaseKind, published, draft, prerelease, ReleaseAsset, Release, ForgeClient,
}
use super_engine.Spec.Version.{Semver, parse_version, update_available}
use super_engine.Spec.Checksums.{parse_sha256sums, listed}

pub data UpdateBetaOptIn : Type 0 where
  auto enabled disabled : UpdateBetaOptIn

pub record InstallerAsset : Type 0 where
  pub name : Text
  pub url : Text
  pub size : ℕ
  pub sha256 : Text

pub record SelfUpdateStatus : Type 0 where
  pub current_version : Text
  pub latest_version : Option Text
  pub update_available : Bool
  pub checked_at : Option Text
  pub last_check_error : Option Text
  pub beta_optin_effective : Bool
  pub installer_asset : Option InstallerAsset

abbrev pub max_sha256sums_bytes : ℕ
max_sha256sums_bytes = 64 * 1024

abbrev pub is_eligible : Bool → ReleaseKind → Bool
is_eligible include_prereleases published = true
is_eligible include_prereleases prerelease = include_prereleases
is_eligible include_prereleases draft = false

module _ {V : Type 0} where
  abbrev has_prerelease : Semver V → Option V → Bool
  has_prerelease sv none = false
  has_prerelease sv (some v) = sv.is_prerelease v

  unfoldable pub effective_beta_optin_for : Semver V → Text → UpdateBetaOptIn → Bool
  effective_beta_optin_for sv current enabled = true
  effective_beta_optin_for sv current disabled = false
  effective_beta_optin_for sv current auto = has_prerelease sv (parse_version sv current)

  -- `max_by`: of equal versions the last one.
  abbrev pub later : Semver V → Option (V × Release) → V × Release → V × Release
  later sv none next = next
  later sv (some best) next = if sv.le best.0 next.0 then next else best

  abbrev pub counted : Semver V → Option (V × Release) → Release → Option V → Option (V × Release)
  counted sv best r none = best
  counted sv best r (some v) = some (later sv best (v, r))

  abbrev pub stepped : Semver V → Bool → Option (V × Release) → Release → Option (V × Release)
  stepped sv include best r =
      if is_eligible include r.kind then counted sv best r (parse_version sv r.tag) else best

  abbrev pub best_of : Semver V → Bool → Option (V × Release) → List Release → Option (V × Release)
  best_of sv include best [] = best
  best_of sv include best (r ∷ rs) = best_of sv include (stepped sv include best r) rs

  abbrev pub release_of : Option (V × Release) → Option Release
  release_of none = none
  release_of (some (v, r)) = some r

  unfoldable pub select_candidate : Semver V → List Release → Bool → Option Release
  select_candidate sv releases include = release_of (best_of sv include none releases)

-- The candidate that was resolved last, and the channel of the last check that succeeded.
pub record CheckerState : Type 0 where
  pub status : SelfUpdateStatus
  pub resolved_include_pre : Option Bool

pub record SelfUpdateChecker : Type 0 where
  pub product : ProductSpec
  pub current_version : Text
  pub state : CheckerState
  pub generation : ℕ
  pub notified : Option Text

abbrev pub new : ProductSpec → Text → SelfUpdateChecker
new product current_version = record {
  product = product;
  current_version = current_version;
  state = record {
    status = record {
      current_version = current_version;
      latest_version = none;
      update_available = false;
      checked_at = none;
      last_check_error = none;
      beta_optin_effective = false;
      installer_asset = none;
    };
    resolved_include_pre = none;
  };
  generation = 0;
  notified = none;
}

abbrev pub and_then : {A B : Type 0} → Option A → (A → Option B) → Option B
and_then none f = none
and_then (some a) f = f a

abbrev pub succeeded : {A : Type 0} → Result A Text → Option A
succeeded (ok a) = some a
succeeded (err e) = none

unfoldable pub installer_name : ProductSpec → Text → Text
installer_name product triple = product.slug ++ text "-install-" ++ triple

unfoldable pub find_installer_asset : ProductSpec → Release → Text → Option ReleaseAsset
find_installer_asset product release triple =
    find (λ a. a.name == installer_name product triple) release.assets

abbrev pub with_digest : ReleaseAsset → Text → InstallerAsset
with_digest asset sha256 = record {
  name = asset.name;
  url = asset.download_url;
  size = asset.size;
  sha256 = sha256;
}

abbrev pub tag_of : Option Release → Option Text
tag_of none = none
tag_of (some r) = some r.tag

abbrev pub same_channel : Option Bool → Bool → Bool
same_channel none include = false
same_channel (some false) include = not include
same_channel (some true) include = include

abbrev pub unresolved : SelfUpdateChecker → Bool → Text → Text → CheckerState
unresolved checker include now e =
    let prev = checker.state in
    let same = same_channel prev.resolved_include_pre include in
    record {
      status = record {
        current_version = checker.current_version;
        latest_version = if same then prev.status.latest_version else none;
        update_available = if same then prev.status.update_available else false;
        checked_at = some now;
        last_check_error = some e;
        beta_optin_effective = include;
        installer_asset = if same then prev.status.installer_asset else none;
      };
      resolved_include_pre = prev.resolved_include_pre;
    }

abbrev pub completed :
    SelfUpdateChecker → CheckerState → SelfUpdateChecker × SelfUpdateStatus × Bool
completed checker state = (
  record checker { state = state; generation = (checker.generation + 1) % 2 ^ 64 },
  state.status,
  true,
)

module _ {V : Type 0} (sv : Semver V) where
  abbrev pub is_update : Text → Option Release → Bool
  is_update current none = false
  is_update current (some c) = update_available sv current c.tag

  unfoldable pub status_for : SelfUpdateChecker → UpdateBetaOptIn → SelfUpdateStatus
  status_for checker optin = elim checker.state.resolved_include_pre [
    | none ↦ record checker.state.status {
      beta_optin_effective = effective_beta_optin_for sv checker.current_version optin;
    }
    | some include ↦ checker.state.status
  ]

-- `from_utf8` is `String::from_utf8`.
module _ (from_utf8 : List ℕ → Option Text) where
  abbrev pub listing : ForgeClient → Release → Option Text
  listing client release =
      and_then (find (λ a. a.name == text "SHA256SUMS") release.assets) (λ sums.
        and_then (succeeded (client.download sums.download_url max_sha256sums_bytes)) from_utf8)

  unfoldable pub resolve_installer_asset :
      ProductSpec → ForgeClient → Release → Text → Option InstallerAsset
  resolve_installer_asset product client release triple =
      and_then (find_installer_asset product release triple) (λ asset.
        and_then (listing client release) (λ sums.
          and_then (listed asset.name (parse_sha256sums sums))
            (λ sha256. some (with_digest asset sha256))))

  module _ {V : Type 0} (sv : Semver V) (target_triple : Option Text) where
    abbrev pub installer : ProductSpec → ForgeClient → Bool → Option Release → Option InstallerAsset
    installer product client false candidate = none
    installer product client true candidate =
        and_then candidate
          (λ c. and_then target_triple (λ t. resolve_installer_asset product client c t))

    abbrev pub resolved :
        SelfUpdateChecker → ForgeClient → Bool → Text → Option Release → CheckerState
    resolved checker client include now candidate = record {
      status = record {
        current_version = checker.current_version;
        latest_version = tag_of candidate;
        update_available = is_update sv checker.current_version candidate;
        checked_at = some now;
        last_check_error = none;
        beta_optin_effective = include;
        installer_asset =
            installer checker.product client (is_update sv checker.current_version candidate)
              candidate;
      };
      resolved_include_pre = some include;
    }

    abbrev pub checked :
        SelfUpdateChecker → ForgeClient → Bool → Text → Result (List Release) Text → CheckerState
    checked checker client include now (ok releases) =
        resolved checker client include now (select_candidate sv releases include)
    checked checker client include now (err e) = unresolved checker include now e

    -- From the check lock on; `before` is the generation that the caller saw when it came.
    unfoldable pub run_check :
        (before : ℕ)
        → SelfUpdateChecker
        → ForgeClient
        → UpdateBetaOptIn
        → (now : Text) → SelfUpdateChecker × SelfUpdateStatus × Bool
    run_check before checker client optin now =
        if checker.generation == before
        then completed checker (
            checked checker client (effective_beta_optin_for sv checker.current_version optin) now
              client.list_releases)
        else (checker, checker.state.status, false)

unfoldable pub should_notify : SelfUpdateChecker → Text → Bool
should_notify checker tag = not ((option_eq_of bytes_eq).beq checker.notified (some tag))

unfoldable pub record_notified : SelfUpdateChecker → Text → SelfUpdateChecker
record_notified checker tag = record checker { notified = some tag }
