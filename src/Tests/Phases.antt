-- ===== src/Tests/Phases.antt =====
-- A manifest with one file to install, in a system where every call works.
use super_engine.Prelude.{ℕ, ◌≡◌, refl, true, false, Option, some, List, [], ◌∷◌, Text, text}
use super_engine.Installer.RootPhase.{
  ManifestEntry, Manifest, Os, Trace, resolved, existed, made_dirs, removed, copied, chmodded,
  renamed, measured, read,
}
use super_engine.Installer.RootPhase.Run.{icon_cache, run}
use super_engine.Installer.RootPhase.Guarded.Runs.{IsRestrained, run-IsRestrained}

abbrev os : Os
os = record {
  current_exe = some (text "tmp" ∷ text "setup" ∷ []);
  canonicalize = λ h p. some p;
  exists = λ h p. true;
  stat = λ h p. some (some false);
  create_dir_all = λ h p. true;
  remove_file = λ h p. true;
  copy = λ h s p. true;
  set_permissions = λ h p mode. true;
  rename = λ h p q. true;
  metadata_len = λ h s. some 90;
  read_to_string = λ h s. some (text "manifest");
  is_file = λ h p. false;
}

abbrev entry : ManifestEntry
entry = record { source = text "/stage/app"; dest = text "/usr/local/app"; mode = 0o755 }

abbrev from_json : Text → Option Manifest
from_json content = some (record { entries = entry ∷ []; removals = [] })

abbrev manifest_path : Text
manifest_path = text "/stage/manifest.json"

abbrev dir : List Text
dir = text "usr" ∷ text "local" ∷ []

abbrev tmp : List Text
tmp = text "usr" ∷ text "local" ∷ text ".install.7.app.tmp" ∷ []

abbrev dest : List Text
dest = text "usr" ∷ text "local" ∷ text "app" ∷ []

abbrev installs : Trace
installs =
    existed icon_cache false
    ∷ renamed tmp dest true
    ∷ chmodded tmp 0o755 true
    ∷ copied (text "/stage/app") tmp true
    ∷ removed tmp true
    ∷ resolved dir (some dir)
    ∷ made_dirs dir true
    ∷ resolved (text "tmp" ∷ text "setup" ∷ []) (some (text "tmp" ∷ text "setup" ∷ []))
    ∷ resolved (text "stage" ∷ text "app" ∷ []) (some (text "stage" ∷ text "app" ∷ []))
    ∷ resolved (text "stage" ∷ []) (some (text "stage" ∷ []))
    ∷ read (some (text "manifest"))
    ∷ measured (some 90)
    ∷ []

installed : run os (text "7") from_json manifest_path [] ≡ (0, installs)
unfolding run super_engine.Prelude.list_beq super_engine.Installer.RootPhase.System.components
    super_engine.Installer.RootPhase.apply_manifest
installed = refl

run-IsRestrained_example : IsRestrained os (text "7") from_json manifest_path (0, installs)
unfolding run super_engine.Prelude.list_beq super_engine.Installer.RootPhase.System.components
    super_engine.Installer.RootPhase.apply_manifest
run-IsRestrained_example = run-IsRestrained os (text "7") from_json manifest_path
