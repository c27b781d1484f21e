-- ===== src/Tests/Installs.antt =====
-- A backend is replaced by its staged successor beside another backend.
use super_engine.Prelude.{
  ◌≡◌, ◌↔◌, Option, refl, true, false, none, some, List, [], ◌∷◌, text, Text, bytes_eq, nat_eq,
  arith, is_ok, Result, ok, err, all, All, Member, leb, ◌&&◌, lookup, list_beq, strip_prefix,
}
use super_engine.Spec.Manifest.{Manifest, ManifestError, ModelEntry, subprocess}
use super_engine.Registry.Compat.{FileSpec}
use super_engine.Registry.Arch.{byte_len}
use super_engine.Spec.Paths.{path_join, is_safe_relative_path}
use super_engine.Spec.BackendId.{is_valid}
use super_engine.Install.FileSystem.{World, io_error, rename, remove_dir_all}
use super_engine.Install.Swap.{swap_into_place, sidecar_of}
use super_engine.Install.Swap.Safety.{IsSettled, IsRecoverable, swap_into_place-safe}
use super_engine.Install.Swap.Sidecar.{swap_into_place-neighbour}
use super_engine.Install.CarryOver.{carry}
use super_engine.Install.CarryOver.Kept.{Keeps, carry-Keeps}
use super_engine.Install.Survivors.{survivors}
use super_engine.Install.Survivors.Offers.{offers, survivors_iff}
use super_engine.Install.Reconcile.{reconcile_dirs}
use super_engine.Install.Reconcile.Untouched.{LeavesAlone, reconcile_dirs-LeavesAlone}
use super_engine.Install.Serving.{put_staged, installing, install_dir_conflict}
use super_engine.Install.Serving.Others.{put_staged-others}
use super_engine.Install.Download.{download_verified_parts, Chunk, Fetched}
use super_engine.Install.Download.Bodies.{IsMadeOf, download_verified_parts-IsMadeOf}
use super_engine.Install.Download.Extract.{ArchiveEntry, extract_tarball}
use super_engine.Install.Download.Extract.Budget.{
  total_size, max_output, is_harmless, is_writable, IsWithin, extract_tarball-exact,
}

abbrev weights : FileSpec
weights = record {
  url = text "u";
  destination = text "w";
  sha256 = none;
  accel = [];
  cuda_major = none;
  cuda_sm = [];
  gfx = [];
  vulkan_api = none;
  optional = false;
}

abbrev model : ModelEntry (Unit {0})
model = record {
  name = text "m";
  multilingual = true;
  primary_language = text "en";
  supported_languages = text "en" ∷ [];
  supported_devices = [];
  estimated_vram_bytes = 0;
  processing_interval_ms = none;
  realtime = false;
  files = weights ∷ [];
  prepare_files = [];
  provider = none;
  product = tt;
}

abbrev Plain : Type 0
Plain = Manifest (Unit {0}) (Unit {0}) (Unit {0}) (Unit {0})

-- The manifest that a text stands for: the text is its source.
abbrev manifest : Text → Plain
manifest s = record {
  backend = record {
    id = none;
    source = s;
    name = s;
    version = text "1";
    kind = subprocess;
    entrypoint = text "e";
    product = none;
    contract = tt;
    license = none;
    description = [];
  };
  network = record { allowed_hosts = [] };
  capabilities = record { websocket = false; product = tt };
  assets = record { wasm = none; subprocess = [] };
  secrets = [];
  options = [];
  models = model ∷ [];
}

abbrev parse : Text → Result Plain ManifestError
parse s = ok (manifest s)

abbrev toml : Text
toml = text "backend.toml"

abbrev old_dir : List (Text × Text)
old_dir = (toml, text "x") ∷ (text "w", text "1234") ∷ []

abbrev new_dir : List (Text × Text)
new_dir = (toml, text "x") ∷ []

abbrev disk : World
disk = record {
  dirs =
      (text "/b/x", old_dir)
      ∷ (text "/b/y", (toml, text "y") ∷ [])
      ∷ (text "/b/.staging/x", new_dir)
      ∷ [];
  faults = none ∷ some [] ∷ [];
  trace = [];
}

swap_into_place-safe_example :
    IsSettled
      (text "/b/.staging/x")
      (text "/b/x")
      old_dir
      new_dir
      (swap_into_place (text "/b/.staging/x") (text "/b/x") disk)
    × All
        (IsRecoverable (text "/b/.staging/x") (text "/b/x") old_dir new_dir)
        (swap_into_place (text "/b/.staging/x") (text "/b/x") disk).1.trace
unfolding lookup list_beq
swap_into_place-safe_example =
    swap_into_place-safe (text "/b/.staging/x") (text "/b/x") old_dir new_dir disk refl refl refl
      refl refl

put_staged-others_example :
    (lookup
        (text "/b/y")
        (put_staged parse (text "/b") (text "/b/.staging/x") (text "/b/x") (text "x") disk).1.dirs
      ≡ lookup (text "/b/y") disk.dirs)
    × (text "/b/x" ≡ text "/b/y"
        → put_staged parse (text "/b") (text "/b/.staging/x") (text "/b/x") (text "x") disk
          ≡ (err (installing, install_dir_conflict), disk))
unfolding strip_prefix list_beq lookup
put_staged-others_example =
    put_staged-others parse (text "/b") (text "/b/.staging/x") (text "/b/x") (text "x")
      (text "/b/y") disk refl refl refl refl refl

carry-Keeps_example :
    Keeps
      (text "/b/x")
      (text "/b/.staging/x")
      disk
      (carry (text "/b/x") (text "/b/.staging/x") (text "w" ∷ []) disk).1
    × (all is_safe_relative_path (text "w" ∷ []) ≡ false
        → carry (text "/b/x") (text "/b/.staging/x") (text "w" ∷ []) disk ≡ (err io_error, disk))
unfolding list_beq
carry-Keeps_example = carry-Keeps (text "/b/x") (text "/b/.staging/x") (text "w" ∷ []) disk refl

survivors_iff_example : Member (text "w") (survivors (model ∷ []) (model ∷ [])) ↔ (
    (urls : List Text) × (offers (text "w") (model ∷ []) urls ≡ true)
    × (offers (text "w") (model ∷ []) urls ≡ true))
survivors_iff_example = survivors_iff (model ∷ []) (model ∷ []) (text "w")

reconcile_dirs-LeavesAlone_example :
    LeavesAlone parse
      (text "/b/x")
      (text "/b/y" ∷ [])
      disk
      (reconcile_dirs parse (text "/b/y" ∷ []) (text "/b/x") disk).1
unfolding list_beq
reconcile_dirs-LeavesAlone_example =
    reconcile_dirs-LeavesAlone parse (text "/b/x") (text "/b/y" ∷ []) disk refl

abbrev neighbours : World
neighbours = record {
  dirs =
      (text "/b/a.b.c", old_dir)
      ∷ (text "/b/a.b.c.old", (toml, text "y") ∷ [])
      ∷ (text "/s", new_dir)
      ∷ [];
  faults = [];
  trace = [];
}

swap_into_place-neighbour_example :
    (is_valid (sidecar_of (text "a.b.c")) ≡ true)
    × (lookup
          (path_join (text "/b") (sidecar_of (text "a.b.c")))
          (swap_into_place (text "/s") (path_join (text "/b") (text "a.b.c")) neighbours).1.dirs
        ≡ none)
unfolding is_valid swap_into_place lookup list_beq rename remove_dir_all
swap_into_place-neighbour_example =
    swap_into_place-neighbour (text "/s") (text "/b") (text "a.b.c") neighbours refl
      (unfold byte_len in omega arith) refl refl refl

abbrev archived : Option ArchiveEntry
archived =
    some (record { path = some (text "bin/run"); is_symlink = false; size = 7; unpacks = true })

abbrev archive : List (Option ArchiveEntry)
archive = archived ∷ archived ∷ []

extract_tarball-exact_example :
    (is_ok (extract_tarball (some 100) (some archive)).0 ≡ (
      all is_harmless archive
      && (all is_writable archive && leb (total_size archive) (max_output 100))))
    × IsWithin 100 archive (extract_tarball (some 100) (some archive)).1
extract_tarball-exact_example = extract_tarball-exact 100 archive (omega arith)

abbrev chunk : Text → Chunk
chunk s = record { cancelled = false; bytes = some s; written = true }

abbrev parts : List Fetched
parts =
    (
      record { url = text "p"; size = 2; sha256 = text "AB" },
      some (record { chunks = chunk (text "a") ∷ chunk (text "b") ∷ []; flushed = true }),
    )
    ∷ (
      record { url = text "q"; size = 0; sha256 = [] },
      some (record { chunks = chunk (text "c") ∷ []; flushed = true }),
    )
    ∷ []

download_verified_parts-IsMadeOf_example : IsMadeOf (λ s. s) parts (text "abc")
unfolding download_verified_parts list_beq
download_verified_parts-IsMadeOf_example =
    download_verified_parts-IsMadeOf (λ s. s) parts (text "abc") refl
