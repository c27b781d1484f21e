-- ===== src/Auth/Consent/Official.antt =====
-- auth/consent.rs: who may skip the consent dialog.
use super_engine.Prelude.{
  ℕ, ◌/◌, ◌%◌, ◌≡◌, ◌⊎◌, refl, true, none, some, nat_eq, bytes_eq, Text, Member, contains_iff,
  is_ok, arith, Option-cases, inl, inr, list_eq_of, option_eq_of,
}
use super_engine.Auth.Peer.{PeerIdentity, native, web}
use super_engine.Auth.Scopes.{ProductSpec}
use super_engine.Auth.Consent.{
  FilePath, parent, file_name, Files, check_helper_metadata, verify_helper_metadata,
  official_client_names, bundle_helpers_dir, is_official_client_in, is_official_client,
}

-- A first-party client: a process outside any sandbox whose executable, links resolved, bears one
-- of the product's client names, lies in the daemon's own directory or in its bundle's helpers,
-- belongs to root or to the daemon's user, and is not writable by everybody.
pub record IsFirstParty (files : Files) (product : ProductSpec) (identity : PeerIdentity)
    : Type 0 where
  pub exe : Text
  pub resolved : FilePath
  pub dir : FilePath
  pub name : Text
  pub owner : ℕ
  pub mode : ℕ
  pub unsandboxed : identity ≡ native exe none
  pub links : files.canonicalize exe ≡ some resolved
  pub own_dir : files.daemon_dir ≡ some dir
  pub named : file_name resolved ≡ some name
  pub a_client : Member name (official_client_names product)
  pub beside : (parent resolved ≡ some dir) ⊎ (parent resolved ≡ bundle_helpers_dir dir)
  pub stat : files.metadata resolved ≡ some (owner, mode)
  pub owned : (owner ≡ files.euid) ⊎ (owner ≡ 0)
  pub guarded : (mode / 2) % 2 ≡ 0

metadata_sound :
    (files : Files) (path : FilePath)
    → is_ok (verify_helper_metadata files path) ≡ true
    → (owner mode : ℕ) × (files.metadata path ≡ some (owner, mode))
      × ((owner ≡ files.euid) ⊎ (owner ≡ 0))
      × ((mode / 2) % 2 ≡ 0)
unfolding verify_helper_metadata check_helper_metadata
metadata_sound files path h = elim (Option-cases (files.metadata path)) [
  | inl e ↦ absurd (ground arith)
  | inr ((owner, mode), e) ↦ (owner, mode, e, ground arith, ground arith)
]

-- Whoever the check lets past without a dialog is a first-party client in that sense. No web page
-- and no sandboxed program is.
pub is_official_client-IsFirstParty :
    (files : Files) (product : ProductSpec) (identity : PeerIdentity)
    → is_official_client files product identity ≡ true
    → IsFirstParty files product identity
unfolding is_official_client is_official_client_in
is_official_client-IsFirstParty files product (web origin) h = cc
is_official_client-IsFirstParty files product (native exe (some app)) h = cc
is_official_client-IsFirstParty files product (native exe none) h =
    elim (Option-cases files.daemon_dir) [
      | inl e ↦ absurd (ground arith)
      | inr (dir, d) ↦ elim (Option-cases (files.canonicalize exe)) [
        | inl e ↦ absurd (ground arith)
        | inr (resolved, c) ↦ elim (Option-cases (file_name resolved)) [
          | inl e ↦ absurd (ground arith)
          | inr (name, n) ↦
              let (owner, mode, stat, owned, guarded) =
                metadata_sound files resolved (ground arith) in
              record {
                exe = exe;
                resolved = resolved;
                dir = dir;
                name = name;
                owner = owner;
                mode = mode;
                unsandboxed = refl;
                links = c;
                own_dir = d;
                named = n;
                a_client = (contains_iff (official_client_names product) name).0 (ground arith);
                beside = ground (
                  arith,
                  (option_eq_of (list_eq_of bytes_eq)).beq_iff (parent resolved) (some dir),
                  (option_eq_of (list_eq_of bytes_eq)).beq_iff (parent resolved)
                      (bundle_helpers_dir dir),
                );
                stat = stat;
                owned = owned;
                guarded = guarded;
              }
        ]
      ]
    ]
