-- ===== src/Auth/Peer.antt =====
-- The peer of a connection (http/peer.rs), its identity (auth/identity.rs, Linux), the reader of
-- `.flatpak-info` (super-engine-protocol/src/sandbox.rs) and the origin list (http/origins.rs).
pub mod Identity
use super_engine.Prelude.{
  ℕ, ◌+◌, ◌≡◌, ◌↔◌, refl, Bool, true, false, ◌&&◌, ◌||◌, Option, none, some, List, [], ◌∷◌, ◌++◌,
  Eq, ◌==◌, nat_eq, bytes_eq, option_eq_of, if◌then◌else◌, Text, text, trim, split, strip_prefix,
  decimal, is_empty, any, arith, ◌>>=◌,
}

pub record PeerInfo : Type 0 where
  pub pid : Option ℕ
  pub uid : Option ℕ
  pub web_origin : Option Text

abbrev pub unix : Option ℕ → Option ℕ → PeerInfo
unix pid uid = record { pid = pid; uid = uid; web_origin = none }

abbrev pub tcp : PeerInfo
tcp = record { pid = none; uid = none; web_origin = none }

abbrev id_of : Option ℕ → Option ℕ → Text
id_of (some uid) (some pid) = decimal uid ++ (text ":" ++ decimal pid)
id_of (some uid) none = decimal uid ++ text ":?"
id_of none (some pid) = text "?:" ++ decimal pid
id_of none none = text "unknown"

abbrev id_with : Option Text → Option ℕ → Option ℕ → Text
id_with (some origin) uid pid = text "web:" ++ origin
id_with none uid pid = id_of uid pid

unfoldable pub client_id : PeerInfo → Text
client_id p = id_with p.web_origin p.uid p.pid

pub data PeerIdentity : Type 0 where
  native : (exe_path : Text) (flatpak_app_id : Option Text) → PeerIdentity
  web : (origin : Text) → PeerIdentity

-- `derive(PartialEq)`
abbrev pub identity_beq : PeerIdentity → PeerIdentity → Bool
identity_beq (native p a) (native q b) = p == q && (option_eq_of bytes_eq).beq a b
identity_beq (web o) (web r) = o == r
identity_beq _ _ = false

pub identity_beq_iff : (x y : PeerIdentity) → (identity_beq x y ≡ true) ↔ (x ≡ y)
identity_beq_iff (native p a) (native q b) =
    ground (arith, bytes_eq.beq_iff p q, (option_eq_of bytes_eq).beq_iff a b)
identity_beq_iff (native p a) (web r) = (λ h. cc, λ h. cc)
identity_beq_iff (web o) (native q b) = (λ h. cc, λ h. cc)
identity_beq_iff (web o) (web r) = ground (arith, bytes_eq.beq_iff o r)

instance abbrev pub identity_eq : Eq PeerIdentity
identity_eq = record { beq = identity_beq; beq_iff = identity_beq_iff }

-- The lines of a text; each is trimmed before any use, so a carriage return needs no care.
app_id_from_lines : Bool → List Text → Option Text
app_id_from_lines in_application [] = none
app_id_from_lines in_application (raw ∷ rest) =
    let line = trim raw in
    let header = app_id_from_lines (line == text "[Application]") rest in
    let later = app_id_from_lines in_application rest in
    elim (strip_prefix (text "[") line) [
      | some _ ↦ header
      | none ↦
          if in_application
          then elim (strip_prefix (text "name=") line) [
            | some value ↦ if is_empty (trim value) then later else some (trim value)
            | none ↦ later
          ]
          else later
    ]

unfoldable pub app_id_from_info : Text → Option Text
unfolding app_id_from_lines
app_id_from_info contents = app_id_from_lines false (split 10 contents)

-- What the daemon reads of the operating system: the executable of a process, the device and inode
-- of its root and of the daemon's own, and the `.flatpak-info` under its root. `none` is an error.
pub record Os : Type 0 where
  pub exe : ℕ → Option Text
  pub root : ℕ → Option (ℕ × ℕ)
  pub our_root : Option (ℕ × ℕ)
  pub flatpak_info : ℕ → Option Text

abbrev same_root : ℕ × ℕ → ℕ × ℕ → Bool
same_root (d, i) (d', i') = d == d' && i == i'

-- `none` is `Err(())`; the inner option is the application's id.
unfoldable pub peer_sandbox_app_id : Os → ℕ → Option (Option Text)
peer_sandbox_app_id os pid = do
  peer_root ← os.root pid
  our_root ← os.our_root
  if same_root peer_root our_root
      then some none
      else do info ← os.flatpak_info pid; app_id ← app_id_from_info info; some (some app_id)

abbrev native_identity : Os → ℕ → Option PeerIdentity
native_identity os pid = do
  exe_path ← os.exe pid
  flatpak_app_id ← peer_sandbox_app_id os pid
  some (native exe_path flatpak_app_id)

unfoldable pub resolve_peer_identity : Os → Option PeerInfo → Option PeerIdentity
unfolding peer_sandbox_app_id
resolve_peer_identity os none = none
resolve_peer_identity os (some peer) = elim peer.web_origin [
  | some origin ↦ some (web origin)
  | none ↦ peer.pid >>= native_identity os
]

unfoldable pub is_origin_allowed : List Text → Text → Bool
is_origin_allowed allowed origin = any (λ a. a == text "*" || a == origin) allowed

unfoldable pub admits_any_origin : List Text → Bool
admits_any_origin allowed = any (λ a. a == text "*") allowed
