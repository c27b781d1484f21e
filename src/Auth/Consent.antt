-- ===== src/Auth/Consent.antt =====
-- auth/consent.rs: the consent key, the locks per key, the helper's answer, and who is first-party.
pub mod Scopes
pub mod Official
pub mod Locks
use super_engine.Prelude.{
  ℕ, ◌+◌, ◌/◌, ◌%◌, Bool, true, false, not, ◌&&◌, ◌||◌, Option, none, some, List, [], ◌∷◌, ◌++◌,
  ◌==◌, nat_eq, bytes_eq, Eq, strings_eq, list_eq_of, option_eq_of, ltb, leb, if◌then◌else◌, Text,
  text, trim, any, count, lookup, insert, remove, Result, ok, err, is_ok, is_some, is_none,
  contains, split, ◌≡◌, ◌↔◌, arith,
}
use super_engine.Auth.Peer.{PeerIdentity, native, web, identity_eq}
use super_engine.Auth.Scopes.{ProductSpec, shared_applet}

-- `str` is ordered by its bytes, which in UTF-8 is the order of the code points.
unfoldable pub text_leb : Text → Text → Bool
text_leb [] t = true
text_leb (c ∷ s) [] = false
text_leb (c ∷ s) (d ∷ t) =
    let rest = text_leb s t in if ltb c d then true else if c == d then rest else false

unfoldable pub insert_sorted : Text → List Text → List Text
insert_sorted x [] = x ∷ []
insert_sorted x (y ∷ ys) =
    let rest = insert_sorted x ys in if text_leb x y then x ∷ y ∷ ys else y ∷ rest

unfoldable pub sort : List Text → List Text
sort [] = []
sort (x ∷ xs) = insert_sorted x (sort xs)

abbrev starts_same : Text → List Text → Bool
starts_same x [] = false
starts_same x (y ∷ ys) = y == x

-- `Vec::dedup`: of equal neighbours one stays.
unfoldable pub dedup : List Text → List Text
dedup [] = []
dedup (x ∷ xs) = let rest = dedup xs in if starts_same x rest then rest else x ∷ rest

unfoldable pub normalize_scopes : List Text → List Text
normalize_scopes scopes = dedup (sort scopes)

abbrev pub ConsentKey : Type 0
ConsentKey = PeerIdentity × List Text

abbrev pub key_beq : ConsentKey → ConsentKey → Bool
key_beq (i, s) (j, t) = i == j && (list_eq_of bytes_eq).beq s t

pub key_beq_iff : (x y : ConsentKey) → (key_beq x y ≡ true) ↔ (x ≡ y)
key_beq_iff (i, s) (j, t) =
    ground (arith, identity_eq.beq_iff i j, (list_eq_of bytes_eq).beq_iff s t)

instance abbrev pub key_eq : Eq ConsentKey
key_eq = record { beq = key_beq; beq_iff = key_beq_iff }

-- `locks` maps a key to its lock; `holders` has the lock of every `Arc` outside the map, once for
-- each clone.
pub record ConsentLocks : Type 0 where
  pub locks : List (ConsentKey × ℕ)
  pub holders : List ℕ
  pub fresh : ℕ

abbrev pub lock_of : ConsentLocks → ConsentKey → Option ℕ → ConsentLocks × ℕ
lock_of c key (some lock) = (record c { holders = lock ∷ c.holders }, lock)
lock_of c key none = (
  record { locks = insert key c.fresh c.locks; holders = c.fresh ∷ c.holders; fresh = c.fresh + 1 },
  c.fresh,
)

unfoldable pub lock_for : ConsentLocks → ConsentKey → ConsentLocks × ℕ
lock_for c key = lock_of c key (lookup key c.locks)

abbrev pub holds : ℕ → ConsentKey × ℕ → Bool
holds lock (key, l) = l == lock

-- `Arc::strong_count`
unfoldable pub strong_count : ConsentLocks → ℕ → ℕ
strong_count c lock = count (holds lock) c.locks + count (λ l. l == lock) c.holders

unfoldable pub release : ConsentLocks → ConsentKey → ℕ → ConsentLocks
release c key lock =
    if leb (strong_count c lock) 2 then record c { locks = remove key c.locks } else c

unfoldable pub remove_one : ℕ → List ℕ → List ℕ
remove_one l [] = []
remove_one l (x ∷ xs) = if x == l then xs else x ∷ remove_one l xs

-- The handler returns, and its `Arc` is dropped.
unfoldable pub drop_lock : ConsentLocks → ℕ → ConsentLocks
unfolding remove_one
drop_lock c lock = record c { holders = remove_one lock c.holders }

pub data ConsentDecision : Type 0 where
  allow deny dismissed popup_failed : ConsentDecision

-- The first line of the helper's output; `none` is the end of the stream or an error.
unfoldable pub read_consent_decision : Option Text → ConsentDecision
read_consent_decision none = dismissed
read_consent_decision (some line) =
    if trim line == text "allow"
    then allow
    else if trim line == text "deny"
    then deny
    else dismissed

-- The components of an absolute path, from the last one up to the root.
abbrev pub FilePath : Type 0
FilePath = List Text

abbrev pub parent : FilePath → Option FilePath
parent [] = none
parent (name ∷ up) = some up

abbrev pub file_name : FilePath → Option Text
file_name [] = none
file_name (name ∷ up) = some name

-- What `is_official_client` asks of the file system: `canonicalize` of the peer's executable, the
-- canonical directory of the daemon's own, and the owner and mode of a file. `none` is an error.
pub record Files : Type 0 where
  pub canonicalize : Text → Option FilePath
  pub daemon_dir : Option FilePath
  pub metadata : FilePath → Option (ℕ × ℕ)
  pub euid : ℕ

pub data HelperError : Type 0 where
  cannot_stat wrong_owner world_writable : HelperError

unfoldable pub check_helper_metadata : (owner_uid our_uid mode : ℕ) → Result (Unit {0}) HelperError
check_helper_metadata owner_uid our_uid mode =
    if not (owner_uid == our_uid) && not (owner_uid == 0)
    then err wrong_owner
    else if (mode / 2) % 2 == 1
    then err world_writable
    else ok tt

unfoldable pub verify_helper_metadata : Files → FilePath → Result (Unit {0}) HelperError
unfolding check_helper_metadata
verify_helper_metadata files path = elim (files.metadata path) [
  | none ↦ err cannot_stat
  | some (uid, mode) ↦ check_helper_metadata uid files.euid mode
]

unfoldable pub official_client_names : ProductSpec → List Text
official_client_names product =
    (product.slug ++ text "-app")
    ∷ (product.slug ++ text "-cli")
    ∷ (product.slug ++ text "-cosmic-applet")
    ∷ shared_applet
    ∷ []

-- `Path::extension` of a file name: what stands behind its last dot, unless that dot is first.
extension_from : Text → List Text → Option Text
extension_from first [] = none
extension_from first (last ∷ []) = some last
extension_from first (x ∷ y ∷ more) = extension_from first (y ∷ more)

abbrev extension_of : List Text → Option Text
extension_of [] = none
extension_of (first ∷ []) = none
extension_of ([] ∷ last ∷ []) = none
extension_of (first ∷ more) = extension_from first more

unfoldable pub extension : Text → Option Text
unfolding extension_from
extension name = extension_of (split b'.' name)

unfoldable pub bundle_helpers_dir : FilePath → Option FilePath
unfolding extension
bundle_helpers_dir (macos ∷ contents ∷ bundle ∷ up) = elim (extension bundle) [
  | none ↦ none
  | some ext ↦
      if macos == text "MacOS" && contents == text "Contents" && ext == text "app"
      then some (text "Helpers" ∷ contents ∷ bundle ∷ up)
      else none
]
bundle_helpers_dir _ = none

abbrev path_option_beq : Option FilePath → Option FilePath → Bool
path_option_beq = (option_eq_of (list_eq_of bytes_eq)).beq

abbrev is_official_name : ProductSpec → Option Text → Bool
is_official_name product none = false
is_official_name product (some name) = any (λ n. n == name) (official_client_names product)

abbrev in_trusted_dir : FilePath → FilePath → Bool
in_trusted_dir daemon_dir resolved =
    path_option_beq (parent resolved) (some daemon_dir)
    || path_option_beq (parent resolved) (bundle_helpers_dir daemon_dir)

unfoldable pub is_official_client_in : Files → ProductSpec → FilePath → Text → Bool
unfolding verify_helper_metadata
is_official_client_in files product daemon_dir exe_path = elim (files.canonicalize exe_path) [
  | none ↦ false
  | some resolved ↦
      is_official_name product (file_name resolved)
      && in_trusted_dir daemon_dir resolved
      && is_ok (verify_helper_metadata files resolved)
]

unfoldable pub is_official_client : Files → ProductSpec → PeerIdentity → Bool
unfolding is_official_client_in
is_official_client files product (web origin) = false
is_official_client files product (native exe_path (some app_id)) = false
is_official_client files product (native exe_path none) = elim files.daemon_dir [
  | none ↦ false
  | some dir ↦ is_official_client_in files product dir exe_path
]
