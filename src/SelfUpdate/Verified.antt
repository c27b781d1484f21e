-- ===== src/SelfUpdate/Verified.antt =====
-- self_update.rs: an installer is offered with the digest that its release has for it.
use super_engine.Prelude.{
  ℕ, ◌≡◌, refl, true, Option, none, some, List, ◌==◌, nat_eq, bytes_eq, Text, find-some, Member,
  arith,
}
use super_engine.Auth.Scopes.{ProductSpec}
use super_engine.Forge.{ReleaseAsset, Release, ForgeClient}
use super_engine.Spec.Checksums.{is_digest, parse_sha256sums, listed}
use super_engine.Spec.Checksums.Digests.{listed-parse_sha256sums}
use super_engine.SelfUpdate.{
  InstallerAsset, and_then, installer_name, find_installer_asset, with_digest, listing,
  resolve_installer_asset,
}

pub and_then-some :
    {A B : Type 0} (m : Option A) (f : A → Option B) (b : B)
    → and_then m f ≡ some b
    → (a : A) × (m ≡ some a) × (f a ≡ some b)
and_then-some none f b h = cc
and_then-some (some a) f b h = (a, refl, h)

module _ (from_utf8 : List ℕ → Option Text) where
  -- An installer with the digest that it is to be held to.
  pub record IsVerified (product : ProductSpec) (client : ForgeClient) (release : Release)
      (target : Text) (offer : InstallerAsset) : Type 0 where
    pub asset : ReleaseAsset
    pub carried : Member asset release.assets
    pub named : (asset.name == installer_name product target) ≡ true
    pub sums : Text
    pub published_sums : listing from_utf8 client release ≡ some sums
    pub hex : Text
    pub in_sums : listed asset.name (parse_sha256sums sums) ≡ some hex
    pub shaped : is_digest hex ≡ true
    pub same : with_digest asset hex ≡ offer

  pub resolve_installer_asset-IsVerified :
      (product : ProductSpec) (client : ForgeClient) (release : Release) (target : Text)
      (offer : InstallerAsset)
      → resolve_installer_asset from_utf8 product client release target ≡ some offer
      → IsVerified product client release target offer
  unfolding resolve_installer_asset find_installer_asset
  resolve_installer_asset-IsVerified product client release target offer h =
      let digest = λ (a : ReleaseAsset) (sums : Text).
        and_then (listed a.name (parse_sha256sums sums)) (λ hex. some (with_digest a hex)) in
      let summed = λ (a : ReleaseAsset). and_then (listing from_utf8 client release) (digest a) in
      let (asset, finds, rest) =
        and_then-some (find_installer_asset product release target) summed offer h in
      let (sums, lists, last) =
        and_then-some (listing from_utf8 client release) (digest asset) offer rest in
      let (hex, entry, made) =
        and_then-some (listed asset.name (parse_sha256sums sums)) (λ x. some (with_digest asset x))
          offer last in
      let (carried, named) =
        find-some (λ a. a.name == installer_name product target) release.assets asset finds in
      record {
        asset = asset;
        carried = carried;
        named = named;
        sums = sums;
        published_sums = lists;
        hex = hex;
        in_sums = entry;
        shaped = listed-parse_sha256sums asset.name hex sums entry;
        same = ground (arith, made);
      }
