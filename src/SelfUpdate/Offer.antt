-- ===== src/SelfUpdate/Offer.antt =====
-- self_update.rs: what a check reports comes from one listing, and from the channel that it names.
use super_engine.Prelude.{
  ℕ, ◌≡◌, ◌⊎◌, refl, sym, ap, ap₂, subst, ◌∙◌, Bool, true, false, Option, none, some, List, [], ◌∷◌,
  ◌==◌, nat_eq, bytes_eq, Text, Result, ok, Member, Bool-cases, Result-cases, inl, inr, arith,
}
use super_engine.Auth.Scopes.{ProductSpec}
use super_engine.Forge.{Release, ForgeClient}
use super_engine.Spec.Version.{Semver, update_available}
use super_engine.SelfUpdate.{
  UpdateBetaOptIn, InstallerAsset, SelfUpdateStatus, CheckerState, SelfUpdateChecker, new, and_then,
  resolve_installer_asset, is_update, installer, tag_of, same_channel, checked,
  effective_beta_optin_for, select_candidate, run_check,
}
use super_engine.SelfUpdate.Verified.{and_then-some, IsVerified, resolve_installer_asset-IsVerified}

-- One call of `run_check`: the generation that it saw, what the code host answers it, and when.
pub record Call : Type 0 where
  pub before : ℕ
  pub client : ForgeClient
  pub optin : UpdateBetaOptIn
  pub now : Text

same_channel_lem : (r : Option Bool) (b : Bool) → same_channel r b ≡ true → r ≡ some b
same_channel_lem none b h = cc
same_channel_lem (some false) false h = refl
same_channel_lem (some false) true h = cc
same_channel_lem (some true) false h = cc
same_channel_lem (some true) true h = refl

module _ (from_utf8 : List ℕ → Option Text) {V : Type 0} (sv : Semver V)
    (triple : Option Text) where
  abbrev pub calls : List Call → SelfUpdateChecker → SelfUpdateChecker
  calls [] checker = checker
  calls (c ∷ cs) checker =
      (run_check from_utf8 sv triple c.before (calls cs checker) c.client c.optin c.now).0

  -- The fields of a status that are about a candidate.
  abbrev Fields : Type 0
  Fields = Option Text × Bool × Option InstallerAsset

  abbrev fields : CheckerState → Fields
  fields s = (s.status.latest_version, s.status.update_available, s.status.installer_asset)

  abbrev fields_for : ProductSpec → Text → ForgeClient → Option Release → Fields
  fields_for product current client candidate = (
    tag_of candidate,
    is_update sv current candidate,
    installer from_utf8 sv triple product client (is_update sv current candidate) candidate,
  )

  -- Nothing is reported, or what one call found in one listing, by the channel that is reported.
  abbrev IsFound : ProductSpec → Text → List Call → CheckerState → Type 0
  IsFound product current cs s =
      (c : Call) × (rs : List Release) × Member c cs
      × (c.client.list_releases ≡ ok rs)
      × (s.resolved_include_pre ≡ some s.status.beta_optin_effective)
      × (fields s
          ≡ fields_for product current c.client
              (select_candidate sv rs s.status.beta_optin_effective))

  abbrev IsKnown : ProductSpec → Text → List Call → CheckerState → Type 0
  IsKnown product current cs s = (fields s ≡ (none, false, none)) ⊎ IsFound product current cs s

  resolved-IsKnown :
      (product : ProductSpec) (current : Text) (cs : List Call) (c : Call)
      (checker : SelfUpdateChecker)
      → (checker.product ≡ product)
        × (checker.current_version ≡ current)
        × IsKnown product current cs checker.state
      → (include : Bool)
      → IsKnown product current
          (c ∷ cs)
          (checked from_utf8 sv triple checker c.client include c.now c.client.list_releases)
  resolved-IsKnown product current cs c checker (p, v, known) include =
      let state = λ (r : Result (List Release) Text).
        checked from_utf8 sv triple checker c.client include c.now r in
      let goal : (Result (List Release) Text → Type 0) =
        λ r. IsKnown product current (c ∷ cs) (state r) in
      elim (Result-cases c.client.list_releases) [
        | inl (rs, e) ↦ subst goal (sym e) (
            inr (
              c,
              rs,
              inl refl,
              e,
              refl,
              ap₂ (λ a b. fields_for a b c.client (select_candidate sv rs include)) p v,
            ))
        | inr (x, e) ↦
            subst goal (sym e)
              (elim (Bool-cases (same_channel checker.state.resolved_include_pre include)) [
                | inr other ↦ inl (ground (arith, other))
                | inl same ↦ elim known [
                  | inl blank ↦ inl (ground (arith, same, blank))
                  | inr (d, rs, m, listed_by, channel, found) ↦
                      let kept = same_channel_lem checker.state.resolved_include_pre include same in
                      let is : checker.state.status.beta_optin_effective ≡ include =
                        ground (arith, sym channel ∙ kept) in
                      inr (
                        d,
                        rs,
                        inr m,
                        listed_by,
                        kept,
                        rw same (
                            found
                            ∙ ap
                                (λ b.
                                  fields_for product current d.client (select_candidate sv rs b))
                                is),
                      )
                ]
              ])
      ]

  abbrev Holds : ProductSpec → Text → List Call → SelfUpdateChecker → Type 0
  Holds product current cs checker =
      (checker.product ≡ product)
      × (checker.current_version ≡ current)
      × IsKnown product current cs checker.state

  IsKnown-cons :
      (product : ProductSpec) (current : Text) (c : Call) (cs : List Call) (s : CheckerState)
      → IsKnown product current cs s
      → IsKnown product current (c ∷ cs) s
  IsKnown-cons product current c cs s (inl blank) = inl blank
  IsKnown-cons product current c cs s (inr (d, rs, m, answer, channel, found)) =
      inr (d, rs, inr m, answer, channel, found)

  run_check-Holds :
      (product : ProductSpec) (current : Text) (cs : List Call) (c : Call)
      (checker : SelfUpdateChecker)
      → Holds product current cs checker
      → Holds product current
          (c ∷ cs)
          (run_check from_utf8 sv triple c.before checker c.client c.optin c.now).0
  unfolding run_check
  run_check-Holds product current cs c checker holds =
      elim (Bool-cases (checker.generation == c.before)) [
        | inr coalesced ↦
            rw coalesced (holds.0, holds.1, IsKnown-cons product current c cs checker.state holds.2)
        | inl first ↦ rw first (
          holds.0,
          holds.1,
          resolved-IsKnown product current cs c checker holds
              (effective_beta_optin_for sv checker.current_version c.optin),
        )
      ]

  calls-Holds :
      (product : ProductSpec) (current : Text) (cs : List Call)
      → Holds product current cs (calls cs (new product current))
  calls-Holds product current [] = (refl, refl, inl refl)
  calls-Holds product current (c ∷ cs) =
      run_check-Holds product current cs c (calls cs (new product current))
        (calls-Holds product current cs)

  -- An installer that is offered: which release it is of, and the digest that it is to be held to.
  pub record IsOffered (product : ProductSpec) (current : Text) (cs : List Call)
      (s : SelfUpdateStatus) (offer : InstallerAsset) : Type 0 where
    pub call : Call
    pub asked : Member call cs
    pub releases : List Release
    pub answer : call.client.list_releases ≡ ok releases
    pub release : Release
    pub newest : select_candidate sv releases s.beta_optin_effective ≡ some release
    pub reported : s.latest_version ≡ some release.tag
    pub newer : update_available sv current release.tag ≡ true
    pub target : Text
    pub built_for : triple ≡ some target
    pub verified : IsVerified from_utf8 product call.client release target offer

  IsFound-IsOffered :
      (product : ProductSpec) (current : Text) (cs : List Call) (s : CheckerState)
      (offer : InstallerAsset)
      → IsFound product current cs s
      → s.status.installer_asset ≡ some offer
      → IsOffered product current cs s.status offer
  IsFound-IsOffered product current cs s offer (c, rs, m, answer, channel, found) h =
      let candidate = select_candidate sv rs s.status.beta_optin_effective in
      let given = sym (ap (λ f. f.2) found) ∙ h in
      elim (Bool-cases (is_update sv current candidate)) [
        | inr old ↦ absurd (
            ground (
              arith,
              sym (ap (λ b. installer from_utf8 sv triple product c.client b candidate) old)
                  ∙ given,
            ))
        | inl newer ↦
            let given' =
              sym (ap (λ b. installer from_utf8 sv triple product c.client b candidate) newer)
              ∙ given in
            let (release, is, given'') =
              and_then-some candidate
                (λ r. and_then triple (λ t. resolve_installer_asset from_utf8 product c.client r t))
                offer given' in
            let (t, target, resolves) =
              and_then-some triple
                (λ t. resolve_installer_asset from_utf8 product c.client release t) offer given'' in
            record {
              call = c;
              asked = m;
              releases = rs;
              answer = answer;
              release = release;
              newest = is;
              reported = ap (λ f. f.0) found ∙ ap tag_of is;
              newer = sym (ap (is_update sv current) is) ∙ newer;
              target = t;
              built_for = target;
              verified =
                  resolve_installer_asset-IsVerified from_utf8 product c.client release t offer
                    resolves;
            }
      ]

  -- After any calls of `run_check` on a new checker, failed and coalesced ones included, an installer in
  -- the status is that of the candidate of one listing that a call got, by the channel that the status
  -- names; the candidate is the version reported and newer than the one that runs; and the installer is
  -- an asset of it, of the exact name for the build's target, with the 64 hexadecimal digits that the
  -- release's `SHA256SUMS` has for that name.
  pub calls-IsOffered :
      (product : ProductSpec) (current : Text) (cs : List Call) (offer : InstallerAsset)
      → (calls cs (new product current)).state.status.installer_asset ≡ some offer
      → IsOffered product current cs (calls cs (new product current)).state.status offer
  calls-IsOffered product current cs offer h =
      let holds = calls-Holds product current cs in
      elim holds.2 [
        | inl blank ↦ absurd (ground (arith, sym (ap (λ f. f.2) blank) ∙ h))
        | inr found ↦
            IsFound-IsOffered product current cs (calls cs (new product current)).state offer found
              h
      ]
