-- ===== src/Spec/Paths.antt =====
-- super-engine-spec/src/safe_path.rs: the names and paths of a manifest that may be joined onto a
-- directory, against what joining and resolving a path does.
use mathlib.Core.List.{append_assoc, append-nil}
use super_engine.Prelude.{
  ℕ, ◌≡◌, refl, sym, ap, ◌∙◌, Bool, true, false, not, ◌&&◌, ◌||◌, List, [], ◌∷◌, ◌++◌, ◌==◌, nat_eq,
  bytes_eq, if◌then◌else◌, Text, text, split, push_front, is_empty, contains, Bool-cases, inl, inr,
  arith,
}

unfoldable pub is_safe_component : Text → Bool
is_safe_component s =
    not (is_empty s)
    && not (s == text ".")
    && not (s == text "..")
    && not (contains s b'/')
    && not (contains s b'\\')
    && not (contains s 0)

abbrev pub starts_with_slash : Text → Bool
starts_with_slash [] = false
starts_with_slash (c ∷ s) = c == b'/'

-- A component that the loop lets pass.
abbrev pub is_normal : Text → Bool
is_normal component =
    not (is_empty component) && not (component == text ".") && not (component == text "..")

-- The loop over the components, with what `saw_component` holds.
unfoldable pub components_pass : Bool → List Text → Bool
components_pass saw [] = saw
components_pass saw (component ∷ more) =
    let rest = components_pass true more in if not (is_normal component) then false else rest

unfoldable pub is_safe_relative_path : Text → Bool
unfolding split components_pass
is_safe_relative_path s =
    if is_empty s || starts_with_slash s || contains s b'\\' || contains s 0
    then false
    else components_pass false (split b'/' s)

-- `Path::join`: an absolute path replaces the base.
abbrev pub path_join : Text → Text → Text
path_join base s = if starts_with_slash s then s else base ++ b'/' ∷ s

abbrev pub parent : List Text → List Text
parent [] = []
parent (c ∷ []) = []
parent (c ∷ d ∷ cs) = c ∷ parent (d ∷ cs)

-- Where the components of a path lead from a place, as a file system without links takes them.
unfoldable pub walk : List Text → List Text → List Text
walk place [] = place
walk place (c ∷ cs) =
    let stays = walk place cs in
    let up = walk (parent place) cs in
    let down = walk (place ++ c ∷ []) cs in
    if is_empty c || c == text "." then stays else if c == text ".." then up else down

-- The place below the root that a path names.
unfoldable pub place_of : Text → List Text
unfolding split walk
place_of path = walk [] (split b'/' path)

walk-append : (place cs ds : List Text) → walk place (cs ++ ds) ≡ walk (walk place cs) ds
unfolding walk
walk-append place [] ds = refl
walk-append place (c ∷ cs) ds = ground (
  arith,
  walk-append place cs ds,
  walk-append (parent place) cs ds,
  walk-append (place ++ c ∷ []) cs ds,
)

walk-components_pass :
    (saw : Bool) (place cs : List Text)
    → components_pass saw cs ≡ true
    → walk place cs ≡ place ++ cs
unfolding walk components_pass
walk-components_pass saw place [] h = sym (append-nil place)
walk-components_pass saw place (c ∷ cs) h =
    let below = walk-components_pass true (place ++ c ∷ []) cs in
    let flat = append_assoc place (c ∷ []) cs in ground (arith, below, flat)

push_front-append :
    (c : ℕ) (part : Text) (parts ds : List Text)
    → push_front c (part ∷ parts) ++ ds ≡ push_front c (part ∷ parts ++ ds)
push_front-append c part parts ds = refl

pub split-cons :
    (sep : ℕ) (s : Text) → (part : Text) × (parts : List Text) × (split sep s ≡ part ∷ parts)
unfolding split
split-cons sep [] = ([], [], refl)
split-cons sep (c ∷ s) =
    let (part, parts, e) = split-cons sep s in
    elim (Bool-cases (c == sep)) [
      | inl h ↦ ([], split sep s, rw h refl)
      | inr h ↦ (c ∷ part, parts, rw (h, e) refl)
    ]

pub split-append : (sep : ℕ) (a b : Text) → split sep (a ++ sep ∷ b) ≡ split sep a ++ split sep b
unfolding split
split-append sep [] b = ground (arith, nat_eq.beq_iff sep sep)
split-append sep (c ∷ a) b =
    let (part, parts, e) = split-cons sep a in
    elim (Bool-cases (c == sep)) [
      | inl h ↦ rw (h, split-append sep a b) refl
      | inr h ↦ rw (h, split-append sep a b, e) refl
    ]

-- A path that `is_safe_relative_path` accepts, joined onto any directory, names a place below it:
-- the directory's place followed by the components of the path, each of them kept.
pub place_of-path_join :
    (dir s : Text)
    → is_safe_relative_path s ≡ true
    → place_of (path_join dir s) ≡ place_of dir ++ split b'/' s
unfolding is_safe_relative_path place_of
place_of-path_join dir s h =
    let passed : components_pass false (split b'/' s) ≡ true = ground arith in
    let joined : path_join dir s ≡ dir ++ b'/' ∷ s = ground arith in
    ap (λ p. walk [] (split b'/' p)) joined
    ∙ ap (walk []) (split-append b'/' dir s)
    ∙ walk-append [] (split b'/' dir) (split b'/' s)
    ∙ walk-components_pass false (walk [] (split b'/' dir)) (split b'/' s) passed

split-none : (sep : ℕ) (s : Text) → contains s sep ≡ false → split sep s ≡ s ∷ []
unfolding split
split-none sep [] h = refl
split-none sep (c ∷ s) h = elim (Bool-cases (c == sep)) [
  | inl e ↦ absurd (ground arith)
  | inr e ↦ rw (e, split-none sep s (ground arith)) refl
]

-- A safe component is a safe relative path of that one component.
pub is_safe_component-is_safe_relative_path :
    (s : Text)
    → is_safe_component s ≡ true
    → (is_safe_relative_path s ≡ true) × (split b'/' s ≡ s ∷ [])
unfolding is_safe_component is_safe_relative_path components_pass
is_safe_component-is_safe_relative_path [] h = absurd (ground arith)
is_safe_component-is_safe_relative_path (c ∷ s) h =
    let one = split-none b'/' (c ∷ s) (ground arith) in (ground (arith, one), one)
