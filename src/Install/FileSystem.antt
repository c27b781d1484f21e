-- ===== src/Install/FileSystem.antt =====
-- The file system as the installation sees it: directories by path, and the files of each by their
-- path below it. Every change can fail, and `std::fs` says what a failing one leaves.
use super_engine.Prelude.{
  ◌≡◌, refl, ap, Bool, true, false, Option, none, some, List, [], ◌∷◌, ◌==◌, bytes_eq,
  if◌then◌else◌, Text, is_empty, Result, ok, err, lookup, insert, remove, contains_key,
  Option-cases, Bool-cases, inl, inr, ◌⊎◌, arith, lookup-insert, lookup-remove, ◌∙◌,
}

pub differ_sym : (s t : Text) → (s == t) ≡ false → (t == s) ≡ false
differ_sym s t h = elim (Bool-cases (t == s)) [
  | inr e ↦ e
  | inl e ↦ absurd (ground (arith, h, bytes_eq.beq_iff t s, bytes_eq.beq_iff s t))
]

-- The files of a directory: the path below it and the content.
abbrev pub Dir : Type 0
Dir = List (Text × Text)

abbrev pub Dirs : Type 0
Dirs = List (Text × Dir)

pub data IoError : Type 0 where
  io_error : IoError

-- What the file system does to the next change: let it be, or fail it; of a directory that was being
-- removed, some files may then be left.
abbrev pub Fault : Type 0
Fault = Option Dir

-- `faults` is what happens to the changes to come, none once it is used up; `trace` has the
-- directories after each change, the last one first.
pub record World : Type 0 where
  pub dirs : Dirs
  pub faults : List Fault
  pub trace : List Dirs

abbrev pub next_fault : List Fault → Fault
next_fault [] = none
next_fault (f ∷ fs) = f

abbrev pub later_faults : List Fault → List Fault
later_faults [] = []
later_faults (f ∷ fs) = fs

-- The world after a change that leaves these directories.
abbrev pub became : World → Dirs → World
became w dirs = record { dirs = dirs; faults = later_faults w.faults; trace = dirs ∷ w.trace }

abbrev pub exists : World → Text → Bool
exists w path = contains_key path w.dirs

abbrev is_free : Option Dir → Bool
is_free none = true
is_free (some files) = is_empty files

-- The directory that a rename moves, if it does: from what happens and what is at the two paths.
abbrev moves : Fault → Option Dir → Option Dir → Option Dir
moves (some left) from to = none
moves none none to = none
moves none (some d) to = if is_free to then some d else none

abbrev renamed : Text → Text → World → Option Dir → Result Unit IoError × World
renamed from to w none = (err io_error, became w w.dirs)
renamed from to w (some d) = (ok tt, became w (insert to d (remove from w.dirs)))

-- `rename` of a directory: onto a path where nothing or an empty directory is, at once or not at all.
unfoldable pub rename : Text → Text → World → Result Unit IoError × World
unfolding lookup insert remove
rename from to w =
    renamed from to w (moves (next_fault w.faults) (lookup from w.dirs) (lookup to w.dirs))

-- What is at a path after `remove_dir_all`, and whether that succeeds.
abbrev remains : Fault → Option Dir → Option Dir
remains (some left) (some d) = some left
remains _ _ = none

abbrev removed : Text → World → Option Dir → Result Unit IoError × World
removed path w (some left) = (err io_error, became w (insert path left w.dirs))
removed path w none =
    ((if exists w path then ok tt else err io_error), became w (remove path w.dirs))

-- `remove_dir_all`
unfoldable pub remove_dir_all : Text → World → Result Unit IoError × World
unfolding lookup insert remove
remove_dir_all path w = removed path w (remains (next_fault w.faults) (lookup path w.dirs))

moves-some : (f : Fault) (s t : Option Dir) (d : Dir) → moves f s t ≡ some d → s ≡ some d
moves-some (some left) s t d h = cc
moves-some none none t d h = cc
moves-some none (some e) t d h = ground arith

-- A rename either moves a directory or leaves all as it is.
pub rename-cases :
    (from to : Text) (w : World)
    → ((d : Dir) × (lookup from w.dirs ≡ some d)
        × (rename from to w ≡ (ok tt, became w (insert to d (remove from w.dirs)))))
      ⊎ (rename from to w ≡ (err io_error, became w w.dirs))
unfolding rename
rename-cases from to w =
    elim (Option-cases (moves (next_fault w.faults) (lookup from w.dirs) (lookup to w.dirs))) [
      | inl n ↦ inr (ap (renamed from to w) n)
      | inr (d, m) ↦ inl (d, moves-some _ _ _ d m, ap (renamed from to w) m)
    ]

removed-other :
    (path other : Text) (w : World)
    → (path == other) ≡ false
    → (o : Option Dir) → lookup other (removed path w o).1.dirs ≡ lookup other w.dirs
removed-other path other w h none = lookup-remove path other w.dirs ∙ rw h refl
removed-other path other w h (some left) = lookup-insert path other left w.dirs ∙ rw h refl

-- Removing a directory leaves every other one.
pub remove_dir_all-other :
    (path other : Text) (w : World)
    → (path == other) ≡ false
    → lookup other (remove_dir_all path w).1.dirs ≡ lookup other w.dirs
unfolding remove_dir_all
remove_dir_all-other path other w h =
    removed-other path other w h (remains (next_fault w.faults) (lookup path w.dirs))

removed-trace :
    (path : Text) (w : World) (o : Option Dir)
    → (removed path w o).1.trace ≡ (removed path w o).1.dirs ∷ w.trace
removed-trace path w none = refl
removed-trace path w (some left) = refl

-- Each removal is one change.
pub remove_dir_all-trace :
    (path : Text) (w : World)
    → (remove_dir_all path w).1.trace ≡ (remove_dir_all path w).1.dirs ∷ w.trace
unfolding remove_dir_all
remove_dir_all-trace path w =
    removed-trace path w (remains (next_fault w.faults) (lookup path w.dirs))

pub moved-there :
    (from to : Text) (d : Dir) (dirs : Dirs) → lookup to (insert to d (remove from dirs)) ≡ some d
moved-there from to d dirs =
    lookup-insert to to d (remove from dirs) ∙ ground (arith, bytes_eq.beq_iff to to)

pub moved-other :
    (from to other : Text) (d : Dir) (dirs : Dirs)
    → (from == other) ≡ false
    → (to == other) ≡ false
    → lookup other (insert to d (remove from dirs)) ≡ lookup other dirs
moved-other from to other d dirs f t =
    lookup-insert to other d (remove from dirs) ∙ rw t (lookup-remove from other dirs ∙ rw f refl)

removed-faults :
    (path : Text) (w : World) (o : Option Dir) → (removed path w o).1.faults ≡ later_faults w.faults
removed-faults path w none = refl
removed-faults path w (some left) = refl

renamed-faults :
    (from to : Text) (w : World) (o : Option Dir)
    → (renamed from to w o).1.faults ≡ later_faults w.faults
renamed-faults from to w none = refl
renamed-faults from to w (some d) = refl

-- A file system that fails nothing goes on to fail nothing, and removes what it is asked to.
pub remove_dir_all-calm :
    (path : Text) (w : World)
    → w.faults ≡ []
    → ((remove_dir_all path w).1.faults ≡ []) × (lookup path (remove_dir_all path w).1.dirs ≡ none)
unfolding remove_dir_all
remove_dir_all-calm path w calm =
    let none_left : remains (next_fault w.faults) (lookup path w.dirs) ≡ none =
      ap (λ f. remains (next_fault f) (lookup path w.dirs)) calm in
    (
      removed-faults path w (remains (next_fault w.faults) (lookup path w.dirs))
          ∙ ap later_faults calm,
      ap (λ o. lookup path (removed path w o).1.dirs) none_left
          ∙ lookup-remove path path w.dirs
          ∙ ground (arith, bytes_eq.beq_iff path path),
    )

pub rename-calm : (from to : Text) (w : World) → w.faults ≡ [] → (rename from to w).1.faults ≡ []
unfolding rename
rename-calm from to w calm =
    renamed-faults from to w (moves (next_fault w.faults) (lookup from w.dirs) (lookup to w.dirs))
    ∙ ap later_faults calm

-- A rename leaves every third directory.
pub rename-other :
    (from to other : Text) (w : World)
    → (from == other) ≡ false
    → (to == other) ≡ false
    → lookup other (rename from to w).1.dirs ≡ lookup other w.dirs
rename-other from to other w f t = elim (rename-cases from to w) [
  | inl (d, at, e) ↦ ap (λ r. lookup other r.1.dirs) e ∙ moved-other from to other d w.dirs f t
  | inr e ↦ ap (λ r. lookup other r.1.dirs) e
]
