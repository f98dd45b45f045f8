-- ===== src/Migrations/Versions.antt =====
-- The versions of migration files: which are known after the files before a point.
use mathlib.Core.Path.{subst}
use mathlib.Core.List.{append_assoc}
use go_basics.Common.{
  ◌≡◌, ◌≢◌, refl, ap, true, false, String, List, [], ◌∷◌, ◌++◌, map, All, arith, eq_iff,
}
use go_basics.Migrations.{File, contains}

-- No version twice.
abbrev pub Distinct : List File → Type 0
Distinct [] = Unit
Distinct (f ∷ fs) = All (λ g. g.version ≢ f.version) fs × Distinct fs

abbrev pub versions_of : List File → List String
versions_of fs = map (λ f. f.version) fs

All-append_right : (P : File → Type 0) (a b : List File) → All P (a ++ b) → All P b
All-append_right P [] b h = h
All-append_right P (f ∷ a) b h = All-append_right P a b h.1

-- What comes after is not among what came before.
none_known : (post : List File) → All (λ f. contains f.version [] ≡ false) post
unfolding contains
none_known [] = tt
none_known (f ∷ post) = (refl, none_known post)

one_more :
    (p : File) (pre post : List File)
    → All (λ g. g.version ≢ p.version) post
    → All (λ f. contains f.version (versions_of pre) ≡ false) post
    → All (λ f. contains f.version (versions_of (p ∷ pre)) ≡ false) post
unfolding contains
one_more p pre [] other old = tt
one_more p pre (f ∷ post) other old =
    (ground (arith, eq_iff p.version f.version, other.0, old.0), one_more p pre post other.1 old.1)

pub not_known :
    (pre post : List File)
    → Distinct (pre ++ post)
    → All (λ f. contains f.version (versions_of pre) ≡ false) post
not_known [] post h = none_known post
not_known (p ∷ pre) post h =
    one_more p pre post (All-append_right (λ g. g.version ≢ p.version) pre post h.0)
      (not_known pre post h.1)

-- What came before is among what came before.
contains_middle :
    (a : List File) (f : File) (b : List File)
    → contains f.version (versions_of (a ++ f ∷ b)) ≡ true
unfolding contains
contains_middle [] f b = ground (arith, eq_iff f.version f.version)
contains_middle (p ∷ a) f b = ground (arith, contains_middle a f b)

pub versions_known :
    (a pre : List File) → All (λ f. contains f.version (versions_of (a ++ pre)) ≡ true) pre
versions_known a [] = tt
versions_known a (f ∷ pre) = (
  contains_middle a f pre,
  subst (λ l. All (λ g. contains g.version (versions_of l) ≡ true) pre)
      (append_assoc a (f ∷ []) pre) (versions_known (a ++ f ∷ []) pre),
)

pub versions_of-append : (a b : List File) → versions_of (a ++ b) ≡ versions_of a ++ versions_of b
versions_of-append [] b = refl
versions_of-append (f ∷ a) b = ap (λ l. f.version ∷ l) (versions_of-append a b)
