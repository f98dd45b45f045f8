-- ===== src/Common/Text.antt =====
-- What the code uses of Go's strings package. A length counts bytes, as Go's `len` does.
use Prim.Native.Nat.{◌+◌, ◌≤◌}
use Prim.Native.Char.{Char, code}
use Prim.Native.String.{String, [], ◌∷◌, ◌++◌, len}
use Prim.Native.String.len
use Prim.Native.String.append
use mathlib.Core.Option.{Option, none, some}
use mathlib.Core.Path.{◌≡◌, refl, ap, sym, subst, ◌∙◌}
use mathlib.Core.Logic.{◌⊎◌, inl, inr}
use mathlib.Core.Bool.{Bool, true, false, ◌&&◌, ◌||◌}
use native.Mathlib.Omega.{arith}
use text.Mathlib.TextEquality.{Char-path}
use go_basics.Common.Tests.{◌==◌, ==_iff, leb, Bool-cases, if◌then◌else◌}

-- `unicode.IsSpace`.
unfoldable pub is_space : Char → Bool
is_space c =
    let n = code c in
    (leb 9 n && leb n 13)
    || n == 32
    || n == 133
    || n == 160
    || n == 5760
    || (leb 8192 n && leb n 8202)
    || n == 8232
    || n == 8233
    || n == 8239
    || n == 8287
    || n == 12288

abbrev pub is_nil : String → Bool
is_nil [] = true
is_nil (c ∷ s) = false

unfoldable pub trim_left : String → String
trim_left [] = []
trim_left (c ∷ s) = let rest = trim_left s in if is_space c then rest else c ∷ s

unfoldable pub trim_right : String → String
trim_right [] = []
trim_right (c ∷ s) = let rest = trim_right s in if is_space c && is_nil rest then [] else c ∷ rest

-- `strings.TrimSpace`.
unfoldable pub trim_space : String → String
trim_space s = trim_right (trim_left s)

trim_left-cases :
    (s : String)
    → (trim_left s ≡ [])
      ⊎ ((c : Char) × (t : String) × (trim_left s ≡ c ∷ t) × (is_space c ≡ false))
unfolding trim_left
trim_left-cases [] = inl refl
trim_left-cases (c ∷ s) = elim (Bool-cases (is_space c)) [
  | inl blank ↦ elim (trim_left-cases s) [
    | inl same ↦ inl (ground arith)
    | inr (d, t, same, solid) ↦ inr (d, t, ground arith, solid)
  ]
  | inr solid ↦ inr (c, s, ground arith, solid)
]

trim_right_twice : (s : String) → trim_right (trim_right s) ≡ trim_right s
unfolding trim_right
trim_right_twice [] = refl
trim_right_twice (c ∷ s) = ground (arith, trim_right_twice s)

len-trim_left : (s : String) → len (trim_left s) ≤ len s
unfolding trim_left
len-trim_left [] = omega arith
len-trim_left (c ∷ s) = ground (arith, len-trim_left s, len.cons c s)

len-trim_right : (s : String) → len (trim_right s) ≤ len s
unfolding trim_right
len-trim_right [] = omega arith
len-trim_right (c ∷ s) =
    ground (arith, len-trim_right s, len.cons c s, len.cons c (trim_right s), len.nil)

pub len-trim_space : (s : String) → len (trim_space s) ≤ len s
unfolding trim_space
len-trim_space s = omega (arith, len-trim_left s, len-trim_right (trim_left s))

trim_cons :
    (c : Char) (t : String)
    → is_space c ≡ false
    → trim_left (trim_right (c ∷ t)) ≡ trim_right (c ∷ t)
unfolding trim_left trim_right
trim_cons c t h = ground arith

nothing_left : trim_right (trim_left (trim_right [])) ≡ trim_right []
unfolding trim_left trim_right
nothing_left = refl

pub trim_space_twice : (s : String) → trim_space (trim_space s) ≡ trim_space s
unfolding trim_space
trim_space_twice s = elim (trim_left-cases s) [
  | inl same ↦
      subst (λ u. trim_right (trim_left (trim_right u)) ≡ trim_right u) (sym same) nothing_left
  | inr (c, t, same, solid) ↦
      subst (λ u. trim_right (trim_left (trim_right u)) ≡ trim_right u) (sym same)
        (ap trim_right (trim_cons c t solid) ∙ trim_right_twice (c ∷ t))
]

-- What is left of a text after a prefix, where it has it.
unfoldable pub strip_prefix : String → String → Option String
strip_prefix [] s = some s
strip_prefix (c ∷ p) [] = none
strip_prefix (c ∷ p) (d ∷ s) =
    let rest = strip_prefix p s in if code c == code d then rest else none

-- `strings.TrimPrefix`.
unfoldable pub trim_prefix : String → String → String
unfolding strip_prefix
trim_prefix p s = elim (strip_prefix p s) [ none ↦ s | some rest ↦ rest ]

-- `strings.Cut` at a space: what stands before and after it, where there is one.
unfoldable pub cut_space : String → Option (String × String)
cut_space [] = none
cut_space (c ∷ s) =
    let rest = cut_space s in
    if code c == 32 then some ([], s) else elim rest [ none ↦ none | some p ↦ some (c ∷ p.0, p.1) ]

-- `strings.EqualFold` against a text of lower-case ASCII letters other than k and s, which equal
-- nothing but themselves and their upper case.
unfoldable pub fold_eq : String → String → Bool
fold_eq [] [] = true
fold_eq [] (d ∷ t) = false
fold_eq (c ∷ s) [] = false
fold_eq (c ∷ s) (d ∷ t) =
    let rest = fold_eq s t in (code c == code d || code c + 32 == code d) && rest

bearer_letters :
    (token : String) → "Bearer " ++ token ≡ "B" ∷ "e" ∷ "a" ∷ "r" ∷ "e" ∷ "r" ∷ " " ∷ token
bearer_letters token =
    append.cons "B" "earer " token
    ∙ ap (λ t. "B" ∷ t)
        (append.cons "e" "arer " token
          ∙ ap (λ t. "e" ∷ t)
              (append.cons "a" "rer " token
                ∙ ap (λ t. "a" ∷ t)
                    (append.cons "r" "er " token
                      ∙ ap (λ t. "r" ∷ t)
                          (append.cons "e" "r " token
                            ∙ ap (λ t. "e" ∷ t)
                                (append.cons "r" " " token
                                  ∙ ap (λ t. "r" ∷ t)
                                      (append.cons " " "" token
                                        ∙ ap (λ t. " " ∷ t) (append.nil token)))))))

pub cut_bearer : (token : String) → cut_space ("Bearer " ++ token) ≡ some ("Bearer", token)
unfolding cut_space
cut_bearer token = rw (bearer_letters token) refl

pub strip_prefix-append : (p s : String) → strip_prefix p (p ++ s) ≡ some s
unfolding strip_prefix
strip_prefix-append [] s = rw (append.nil s) refl
strip_prefix-append (c ∷ p) s =
    rw (append.cons c p s) (ground (arith, strip_prefix-append p s, ==_iff (code c) (code c)))

pub append_of_strip_prefix : (p s r : String) → strip_prefix p s ≡ some r → s ≡ p ++ r
unfolding strip_prefix
append_of_strip_prefix [] s r h = (ground arith) ∙ sym (append.nil r)
append_of_strip_prefix (c ∷ p) [] r h = absurd (ground arith)
append_of_strip_prefix (c ∷ p) (d ∷ s) r h =
    rw (append.cons c p r)
      (ground (arith, append_of_strip_prefix p s r, Char-path c d, ==_iff (code c) (code d)))

pub trim_prefix-append : (p s : String) → trim_prefix p (p ++ s) ≡ s
unfolding trim_prefix
trim_prefix-append p s = ground (arith, strip_prefix-append p s)
