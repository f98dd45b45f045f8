-- ===== src/Perf/Joins.antt =====
-- Job 1 of perf.go: joining numbers into a text, five times.
use Prim.Native.String.{[] as nil_text, ◌∷◌ as cons_text, ◌++◌}
use Prim.Native.String.append
use text.Mathlib.TextLemmas.{append_assoc, tail-eq_of_cons-eq, append-ne-nil_of_right_ne-nil}
use go_basics.Common.{
  ℕ, ◌+◌, ◌<◌, true, ◌≡◌, refl, sym, ap, ◌∙◌, String, List, [], ◌∷◌, Bool-cases, inl, inr, arith,
  str_eq, eq_iff, ltb, if◌then◌else◌,
}
use go_basics.Common.Int.{ℤ}

-- What is used of strconv and fmt: `Itoa`, `AppendInt` in base 10 and `Sprintf` with "%s%d,".
pub record Printers : Type 0 where
  pub itoa : ℤ → String
  pub append_int : String → ℤ → String
  pub sprintf : String → ℤ → String

-- What is relied on: they agree on the digits.
pub record Agree (p : Printers) : Type 0 where
  pub append_int-itoa : (s : String) (n : ℤ) → p.append_int s n ≡ s ++ p.itoa n
  pub sprintf-itoa : (s : String) (n : ℤ) → p.sprintf s n ≡ s ++ (p.itoa n ++ ",")

-- `strings.TrimSuffix`.
unfoldable pub trim_suffix : String → String → String
trim_suffix suffix nil_text = nil_text
trim_suffix suffix (cons_text c s) =
    let rest = trim_suffix suffix s in
    if str_eq (cons_text c s) suffix then nil_text else cons_text c rest

-- The loops of `JoinConcat` and `JoinSprintf`, from the text so far.
unfoldable pub concat_from : (String → ℤ → String) → String → List ℤ → String
concat_from step s [] = s
concat_from step s (n ∷ ns) = concat_from step (step s n) ns

-- The loops with a buffer, from the index and the text so far.
unfoldable pub build_from : (String → ℤ → String) → ℕ → String → List ℤ → String
build_from write i b [] = b
build_from write i b (n ∷ ns) =
    build_from write (i + 1) (write (if ltb 0 i then b ++ "," else b) n) ns

module _ (p : Printers) where
  -- `JoinConcat`.
  unfoldable pub join_concat : List ℤ → String
  unfolding concat_from trim_suffix
  join_concat ns = trim_suffix "," (concat_from (λ s n. s ++ (p.itoa n ++ ",")) "" ns)

  -- `JoinBuilder`, and `JoinBuilderGrow`, which reserves room first.
  unfoldable pub join_builder : List ℤ → String
  unfolding build_from
  join_builder ns = build_from (λ b n. b ++ p.itoa n) 0 "" ns

  -- `JoinAppend`.
  unfoldable pub join_append : List ℤ → String
  unfolding build_from
  join_append ns = build_from p.append_int 0 "" ns

  -- `JoinSprintf`.
  unfoldable pub join_sprintf : List ℤ → String
  unfolding concat_from trim_suffix
  join_sprintf ns = trim_suffix "," (concat_from p.sprintf "" ns)

comma-some : Path String "," "" → ⊥
comma-some h = ground (arith, eq_iff "," "")

trim_suffix-append : (s : String) → trim_suffix "," (s ++ ",") ≡ s
unfolding trim_suffix
trim_suffix-append nil_text = ap (trim_suffix ",") (append.nil ",")
trim_suffix-append (cons_text c s) =
    rw (append.cons c s ",") (elim (Bool-cases (str_eq (cons_text c (s ++ ",")) ",")) [
      | inl same ↦ absurd (
          append-ne-nil_of_right_ne-nil s comma-some
            (tail-eq_of_cons-eq ((eq_iff (cons_text c (s ++ ",")) ",").0 same)))
      | inr other ↦ rw other (ap (λ t. cons_text c t) (trim_suffix-append s))
    ])

module _ (p : Printers) where
  -- Past the first number, the loop with a trailing comma is one comma ahead.
  concat-build :
      (i : ℕ) (b : String) (ns : List ℤ)
      → 0 < i
      → concat_from (λ s n. s ++ (p.itoa n ++ ",")) (b ++ ",") ns
        ≡ build_from (λ s n. s ++ p.itoa n) i b ns ++ ","
  unfolding concat_from build_from
  concat-build i b [] h = refl
  concat-build i b (n ∷ ns) h =
      let comma : ltb 0 i ≡ true = ground arith in
      ap (λ s. concat_from (λ t k. t ++ (p.itoa k ++ ",")) s ns)
        (sym (append_assoc (b ++ ",") (p.itoa n) ","))
      ∙ concat-build (i + 1) ((b ++ ",") ++ p.itoa n) ns (omega arith)
      ∙ ap
          (λ t.
            build_from (λ s k. s ++ p.itoa k) (i + 1) ((if t then b ++ "," else b) ++ p.itoa n) ns
            ++ ",")
          (sym comma)

  concat-builder :
      (ns : List ℤ)
      → trim_suffix "," (concat_from (λ s n. s ++ (p.itoa n ++ ",")) "" ns) ≡ join_builder p ns
  unfolding concat_from build_from trim_suffix join_builder
  concat-builder [] = refl
  concat-builder (n ∷ ns) =
      ap (λ s. trim_suffix "," (concat_from (λ t k. t ++ (p.itoa k ++ ",")) s ns))
        (sym (append_assoc "" (p.itoa n) ","))
      ∙ ap (trim_suffix ",") (concat-build 1 ("" ++ p.itoa n) ns (omega arith))
      ∙ trim_suffix-append (build_from (λ s k. s ++ p.itoa k) 1 ("" ++ p.itoa n) ns)

  -- Given the agreement of the printers, the five joins give the same text for every list of numbers.
  pub joins_agree :
      Agree p
      → (ns : List ℤ)
      → (join_concat p ns ≡ join_builder p ns)
        × (join_append p ns ≡ join_builder p ns)
        × (join_sprintf p ns ≡ join_builder p ns)
  unfolding join_concat join_append join_sprintf join_builder
  joins_agree h ns = (
    concat-builder ns,
    ap (λ k. build_from k 0 "" ns) (λ j s n. h.append_int-itoa s n j),
    ap (λ k. trim_suffix "," (concat_from k "" ns)) (λ j s n. h.sprintf-itoa s n j)
        ∙ concat-builder ns,
  )
