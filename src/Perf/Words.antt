-- ===== src/Perf/Words.antt =====
-- Job 3 of perf.go: counting words. Splitting at spaces and lowering are the package's; a text is a list
-- of characters, and a byte between A and Z is such a character, since UTF-8 uses those bytes for nothing
-- else.
use Prim.Native.String.{[] as nil_text, ◌∷◌ as cons_text}
use Prim.Native.Char.{code}
use go_basics.Common.{
  ℕ, suc, ◌≡◌, ◌≢◌, ◌↔◌, refl, sym, ap, subst, ◌∙◌, Bool, false, ◌&&◌, ◌||◌, String, none, some,
  List, [], ◌∷◌, All, inl, inr, arith, str_eq, eq_iff, leb, Bool-cases, Option-cases, if◌then◌else◌,
}
use go_basics.Common.Dict.{Dict, string_comparable, lookup, insert, lookup-insert}

-- `counts[w]++`.
unfoldable pub add_one : String → Dict String ℕ → Dict String ℕ
add_one w m = elim (lookup w m) [ none ↦ insert w 1 m | some n ↦ insert w (suc n) m ]

-- `hasUpper`.
unfoldable pub has_upper : String → Bool
has_upper nil_text = false
has_upper (cons_text c s) = let rest = has_upper s in (leb 65 (code c) && leb (code c) 90) || rest

module _ (to_lower : String → String) where
  -- The loop of `CountWordsSplit` over the fields.
  unfoldable pub count_split : List String → Dict String ℕ → Dict String ℕ
  unfolding add_one
  count_split [] m = m
  count_split (w ∷ ws) m = count_split ws (add_one (to_lower w) m)

  -- The key under which `CountWordsScan` counts a word.
  unfoldable pub scan_key : String → String
  unfolding has_upper
  scan_key w = if has_upper w then to_lower w else w

  -- The loop of `CountWordsScan` over the fields.
  unfoldable pub count_scan : List String → Dict String ℕ → Dict String ℕ
  unfolding add_one scan_key
  count_scan [] m = m
  count_scan (w ∷ ws) m = count_scan ws (add_one (scan_key w) m)

  -- Whether the two keys of a word are one.
  abbrev pub IsKept : String → Type 0
  IsKept w = has_upper w ≡ false → to_lower w ≡ w

  scan_key-kept : (w : String) → IsKept w → scan_key w ≡ to_lower w
  unfolding scan_key
  scan_key-kept w h = elim (Bool-cases (has_upper w)) [
    | inl upper ↦ ground arith
    | inr lower ↦ ground (arith, h lower)
  ]

  agree_when_kept :
      (ws : List String) (m : Dict String ℕ) → All IsKept ws → count_scan ws m ≡ count_split ws m
  unfolding count_scan count_split
  agree_when_kept [] m h = refl
  agree_when_kept (w ∷ ws) m h =
      ap (λ k. count_scan ws (add_one k m)) (scan_key-kept w h.0)
      ∙ agree_when_kept ws (add_one (to_lower w) m) h.1

-- Whether a word has been counted.
abbrev pub IsCounted : String → Dict String ℕ → Type 0
IsCounted w m = lookup w m ≢ none

add_one-lookup :
    (w k : String) (m : Dict String ℕ) → lookup k (add_one w m) ≢ none → (w ≢ k) → lookup k m ≢ none
unfolding add_one
add_one-lookup w k m h other missing = elim (Option-cases (lookup w m)) [
  | inl none_yet ↦ h (ground (arith, lookup-insert w k 1 m, eq_iff w k))
  | inr (n, found) ↦ h (ground (arith, lookup-insert w k (suc n) m, eq_iff w k))
]

add_one_self : (w : String) (m : Dict String ℕ) → IsCounted w (add_one w m)
unfolding add_one
add_one_self w m missing = elim (Option-cases (lookup w m)) [
  | inl none_yet ↦ ground (arith, lookup-insert w w 1 m, eq_iff w w)
  | inr (n, found) ↦ ground (arith, lookup-insert w w (suc n) m, eq_iff w w)
]

add_one-IsCounted : (w k : String) (m : Dict String ℕ) → IsCounted k m → IsCounted k (add_one w m)
unfolding add_one
add_one-IsCounted w k m h missing = elim (Option-cases (lookup w m)) [
  | inl none_yet ↦ h (ground (arith, lookup-insert w k 1 m, eq_iff w k))
  | inr (n, found) ↦ h (ground (arith, lookup-insert w k (suc n) m, eq_iff w k))
]

module _ (to_lower : String → String) where
  count_scan-IsCounted :
      (k : String) (ws : List String) (m : Dict String ℕ)
      → IsCounted k m
      → IsCounted k (count_scan to_lower ws m)
  unfolding count_scan
  count_scan-IsCounted k [] m h = h
  count_scan-IsCounted k (w ∷ ws) m h =
      count_scan-IsCounted k ws (add_one (scan_key to_lower w) m)
        (add_one-IsCounted (scan_key to_lower w) k m h)

  -- A word that lowering changes is no key of the first function.
  count_split-IsCounted :
      ((w : String) → to_lower (to_lower w) ≡ to_lower w)
      → (k : String) (ws : List String) (m : Dict String ℕ) → to_lower k ≢ k
      → IsCounted k (count_split to_lower ws m)
      → IsCounted k m
  unfolding count_split
  count_split-IsCounted again k [] m changed h = h
  count_split-IsCounted again k (w ∷ ws) m changed h =
      add_one-lookup (to_lower w) k m
        (count_split-IsCounted again k ws (add_one (to_lower w) m) changed h)
        (λ same. changed (ap to_lower (sym same) ∙ again w ∙ same))

  count_scan-IsKept :
      (ws : List String) (m : Dict String ℕ)
      → ((k : String) → IsCounted k (count_scan to_lower ws m) → to_lower k ≡ k)
      → All (IsKept to_lower) ws
  unfolding count_scan scan_key
  count_scan-IsKept [] m h = tt
  count_scan-IsKept (w ∷ ws) m h = (
    λ lower.
        let key : scan_key to_lower w ≡ w = ground arith in
        h w (
          count_scan-IsCounted w ws (add_one (scan_key to_lower w) m)
            (subst (λ j. IsCounted w (add_one j m)) (sym key) (add_one_self w m))),
    count_scan-IsKept ws (add_one (scan_key to_lower w) m) h,
  )

-- What is used of the package strings: `Fields`, which `FieldsSeq` gives one by one, and `ToLower`.
module _ (fields : String → List String) (to_lower : String → String) where
  -- `CountWordsSplit`.
  unfoldable pub count_words_split : String → Dict String ℕ
  unfolding count_split
  count_words_split s = count_split to_lower (fields s) []

  -- `CountWordsScan`.
  unfoldable pub count_words_scan : String → Dict String ℕ
  unfolding count_scan
  count_words_scan s = count_scan to_lower (fields s) []

  -- Where lowering twice lowers once, the two functions count alike for a text exactly when lowering
  -- changes no word of the text that has no letter from A to Z.
  pub counts_agree_iff :
      (s : String)
      → ((w : String) → to_lower (to_lower w) ≡ to_lower w)
      → ((k : String) → lookup k (count_words_scan s) ≡ lookup k (count_words_split s))
        ↔ All (λ w. has_upper w ≡ false → to_lower w ≡ w) (fields s)
  unfolding count_words_split count_words_scan lookup
  counts_agree_iff s again = (
    λ same. count_scan-IsKept to_lower (fields s) [] (λ k counted.
        elim (Bool-cases (str_eq (to_lower k) k)) [
          | inl kept ↦ (eq_iff (to_lower k) k).0 kept
          | inr changed ↦ absurd (
              count_split-IsCounted to_lower again k (fields s) []
                (λ e. ground (arith, (eq_iff (to_lower k) k).1 e))
                (λ missing. counted (same k ∙ missing)) (nothing k))
        ]),
    λ kept k. ap (lookup k) (agree_when_kept to_lower (fields s) [] kept),
  )
    where
      nothing : (k : String) → lookup {V = ℕ} k [] ≡ none
      nothing k = refl
