-- ===== src/Perf/Tests.antt =====
-- Runs of perf.go, and the theorems at concrete inputs.
use Prim.Native.String.{◌++◌}
use go_basics.Common.{
  ℕ, ◌+◌, ◌≡◌, ◌↔◌, refl, false, String, some, none, List, [], ◌∷◌, str_eq, ◌==◌, if◌then◌else◌,
  All,
}
use go_basics.Common.Int.{ℤ, pos, negsuc, int64}
use go_basics.Common.Dict.{lookup, insert, string_comparable}
use go_basics.Perf.Joins.{
  Printers, Agree, join_concat, join_builder, join_append, join_sprintf, joins_agree,
}
use go_basics.Perf.Squares.{squares_no_prealloc}
use go_basics.Perf.Words.{has_upper, count_words_split, count_words_scan, counts_agree_iff}

-- One digit is enough here.
abbrev itoa : ℤ → String
itoa (pos n) = if n == 7 then "7" else "0"
itoa (negsuc n) = "-1"

abbrev printers : Printers
printers = record {
  itoa = itoa;
  append_int = λ s n. s ++ itoa n;
  sprintf = λ s n. s ++ (itoa n ++ ",");
}

abbrev printers-Agree : Agree printers
printers-Agree = record { append_int-itoa = λ s n. refl; sprintf-itoa = λ s n. refl }

join_sevens : join_concat printers (pos 7 ∷ pos 1 ∷ pos 7 ∷ []) ≡ "7,0,7"
unfolding join_concat
join_sevens = refl

joins_agree_example :
    (join_concat printers (pos 7 ∷ pos 1 ∷ []) ≡ join_builder printers (pos 7 ∷ pos 1 ∷ []))
    × (join_append printers (pos 7 ∷ pos 1 ∷ []) ≡ join_builder printers (pos 7 ∷ pos 1 ∷ []))
    × (join_sprintf printers (pos 7 ∷ pos 1 ∷ []) ≡ join_builder printers (pos 7 ∷ pos 1 ∷ []))
joins_agree_example = joins_agree printers printers-Agree (pos 7 ∷ pos 1 ∷ [])

abbrev doubled : ℕ → ℕ
doubled c = c + c + 1

four_squares : (squares_no_prealloc doubled (pos 4)).elems ≡ pos 0 ∷ pos 1 ∷ pos 4 ∷ pos 9 ∷ []
unfolding squares_no_prealloc int64
four_squares = refl

-- Lowering that knows one upper-case letter outside ASCII.
abbrev lower_e : String → String
lower_e w = if str_eq w "É" then "é" else w

abbrev one_field : String → List String
one_field s = s ∷ []

-- The two functions count under different keys where the only upper-case letter is no ASCII letter.
accent_differs :
    (lookup "é" (count_words_split one_field lower_e "É") ≡ some 1)
    × (lookup "é" (count_words_scan one_field lower_e "É") ≡ none)
unfolding count_words_split count_words_scan lookup insert
accent_differs = (refl, refl)

counts_agree_iff_example :
    ((k : String)
      → lookup k (count_words_scan one_field (λ w. w) "go")
        ≡ lookup k (count_words_split one_field (λ w. w) "go"))
    ↔ All (λ w. has_upper w ≡ false → w ≡ w) ("go" ∷ [])
counts_agree_iff_example = counts_agree_iff one_field (λ w. w) "go" (λ w. refl)

abbrev swapped : List String → List String
swapped (a ∷ b ∷ r) = b ∷ a ∷ r
swapped xs = xs

abbrev IsTwo : List String → Type 0
IsTwo xs = xs ≡ "a" ∷ "b" ∷ []
