-- ===== src/Capstone/Api/Keys.antt =====
-- Who passes the key check in 47_capstone/internal/api/middleware.go.
use Prim.Native.String.{◌++◌}
use go_basics.Common.{
  ◌≡◌, ◌≢◌, not, ◌||◌, ◌⊎◌, inl, inr, String, none, arith, str_eq, eq_iff, Option-cases, Bool-cases,
}
use go_basics.Common.Text.{strip_prefix, trim_prefix, trim_prefix-append, append_of_strip_prefix}
use go_basics.Capstone.Api.{Request, Reply, write_error, api_key_auth}

-- A header that carries the key, which is not empty: with "Bearer " before it, or by itself.
unfoldable pub Carries : String → String → Type 0
Carries key header =
    (key ≢ "")
    × ((header ≡ "Bearer " ++ key) ⊎ ((header ≡ key) × (strip_prefix "Bearer " key ≡ none)))

trim_prefix_lem :
    (p s r : String) → trim_prefix p s ≡ r → (s ≡ p ++ r) ⊎ ((s ≡ r) × (strip_prefix p r ≡ none))
unfolding trim_prefix
trim_prefix_lem p s r h = elim (Option-cases (strip_prefix p s)) [
  | inl missing ↦ inr (ground arith, ground arith)
  | inr (t, found) ↦ inl (append_of_strip_prefix p s r (ground arith))
]

trim_prefix-Carries :
    (key header : String) → Carries key header → trim_prefix "Bearer " header ≡ key
unfolding Carries trim_prefix
trim_prefix-Carries key header (some_key, inl same) = rw same (trim_prefix-append "Bearer " key)
trim_prefix-Carries key header (some_key, inr (same, bare)) = ground arith

module _ {ℓ} {S : Type ℓ} (key : String) (next : Request → S → Reply × S) (r : Request)
    (s : S) where
  -- A request is handed on exactly where its header carries the key, which is not empty, with or without
  -- "Bearer " before it; any other is answered 401 and changes nothing.
  pub api_key_auth_iff :
      (Carries key r.authorization → api_key_auth key next r s ≡ next r s)
      × (¬ (Carries key r.authorization)
          → api_key_auth key next r s ≡ (write_error 401 "unauthorized", s))
  unfolding api_key_auth Carries
  api_key_auth_iff = (
    λ carries. ground (
      arith,
      trim_prefix-Carries key r.authorization carries,
      eq_iff key key,
      eq_iff key "",
      carries.0,
    ),
    λ other.
        elim (Bool-cases (
          str_eq (trim_prefix "Bearer " r.authorization) ""
          || not (str_eq (trim_prefix "Bearer " r.authorization) key))) [
            | inl refused ↦ ground arith
            | inr passes ↦ absurd (
                other (
                  λ empty.
                      ground
                        (arith, eq_iff (trim_prefix "Bearer " r.authorization) key, eq_iff key ""),
                  trim_prefix_lem "Bearer " r.authorization key
                      (ground (arith, eq_iff (trim_prefix "Bearer " r.authorization) key)),
                ))
          ],
  )
