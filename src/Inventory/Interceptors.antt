-- ===== src/Inventory/Interceptors.antt =====
-- 62_grpc/interceptors.go: recovery, logging and authorization around a unary or a streaming call.
use go_basics.Common.{
  ◌≡◌, refl, ap, ◌∙◌, Bool, true, false, String, Option, none, some, List, [], ◌∷◌, ◌++◌, str_eq,
  if◌then◌else◌,
}
use go_basics.Common.Text.{strip_prefix}

-- A status code, as far as the interceptors tell them apart.
pub data Code : Type 0 where
  ok_code internal unauthenticated : Code
  other_code : String → Code

-- How a call ends: with a code and perhaps a response, or by a panic.
pub data Outcome (R : Type 0) : Type 0 where
  returned : Code → Option R → Outcome R
  panics : Outcome R

-- The lines that are logged: a method and the code of its end.
abbrev pub Log : Type 0
Log = List (String × Code)

-- A handler on the server's state and the log.
abbrev pub Handler : Type 0 → Type 0 → Type 0
Handler R S = S × Log → Outcome R × (S × Log)

module _ {R S : Type 0} where
  unfoldable pub recovered : Outcome R × (S × Log) → Outcome R × (S × Log)
  recovered (returned code resp, s) = (returned code resp, s)
  recovered (panics, s) = (returned internal none, s)

  -- `recoveryUnary` and `recoveryStream`.
  unfoldable pub recovery : Handler R S → Handler R S
  recovery h s = recovered (h s)

  unfoldable pub logged : String → Outcome R × (S × Log) → Outcome R × (S × Log)
  logged method (returned code resp, s) = (returned code resp, (s.0, s.1 ++ (method, code) ∷ []))
  logged method (panics, s) = (panics, s)

  -- `loggingUnary` and `loggingStream`.
  unfoldable pub logging : String → Handler R S → Handler R S
  logging method h s = logged method (h s)

-- `publicMethods`.
unfoldable pub is_public : String → Bool
is_public method = str_eq method "/grpc.health.v1.Health/Check"

-- `authorize`, of the values of the metadata's key, if there is metadata: whether there is no error.
unfoldable pub authorize : Option (List String) → String → Bool
authorize metadata method = if is_public method then true else elim metadata [
  | none ↦ false
  | some values ↦ elim values [
    | [] ↦ false
    | value ∷ rest ↦ elim (strip_prefix "Bearer " value) [
      | none ↦ false
      | some token ↦ str_eq token "s3rvice-t0ken"
    ]
  ]
]

module _ {R S : Type 0} where
  -- `authUnary` and `authStream`.
  unfoldable pub auth : Option (List String) → String → Handler R S → Handler R S
  auth metadata method h s =
      if authorize metadata method then h s else (returned unauthenticated none, s)

  -- The chain that `main` installs.
  unfoldable pub chained : Option (List String) → String → Handler R S → Handler R S
  chained metadata method h = recovery (logging method (auth metadata method h))

  -- Through the chain: a call that is not authorized ends as Unauthenticated, does not run, and is
  -- logged so; one that is authorized and ends by itself is logged with its code, which the client gets;
  -- and one that panics ends as Internal for the client, but leaves no line in the log.
  pub chained-cases :
      (metadata : Option (List String)) (method : String) (h : Handler R S) (s t : S) (l k : Log)
      (code : Code) (resp : Option R)
      → (authorize metadata method ≡ false
          → chained metadata method h (s, l)
            ≡ (returned unauthenticated none, (s, l ++ (method, unauthenticated) ∷ [])))
        × (authorize metadata method ≡ true
            → h (s, l) ≡ (returned code resp, (t, k))
            → chained metadata method h (s, l)
              ≡ (returned code resp, (t, k ++ (method, code) ∷ [])))
        × (authorize metadata method ≡ true
            → h (s, l) ≡ (panics, (t, k))
            → chained metadata method h (s, l) ≡ (returned internal none, (t, k)))
  unfolding chained recovery logging auth recovered logged
  chained-cases metadata method h s t l k code resp = (
    λ refused. rw refused refl,
    λ allowed ends.
        ap
          (λ b.
            recovered
              (logged method (if b then h (s, l) else (returned unauthenticated none, (s, l)))))
          allowed
        ∙ ap (λ o. recovered (logged method o)) ends,
    λ allowed fails.
        ap
          (λ b.
            recovered
              (logged method (if b then h (s, l) else (returned unauthenticated none, (s, l)))))
          allowed
        ∙ ap (λ o. recovered (logged method o)) fails,
  )
