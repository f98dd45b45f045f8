-- ===== src/Settings/Reports.antt =====
-- What `Load` reports of variables that it cannot read.
use go_basics.Common.{
  ◌≡◌, refl, ap, ◌∙◌, Bool, true, false, ◌||◌, String, Option, none, some, List, [], ◌∷◌, ◌++◌,
  arith, str_eq, if◌then◌else◌,
}
use go_basics.Common.Int.{pos}
use go_basics.Common.Dict.{Dict, string_comparable, lookup}
use go_basics.Settings.{
  Parsers, Flags, Problem, unreadable, rejected, env_read, read_environment, load,
}

-- Whether a variable is set and its parser refuses it.
abbrev pub is_unreadable : {A : Type 0} → (String → Option A) → Dict String String → String → Bool
is_unreadable parse e key = elim (lookup key e) [
  | none ↦ false
  | some v ↦ if str_eq v "" then false else elim (parse v) [ none ↦ true | some a ↦ false ]
]

abbrev pub report : Bool → String → List Problem
report refused key = if refused then unreadable key ∷ [] else []

env_read-report :
    {A : Type 0} (parse : String → Option A) (e : Dict String String) (key : String) (default : A)
    → (env_read parse e key default).1 ≡ report (is_unreadable parse e key) key
unfolding env_read
env_read-report parse e key default = ground arith

reports-cons :
    (a b c d : Bool) (j k l m : String)
    → (a || (b || (c || d))) ≡ true
    → (x : Problem) × (xs : List Problem) × (report a j
          ++ (report b k ++ (report c l ++ report d m))
        ≡ x ∷ xs)
reports-cons true b c d j k l m h = (unreadable j, report b k ++ (report c l ++ report d m), refl)
reports-cons false true c d j k l m h = (unreadable k, report c l ++ report d m, refl)
reports-cons false false true d j k l m h = (unreadable l, report d m, refl)
reports-cons false false false true j k l m h = (unreadable m, [], refl)
reports-cons false false false false j k l m h = absurd (cc)

problems :
    (p : Parsers) (e : Dict String String)
    → (read_environment p e).1
      ≡ report (is_unreadable p.atoi e "APP_PORT") "APP_PORT"
        ++ (report (is_unreadable p.atoi e "APP_DB_MAX_CONNS") "APP_DB_MAX_CONNS"
            ++ (report (is_unreadable p.parse_duration e "APP_READ_TIMEOUT") "APP_READ_TIMEOUT"
                ++ report (is_unreadable p.parse_bool e "APP_ENABLE_SIGNUP") "APP_ENABLE_SIGNUP"))
unfolding read_environment
problems p e =
    let r₁ = env_read-report p.atoi e "APP_PORT" (pos 8080) in
    let r₂ = env_read-report p.atoi e "APP_DB_MAX_CONNS" (pos 25) in
    let r₃ = env_read-report p.parse_duration e "APP_READ_TIMEOUT" (pos 10000000000) in
    let r₄ = env_read-report p.parse_bool e "APP_ENABLE_SIGNUP" true in
    λ i. r₁ i ++ (r₂ i ++ (r₃ i ++ r₄ i))

load-problems :
    (p : Parsers) (e : Dict String String) (flags : Option Flags) (x : Problem) (xs : List Problem)
    → (read_environment p e).1 ≡ x ∷ xs
    → load p e flags ≡ rejected (read_environment p e).1
unfolding load
load-problems p e flags x xs h = ground arith

-- Where a variable of the four that are parsed is set and refused by its parser, `Load` reports all such
-- variables, each once and in the code's order, and nothing else, whatever the flags and the rules.
pub load-unreadable :
    (p : Parsers) (e : Dict String String) (flags : Option Flags)
    → (is_unreadable p.atoi e "APP_PORT"
        || (is_unreadable p.atoi e "APP_DB_MAX_CONNS"
            || (is_unreadable p.parse_duration e "APP_READ_TIMEOUT"
                || is_unreadable p.parse_bool e "APP_ENABLE_SIGNUP")))
      ≡ true
    → load p e flags
      ≡ rejected (
          report (is_unreadable p.atoi e "APP_PORT") "APP_PORT"
          ++ (report (is_unreadable p.atoi e "APP_DB_MAX_CONNS") "APP_DB_MAX_CONNS"
              ++ (report (is_unreadable p.parse_duration e "APP_READ_TIMEOUT") "APP_READ_TIMEOUT"
                  ++ report
                      (is_unreadable p.parse_bool e "APP_ENABLE_SIGNUP")
                      "APP_ENABLE_SIGNUP")))
load-unreadable p e flags h =
    let all = problems p e in
    let (x, xs, first) =
      reports-cons (is_unreadable p.atoi e "APP_PORT") (is_unreadable p.atoi e "APP_DB_MAX_CONNS")
        (is_unreadable p.parse_duration e "APP_READ_TIMEOUT")
        (is_unreadable p.parse_bool e "APP_ENABLE_SIGNUP") "APP_PORT" "APP_DB_MAX_CONNS"
        "APP_READ_TIMEOUT" "APP_ENABLE_SIGNUP" h in
    load-problems p e flags x xs (all ∙ first) ∙ ap rejected all
