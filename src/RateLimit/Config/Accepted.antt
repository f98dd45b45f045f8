-- ===== src/RateLimit/Config/Accepted.antt =====
-- Which settings `Load` accepts.
use mathlib.Core.Path.{subst}
use go_basics.Common.{
  ◌≤◌, ◌≡◌, ◌≢◌, ◌↔◌, refl, sym, ap, ◌∙◌, Option-cases, Bool-cases, ◌⊎◌, inl, inr, Bool, true,
  str_eq, String, Option, none, some, List, [], ◌∷◌, All, concat-nil, arith, eq_iff,
}
use go_basics.Common.Int.{ℤ, pos, ◌≤ℤ◌, ◌<ℤ◌}
use go_basics.RateLimit.Config.{
  Rule, Config, ConfigError, Environment, check_rule, checks, validate, loaded, finish, window,
  read_config, read_errors, join, int_env, bool_env, duration_env, string_env, load,
  options_from_config, service_rule,
}

pub record IsSoundRule (r : Rule) : Type 0 where
  pub limit_pos : pos 0 <ℤ r.limit
  pub window_second : pos 1_000_000_000 ≤ℤ r.window

pub record IsSoundConfig (c : Config) : Type 0 where
  pub url : c.database_url ≢ ""
  pub timeout : pos 0 <ℤ c.db_timeout
  pub attempts : pos 1 ≤ℤ c.retry_attempts
  pub backoff : pos 0 ≤ℤ c.retry_backoff
  pub threshold : pos 1 ≤ℤ c.breaker_threshold
  pub cooldown : pos 0 <ℤ c.breaker_cooldown
  pub tenant : IsSoundRule c.tenant
  pub api_key : IsSoundRule c.api_key
  pub user : IsSoundRule c.user

check_rule_nil : (name : String) (r : Rule) → (check_rule name r ≡ []) ↔ IsSoundRule r
unfolding check_rule
check_rule_nil name r = (λ h. ground arith, λ h. ground arith)

checks_sound : (c : Config) → All (λ es. es ≡ []) (checks c) → IsSoundConfig c
unfolding checks
checks_sound c
      (url, (timeout, (attempts, (backoff, (threshold, (cooldown, (t, (a, (u, end))))))))) =
    record {
      url = λ e. ground (arith, eq_iff c.database_url "");
      timeout = ground arith;
      attempts = ground arith;
      backoff = ground arith;
      threshold = ground arith;
      cooldown = ground arith;
      tenant = (check_rule_nil "tenant" c.tenant).0 t;
      api_key = (check_rule_nil "api_key" c.api_key).0 a;
      user = (check_rule_nil "user" c.user).0 u;
    }

checks_nil : (c : Config) → IsSoundConfig c → All (λ es. es ≡ []) (checks c)
unfolding checks
checks_nil c h = (
  ground (arith, eq_iff c.database_url "", h.url),
  (
    ground arith,
    (
      ground arith,
      (
        ground arith,
        (
          ground arith,
          (
            ground arith,
            (
              (check_rule_nil "tenant" c.tenant).1 h.tenant,
              (
                (check_rule_nil "api_key" c.api_key).1 h.api_key,
                ((check_rule_nil "user" c.user).1 h.user, tt),
              ),
            ),
          ),
        ),
      ),
    ),
  ),
)

-- `validate` finds no error exactly in a sound configuration: one with a database URL, a positive
-- timeout and cooldown, a backoff that is not negative, at least one attempt, a threshold of at
-- least one, and rules with a positive limit and a window of at least a second.
pub validate_iff : (c : Config) → (validate c ≡ []) ↔ IsSoundConfig c
unfolding validate
validate_iff c =
    let n = concat-nil (checks c) in (λ h. checks_sound c (n.0 h), λ h. n.1 (checks_nil c h))

finish_loaded :
    (es : List ConfigError) (c : Config) {c' : Config}
    → finish es c ≡ loaded c'
    → (c ≡ c') × (validate c ≡ [])
unfolding finish
finish_loaded [] c h = ground arith
finish_loaded (e ∷ es) c h = cc

load_sound : (env : Environment) {c : Config} → load env ≡ loaded c → IsSoundConfig c
unfolding load
load_sound env {c} h = elim (Option-cases (window env).1) [
  | inl fine ↦
      let h' : finish (join (read_errors env)) (read_config env) ≡ loaded c = ground arith in
      let p = finish_loaded (join (read_errors env)) (read_config env) h' in
      (validate_iff c).0 (ap validate (sym p.0) ∙ p.1)
  | inr (e, bad) ↦ absurd (ground arith)
]

-- What `Load` accepts is sound, whatever the environment and the parsers: so the options of the
-- service allow at least one attempt and have a positive threshold, and each rule a positive limit
-- and a window of at least a second.
pub load-IsSoundConfig :
    (env : Environment) {c : Config}
    → load env ≡ loaded c
    → IsSoundConfig c
      × (1 ≤ (options_from_config c).max_attempts)
      × (1 ≤ (options_from_config c).breaker_threshold)
      × (1 ≤ (service_rule c.api_key).limit)
      × (1_000_000_000 ≤ (service_rule c.api_key).window)
unfolding options_from_config service_rule
load-IsSoundConfig env {c} h =
    let s = load_sound env h in (s, ground arith, ground arith, ground arith, ground arith)

join-nil : (es : List (Option ConfigError)) → (join es ≡ []) ↔ All (λ e. e ≡ none) es
join-nil [] = (λ h. tt, λ h. refl)
join-nil (none ∷ es) = (λ h. (refl, (join-nil es).0 h), λ h. (join-nil es).1 h.1)
join-nil (some e ∷ es) = (λ h. cc, λ h. cc)

finish_iff :
    (es : List ConfigError) (c : Config) → (finish es c ≡ loaded c) ↔ ((es ≡ []) × IsSoundConfig c)
unfolding finish
finish_iff [] c = (
  λ h. (refl, (validate_iff c).0 (finish_loaded [] c h).1),
  λ h. rw ((validate_iff c).1 h.1, finish),
)
finish_iff (e ∷ es) c = (λ h. cc, λ h. cc h.0)

-- What a variable gives: its default where it is not set, and otherwise what its text is read as.
abbrev pub IsRead {ℓ} : {A : Type ℓ} → String → (String → Option A) → A → A → Type ℓ
IsRead text parse def a = ((text ≡ "") × (a ≡ def)) ⊎ ((text ≢ "") × (parse text ≡ some a))

-- Each field of a configuration is what its variable gives.
pub record IsReadAs (env : Environment) (c : Config) : Type 0 where
  pub http_addr : IsRead (env.getenv "HTTP_ADDR") (λ s. some s) ":8080" c.http_addr
  pub database_url : c.database_url ≡ env.getenv "DATABASE_URL"
  pub fail_open : IsRead (env.getenv "RATE_LIMIT_FAIL_OPEN") env.parse_bool true c.fail_open
  pub tenant : IsRead (env.getenv "RATE_LIMIT_TENANT") env.atoi (pos 100) c.tenant.limit
  pub api_key : IsRead (env.getenv "RATE_LIMIT_API_KEY") env.atoi (pos 40) c.api_key.limit
  pub user : IsRead (env.getenv "RATE_LIMIT_USER") env.atoi (pos 20) c.user.limit
  pub window :
      IsRead
        (env.getenv "RATE_LIMIT_WINDOW")
        env.parse_duration
        (pos 60_000_000_000)
        c.tenant.window
  pub one_window : (c.api_key.window ≡ c.tenant.window) × (c.user.window ≡ c.tenant.window)
  pub db_timeout :
      IsRead (env.getenv "DB_TIMEOUT") env.parse_duration (pos 200_000_000) c.db_timeout
  pub retry_attempts : IsRead (env.getenv "DB_RETRY_ATTEMPTS") env.atoi (pos 3) c.retry_attempts
  pub retry_backoff :
      IsRead (env.getenv "DB_RETRY_BACKOFF") env.parse_duration (pos 20_000_000) c.retry_backoff
  pub breaker_threshold :
      IsRead (env.getenv "BREAKER_THRESHOLD") env.atoi (pos 5) c.breaker_threshold
  pub breaker_cooldown :
      IsRead
        (env.getenv "BREAKER_COOLDOWN")
        env.parse_duration
        (pos 10_000_000_000)
        c.breaker_cooldown

-- A value that is read with no error.
abbrev IsFine {ℓ} : {A : Type ℓ} → A × Option ConfigError → A → Type ℓ
IsFine read a = (read.0 ≡ a) × (read.1 ≡ none)

module _ (env : Environment) (key : String) where
  int_read : (def z : ℤ) → IsFine (int_env env key def) z ↔ IsRead (env.getenv key) env.atoi def z
  unfolding int_env
  int_read def z = (
    λ h. elim (Bool-cases (str_eq (env.getenv key) "")) [
      | inl empty ↦ inl (ground (arith, eq_iff (env.getenv key) ""), ground arith)
      | inr set ↦ inr (λ e. ground (arith, eq_iff (env.getenv key) ""), ground arith)
    ],
    λ h. ground (arith, eq_iff (env.getenv key) ""),
  )

  bool_read :
      (def z : Bool)
      → IsFine (bool_env env key def) z ↔ IsRead (env.getenv key) env.parse_bool def z
  unfolding bool_env
  bool_read def z = (
    λ h. elim (Bool-cases (str_eq (env.getenv key) "")) [
      | inl empty ↦ inl (ground (arith, eq_iff (env.getenv key) ""), ground arith)
      | inr set ↦ inr (λ e. ground (arith, eq_iff (env.getenv key) ""), ground arith)
    ],
    λ h. ground (arith, eq_iff (env.getenv key) ""),
  )

  duration_read :
      (def z : ℤ)
      → IsFine (duration_env env key def) z ↔ IsRead (env.getenv key) env.parse_duration def z
  unfolding duration_env
  duration_read def z = (
    λ h. elim (Bool-cases (str_eq (env.getenv key) "")) [
      | inl empty ↦ inl (ground (arith, eq_iff (env.getenv key) ""), ground arith)
      | inr set ↦ inr (λ e. ground (arith, eq_iff (env.getenv key) ""), ground arith)
    ],
    λ h. ground (arith, eq_iff (env.getenv key) ""),
  )

  string_read :
      (def z : String) → (string_env env key def ≡ z) ↔ IsRead (env.getenv key) (λ s. some s) def z
  unfolding string_env
  string_read def z = (
    λ h. elim (Bool-cases (str_eq (env.getenv key) "")) [
      | inl empty ↦ inl (ground (arith, eq_iff (env.getenv key) ""), ground arith)
      | inr set ↦ inr (λ e. ground (arith, eq_iff (env.getenv key) ""), ground arith)
    ],
    λ h. ground (arith, eq_iff (env.getenv key) ""),
  )

read_config-IsReadAs :
    (env : Environment)
    → (window env).1 ≡ none
    → All (λ e. e ≡ none) (read_errors env)
    → IsReadAs env (read_config env)
unfolding read_config read_errors
read_config-IsReadAs env w (t, (a, (u, (f, (d, (r, (b, (h, (k, end))))))))) = record {
  http_addr = (string_read env "HTTP_ADDR" ":8080" _).0 refl;
  database_url = refl;
  fail_open = (bool_read env "RATE_LIMIT_FAIL_OPEN" true _).0 (refl, f);
  tenant = (int_read env "RATE_LIMIT_TENANT" (pos 100) _).0 (refl, t);
  api_key = (int_read env "RATE_LIMIT_API_KEY" (pos 40) _).0 (refl, a);
  user = (int_read env "RATE_LIMIT_USER" (pos 20) _).0 (refl, u);
  window = (duration_read env "RATE_LIMIT_WINDOW" (pos 60_000_000_000) _).0 (refl, w);
  one_window = (refl, refl);
  db_timeout = (duration_read env "DB_TIMEOUT" (pos 200_000_000) _).0 (refl, d);
  retry_attempts = (int_read env "DB_RETRY_ATTEMPTS" (pos 3) _).0 (refl, r);
  retry_backoff = (duration_read env "DB_RETRY_BACKOFF" (pos 20_000_000) _).0 (refl, b);
  breaker_threshold = (int_read env "BREAKER_THRESHOLD" (pos 5) _).0 (refl, h);
  breaker_cooldown = (duration_read env "BREAKER_COOLDOWN" (pos 10_000_000_000) _).0 (refl, k);
}

IsReadAs-read_config :
    (env : Environment) (c : Config)
    → IsReadAs env c
    → (read_config env ≡ c) × ((window env).1 ≡ none) × All (λ e. e ≡ none) (read_errors env)
unfolding read_config read_errors
IsReadAs-read_config env c h =
    let addr = (string_read env "HTTP_ADDR" ":8080" c.http_addr).1 h.http_addr in
    let f = (bool_read env "RATE_LIMIT_FAIL_OPEN" true c.fail_open).1 h.fail_open in
    let t = (int_read env "RATE_LIMIT_TENANT" (pos 100) c.tenant.limit).1 h.tenant in
    let a = (int_read env "RATE_LIMIT_API_KEY" (pos 40) c.api_key.limit).1 h.api_key in
    let u = (int_read env "RATE_LIMIT_USER" (pos 20) c.user.limit).1 h.user in
    let w =
      (duration_read env "RATE_LIMIT_WINDOW" (pos 60_000_000_000) c.tenant.window).1 h.window in
    let d = (duration_read env "DB_TIMEOUT" (pos 200_000_000) c.db_timeout).1 h.db_timeout in
    let r = (int_read env "DB_RETRY_ATTEMPTS" (pos 3) c.retry_attempts).1 h.retry_attempts in
    let b =
      (duration_read env "DB_RETRY_BACKOFF" (pos 20_000_000) c.retry_backoff).1 h.retry_backoff in
    let n = (int_read env "BREAKER_THRESHOLD" (pos 5) c.breaker_threshold).1 h.breaker_threshold in
    let k =
      (duration_read env "BREAKER_COOLDOWN" (pos 10_000_000_000) c.breaker_cooldown).1
        h.breaker_cooldown in
    (
      λ i. record {
        http_addr = addr i;
        database_url = sym h.database_url i;
        fail_open = f.0 i;
        tenant = record { limit = t.0 i; window = w.0 i };
        api_key = record { limit = a.0 i; window = (w.0 ∙ sym h.one_window.0) i };
        user = record { limit = u.0 i; window = (w.0 ∙ sym h.one_window.1) i };
        db_timeout = d.0 i;
        retry_attempts = r.0 i;
        retry_backoff = b.0 i;
        breaker_threshold = n.0 i;
        breaker_cooldown = k.0 i;
      },
      w.1,
      (t.1, (a.1, (u.1, (f.1, (d.1, (r.1, (b.1, (n.1, (k.1, tt))))))))),
    )

finish_no_errors :
    (es : List ConfigError) (c : Config) {c' : Config} → finish es c ≡ loaded c' → es ≡ []
unfolding finish
finish_no_errors [] c h = refl
finish_no_errors (e ∷ es) c h = cc

load_loaded :
    (env : Environment) {c : Config}
    → load env ≡ loaded c
    → ((window env).1 ≡ none) × (finish (join (read_errors env)) (read_config env) ≡ loaded c)
unfolding load
load_loaded env h = elim (Option-cases (window env).1) [
  | inl fine ↦ (fine, ground arith)
  | inr (e, bad) ↦ absurd (ground arith)
]

-- `Load` accepts a configuration exactly when each of its fields is what its variable gives, the default where
-- it is not set and what its text is read as where it is, with one window for all rules, and the configuration
-- is sound. So it accepts nothing where a variable that is set cannot be read.
pub load_iff :
    (env : Environment) (c : Config) → (load env ≡ loaded c) ↔ (IsReadAs env c × IsSoundConfig c)
unfolding load
load_iff env c = (
  λ h.
      let (fine, ends) = load_loaded env h in
      let (same, valid) = finish_loaded (join (read_errors env)) (read_config env) ends in
      let none_bad =
        (join-nil (read_errors env)).0
          (finish_no_errors (join (read_errors env)) (read_config env) ends) in
      (
        subst (IsReadAs env) same (read_config-IsReadAs env fine none_bad),
        (validate_iff c).0 (ap validate (sym same) ∙ valid),
      ),
  λ (reads, sound).
      let (same, fine, none_bad) = IsReadAs-read_config env c reads in
      rw (fine, load)
        (rw (sym same) (
          (finish_iff (join (read_errors env)) (read_config env)).1
            ((join-nil (read_errors env)).1 none_bad, subst IsSoundConfig (sym same) sound))),
)
