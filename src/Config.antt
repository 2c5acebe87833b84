-- ===== src/Config.antt =====
-- src/config/index.ts: the configuration from the environment. A refusal is its kind; the texts of
-- the errors are left out. The language's `trim`, `toLowerCase` and `Number` (none where the result
-- is no integer), the URL library's host name and the stripping of slashes are arguments.
pub mod Engine
use xrpl_registrar.Common.{
  ℕ, max, String, Bool, true, false, not, ◌&&◌, Option, none, some, ◌∷◌, ltb, if◌then◌else◌,
  or_else, [],
}
use xrpl_registrar.Clio.Governor.{GovernorOptions, default_governor_options}
use xrpl_registrar.Common.Dict.{Dict, lookup}
use xrpl_registrar.Common.Int.{ℤ, pos, negsuc}
use xrpl_registrar.Common.Text.{eq, one_of}

pub data ConfigError : Type 0 where
  not_boolean not_integer not_positive two_engines unknown_engine postgres_without_url
        pglite_with_url endpoint_missing :
      ConfigError

pub data Result {ℓ} (A : Type ℓ) : Type ℓ where
  ok : A → Result A
  refused : ConfigError → Result A

abbrev pub and_ok {ℓ κ} : {A : Type ℓ} {B : Type κ} → Result A → (A → Result B) → Result B
and_ok (ok a) f = f a
and_ok (refused e) f = refused e

pub data DbOptions : Type 0 where
  pglite : (data_dir : Option String) → DbOptions
  postgres : (connection_string : String) (ssl : Option Bool) (max : Option ℤ) → DbOptions

-- `value || undefined`
abbrev pub or_undefined : Option String → Option String
or_undefined none = none
or_undefined (some s) = if eq s "" then none else some s

pub record ClioConfig : Type 0 where
  pub endpoint : String
  pub http_endpoint : Option String
  pub max_retries : ℤ
  pub connection_timeout : ℤ
  pub request_timeout : ℤ

pub record AdminConfig : Type 0 where
  pub port : ℤ
  pub host : String
  pub secure_cookie : Bool
  pub token : Option String
  pub explorer_base_url : Option String

-- The governor's options as they are read, which may be negative.
pub record GovernorConfig : Type 0 where
  pub max_concurrent : ℤ
  pub min_backoff_ms : ℤ
  pub max_backoff_ms : ℤ
  pub backoff_factor : ℤ

pub record AppConfig : Type 0 where
  pub clio : ClioConfig
  pub db : DbOptions
  pub admin : AdminConfig
  pub governor : GovernorConfig

pub record Language : Type 0 where
  pub trim : String → String
  pub lower : String → String
  pub to_integer : String → Option ℤ
  pub hostname : String → Option String

module _ (js : Language) (env : Dict String) where
  -- `env[name]?.trim()`
  abbrev pub trimmed : String → Option String
  trimmed name = elim (lookup name env) [ none ↦ none | some v ↦ some (js.trim v) ]

  -- `env[name]?.trim() || undefined`
  abbrev pub setting : String → Option String
  setting name = or_undefined (trimmed name)

  unfoldable pub bool_from_env : Option String → Bool → Result Bool
  bool_from_env none fallback = ok fallback
  bool_from_env (some value) fallback =
      let v = js.lower (js.trim value) in
      if eq v ""
      then ok fallback
      else if one_of v ("true" ∷ "1" ∷ "yes" ∷ [])
      then ok true
      else if one_of v ("false" ∷ "0" ∷ "no" ∷ [])
      then ok false
      else refused not_boolean

  abbrev integer : Option ℤ → Result ℤ
  integer none = refused not_integer
  integer (some n) = ok n

  unfoldable pub int_from_env : Option String → ℤ → Result ℤ
  int_from_env none fallback = ok fallback
  int_from_env (some value) fallback =
      if eq (js.trim value) "" then ok fallback else integer (js.to_integer (js.trim value))

  abbrev positive : ℤ → Result ℤ
  positive (pos n) = if ltb 0 n then ok (pos n) else refused not_positive
  positive (negsuc n) = refused not_positive

  unfoldable pub positive_int_from_env : String → Result ℤ
  unfolding int_from_env
  positive_int_from_env value = and_ok (int_from_env (some value) (pos 0)) positive

  unfoldable pub is_loopback_hostname : String → Bool
  is_loopback_hostname host = one_of (js.lower host) ("localhost" ∷ "127.0.0.1" ∷ "::1" ∷ [])

  -- A URI without a host name, or that is no URI, leaves `ssl` unset.
  abbrev remote : Option String → Option Bool
  remote none = none
  remote (some host) = if is_loopback_hostname host then none else some true

  abbrev wrapped : Result Bool → Result (Option Bool)
  wrapped (ok b) = ok (some b)
  wrapped (refused e) = refused e

  unfoldable pub ssl_option : String → Result (Option Bool)
  unfolding bool_from_env is_loopback_hostname
  ssl_option connection_string = elim (setting "DATABASE_SSL") [
    | some raw ↦ wrapped (bool_from_env (some raw) false)
    | none ↦ ok (remote (or_undefined (js.hostname connection_string)))
  ]

  abbrev pub pool_max : Option String → Result (Option ℤ)
  pool_max none = ok none
  pool_max (some value) = elim (positive_int_from_env value) [
    | ok n ↦ ok (some n)
    | refused e ↦ refused e
  ]

  unfoldable pub postgres_options : String → Result DbOptions
  unfolding ssl_option positive_int_from_env
  postgres_options url =
      and_ok (ssl_option url)
        λ ssl. and_ok (pool_max (setting "DATABASE_POOL_MAX")) λ max. ok (postgres url ssl max)

  abbrev pub is_set : Option String → Bool
  is_set none = false
  is_set (some s) = true

  abbrev pub is_pin : Option String → String → Bool
  is_pin none name = false
  is_pin (some p) name = eq p name

  abbrev pub lowered : Option String → Option String
  lowered none = none
  lowered (some s) = some (js.lower s)

  abbrev pub engine_for : Option String → Option String → Result DbOptions
  engine_for (some url) data_dir = postgres_options url
  engine_for none data_dir = ok (pglite data_dir)

  unfoldable pub load_db_config : Result DbOptions
  unfolding postgres_options
  load_db_config =
      let url = setting "DATABASE_URL" in
      let data_dir = setting "DATABASE_DIR" in
      let pinned = or_undefined (lowered (trimmed "STORAGE_ENGINE")) in
      if is_set url && is_set data_dir
      then refused two_engines
      else if is_set pinned && not (is_pin pinned "postgres") && not (is_pin pinned "pglite")
      then refused unknown_engine
      else if is_pin pinned "postgres" && not (is_set url)
      then refused postgres_without_url
      else if is_pin pinned "pglite" && is_set url
      then refused pglite_with_url
      else engine_for url data_dir

  abbrev int_setting : String → ℕ → (ℤ → Result AppConfig) → Result AppConfig
  int_setting name fallback next = and_ok (int_from_env (lookup name env) (pos fallback)) next

  module _ (strip_slashes : String → String) where
    abbrev stripped : Option String → Option String
    stripped none = none
    stripped (some s) = or_undefined (some (strip_slashes s))

    unfoldable pub load_config : Result AppConfig
    unfolding int_from_env bool_from_env load_db_config
    load_config = elim (setting "CLIO_ENDPOINT") [
      | none ↦ refused endpoint_missing
      | some endpoint ↦ int_setting "CLIO_MAX_RETRIES" 5 λ retries.
          int_setting "CLIO_CONNECTION_TIMEOUT_MS" 20000 λ connecting.
            int_setting "CLIO_REQUEST_TIMEOUT_MS" 30000 λ requesting. and_ok load_db_config λ db.
              int_setting "ADMIN_PORT" 51235 λ port.
                and_ok (bool_from_env (lookup "ADMIN_SECURE_COOKIE" env) false) λ secure.
                  int_setting "GOVERNOR_MAX_CONCURRENT" default_governor_options.max_concurrent
                    λ slots.
                      int_setting "GOVERNOR_MIN_BACKOFF_MS" default_governor_options.min_backoff_ms
                        λ shortest.
                          int_setting "GOVERNOR_MAX_BACKOFF_MS"
                            default_governor_options.max_backoff_ms
                            λ longest.
                              int_setting "GOVERNOR_BACKOFF_FACTOR"
                                default_governor_options.backoff_factor
                                λ factor. ok (record {
                                  clio = record {
                                    endpoint = endpoint;
                                    http_endpoint = setting "CLIO_HTTP_ENDPOINT";
                                    max_retries = retries;
                                    connection_timeout = connecting;
                                    request_timeout = requesting;
                                  };
                                  db = db;
                                  admin = record {
                                    port = port;
                                    host = or_else (setting "ADMIN_HOST") "127.0.0.1";
                                    secure_cookie = secure;
                                    token = setting "ADMIN_TOKEN";
                                    explorer_base_url = stripped (trimmed "EXPLORER_BASE_URL");
                                  };
                                  governor = record {
                                    max_concurrent = slots;
                                    min_backoff_ms = shortest;
                                    max_backoff_ms = longest;
                                    backoff_factor = factor;
                                  };
                                })
    ]
