-- ===== src/Config/Engine.antt =====
-- The storage engine that the environment selects.
use xrpl_registrar.Common.{
  max, String, ◌≡◌, refl, sym, subst, Bool, false, not, ◌&&◌, Option, none, some, arith,
  if◌then◌else◌,
}
use xrpl_registrar.Common.Dict.{Dict}
use xrpl_registrar.Common.Int.{ℤ}
use xrpl_registrar.Config.{
  ConfigError, Result, ok, refused, DbOptions, pglite, postgres, Language, setting, trimmed,
  lowered, or_undefined, is_set, is_pin, load_db_config, postgres_options, engine_for, and_ok,
  pool_max, ssl_option,
}

module _ (js : Language) (env : Dict String) where
  -- `STORAGE_ENGINE`, trimmed and in lower case.
  abbrev pub pin : Option String
  pin = or_undefined (lowered js env (trimmed js env "STORAGE_ENGINE"))

  -- The options are those of the engine that the settings name, and of no other.
  abbrev pub Selects : DbOptions → Type 0
  Selects (postgres url ssl max) =
      (setting js env "DATABASE_URL" ≡ some url)
      × (setting js env "DATABASE_DIR" ≡ none)
      × (is_pin js env pin "pglite" ≡ false)
  Selects (pglite data_dir) =
      (setting js env "DATABASE_URL" ≡ none)
      × (setting js env "DATABASE_DIR" ≡ data_dir)
      × (is_pin js env pin "postgres" ≡ false)

  built :
      (r : Result (Option Bool)) (s : Result (Option ℤ)) (url : String) (opts : DbOptions)
      → and_ok r (λ ssl. and_ok s (λ max. ok (postgres url ssl max))) ≡ ok opts
      → (ssl : Option Bool) × (max : Option ℤ) × (opts ≡ postgres url ssl max)
  built (ok ssl) (ok max) url opts h = (ssl, max, ground (arith, h))
  built (ok ssl) (refused e) url opts h = absurd (cc h)
  built (refused e) s url opts h = absurd (cc h)

  postgres_options-postgres :
      (url : String) (opts : DbOptions)
      → postgres_options js env url ≡ ok opts
      → (ssl : Option Bool) × (max : Option ℤ) × (opts ≡ postgres url ssl max)
  unfolding postgres_options
  postgres_options-postgres url opts h =
      built (ssl_option js env url) (pool_max js env (setting js env "DATABASE_POOL_MAX")) url opts
        h

  checked :
      (url data_dir : Option String) (opts : DbOptions)
      → (if is_set js env url && is_set js env data_dir
          then refused ConfigError.two_engines
          else if is_set js env pin
              && not (is_pin js env pin "postgres")
              && not (is_pin js env pin "pglite")
          then refused ConfigError.unknown_engine
          else if is_pin js env pin "postgres" && not (is_set js env url)
          then refused ConfigError.postgres_without_url
          else if is_pin js env pin "pglite" && is_set js env url
          then refused ConfigError.pglite_with_url
          else engine_for js env url data_dir)
        ≡ ok opts
      → setting js env "DATABASE_URL" ≡ url
      → setting js env "DATABASE_DIR" ≡ data_dir
      → Selects opts
  checked (some url) (some dir) opts h u d = absurd (cc h)
  checked none data_dir opts h u d =
      let same : opts ≡ pglite data_dir = ground (arith, h) in
      let free : is_pin js env pin "postgres" ≡ false = ground (arith, h) in
      subst Selects (sym same) (u, d, free)
  checked (some url) none opts h u d =
      let from : postgres_options js env url ≡ ok opts = ground (arith, h) in
      let free : is_pin js env pin "pglite" ≡ false = ground (arith, h) in
      let (ssl, max, same) = postgres_options-postgres url opts from in
      subst Selects (sym same) (u, d, free)

  -- Whatever the environment: where the configuration is accepted, it is for the engine that the
  -- settings name. Postgres needs a DATABASE_URL, no DATABASE_DIR and no pin to pglite, and the
  -- in-process engine no DATABASE_URL and no pin to Postgres, with the data directory that is set.
  pub load_db_config-Selects : (opts : DbOptions) → load_db_config js env ≡ ok opts → Selects opts
  unfolding load_db_config
  load_db_config-Selects opts h =
      checked (setting js env "DATABASE_URL") (setting js env "DATABASE_DIR") opts h refl refl
