-- ===== src/Config/Limits.antt =====
-- What every configuration keeps to.
use agents_at_scale.Prelude.{
  ℕ, String, ◌≡◌, ◌⊎◌, ◌≤◌, inl, inr, subst, Bool-cases, arith, Option, none, some, leb,
}
use agents_at_scale.Prelude.Eq.{string_eq}
use agents_at_scale.Prelude.Int.{ℤ, pos, negsuc}
use text.Mathlib.TextEquality.{eq_iff}
use agents_at_scale.Airline.Errors.{Result, ok, >>=-eq-ok}
use agents_at_scale.Config.{Settings, env, env_int, at_least, check_data_access, load_settings}

-- What load_settings checks: the four values with a minimum, and the data access.
pub record IsChecked (settings : Settings) : Type 0 where
  pub redis_pool : 1 ≤ settings.redis_pool_size
  pub llm_connections : 1 ≤ settings.llm_max_connections
  pub llm_timeout : 1 ≤ settings.llm_timeout_seconds
  pub open_conns : 1 ≤ settings.max_open_conns
  pub data_access : (settings.data_access ≡ "orm") ⊎ (settings.data_access ≡ "asyncpg")

same_settings :
    {settings other : Settings}
    → ◌≡◌ {A = Result Settings} (ok settings) (ok other)
    → IsChecked settings
    → IsChecked other
same_settings {settings} {other} e checked =
    let same : settings ≡ other = cc e in subst IsChecked same checked

module _ (getenv : String → Option String) (int_of : String → Option ℤ)
    (upper repr : String → String) where
  minimum-le-env_int :
      (name : String) (default minimum : ℕ)
      → minimum ≤ default
      → minimum ≤ env_int getenv int_of upper repr name default minimum
  unfolding env_int at_least
  minimum-le-env_int name default minimum h = go (getenv name)
    where
      read : (z : Option ℤ) → minimum ≤ at_least getenv int_of upper repr minimum default z
      read none = h
      read (some (pos n)) = elim (Bool-cases (leb minimum n)) [
        | inl e ↦ rw e (ground arith)
        | inr e ↦ rw e h
      ]
      read (some (negsuc n)) = h

      go :
          (o : Option String)
          → minimum ≤ (elim o [
            | none ↦ default
            | some value ↦ at_least getenv int_of upper repr minimum default (int_of value)
          ])
      go none = h
      go (some value) = read (int_of value)

  data_access_checked :
      (value : String) {checked : String}
      → check_data_access getenv int_of upper repr value ≡ ok checked
      → (checked ≡ "orm") ⊎ (checked ≡ "asyncpg")
  unfolding check_data_access
  data_access_checked value h = ground (arith, eq_iff value "orm", eq_iff value "asyncpg")

  -- Whatever the environment says, settings that are loaded have at least one connection for Redis, for the
  -- database and for the language model, a timeout of the model of at least one second, and a data access that
  -- is "orm" or "asyncpg". Nothing is said of the other settings.
  pub load_settings-IsChecked :
      {settings : Settings}
      → load_settings getenv int_of upper repr ≡ ok settings
      → IsChecked settings
  unfolding load_settings
  load_settings-IsChecked {settings} loaded =
      let (access, e, done) =
        >>=-eq-ok
          (check_data_access getenv int_of upper repr
            (env getenv int_of upper repr "DATA_ACCESS" "orm"))
          _ loaded in
      same_settings done (record {
        redis_pool = minimum-le-env_int "REDIS_POOL_SIZE" 50 1 (omega arith);
        llm_connections = minimum-le-env_int "LLM_MAX_CONNECTIONS" 100 1 (omega arith);
        llm_timeout = minimum-le-env_int "LLM_TIMEOUT_SECONDS" 60 1 (omega arith);
        open_conns = minimum-le-env_int "DB_MAX_OPEN_CONNS" 10 1 (omega arith);
        data_access = data_access_checked (env getenv int_of upper repr "DATA_ACCESS" "orm") e;
      })
