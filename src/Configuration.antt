-- ===== src/Configuration.antt =====
-- src/config/database.ts, src/config/frontend-origin.ts and src/server-safety.ts: what the environment
-- may say. The reading of a number and of a URL are parameters.
pub mod Usable
mod Tests
use ai_statement_analyzer.Base.{
  ℕ, zero, suc, ◌+◌, ◌-◌, ◌*◌, ◌/◌, ◌%◌, ◌≤◌, ◌<◌, min, String, ◌≡◌, refl, sym, ap, ◌∙◌, ◌≢◌, ◌↔◌,
  ◌⊎◌, inl, inr, Bool, true, false, ◌&&◌, ◌||◌, not, Option, none, some, List, [], ◌∷◌, ◌++◌, map,
  arith, str_eq, eq_iff, eq_refl, ltb, leb, ◌==◌, if◌then◌else◌, is_some, or_else, Bool-cases,
  if-both, Option-cases, length, head?, filter, all, any, find, All,
}
use ai_statement_analyzer.Base.Number.{Number, positive_integer}
use ai_statement_analyzer.Base.Text.{is_empty, trim, codes}
use ai_statement_analyzer.Failure.{
  Thrown, Outcome, throw, own_error, ok, plain, database_configuration,
}
use ai_statement_analyzer.Api.Schemas.{codes_eq, lower_code}
use ai_statement_analyzer.Json.{includes}

abbrev pub database_configuration_error : Thrown
database_configuration_error = own_error database_configuration "DatabaseConfigurationError"

-- The environment: a name's text, or none.
abbrev pub Environment : Type 0
Environment = String → Option String

-- `host`, `port`, `database`, `user` and `password`.
pub record Connection : Type 0 where
  pub host : String
  pub port : ℕ
  pub database : String
  pub user : String
  pub password : String

-- The last field tells whether TLS with verified certificates is asked for.
pub data DatabasePoolConfig : Type 0 where
  by_string : String → Bool → DatabasePoolConfig
  by_parts : Connection → Bool → DatabasePoolConfig

-- An empty text counts as absent.
abbrev pub if_filled : String → Option String
if_filled s = if is_empty s then none else some s

abbrev pub trimmed_variable : Option String → Option String
trimmed_variable none = none
trimmed_variable (some s) = if_filled (trim s)

abbrev pub variable : Option String → Option String
variable none = none
variable (some s) = if_filled s

-- No letter outside ASCII has a letter of `true` as its lower case.
abbrev pub is_true : Option String → Bool
is_true none = false
is_true (some s) = codes_eq (map lower_code (codes (trim s))) (codes "true")

abbrev pub in_port_range : ℕ → Bool
in_port_range n = leb 1 n && leb n 65535

abbrev pub port_of : Option ℕ → Outcome ℕ
port_of none = throw database_configuration_error
port_of (some n) = if in_port_range n then ok n else throw database_configuration_error

-- `number_of` is `Number(text)`.
module _ (number_of : String → Number) where
  unfoldable pub parse_port : String → Outcome ℕ
  parse_port value = port_of (positive_integer (number_of value))

  abbrev pub connection_with :
      Bool → String → String → String → String → Outcome ℕ → Outcome DatabasePoolConfig
  connection_with ssl host database user password (throw e) = throw e
  connection_with ssl host database user password (ok port) = ok (
      by_parts
        (record { host = host; port = port; database = database; user = user; password = password })
        ssl)

  -- The four parts, none of which may be missing, and the port.
  abbrev pub with_parts :
      Bool
      → String
      → Option String
      → Option String
      → Option String
      → Option String
      → Outcome DatabasePoolConfig
  with_parts ssl port (some host) (some database) (some user) (some password) =
      connection_with ssl host database user password (parse_port port)
  with_parts ssl port _ _ _ _ = throw database_configuration_error

  abbrev pub parts_config : Environment → Outcome DatabasePoolConfig
  parts_config environment =
      with_parts (is_true (environment "DB_SSL")) (or_else (environment "DB_PORT") "5432")
        (trimmed_variable (environment "DB_HOST")) (trimmed_variable (environment "DB_NAME"))
        (trimmed_variable (environment "DB_USER")) (variable (environment "DB_PASSWORD"))

  abbrev pub or_parts : Environment → Option String → Outcome DatabasePoolConfig
  or_parts environment (some connection_string) =
      ok (by_string connection_string (is_true (environment "DB_SSL")))
  or_parts environment none = parts_config environment

  unfoldable pub get_database_pool_config : Environment → Outcome DatabasePoolConfig
  get_database_pool_config environment =
      or_parts environment (trimmed_variable (environment "DATABASE_URL"))

-- What `new URL(value)` tells; it is `none` where the constructor throws.
pub record ParsedUrl : Type 0 where
  pub protocol : String
  pub username : String
  pub password : String
  pub pathname : String
  pub search : String
  pub hash : String
  pub origin : String

abbrev pub is_bare_origin : ParsedUrl → Bool
is_bare_origin url = not (
    (not (str_eq url.protocol "http:") && not (str_eq url.protocol "https:"))
    || not (str_eq url.username "")
    || not (str_eq url.password "")
    || (not (str_eq url.pathname "") && not (str_eq url.pathname "/"))
    || not (str_eq url.search "")
    || not (str_eq url.hash ""))

abbrev pub origin_of : Option ParsedUrl → Outcome String
origin_of none = throw plain
origin_of (some url) = if is_bare_origin url then ok url.origin else throw plain

unfoldable pub normalize_frontend_origin : (String → Option ParsedUrl) → String → Outcome String
normalize_frontend_origin parse_url value = origin_of (parse_url value)

abbrev pub loopback_hosts : List String
loopback_hosts = "127.0.0.1" ∷ "::1" ∷ "localhost" ∷ []

abbrev pub is_loopback_host : String → Bool
is_loopback_host host = includes loopback_hosts host

abbrev pub is_allowed_server_host : String → Bool → Bool
is_allowed_server_host host allow_non_loopback_host =
    is_loopback_host host || allow_non_loopback_host
