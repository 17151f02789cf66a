-- ===== src/Configuration/Usable.antt =====
-- Which configurations of the database are accepted.
use ai_statement_analyzer.Base.{
  ℕ, ◌≤◌, String, ◌≡◌, refl, inl, inr, Bool, false, Option, none, some, arith, Bool-cases,
}
use ai_statement_analyzer.Base.Text.{is_empty, trim}
use ai_statement_analyzer.Configuration.{
  variable, Connection, trimmed_variable, if_filled, DatabasePoolConfig, by_string, by_parts,
  database_configuration_error, Environment, connection_with, port_of, parse_port,
  get_database_pool_config, in_port_range, with_parts, is_true, or_parts,
}
use ai_statement_analyzer.Base.Number.{Number, positive_integer}
use ai_statement_analyzer.Failure.{Outcome, throw, ok}

abbrev pub IsFilled : String → Type 0
IsFilled s = is_empty s ≡ false

pub record IsConnection (c : Connection) : Type 0 where
  pub host : IsFilled c.host
  pub database : IsFilled c.database
  pub user : IsFilled c.user
  pub password : IsFilled c.password
  pub port_from : 1 ≤ c.port
  pub port_to : c.port ≤ 65535

-- TLS is asked for exactly where the environment says so, in whatever case.
abbrev pub IsUsable : Bool → DatabasePoolConfig → Type 0
IsUsable tls (by_string s ssl) = IsFilled s × (ssl ≡ tls)
IsUsable tls (by_parts c ssl) = IsConnection c × (ssl ≡ tls)

abbrev pub UsableOrRefused : Bool → Outcome DatabasePoolConfig → Type 0
UsableOrRefused tls (throw e) = e ≡ database_configuration_error
UsableOrRefused tls (ok config) = IsUsable tls config

if_filled-IsFilled : (s t : String) → if_filled s ≡ some t → IsFilled t
if_filled-IsFilled s t h = elim (Bool-cases (is_empty s)) [
  | inl y ↦ absurd (ground (arith, rw y at h))
  | inr n ↦ let same : s ≡ t = ground (arith, rw n at h) in rw (← same) n
]

trimmed_variable-IsFilled :
    (o : Option String) (t : String) → trimmed_variable o ≡ some t → IsFilled t
trimmed_variable-IsFilled none t h = cc
trimmed_variable-IsFilled (some s) t h = if_filled-IsFilled (trim s) t h

pub variable-IsFilled : (o : Option String) (t : String) → variable o ≡ some t → IsFilled t
variable-IsFilled none t h = cc
variable-IsFilled (some s) t h = if_filled-IsFilled s t h

abbrev PortOrRefused : Outcome ℕ → Type 0
PortOrRefused (throw e) = e ≡ database_configuration_error
PortOrRefused (ok n) = (1 ≤ n) × (n ≤ 65535)

port_of-PortOrRefused : (o : Option ℕ) → PortOrRefused (port_of o)
port_of-PortOrRefused none = refl
port_of-PortOrRefused (some n) = elim (Bool-cases (in_port_range n)) [
  | inl y ↦ rw y (ground (arith, y), ground (arith, y))
  | inr k ↦ rw k refl
]

connection-UsableOrRefused :
    (number_of : String → Number) (tls : Bool) (host database user password : String)
    (o : Outcome ℕ)
    → IsFilled host
    → IsFilled database
    → IsFilled user
    → IsFilled password
    → PortOrRefused o
    → UsableOrRefused tls (connection_with number_of tls host database user password o)
connection-UsableOrRefused number_of tls host database user password (throw e) h d u p q = q
connection-UsableOrRefused number_of tls host database user password (ok n) h d u p (from, to) = (
  record { host = h; database = d; user = u; password = p; port_from = from; port_to = to },
  refl,
)

module _ (number_of : String → Number) where
  with_parts-UsableOrRefused :
      (tls : Bool) (port : String) (host database user password : Option String)
      → ((t : String) → host ≡ some t → IsFilled t)
      → ((t : String) → database ≡ some t → IsFilled t)
      → ((t : String) → user ≡ some t → IsFilled t)
      → ((t : String) → password ≡ some t → IsFilled t)
      → UsableOrRefused tls (with_parts number_of tls port host database user password)
  unfolding parse_port
  with_parts-UsableOrRefused tls port none d u p fh fd fu fp = refl
  with_parts-UsableOrRefused tls port (some h) none u p fh fd fu fp = refl
  with_parts-UsableOrRefused tls port (some h) (some d) none p fh fd fu fp = refl
  with_parts-UsableOrRefused tls port (some h) (some d) (some u) none fh fd fu fp = refl
  with_parts-UsableOrRefused tls port (some h) (some d) (some u) (some p) fh fd fu fp =
      connection-UsableOrRefused number_of tls h d u p (parse_port number_of port) (fh h refl)
        (fd d refl) (fu u refl) (fp p refl)
        (port_of-PortOrRefused (positive_integer (number_of port)))

  or_parts-UsableOrRefused :
      (environment : Environment) (o : Option String)
      → ((t : String) → o ≡ some t → IsFilled t)
      → UsableOrRefused (is_true (environment "DB_SSL")) (or_parts number_of environment o)
  or_parts-UsableOrRefused environment (some s) f = (f s refl, refl)
  or_parts-UsableOrRefused environment none f =
      with_parts-UsableOrRefused (is_true (environment "DB_SSL")) _
        (trimmed_variable (environment "DB_HOST")) (trimmed_variable (environment "DB_NAME"))
        (trimmed_variable (environment "DB_USER")) (variable (environment "DB_PASSWORD"))
        (trimmed_variable-IsFilled _) (trimmed_variable-IsFilled _) (trimmed_variable-IsFilled _)
        (variable-IsFilled _)

  -- Every environment gives a configuration or the configuration error. A connection string is not
  -- empty; of a connection by its parts no part is empty and the port is between 1 and 65535; and TLS
  -- is asked for exactly where the environment says so.
  pub get_database_pool_config-UsableOrRefused :
      (environment : Environment)
      → UsableOrRefused
          (is_true (environment "DB_SSL"))
          (get_database_pool_config number_of environment)
  unfolding get_database_pool_config
  get_database_pool_config-UsableOrRefused environment =
      or_parts-UsableOrRefused environment (trimmed_variable (environment "DATABASE_URL"))
        (trimmed_variable-IsFilled (environment "DATABASE_URL"))
