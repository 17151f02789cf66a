-- ===== src/Configuration/Tests.antt =====
-- A configuration by parts, and one whose port is out of range.
use ai_statement_analyzer.Base.{String, ◌≡◌, refl, true, none, some, str_eq, if◌then◌else◌}
use ai_statement_analyzer.Configuration.{
  get_database_pool_config, Environment, is_true, parse_port, by_parts,
  database_configuration_error,
}
use ai_statement_analyzer.Base.Number.{Number, integer}
use ai_statement_analyzer.Configuration.Usable.{
  UsableOrRefused, get_database_pool_config-UsableOrRefused,
}
use ai_statement_analyzer.Base.Int.{pos}
use ai_statement_analyzer.Base.Text.{trim, trim_start, decimal_from, codes, trim_end}
use ai_statement_analyzer.Failure.{throw, ok}

abbrev example_environment : String → Environment
example_environment port name =
    if str_eq name "DB_PORT"
    then some port
    else if str_eq name "DB_SSL"
    then some " TRUE"
    else if str_eq name "DATABASE_URL"
    then none
    else some " x "

abbrev read_port : String → Number
read_port s = integer (pos (decimal_from 0 (codes s)))

by_its_parts :
    get_database_pool_config read_port (example_environment "6543")
    ≡ ok (
        by_parts
          (record { host = "x"; port = 6543; database = "x"; user = "x"; password = " x " })
          true)
unfolding get_database_pool_config parse_port trim trim_start trim_end
by_its_parts = refl

out_of_range :
    get_database_pool_config read_port (example_environment "65536")
    ≡ throw database_configuration_error
unfolding get_database_pool_config parse_port trim trim_start trim_end
out_of_range = refl

get_database_pool_config-UsableOrRefused_example :
    UsableOrRefused
      (is_true (example_environment "6543" "DB_SSL"))
      (get_database_pool_config read_port (example_environment "6543"))
get_database_pool_config-UsableOrRefused_example =
    get_database_pool_config-UsableOrRefused read_port (example_environment "6543")
