-- ===== src/Config/Checks.antt =====
-- What a configuration that passed its checks is good for.
use uban_z.Prelude.{String, true, Option, some, ◌≡◌, arith, ok}
use uban_z.Config.{Config, validate}
use uban_z.Parser.Times.{Location}
use uban_z.Parser.Service.{RawConfig, new}

-- The settings that cmd/booking/main.go takes from the configuration.
abbrev pub parser_config : Config → Location → RawConfig
parser_config c location = record {
  weeks_ahead = c.parser_weeks_ahead;
  default_building = c.parser_default_building;
  default_capacity = c.parser_default_capacity;
  location = some location;
}

-- A configuration that passes its checks is accepted by the parser's constructor, given a source
-- and a repository, and the parser has the configured settings.
pub new-validate :
    (load_location : String → Option String) (c : Config) (local location : Location)
    → validate load_location c ≡ ok tt
    → new true true local (parser_config c location)
      ≡ ok (record {
        weeks_ahead = c.parser_weeks_ahead;
        default_building = c.parser_default_building;
        default_capacity = c.parser_default_capacity;
        location = location;
      })
unfolding validate new
new-validate load_location c local location h = ground arith
