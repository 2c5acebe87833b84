-- ===== src/Tests/Starting.antt =====
-- src/config/index.ts at a concrete environment, whose texts have no blanks and no capitals.
use xrpl_registrar.Common.{String, ◌≡◌, refl, Option, none, [], ◌∷◌}
use xrpl_registrar.Common.Dict.{Dict, lookup}
use xrpl_registrar.Common.Int.{ℤ}
use xrpl_registrar.Common.Text.{eq}
use xrpl_registrar.Config.{
  Language, DbOptions, postgres, ok, load_db_config, postgres_options, ssl_option,
}
use xrpl_registrar.Config.Engine.{Selects, load_db_config-Selects}

abbrev plain : String → String
plain s = s

abbrev no_integer : String → Option ℤ
no_integer s = none

abbrev no_host : String → Option String
no_host s = none

abbrev language : Language
language = record { trim = plain; lower = plain; to_integer = no_integer; hostname = no_host }

abbrev env : Dict String
env = ("DATABASE_URL", "postgres://db/registrar") ∷ ("STORAGE_ENGINE", "postgres") ∷ []

abbrev chosen : DbOptions
chosen = postgres "postgres://db/registrar" none none

accepted : load_db_config language env ≡ ok chosen
unfolding load_db_config postgres_options ssl_option lookup eq
accepted = refl

load_db_config-Selects_example : Selects language env chosen
load_db_config-Selects_example = load_db_config-Selects language env chosen accepted
