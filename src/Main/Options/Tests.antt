-- ===== src/Main/Options/Tests.antt =====
-- The theorems on the options of src/redstore.c for a concrete command line.
use redstore.Base.{◌≡◌, refl, true, some, List, [], ◌∷◌, ok, codes}
use redstore.Main.Options.{
  Opt, options_opt, verbose_opt, Settings, set_option, set_options, initial_settings,
  parse_arguments_of,
}
use redstore.Main.Options.Settled.{parse_arguments_of-dropped}

-- `-t host='h' -v store`
abbrev command_line : List Opt
command_line = options_opt (codes "host='h'") ∷ verbose_opt ∷ []

abbrev settled : Settings
settled = record initial_settings {
  storage_name = some (codes "store");
  storage_type = some (codes "hashes");
  storage_options = some (codes "hash-type='memory'");
  verbose = true;
}

settled_lem : parse_arguments_of command_line (codes "store" ∷ []) ≡ ok settled
unfolding parse_arguments_of set_options set_option
settled_lem = refl

parse_arguments_of-dropped_example :
    (settled.storage_type ≡ some (codes "hashes"))
    × (settled.storage_options ≡ some (codes "hash-type='memory'"))
parse_arguments_of-dropped_example =
    parse_arguments_of-dropped command_line (codes "store" ∷ []) settled (tt, (tt, tt)) settled_lem
