-- ===== src/Main/Options.antt =====
-- The options of src/redstore.c, as getopt gives them.
pub mod Settled
mod Tests
use redstore.Base.{
  ◌-◌, Bool, true, false, ◌&&◌, Option, none, some, List, [], ◌∷◌, if◌then◌else◌, process_exit,
  Result, ok, fault, ◌>>=◌, ◌>>◌, Str, codes,
}

-- One result of getopt, with `optarg`; what is not an option of the program is `other`.
pub data Opt : Type 0 where
  port_opt address_opt storage_opt options_opt file_opt format_opt : Str → Opt
  new_opt verbose_opt quiet_opt other_opt : Opt

-- The variables that the options set; `none` is NULL.
pub record Settings : Type 0 where
  pub port : Str
  pub address : Option Str
  pub storage_name : Option Str
  pub storage_type : Option Str
  pub storage_options : Option Str
  pub storage_new : Bool
  pub input_filename : Option Str
  pub input_format : Option Str
  pub verbose : Bool
  pub quiet : Bool

abbrev pub initial_settings : Settings
initial_settings = record {
  port = codes "8080";
  address = none;
  storage_name = none;
  storage_type = none;
  storage_options = none;
  storage_new = false;
  input_filename = none;
  input_format = none;
  verbose = false;
  quiet = false;
}

-- One case of the switch. `usage` ends the program.
unfoldable pub set_option : Settings → Opt → Result Settings
set_option s (port_opt optarg) = ok (record s { port = optarg })
set_option s (address_opt optarg) = ok (record s { address = some optarg })
set_option s (storage_opt optarg) = ok (record s { storage_type = some optarg })
set_option s (options_opt optarg) = ok (record s { storage_options = some optarg })
set_option s (file_opt optarg) = ok (record s { input_filename = some optarg })
set_option s (format_opt optarg) = ok (record s { input_format = some optarg })
set_option s new_opt = ok (record s { storage_new = true })
set_option s verbose_opt = ok (record s { verbose = true })
set_option s quiet_opt = ok (record s { quiet = true })
set_option s other_opt = fault process_exit

unfoldable pub set_options : Settings → List Opt → Result Settings
unfolding set_option
set_options s [] = ok s
set_options s (opt ∷ next) = set_option s opt >>= λ s'. set_options s' next

-- The arguments behind the options: at most one, the name of the storage.
abbrev pub set_name : Settings → List Str → Result Settings
set_name s [] = ok s
set_name s (name ∷ []) = ok (record s { storage_name = some name })
set_name s (name ∷ other ∷ names) = fault process_exit

abbrev pub check_noise : Settings → Result Settings
check_noise s = if s.quiet && s.verbose then fault process_exit else ok s

-- The defaults. The default options go with the default type only.
abbrev pub default_name : Option Str → Option Str
default_name none = some (codes "redstore")
default_name (some name) = some name

abbrev pub default_storage : Option Str → Settings → Settings
default_storage none s = record s {
  storage_type = some (codes "hashes");
  storage_options = some (codes "hash-type='memory'");
}
default_storage (some type) s = s

abbrev pub with_defaults : Settings → Settings
with_defaults s =
    default_storage s.storage_type (record s { storage_name = default_name s.storage_name })

unfoldable pub parse_arguments_of : List Opt → List Str → Result Settings
unfolding set_options
parse_arguments_of opts names = do
  s ← set_options initial_settings opts
  named ← set_name s names
  checked ← check_noise named
  ok (with_defaults checked)
