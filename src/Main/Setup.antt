-- ===== src/Main/Setup.antt =====
-- The store that src/redstore.c opens at its start, and the file that it loads.
use redstore.Base.{
  Bool, true, false, not, Option, none, some, [], ◌∷◌, ◌++◌, if◌then◌else◌, Str, codes,
}
use redstore.Platform.{Platform, Call}
use redstore.Main.Options.{Settings}

-- One call after another; the messages of both are logged.
infixl 5 ◌then◌
abbrev ◌then◌ : {W A B : Type 0} → Call W A → (A → Call W B) → Call W B
(operation then next) w =
    let reply = operation w in
    let later = next reply.value reply.world in
    record { value = later.value; world = later.world; messages = reply.messages ++ later.messages }

abbrev giving : {W A : Type 0} → A → Call W A
giving a w = record { value = a; world = w; messages = [] }

abbrev yes : Str
yes = codes "yes"

abbrev is_given : {A : Type 0} → Option A → Bool
is_given none = false
is_given (some a) = true

module _ (S : Platform) where
  open S use {World, Storage, Model, Hash, Uri}

  abbrev put_new : Bool → Hash → Call World Bool
  put_new true hash = S.hash_put_strings hash (codes "new") yes
  put_new false hash = giving false

  -- The storage, and the text of its options without the password.
  abbrev with_hash :
      Option Str → Option Str → Bool → Option Hash → Call World (Option Storage × Option Str)
  with_hash name type new none = giving (none, none)
  with_hash name type new (some hash) =
      S.hash_put_strings hash (codes "contexts") yes then λ contexts.
      S.hash_put_strings hash (codes "write") yes then λ write. put_new new hash then λ put.
      S.hash_to_string hash (codes "password" ∷ []) then λ options.
      S.new_storage_with_options type name hash then λ storage. giving (storage, options)

  unfoldable pub setup_storage :
      Option Str → Option Str → Option Str → Bool → Call World (Option Storage × Option Str)
  setup_storage name type options new = S.new_hash_from_string options then with_hash name type new

  abbrev load_uri : Model → Option Str → Option Uri → Call World Bool
  load_uri model format none = giving true
  load_uri model format (some uri) = S.model_load model uri format

  -- `true` is a result that is not 0.
  unfoldable pub load_input_file : Model → Option Str → Option Str → Call World Bool
  load_input_file model none format = giving false
  load_input_file model (some filename) format =
      S.new_uri_from_filename filename then load_uri model format

  abbrev load_model : Settings → Option Model → Call World Bool
  load_model settings none = giving false
  load_model settings (some model) =
      load_input_file model settings.input_filename settings.input_format then λ failed.
      giving (not failed)

  abbrev open_model : Settings → Option Storage × Option Str → Call World Bool
  open_model settings (none, options) = giving false
  open_model settings (some storage, options) = S.new_model storage then load_model settings

  -- The storage, its model and the input file, up to the first that fails.
  unfoldable pub prepared : Settings → Call World Bool
  unfolding setup_storage load_input_file
  prepared settings =
      setup_storage settings.storage_name settings.storage_type settings.storage_options
        settings.storage_new
      then open_model settings
