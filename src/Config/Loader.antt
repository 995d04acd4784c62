-- ===== src/Config/Loader.antt =====
-- src/common/config/config-loader.service.ts: secrets from the environment or from files.
use lidofinance_lido_council.Shared.{
  String, Bool, false, ◌||◌, Option, none, some, List, [], ◌∷◌, ◌==◌, str_eq, if◌then◌else◌,
}
use lidofinance_lido_council.Shared.Text.{join}
use lidofinance_lido_council.Outcome.{Failure, new_error, Outcome, ok, throw, exit, pending}
use lidofinance_lido_council.Stomp.Text.{Text}
use lidofinance_lido_council.Config.{
  Value, text, Field, fields, rabbitmq_passcode, rabbitmq_passcode_file, wallet_private_key,
  wallet_private_key_file, InMemoryConfiguration, Validator, is_given, invalid_fields,
}

-- `.replace(/(\r\n|\n|\r)/gm, '')`
unfoldable pub without_line_breaks : Text → Text
without_line_breaks [] = []
without_line_breaks (c ∷ cs) =
    let rest = without_line_breaks cs in if c == 10 || c == 13 then rest else c ∷ rest

abbrev is_code : Option String → String → Bool
is_code none expected = false
is_code (some code) expected = str_eq code expected

-- The catch block of `loadFile`
unfoldable pub file_error : String → Failure → Failure
file_error env_var_file error =
    if is_code error.code "ENOENT"
    then new_error (join "Failed to load ENV variable from the " env_var_file)
    else if is_code error.code "EACCES"
    then new_error
        (join "Permission denied when trying to read the file specified by " env_var_file)
    else if is_code error.code "EMFILE"
    then new_error (
        join "Too many open files in the system when trying to read the file specified by "
          env_var_file)
    else error

-- The two secrets
pub data Secret : Type 0 where
  passcode private_key : Secret

abbrev pub env_name : Secret → Field
env_name passcode = rabbitmq_passcode
env_name private_key = wallet_private_key

abbrev pub env_var_file : Secret → Field
env_var_file passcode = rabbitmq_passcode_file
env_var_file private_key = wallet_private_key_file

abbrev pub env_var_file_name : Secret → String
env_var_file_name passcode = "RABBITMQ_PASSCODE_FILE"
env_var_file_name private_key = "WALLET_PRIVATE_KEY_FILE"

abbrev pub set_secret : Secret → Value → InMemoryConfiguration → InMemoryConfiguration
set_secret passcode value config rabbitmq_passcode = value
set_secret private_key value config wallet_private_key = value
set_secret _ value config field = config field

-- What `loadSecrets` rejects with: an error, or what the validation found
pub data Loaded : Type 0 where
  loaded : InMemoryConfiguration → Loaded
  failed : Failure → Loaded
  invalid : List Field → Loaded
  unsettled : Loaded

abbrev pub validated : Validator → InMemoryConfiguration → List Field → Loaded
validated validator config [] = loaded config
validated validator config (field ∷ fs) = invalid (field ∷ fs)

abbrev pub after_loading : Outcome Value → (Value → Loaded) → Loaded
after_loading (ok value) go = go value
after_loading (throw error) go = failed error
after_loading exit go = unsettled
after_loading pending go = unsettled

abbrev pub validate : Validator → InMemoryConfiguration → Loaded
validate validator config = validated validator config (invalid_fields validator config fields)

-- `read_file` is that of the file system.
module _ (read_file : Value → Outcome Text) where
  abbrev pub read_result : String → Outcome Text → Outcome Value
  read_result name (ok content) = ok (text (without_line_breaks content))
  read_result name (throw error) = throw (file_error name error)
  read_result name exit = exit
  read_result name pending = pending

  unfoldable pub load_file : Value → String → Outcome Value
  unfolding without_line_breaks file_error
  load_file path name = read_result name (read_file path)

  unfoldable pub load_env_or_file : InMemoryConfiguration → Secret → Outcome Value
  unfolding load_file
  load_env_or_file config secret =
      if is_given (config (env_var_file secret))
      then load_file (config (env_var_file secret)) (env_var_file_name secret)
      else ok (config (env_name secret))

  unfoldable pub load_secrets : Validator → InMemoryConfiguration → Loaded
  unfolding load_env_or_file invalid_fields
  load_secrets validator config = after_loading (load_env_or_file config passcode) λ value.
      let config' = set_secret passcode value config in
      after_loading (load_env_or_file config' private_key)
        λ key. validate validator (set_secret private_key key config')
