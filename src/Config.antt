-- ===== src/Config.antt =====
-- src/common/config/in-memory-configuration.ts: the settings, and the rules that they are checked by.
-- The decorators are of class-validator: what they accept is a parameter. The model's settings are
-- never null, so that `IsOptional` leaves out no check.
pub mod Loader
pub mod Module
pub mod Starting
use lidofinance_lido_council.Shared.{
  ℕ, String, Bool, true, false, ◌&&◌, not, Option, none, some, List, [], ◌∷◌, ◌++◌, if◌then◌else◌,
}
use lidofinance_lido_council.Shared.Int.{ℤ, pos}
use lidofinance_lido_council.Stomp.Text.{Text, codes, text_eq}

-- `number none` is NaN.
pub data Value : Type 0 where
  text : Text → Value
  number : Option ℤ → Value
  flag : Bool → Value

pub data Field : Type 0 where
  node_env port log_level log_format rpc_url wallet_private_key wallet_private_key_file
        kafka_client_id broker_topic pubsub_service kafka_broker_address_1 kafka_broker_address_2
        kafka_ssl kafka_sasl_mechanism kafka_username kafka_password rabbitmq_url rabbitmq_login
        rabbitmq_passcode rabbitmq_passcode_file registry_keys_query_batch_size
        registry_keys_query_concurrency keys_api_port keys_api_host :
      Field

abbrev pub fields : List Field
fields =
    node_env ∷ port ∷ log_level ∷ log_format ∷ rpc_url ∷ wallet_private_key
    ∷ wallet_private_key_file ∷ kafka_client_id ∷ broker_topic ∷ pubsub_service
    ∷ kafka_broker_address_1 ∷ kafka_broker_address_2 ∷ kafka_ssl ∷ kafka_sasl_mechanism
    ∷ kafka_username ∷ kafka_password ∷ rabbitmq_url ∷ rabbitmq_login ∷ rabbitmq_passcode
    ∷ rabbitmq_passcode_file ∷ registry_keys_query_batch_size ∷ registry_keys_query_concurrency
    ∷ keys_api_port ∷ keys_api_host ∷ []

-- An instance of the class
abbrev pub InMemoryConfiguration : Type 0
InMemoryConfiguration = Field → Value

unfoldable pub default_configuration : InMemoryConfiguration
default_configuration node_env = text (codes "development")
default_configuration port = number (some (pos 3000))
default_configuration log_level = text (codes "info")
default_configuration log_format = text (codes "json")
default_configuration rpc_url = text []
default_configuration wallet_private_key = text []
default_configuration wallet_private_key_file = text []
default_configuration kafka_client_id = text []
default_configuration broker_topic = text (codes "defender")
default_configuration pubsub_service = text (codes "rabbitmq")
default_configuration kafka_broker_address_1 = text []
default_configuration kafka_broker_address_2 = text []
default_configuration kafka_ssl = flag false
default_configuration kafka_sasl_mechanism = text (codes "scram-sha-256")
default_configuration kafka_username = text []
default_configuration kafka_password = text []
default_configuration rabbitmq_url = text []
default_configuration rabbitmq_login = text []
default_configuration rabbitmq_passcode = text []
default_configuration rabbitmq_passcode_file = text []
default_configuration registry_keys_query_batch_size = number (some (pos 200))
default_configuration registry_keys_query_concurrency = number (some (pos 5))
default_configuration keys_api_port = number (some (pos 3001))
default_configuration keys_api_host = text (codes "http://localhost")

-- The decorators
pub data Rule : Type 0 where
  is_not_empty is_string is_number : Rule
  min : ℕ → Rule
  is_in : List Text → Rule

-- What a decorator accepts
abbrev pub Validator : Type 0
Validator = Rule → Value → Bool

abbrev not_empty_string : List Rule
not_empty_string = is_not_empty ∷ is_string ∷ []

abbrev positive_number : List Rule
positive_number = is_number ∷ min 1 ∷ []

unfoldable pub rules : Field → List Rule
rules node_env =
    is_not_empty ∷ is_in (codes "development" ∷ codes "production" ∷ codes "test" ∷ []) ∷ []
rules port = is_not_empty ∷ positive_number
rules log_level =
    is_not_empty
    ∷ is_in (codes "error" ∷ codes "warning" ∷ codes "notice" ∷ codes "info" ∷ codes "debug" ∷ [])
    ∷ []
rules log_format = is_string ∷ is_in (codes "simple" ∷ codes "json" ∷ []) ∷ []
rules rpc_url = not_empty_string
rules wallet_private_key = is_string ∷ []
rules wallet_private_key_file = is_string ∷ []
rules kafka_client_id = is_string ∷ []
rules broker_topic = is_string ∷ []
rules pubsub_service = is_string ∷ is_in (codes "kafka" ∷ codes "rabbitmq" ∷ []) ∷ []
rules kafka_broker_address_1 = not_empty_string
rules kafka_broker_address_2 = is_string ∷ []
rules kafka_ssl = is_not_empty ∷ []
rules kafka_sasl_mechanism =
    is_not_empty
    ∷ is_string
    ∷ is_in (codes "plain" ∷ codes "scram-sha-256" ∷ codes "scram-sha-512" ∷ [])
    ∷ []
rules kafka_username = not_empty_string
rules kafka_password = not_empty_string
rules rabbitmq_url = not_empty_string
rules rabbitmq_login = not_empty_string
rules rabbitmq_passcode = not_empty_string
rules rabbitmq_passcode_file = not_empty_string
rules registry_keys_query_batch_size = positive_number
rules registry_keys_query_concurrency = positive_number
rules keys_api_port = is_not_empty ∷ positive_number
rules keys_api_host = is_string ∷ []

-- `value === text`
abbrev pub is_text : Value → Text → Bool
is_text (text t) expected = text_eq t expected
is_text (number _) expected = false
is_text (flag _) expected = false

-- `!!value`, for the settings that hold a text
abbrev pub is_given : Value → Bool
is_given (text []) = false
is_given (text (_ ∷ _)) = true
is_given (number _) = true
is_given (flag b) = b

abbrev pub for_kafka : InMemoryConfiguration → Bool
for_kafka conf = is_text (conf pubsub_service) (codes "kafka")

abbrev pub for_rabbitmq : InMemoryConfiguration → Bool
for_rabbitmq conf = is_text (conf pubsub_service) (codes "rabbitmq")

-- `ValidateIf`
unfoldable pub validate_if : Field → InMemoryConfiguration → Bool
validate_if kafka_broker_address_1 conf = for_kafka conf
validate_if kafka_broker_address_2 conf = for_kafka conf
validate_if kafka_ssl conf = for_kafka conf
validate_if kafka_sasl_mechanism conf = for_kafka conf
validate_if kafka_username conf = for_kafka conf
validate_if kafka_password conf = for_kafka conf
validate_if rabbitmq_url conf = for_rabbitmq conf
validate_if rabbitmq_login conf = for_rabbitmq conf
validate_if rabbitmq_passcode conf =
    for_rabbitmq conf && not (is_given (conf rabbitmq_passcode_file))
validate_if rabbitmq_passcode_file conf =
    for_rabbitmq conf && not (is_given (conf rabbitmq_passcode))
validate_if _ conf = true

unfoldable pub accepts_all : Validator → List Rule → Value → Bool
accepts_all validator [] value = true
accepts_all validator (rule ∷ rs) value = validator rule value && accepts_all validator rs value

unfoldable pub is_valid_field : Validator → InMemoryConfiguration → Field → Bool
unfolding validate_if accepts_all rules
is_valid_field validator conf field =
    if validate_if field conf then accepts_all validator (rules field) (conf field) else true

-- The fields that `validateOrReject` rejects
unfoldable pub invalid_fields : Validator → InMemoryConfiguration → List Field → List Field
unfolding is_valid_field
invalid_fields validator conf [] = []
invalid_fields validator conf (field ∷ fs) =
    let rest = invalid_fields validator conf fs in
    if is_valid_field validator conf field then rest else field ∷ rest
