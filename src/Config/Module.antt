-- ===== src/Config/Module.antt =====
-- src/common/config/config.module.ts and src/transport/transport.module.ts: the settings that the
-- daemon starts with, and the transport that they choose.
use lidofinance_lido_council.Shared.{none, List, [], ◌∷◌, if◌then◌else◌}
use lidofinance_lido_council.Outcome.{Outcome, ok, throw, exit, pending}
use lidofinance_lido_council.Stomp.Text.{Text, codes}
use lidofinance_lido_council.Stomp.State.{StompOptions}
use lidofinance_lido_council.Config.{
  Value, Field, fields, node_env, rabbitmq_passcode, rabbitmq_url, rabbitmq_login, kafka_client_id,
  kafka_broker_address_1, kafka_ssl, kafka_sasl_mechanism, kafka_username, kafka_password,
  InMemoryConfiguration, Validator, is_text, is_given, for_kafka, for_rabbitmq, invalid_fields,
}
use lidofinance_lido_council.Config.Loader.{
  Loaded, loaded, failed, invalid, unsettled, load_secrets,
}

-- `err instanceof ValidationError` for the whole list ends the process.
abbrev pub settled_config : Loaded → Outcome InMemoryConfiguration
settled_config (loaded config) = ok config
settled_config (failed error) = throw error
settled_config (invalid fs) = exit
settled_config unsettled = pending

abbrev pub only_valid : List Field → Loaded → Loaded
only_valid [] then_loaded = then_loaded
only_valid (field ∷ fs) then_loaded = invalid (field ∷ fs)

-- The factory of the configuration
unfoldable pub use_factory :
    (Value → Outcome Text) → Validator → InMemoryConfiguration → Outcome InMemoryConfiguration
unfolding load_secrets invalid_fields
use_factory read_file validator prep_config =
    if is_text (prep_config node_env) (codes "test")
    then ok prep_config
    else settled_config (
        only_valid (invalid_fields validator prep_config fields)
          (load_secrets read_file validator prep_config))

-- STOMP_OPTIONS
abbrev pub stomp_options : StompOptions
stomp_options = record {
  reconnect_attempts = 2;
  reconnect_timeout = 5_000;
  max_wait_socket_session = 100_000;
  web_socket_connect_timeout = none;
}

-- What the factory of the transport makes, with the settings that it takes; `no_transport` is the
-- `undefined` of a factory that takes neither branch.
pub data TransportChoice : Type 0 where
  kafka : Value → Value → Value → Value → Value → Value → TransportChoice
  stomp : Value → Value → Value → StompOptions → TransportChoice
  no_transport : TransportChoice

-- `config.KAFKA_CLIENT_ID || walletService.address`
abbrev or_address : Value → Value → Value
or_address client_id address = if is_given client_id then client_id else address

unfoldable pub make_transport : Value → InMemoryConfiguration → TransportChoice
make_transport address config =
    if for_kafka config
    then kafka (or_address (config kafka_client_id) address) (config kafka_broker_address_1)
        (config kafka_ssl) (config kafka_sasl_mechanism) (config kafka_username)
        (config kafka_password)
    else if for_rabbitmq config
    then stomp (config rabbitmq_url) (config rabbitmq_login) (config rabbitmq_passcode)
        stomp_options
    else no_transport
