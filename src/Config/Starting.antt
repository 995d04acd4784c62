-- ===== src/Config/Starting.antt =====
-- src/common/config/config.module.ts: what the settings are that the daemon starts with.
use lidofinance_lido_council.Shared.{
  ◌≡◌, ◌≢◌, ◌⊎◌, refl, ap, String, Bool, true, false, ◌||◌, List, [], ◌∷◌, arith, Bool-cases, inl,
  inr, All,
}
use mathlib.Core.Path.{subst}
use lidofinance_lido_council.Outcome.{Outcome, ok, throw, exit, pending}
use lidofinance_lido_council.Stomp.Text.{Text, codes, Lacks}
use lidofinance_lido_council.Config.{
  Value, text, Field, fields, is_in, rules, node_env, pubsub_service, rabbitmq_passcode,
  wallet_private_key, InMemoryConfiguration, Validator, is_text, is_given, for_kafka, for_rabbitmq,
  validate_if, accepts_all, is_valid_field, invalid_fields,
}
use lidofinance_lido_council.Config.Loader.{
  Secret, passcode, private_key, env_name, env_var_file, env_var_file_name, read_result, Loaded,
  loaded, failed, invalid, unsettled, set_secret, without_line_breaks, load_file, load_env_or_file,
  validate, validated, after_loading, load_secrets,
}
use lidofinance_lido_council.Config.Module.{
  make_transport, no_transport, only_valid, settled_config, use_factory,
}

-- What `IsIn` is relied on for: it accepts a text of its list only.
abbrev pub any_text : List Text → Value → Bool
any_text [] value = false
any_text (t ∷ ts) value = is_text value t || any_text ts value

abbrev pub OnlyListed : Validator → Type 0
OnlyListed validator =
    (ts : List Text) (value : Value) → validator (is_in ts) value ≡ true → any_text ts value ≡ true

pub invalid_fields-All :
    (validator : Validator) (config : InMemoryConfiguration) (fs : List Field)
    → invalid_fields validator config fs ≡ []
    → All (λ f. is_valid_field validator config f ≡ true) fs
unfolding invalid_fields
invalid_fields-All validator config [] h = tt
invalid_fields-All validator config (f ∷ fs) h =
    elim (Bool-cases (is_valid_field validator config f)) [
      | inl e ↦ (e, invalid_fields-All validator config fs (ground arith))
      | inr e ↦ ground arith
    ]

listed-pubsub :
    (validator : Validator) (config : InMemoryConfiguration)
    → OnlyListed validator
    → is_valid_field validator config pubsub_service ≡ true
    → for_kafka config || for_rabbitmq config ≡ true
unfolding is_valid_field validate_if accepts_all rules
listed-pubsub validator config only p =
    ground (arith, only (codes "kafka" ∷ codes "rabbitmq" ∷ []) (config pubsub_service))

valid-pubsub :
    (validator : Validator) (config : InMemoryConfiguration)
    → OnlyListed validator
    → invalid_fields validator config fields ≡ []
    → for_kafka config || for_rabbitmq config ≡ true
valid-pubsub validator config only h =
    let (_, (_, (_, (_, (_, (_, (_, (_, (_, (p, _)))))))))) =
      invalid_fields-All validator config fields h in
    listed-pubsub validator config only p

make_transport-chosen :
    (address : Value) (config : InMemoryConfiguration)
    → for_kafka config || for_rabbitmq config ≡ true
    → make_transport address config ≢ no_transport
unfolding make_transport
make_transport-chosen address config h e = ground arith

loaded_config : InMemoryConfiguration → Loaded → InMemoryConfiguration
loaded_config default (loaded config) = config
loaded_config default _ = default

loaded_injective : {a b : InMemoryConfiguration} → loaded a ≡ loaded b → a ≡ b
unfolding loaded_config
loaded_injective {a} h = ap (loaded_config a) h

validate-loaded :
    (validator : Validator) (config config' : InMemoryConfiguration)
    → validate validator config ≡ loaded config'
    → (config ≡ config') × (invalid_fields validator config fields ≡ [])
validate-loaded validator config config' h =
    by_fields (invalid_fields validator config fields) refl h
  where
    by_fields :
        (fs : List Field)
        → invalid_fields validator config fields ≡ fs
        → validated validator config fs ≡ loaded config'
        → (config ≡ config') × (invalid_fields validator config fields ≡ [])
    by_fields [] e h = (loaded_injective h, e)
    by_fields (f ∷ fs) e h = cc

-- What the loading of a secret gives
abbrev pub IsSecret : (Value → Outcome Text) → InMemoryConfiguration → Secret → Value → Type 0
IsSecret read_file config secret value =
    ((is_given (config (env_var_file secret)) ≡ false) × (value ≡ config (env_name secret)))
    ⊎ ((content : Text) × (is_given (config (env_var_file secret)) ≡ true)
        × (read_file (config (env_var_file secret)) ≡ ok content)
        × (value ≡ text (without_line_breaks content))
        × Lacks 10 (without_line_breaks content)
        × Lacks 13 (without_line_breaks content))

without_line_breaks-Lacks :
    (content : Text)
    → Lacks 10 (without_line_breaks content) × Lacks 13 (without_line_breaks content)
unfolding without_line_breaks
without_line_breaks-Lacks [] = (tt, tt)
without_line_breaks-Lacks (c ∷ cs) = ground (arith, without_line_breaks-Lacks cs)

load_file-ok :
    (read_file : Value → Outcome Text) (path value : Value) (name : String)
    → load_file read_file path name ≡ ok value
    → (content : Text) × (read_file path ≡ ok content)
      × (value ≡ text (without_line_breaks content))
unfolding load_file
load_file-ok read_file path value name h = by_result (read_file path) refl h
  where
    by_result :
        (r : Outcome Text)
        → read_file path ≡ r
        → read_result read_file name r ≡ ok value
        → (content : Text) × (read_file path ≡ ok content)
          × (value ≡ text (without_line_breaks content))
    by_result (ok content) e h = (content, e, cc)
    by_result (throw error) e h = cc
    by_result exit e h = cc
    by_result pending e h = cc

load_env_or_file-IsSecret :
    (read_file : Value → Outcome Text) (config : InMemoryConfiguration) (secret : Secret)
    (value : Value)
    → load_env_or_file read_file config secret ≡ ok value
    → IsSecret read_file config secret value
unfolding load_env_or_file
load_env_or_file-IsSecret read_file config secret value h =
    elim (Bool-cases (is_given (config (env_var_file secret)))) [
      | inl e ↦
          let (content, read, same) =
            load_file-ok read_file (config (env_var_file secret)) value (env_var_file_name secret)
              (ground arith) in
          let (lf, cr) = without_line_breaks-Lacks content in inr (content, e, read, same, lf, cr)
      | inr e ↦ inl (e, ground arith)
    ]

abbrev pub is_secret : Field → Bool
is_secret rabbitmq_passcode = true
is_secret wallet_private_key = true
is_secret _ = false

-- The settings that the daemon starts with
pub record IsLoaded (read_file : Value → Outcome Text) (validator : Validator) (address : Value)
    (prep_config config : InMemoryConfiguration) : Type 0 where
  pub others : (f : Field) → is_secret f ≡ false → config f ≡ prep_config f
  pub rabbitmq : IsSecret read_file prep_config passcode (config rabbitmq_passcode)
  pub wallet : IsSecret read_file prep_config private_key (config wallet_private_key)
  pub valid : invalid_fields validator config fields ≡ []
  pub transport : make_transport address config ≢ no_transport

others_same :
    (key value : Value) (config : InMemoryConfiguration) (f : Field)
    → is_secret f ≡ false
    → set_secret private_key key (set_secret passcode value config) f ≡ config f
others_same key value config rabbitmq_passcode h = cc
others_same key value config wallet_private_key h = cc
others_same key value config _ h = refl

after_loading-loaded :
    (r : Outcome Value) (go : Value → Loaded) (config : InMemoryConfiguration)
    → after_loading r go ≡ loaded config
    → (value : Value) × (r ≡ ok value) × (go value ≡ loaded config)
after_loading-loaded (ok value) go config h = (value, refl, h)
after_loading-loaded (throw _) go config h = cc
after_loading-loaded exit go config h = cc
after_loading-loaded pending go config h = cc

config_of : InMemoryConfiguration → Outcome InMemoryConfiguration → InMemoryConfiguration
config_of default (ok config) = config
config_of default _ = default

settled_config-ok :
    (l : Loaded) (config : InMemoryConfiguration) → settled_config l ≡ ok config → l ≡ loaded config
unfolding config_of
settled_config-ok (loaded c) config h = ap loaded (ap (config_of c) h)
settled_config-ok (failed _) config h = cc
settled_config-ok (invalid _) config h = cc
settled_config-ok unsettled config h = cc

only_valid-loaded :
    (fs : List Field) (l : Loaded) (config : InMemoryConfiguration)
    → only_valid fs l ≡ loaded config
    → l ≡ loaded config
only_valid-loaded [] l config h = h
only_valid-loaded (f ∷ fs) l config h = cc

load_secrets-IsLoaded :
    (read_file : Value → Outcome Text) (validator : Validator) (address : Value)
    (prep_config config : InMemoryConfiguration)
    → OnlyListed validator
    → load_secrets read_file validator prep_config ≡ loaded config
    → IsLoaded read_file validator address prep_config config
unfolding load_secrets
load_secrets-IsLoaded read_file validator address prep_config config only h =
    let (value, first, h1) =
      after_loading-loaded (load_env_or_file read_file prep_config passcode) _ config h in
    let (key, second, h2) =
      after_loading-loaded
        (load_env_or_file read_file (set_secret passcode value prep_config) private_key) _ config
        h1 in
    let final = set_secret private_key key (set_secret passcode value prep_config) in
    let (same, valid) = validate-loaded validator final config h2 in
    let at_final : IsLoaded read_file validator address prep_config final = record {
      others = others_same key value prep_config;
      rabbitmq = load_env_or_file-IsSecret read_file prep_config passcode value first;
      wallet =
          load_env_or_file-IsSecret read_file (set_secret passcode value prep_config) private_key
            key second;
      valid = valid;
      transport = make_transport-chosen address final (valid-pubsub validator final only valid);
    } in
    subst (IsLoaded read_file validator address prep_config) same at_final

-- The settings of a daemon that starts outside tests: all but the two secrets are those of the
-- environment; each secret is the environment's, or, where a file is named for it, the content of
-- that file with no line break left; they are valid; and a transport is made for them, Kafka's or
-- RabbitMQ's. This relies on `IsIn` accepting only what is in its list.
pub use_factory-IsLoaded :
    (read_file : Value → Outcome Text) (validator : Validator) (address : Value)
    (prep_config config : InMemoryConfiguration)
    → OnlyListed validator
    → is_text (prep_config node_env) (codes "test") ≡ false
    → use_factory read_file validator prep_config ≡ ok config
    → IsLoaded read_file validator address prep_config config
unfolding use_factory
use_factory-IsLoaded read_file validator address prep_config config only production h =
    load_secrets-IsLoaded read_file validator address prep_config config only (
      only_valid-loaded (invalid_fields validator prep_config fields)
        (load_secrets read_file validator prep_config) config
        (settled_config-ok _ config (rw production at h)))
