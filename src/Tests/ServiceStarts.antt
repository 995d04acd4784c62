-- ===== src/Tests/ServiceStarts.antt =====
-- The theorems on src/bls/, src/common/config/, src/provider/provider.module.ts, src/transport/kafka/,
-- the one-at-a-time decorator and
-- the guardian's account at concrete runs.
use lidofinance_lido_council.Shared.{
  ℕ, ◌+◌, ◌*◌, List, ◌≡◌, ◌↔◌, refl, Bool, true, none, some, [], ◌∷◌, map, arith,
}
use lidofinance_lido_council.Shared.Int.{pos}
use lidofinance_lido_council.Outcome.{Outcome, ok, throw, new_error}
use lidofinance_lido_council.Stomp.Text.{Text, codes, text_eq}
use lidofinance_lido_council.Bls.{Library, Bytes, zeros, zero_hash, verify}
use lidofinance_lido_council.Bls as Bls
use lidofinance_lido_council.DepositEvents.{VerifiedDepositEvent, VerifiedDepositEventGroup}
use lidofinance_lido_council.Deposit.{DepositEnv, format_event, fetch_events}
use lidofinance_lido_council.Deposit.Signed.{
  with_bls, MarkedBySignature, fetch_events-MarkedBySignature,
}
use lidofinance_lido_council.Tests.DepositData as DepositData
use lidofinance_lido_council.Bls.Verified.{IsSigned, verify_lem}
use lidofinance_lido_council.Config.{
  Value, text, is_in, InMemoryConfiguration, Validator, default_configuration,
  rabbitmq_passcode_file, accepts_all, is_valid_field, invalid_fields, validate_if, rules,
}
use lidofinance_lido_council.Config.Loader.{
  passcode, private_key, set_secret, load_secrets, load_env_or_file, load_file, without_line_breaks,
}
use lidofinance_lido_council.Config.Starting.{any_text, IsLoaded, use_factory-IsLoaded}
use lidofinance_lido_council.Config.Module.{use_factory}
use lidofinance_lido_council.Provider.Process.{watch, on, exited, watched, watch_exits}
use lidofinance_lido_council.Decorators.Overlap.{
  Method, Event, call, advance, IsSerial, new_calls, run, run-IsSerial,
}
use lidofinance_lido_council.Kafka.{Client, new_transport, subscribe, find_consumer}
use lidofinance_lido_council.Kafka.Consumers.{Registered, second_subscribe}

abbrev library : Library
library = record {
  PublicKey = Bytes;
  Signature = Bytes;
  pubkey_from_json = λ s. some (codes s);
  bytes32_from_json = λ s. some (codes s);
  version_from_json = codes;
  from_hex_string = λ s. some (codes s);
  uint64_deserialize = λ b. some 32;
  deposit_message_root = λ p w a. p;
  fork_data_root = λ v r. r;
  signing_data_root = λ o d. d;
  public_key_from_bytes = λ b. some b;
  signature_from_bytes = λ b. some b;
  blst_verify = λ r k s. some (text_eq k s);
}

abbrev deposit : Bls.DepositData
deposit = record { pubkey = "aa"; wc = "01"; amount = "00"; signature = "aa" }

verify_lem_example :
    (verify library none deposit ≡ throw (new_error "Fork version is not set"))
    × ((b : Bool) × (verify library (some (0 ∷ 0 ∷ 0 ∷ 0 ∷ [])) deposit ≡ ok b))
    × ((verify library (some (0 ∷ 0 ∷ 0 ∷ 0 ∷ [])) deposit ≡ ok true)
        ↔ IsSigned library (0 ∷ 0 ∷ 0 ∷ 0 ∷ []) deposit)
unfolding zero_hash zeros
verify_lem_example = verify_lem library (0 ∷ 0 ∷ 0 ∷ 0 ∷ []) deposit refl

abbrev fetching : DepositEnv
fetching = record DepositData.env {
  query_filter = λ contract turns s e. ok (DepositData.deposit ∷ []);
}

fetch_events-MarkedBySignature_example :
    (group : VerifiedDepositEventGroup) × (fetch_events
        (with_bls library (some (0 ∷ 0 ∷ 0 ∷ 0 ∷ [])) fetching)
        []
        67_540
        67_540
      ≡ ok group)
    × (map (λ (event : VerifiedDepositEvent). event.deposit) group.events
        ≡ map format_event (DepositData.deposit ∷ []))
    × MarkedBySignature library (0 ∷ 0 ∷ 0 ∷ 0 ∷ []) group.events
unfolding zero_hash zeros
fetch_events-MarkedBySignature_example =
    fetch_events-MarkedBySignature library (0 ∷ 0 ∷ 0 ∷ 0 ∷ []) fetching "0xdeposit"
      (DepositData.deposit ∷ []) [] 67_540 67_540 refl refl refl

abbrev validator : Validator
validator (is_in ts) value = any_text ts value
validator _ value = true

abbrev environment : InMemoryConfiguration
environment rabbitmq_passcode_file = text (codes "/run/passcode")
environment field = default_configuration field

abbrev secrets : Value → Outcome Text
secrets path = ok (codes "hunter2\n")

abbrev with_secrets : InMemoryConfiguration
with_secrets =
    set_secret private_key (text []) (set_secret passcode (text (codes "hunter2")) environment)

use_factory-IsLoaded_example :
    IsLoaded secrets validator (text (codes "0x1")) environment with_secrets
unfolding default_configuration use_factory load_secrets load_env_or_file load_file
    without_line_breaks invalid_fields is_valid_field accepts_all validate_if rules text_eq
use_factory-IsLoaded_example =
    use_factory-IsLoaded secrets validator (text (codes "0x1")) environment with_secrets
      (λ ts value h. h) refl refl

watch_exits_example :
    watch ((12_000, 100) ∷ (12_000, 101) ∷ (300_000, 102) ∷ []) 0 (on "block")
    ≡ (exited (pos 101), watched (pos 101) (100 ∷ 100 ∷ 101 ∷ 101 ∷ []))
watch_exits_example =
    watch_exits ((12_000, 100) ∷ (12_000, 101) ∷ []) ((300_000, 102) ∷ []) 0 (omega arith)
      (omega arith)

-- Two parts with an await between them
abbrev two_parts : Method ℕ
two_parts = (λ n. (n + 1, true)) ∷ (λ n. (n * 2, true)) ∷ []

abbrev overlapping : List (Event ℕ)
overlapping =
    call two_parts
    ∷ advance 0
    ∷ call two_parts
    ∷ advance 0
    ∷ advance 1
    ∷ advance 0
    ∷ call two_parts
    ∷ []

run-IsSerial_example : IsSerial 5 (run overlapping (new_calls 5))
run-IsSerial_example = run-IsSerial overlapping 5

abbrev refusing : Client
refusing = record {
  producer_connect_result = ok tt;
  producer_events = [];
  producer_send = ok tt;
  producer_disconnect_result = ok tt;
  disconnect_events = [];
  consumers_disconnect = ok tt;
  consumer_connect = throw (new_error "no broker");
  consumer_subscribe = ok tt;
  consumer_run = ok tt;
}

abbrev accepting : Client
accepting = record refusing { consumer_connect = ok tt }

second_subscribe_example :
    Registered "defender" 1 (subscribe refusing "defender" 1 new_transport)
    × (subscribe accepting "defender" 2 (subscribe refusing "defender" 1 new_transport).1
        ≡ (ok tt, (subscribe refusing "defender" 1 new_transport).1))
unfolding find_consumer
second_subscribe_example = second_subscribe refusing accepting "defender" 1 2 new_transport refl
