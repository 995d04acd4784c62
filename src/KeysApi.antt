-- ===== src/KeysApi.antt =====
-- src/keys-api/: the keys service, asked over HTTP. `fetchJson` of @lido-nestjs/fetch, with the abort
-- after 30 seconds, is outside the daemon: it answers a URL with a reply, or rejects.
use lidofinance_lido_council.Shared.{ℕ, String, Option, some, Bool, List, ◌∷◌}
use lidofinance_lido_council.Shared.Text.{join, decimal}
use lidofinance_lido_council.Outcome.{new_error, Outcome, ok, throw, bind}

pub record ElBlockSnapshot : Type 0 where
  pub block_number : ℕ
  pub block_hash : String
  pub timestamp : ℕ

pub record RegistryKey : Type 0 where
  pub key : String
  pub deposit_signature : String
  pub operator_index : ℕ
  pub used : Bool
  pub index : ℕ

pub record SrModule : Type 0 where
  pub nonce : ℕ
  pub kind : String
  pub id : ℕ
  pub staking_module_address : String
  pub module_fee : ℕ
  pub treasury_fee : ℕ
  pub target_share : ℕ
  pub status : ℕ
  pub name : String
  pub last_deposit_at : ℕ
  pub last_deposit_block : ℕ

pub record SrKeyListWithModule : Type 0 where
  pub keys : List RegistryKey
  pub sr_module : SrModule

pub record SrModuleKeysResponse : Type 0 where
  pub content : SrKeyListWithModule
  pub meta : ElBlockSnapshot

pub record SrModuleListResponse : Type 0 where
  pub content : List SrModule
  pub el_block_snapshot : ElBlockSnapshot

-- A reply may lack the fields that the type of the response promises.
pub record ListReply : Type 0 where
  pub content : Option (List SrModule)
  pub el_block_snapshot : Option ElBlockSnapshot

pub record KeysReply : Type 0 where
  pub content : Option SrKeyListWithModule
  pub meta : Option ElBlockSnapshot

pub record KeysApi : Type 0 where
  pub keys_api_host : String
  pub keys_api_port : ℕ
  pub fetch_list : String → Outcome ListReply
  pub fetch_keys : String → Outcome KeysReply

abbrev not_synced : {A : Type 0} → Outcome A
not_synced = throw (new_error "Keys API not synced, please wait")

-- `!result.data?.length || !result.elBlockSnapshot`
unfoldable pub checked_list :
    Option (List SrModule) → Option ElBlockSnapshot → Outcome SrModuleListResponse
checked_list (some (m ∷ ms)) (some snapshot) =
    ok (record { content = m ∷ ms; el_block_snapshot = snapshot })
checked_list _ _ = not_synced

-- `!result.data || !result.meta`
unfoldable pub checked_keys :
    Option SrKeyListWithModule → Option ElBlockSnapshot → Outcome SrModuleKeysResponse
checked_keys (some content) (some meta) = ok (record { content = content; meta = meta })
checked_keys _ _ = not_synced

module _ (api : KeysApi) where
  -- `${KEYS_API_HOST}:${KEYS_API_PORT}${url}`
  url_of : String → String
  url_of url = join api.keys_api_host (join ":" (join (decimal api.keys_api_port) url))

  unfoldable pub get_modules_list : Outcome SrModuleListResponse
  unfolding url_of checked_list
  get_modules_list =
      bind (api.fetch_list (url_of "/v1/modules"))
        λ result. checked_list result.content result.el_block_snapshot

  unfoldable pub get_unused_module_keys : ℕ → Outcome SrModuleKeysResponse
  unfolding url_of checked_keys
  get_unused_module_keys staking_module_id =
      bind
        (api.fetch_keys
          (url_of (join "/v1/modules/" (join (decimal staking_module_id) "/keys?used=false"))))
        λ result. checked_keys result.content result.meta
