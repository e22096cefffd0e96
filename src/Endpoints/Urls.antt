-- ===== src/Endpoints/Urls.antt =====
-- utils/client.py: the clients of a configuration, and which admin endpoint stands behind the URL of
-- a rollout client.
use aurora_rl.Base.{
  ℕ, zero, suc, ◌+◌, ◌/◌, ◌%◌, Bool, ◌||◌, not, Option, none, some, List, [], ◌∷◌, ◌++◌, map,
  length, get_or, ltb, ◌==◌, if◌then◌else◌,
}
use aurora_rl.Base.Names.{Name, codes, same_name, strip_suffix}
use aurora_rl.Base.Dict.{insert, update}

-- `url.rstrip("/")`
unfoldable pub strip_slashes : Name → Name
strip_slashes [] = []
strip_slashes (c ∷ url) = elim (strip_slashes url) [
  | [] ↦ if c == b'/' then [] else c ∷ []
  | d ∷ rest ↦ c ∷ d ∷ rest
]

-- `text.removesuffix(suffix)`
unfoldable pub remove_suffix : Name → Name → Name
remove_suffix suffix text = elim (strip_suffix suffix text) [ none ↦ text | some front ↦ front ]

unfoldable pub normalize_endpoint_url : Name → Name
unfolding strip_slashes remove_suffix
normalize_endpoint_url url = remove_suffix (codes "/v1") (strip_slashes url)

pub record ClientConfig : Type 0 where
  pub base_url : List Name
  pub admin_base_url : Option (List Name)
  pub api_key_var : Name
  pub headers : List (Name × Name)
  pub headers_from_env : List (Name × Name)
  pub extra_headers_from_state : List (Name × Name)
  pub timeout : ℕ
  pub connect_timeout : ℕ
  pub dp_rank_count : ℕ
  pub skip_model_check : Bool
  pub lease_enabled : Bool
  pub lease_cooldown : ℕ
  pub lease_recovery_enabled : Bool
  pub lease_recovery_poll_interval : ℕ

pub record Renderer : Type 0 where
  pub renderer_config : Option Name
  pub renderer_model_name : Option Name
  pub renderer_pool_size : Option ℕ

-- A rollout client, `vf.ClientConfig`.
pub record RolloutClient : Type 0 where
  pub client_idx : ℕ
  pub client_type : Name
  pub api_base_url : Name
  pub api_key_var : Name
  pub timeout : ℕ
  pub connect_timeout : ℕ
  pub max_connections : ℕ
  pub max_keepalive_connections : ℕ
  pub max_retries : ℕ
  pub extra_headers : List (Name × Name)
  pub extra_headers_from_state : List (Name × Name)
  pub renderer : Option Renderer

pub record AdminClient : Type 0 where
  pub base_url : Name
  pub headers : List (Name × Name)
  pub max_connections : ℕ
  pub max_keepalive_connections : ℕ
  pub timeout : ℕ
  pub connect_timeout : ℕ

-- `_endpoint_key`, of the module and of the pool.
unfoldable pub endpoint_key : AdminClient → Name
unfolding normalize_endpoint_url
endpoint_key admin_client = normalize_endpoint_url admin_client.base_url

-- `client_config.admin_base_url if client_config.admin_base_url else client_config.base_url`
unfoldable pub admin_urls : ClientConfig → List Name
admin_urls config = elim config.admin_base_url [
  | none ↦ config.base_url
  | some urls ↦ elim urls [ [] ↦ config.base_url | url ∷ rest ↦ url ∷ rest ]
]

-- What is read of the environment, and numbers as texts.
module _ (getenv : Name → Option Name) (show_int : ℕ → Name) where
  unfoldable pub add_env_headers : List (Name × Name) → List (Name × Name) → List (Name × Name)
  add_env_headers found [] = found
  add_env_headers found ((header, variable) ∷ rest) =
      add_env_headers
        (elim (getenv variable) [ none ↦ found | some value ↦ insert header value found ]) rest

  unfoldable pub env_headers : List (Name × Name) → List (Name × Name)
  unfolding add_env_headers
  env_headers = add_env_headers []

  unfoldable pub rank_headers : ClientConfig → ℕ → List (Name × Name)
  unfolding env_headers
  rank_headers config dp_rank =
      let headers = update config.headers (env_headers config.headers_from_env) in
      if ltb 1 config.dp_rank_count
      then insert (codes "X-data-parallel-rank") (show_int dp_rank) headers
      else headers

  unfoldable pub rollout_client :
      ClientConfig → Name → Option Renderer → Name → ℕ → ℕ → RolloutClient
  unfolding rank_headers
  rollout_client config client_type renderer base_url dp_rank client_idx = record {
    client_idx = client_idx;
    client_type = client_type;
    api_base_url = base_url;
    api_key_var = config.api_key_var;
    timeout = config.timeout;
    connect_timeout = config.connect_timeout;
    max_connections = 8192;
    max_keepalive_connections = 8192;
    max_retries = 10;
    extra_headers = rank_headers config dp_rank;
    extra_headers_from_state = config.extra_headers_from_state;
    renderer = renderer;
  }

  -- `left` ranks are still to come.
  unfoldable pub clients_of_url :
      ClientConfig → Name → Option Renderer → Name → ℕ → ℕ → ℕ → List RolloutClient
  unfolding rollout_client
  clients_of_url config client_type renderer base_url zero dp_rank client_idx = []
  clients_of_url config client_type renderer base_url (suc left) dp_rank client_idx =
      rollout_client config client_type renderer base_url dp_rank client_idx
      ∷ clients_of_url config client_type renderer base_url left (dp_rank + 1) (client_idx + 1)

  unfoldable pub clients_of_urls :
      ClientConfig → Name → Option Renderer → List Name → ℕ → List RolloutClient
  unfolding clients_of_url
  clients_of_urls config client_type renderer [] client_idx = []
  clients_of_urls config client_type renderer (base_url ∷ urls) client_idx =
      clients_of_url config client_type renderer base_url config.dp_rank_count 0 client_idx
      ++ clients_of_urls config client_type renderer urls (client_idx + config.dp_rank_count)

  -- Only a client that uses a renderer gets its configuration.
  unfoldable pub setup_clients :
      ClientConfig → Name → Option Name → Option Name → Option ℕ → List RolloutClient
  unfolding clients_of_urls
  setup_clients config client_type renderer_config renderer_model_name pool_size =
      let renderer =
        if same_name client_type (codes "renderer")
        then some (record {
          renderer_config = renderer_config;
          renderer_model_name = renderer_model_name;
          renderer_pool_size = pool_size;
        })
        else none in
      clients_of_urls config client_type renderer config.base_url 0

  unfoldable pub authorization : Name → List (Name × Name) → List (Name × Name)
  authorization api_key headers =
      if same_name api_key [] || same_name api_key (codes "EMPTY")
      then headers
      else insert (codes "Authorization") (codes "Bearer " ++ api_key) headers

  unfoldable pub setup_admin_client : ClientConfig → Name → AdminClient
  unfolding env_headers authorization normalize_endpoint_url
  setup_admin_client config base_url =
      let headers = update config.headers (env_headers config.headers_from_env) in
      let api_key : Name = elim (getenv config.api_key_var) [
        | none ↦ codes "EMPTY"
        | some key ↦ key
      ] in
      record {
        base_url = normalize_endpoint_url base_url;
        headers = authorization api_key headers;
        max_connections = 4;
        max_keepalive_connections = 1;
        timeout = config.timeout;
        connect_timeout = config.connect_timeout;
      }

  unfoldable pub setup_admin_clients : ClientConfig → List AdminClient
  unfolding setup_admin_client admin_urls
  setup_admin_clients config = map (setup_admin_client config) (admin_urls config)

-- `{normalize(base): normalize(admins[idx // group_size]) for idx, base in enumerate(base_urls)}`,
-- from an index on.
unfoldable pub grouped_aliases :
    List Name → ℕ → ℕ → List Name → List (Name × Name) → List (Name × Name)
unfolding normalize_endpoint_url
grouped_aliases admins group_size idx [] aliases = aliases
grouped_aliases admins group_size idx (base_url ∷ urls) aliases =
    grouped_aliases admins group_size (idx + 1) urls (
      insert (normalize_endpoint_url base_url)
        (normalize_endpoint_url (get_or admins (idx / group_size) [])) aliases)

unfoldable pub zipped_aliases : List Name → List Name → List (Name × Name) → List (Name × Name)
unfolding normalize_endpoint_url
zipped_aliases (base_url ∷ urls) (admin ∷ admins) aliases =
    zipped_aliases urls admins
      (insert (normalize_endpoint_url base_url) (normalize_endpoint_url admin) aliases)
zipped_aliases [] admins aliases = aliases
zipped_aliases urls [] aliases = aliases

unfoldable pub build_endpoint_aliases : ClientConfig → List (Name × Name)
unfolding admin_urls zipped_aliases grouped_aliases
build_endpoint_aliases config =
    let admins = admin_urls config in
    let urls = length config.base_url in
    if urls == length admins
    then zipped_aliases config.base_url admins []
    else if length admins == 0 || not (urls % length admins == 0)
    then []
    else grouped_aliases admins (urls / length admins) 0 config.base_url []
