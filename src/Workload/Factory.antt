-- ===== src/Workload/Factory.antt =====
-- internal/workload/client.go: `CAPIClientFactory`, which keeps the clients of clusters for five
-- minutes. The libraries that build a client from a kubeconfig are a parameter.
use vpsie_k8s_capi_autoscale.Base.{
  ℤ, ◌+ℤ◌, ltb_ℤ, String, ◌<>◌, Option, none, some, ◌∷◌, Dict, Result, ok, err, lookup, insert,
  if◌then◌else◌,
}
use vpsie_k8s_capi_autoscale.Horizontal.Pass.{minutes}
use vpsie_k8s_capi_autoscale.Workload.{Requests, Server, Client, get_kubeconfig}

pub record CachedClient : Type 0 where
  pub client : Client
  pub expires_at : ℤ

abbrev pub client_cache_ttl : ℤ
client_cache_ttl = minutes 5

abbrev pub cache_key : String → String → String
cache_key cluster_name namespace = namespace <> "/" <> cluster_name

-- The cached client, if it has not expired.
unfoldable pub fresh_client : Dict CachedClient → String → ℤ → Option Client
fresh_client cache key time = elim (lookup key cache) [
  | none ↦ none
  | some cached ↦
      if ltb_ℤ time (CachedClient.expires_at cached)
      then some (CachedClient.client cached)
      else none
]

-- `build` answers whether the kubeconfig yields the two clientsets; `time` is the time at the lookup,
-- `built_at` the time at which the new client is stored.
module _ (server : Server) (build : String → Result (Unit {0})) where
  unfoldable pub new_client :
      String
      → String
      → ℤ
      → Dict CachedClient
      → Requests
      → Requests × Dict CachedClient × Result Client
  new_client cluster_name namespace built_at cache requests =
      let secret_name = cluster_name <> "-kubeconfig" in
      let place = namespace <> "/" <> secret_name in
      let requests = get_kubeconfig namespace secret_name ∷ requests in
      elim (server.kubeconfig requests) [
        | err e ↦ (requests, cache, err ("getting kubeconfig secret " <> place <> ": " <> e))
        | ok data_of ↦ elim (lookup "value" data_of) [
          | none ↦ (requests, cache, err ("kubeconfig secret " <> place <> " has no 'value' key"))
          | some config ↦ elim (build config) [
            | err e ↦ (requests, cache, err e)
            | ok _ ↦
                let client : Client = record {
                  cluster_name = cluster_name;
                  namespace = namespace;
                  config = config;
                } in
                let entry : CachedClient = record {
                  client = client;
                  expires_at = built_at +ℤ client_cache_ttl;
                } in
                (requests, insert (cache_key cluster_name namespace) entry cache, ok client)
          ]
        ]
      ]

  unfoldable pub client_for_cluster :
      String
      → String
      → ℤ
      → ℤ
      → Dict CachedClient
      → Requests
      → Requests × Dict CachedClient × Result Client
  unfolding new_client fresh_client
  client_for_cluster cluster_name namespace time built_at cache requests =
      elim (fresh_client cache (cache_key cluster_name namespace) time) [
        | some client ↦ (requests, cache, ok client)
        | none ↦ new_client cluster_name namespace built_at cache requests
      ]
