-- ===== src/Workload/Clients.antt =====
-- Which client `ClientForCluster` of internal/workload/client.go returns.
use mathlib.Core.Path.{subst}
use vpsie_k8s_capi_autoscale.Base.{
  sym, ◌+ℤ◌, insert, ℤ, ◌≡◌, refl, inl, inr, String, some, ◌∷◌, Dict, All, All-insert, All-lookup,
  Result, Result-cases, ok, err, lookup, Option-cases, ◌<>◌, arith, string_eq,
}
use vpsie_k8s_capi_autoscale.Workload.{Requests, Server, Client, get_kubeconfig}
use vpsie_k8s_capi_autoscale.Workload.Factory.{
  CachedClient, client_cache_ttl, fresh_client, new_client, client_for_cluster,
}

module _ (server : Server) where
  -- The configuration of the client was read from the kubeconfig secret of the cluster that the client
  -- names, in its namespace.
  abbrev pub IsOwn : Client → Type 0
  IsOwn client =
      (asked : Requests) × (data_of : Dict String) × (server.kubeconfig (
          get_kubeconfig (Client.namespace client) (Client.cluster_name client <> "-kubeconfig")
          ∷ asked)
        ≡ ok data_of)
      × (lookup "value" data_of ≡ some (Client.config client))

  -- The client names the cluster of the key.
  abbrev pub IsOf : String → Client → Type 0
  IsOf key client =
      (Client.namespace client <> "/" <> Client.cluster_name client ≡ key) × IsOwn client

  abbrev pub IsKept : String × CachedClient → Type 0
  IsKept (key, cached) = IsOf key (CachedClient.client cached)

  abbrev pub IsAnswer : String → Result Client → Type 0
  IsAnswer key (ok client) = IsOf key client
  IsAnswer key (err _) = Unit

  fresh_client-IsOf :
      (cache : Dict CachedClient) (key : String) (time : ℤ) (client : Client)
      → All IsKept cache
      → fresh_client cache key time ≡ some client
      → IsOf key client
  unfolding fresh_client
  fresh_client-IsOf cache key time client h e = elim (Option-cases (lookup key cache)) [
    | inl u ↦ absurd (ground arith)
    | inr (cached, u) ↦
        let kept : IsKept (key, cached) = All-lookup IsKept key cached cache h u in
        let same : CachedClient.client cached ≡ client = ground arith in subst (IsOf key) same kept
  ]

module _ (server : Server) (build : String → Result (Unit {0})) where
  abbrev IsSound : String → Requests × Dict CachedClient × Result Client → Type 0
  IsSound key (_, cache, result) = All (IsKept server) cache × IsAnswer server key result

  new_client-IsSound :
      (cluster_name namespace : String) (built_at : ℤ) (cache : Dict CachedClient)
      (requests : Requests)
      → All (IsKept server) cache
      → IsSound
          (namespace <> "/" <> cluster_name)
          (new_client server build cluster_name namespace built_at cache requests)
  unfolding new_client
  new_client-IsSound cluster_name namespace built_at cache requests h =
      let asked = get_kubeconfig namespace (cluster_name <> "-kubeconfig") ∷ requests in
      elim (Result-cases (server.kubeconfig asked)) [
        | inr (why, e) ↦ rw (new_client, e) (h, tt)
        | inl (data_of, e) ↦ elim (Option-cases (lookup "value" data_of)) [
          | inl u ↦ rw (new_client, e, u) (h, tt)
          | inr (config, u) ↦ elim (Result-cases (build config)) [
            | inr (why, v) ↦ rw (new_client, e, u, v) (h, tt)
            | inl (_, v) ↦
                let client : Client = record {
                  cluster_name = cluster_name;
                  namespace = namespace;
                  config = config;
                } in
                let own : IsOf server (namespace <> "/" <> cluster_name) client =
                  (refl, (requests, data_of, e, u)) in
                let entry : CachedClient = record {
                  client = client;
                  expires_at = built_at +ℤ client_cache_ttl;
                } in
                let key = namespace <> "/" <> cluster_name in
                let same : new_client server build cluster_name namespace built_at cache requests
                    ≡ (asked, insert key entry cache, ok client) =
                  rw (new_client, e, u, v) refl in
                subst (IsSound key) (sym same)
                  (All-insert (IsKept server) key entry cache h own, own)
          ]
        ]
      ]

  -- The client that is returned, whether it was kept or is new, names the cluster and the namespace that
  -- were asked for, as far as these two, joined by a slash, tell, and its configuration was read from the
  -- kubeconfig secret of that cluster in that namespace; and the kept clients stay so, each under the key
  -- of its cluster. Condition: so they were before.
  pub client_for_cluster-IsSound :
      (cluster_name namespace : String) (time built_at : ℤ) (cache : Dict CachedClient)
      (requests : Requests)
      → All (IsKept server) cache
      → let (_, kept, result) =
          client_for_cluster server build cluster_name namespace time built_at cache requests in
        All (IsKept server) kept × IsAnswer server (namespace <> "/" <> cluster_name) result
  unfolding client_for_cluster
  client_for_cluster-IsSound cluster_name namespace time built_at cache requests h =
      let key = namespace <> "/" <> cluster_name in
      elim (Option-cases (fresh_client cache key time)) [
        | inr (client, e) ↦
            rw (client_for_cluster, e) (h, fresh_client-IsOf server cache key time client h e)
        | inl e ↦
            rw (client_for_cluster, e)
              (new_client-IsSound cluster_name namespace built_at cache requests h)
      ]
