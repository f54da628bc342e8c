-- ===== src/Vpsie.antt =====
-- internal/vpsie/client.go: the client of the VPSie API. HTTP, JSON, the environment and the encoding of
-- forms are parameters: their code is in libraries.
use vpsie_k8s_capi_autoscale.Base.{
  ℤ, pos, String, ◌<>◌, Bool, List, [], ◌∷◌, Dict, Result, ok, err, map, leb_ℤ, ◌&&◌, ◌==◌,
  string_eq, if◌then◌else◌,
}
use vpsie_k8s_capi_autoscale.Plan.{Plan, PlanCategory}
use vpsie_k8s_capi_autoscale.Pricing.Cache.{PricingClient}

pub record HttpRequest : Type 0 where
  pub method : String
  pub url : String
  pub headers : Dict String
  pub form : Dict String

-- The body is "" where it cannot be read.
pub record HttpResponse : Type 0 where
  pub status_code : ℤ
  pub body : String

pub record PlanData (F : Type 0) : Type 0 where
  pub identifier : String
  pub nickname : String
  pub cpu : ℤ
  pub ram : ℤ
  pub ssd : ℤ
  pub traffic : ℤ
  pub price : F

-- `new_request` and `send` are `http.NewRequestWithContext` and `httpClient.Do`; `itoa` writes a number.
pub record Library (F : Type 0) : Type 0 where
  pub new_request : String → String → Result (Unit {0})
  pub send : HttpRequest → Result HttpResponse
  pub decode_categories : String → Result (List PlanCategory)
  pub decode_plans : String → Result (List (PlanData F))
  pub itoa : ℤ → String

pub record ApiClient : Type 0 where
  pub base_url : String
  pub api_key : String

abbrev pub default_base_url : String
default_base_url = "https://api.vpsie.com"

-- `custom_url` is the value of VPSIE_API_URL.
unfoldable pub new_api_client : String → String → Result ApiClient
new_api_client custom_url api_key =
    let base_url = if custom_url == "" then default_base_url else custom_url in
    if api_key == ""
    then err "apiKey is empty"
    else ok (record { base_url = base_url; api_key = api_key })

abbrev pub auth_headers : ApiClient → Dict String
auth_headers c = ("Vpsie-Auth", c.api_key) ∷ ("User-Agent", "vpsie-cluster-scaler/0.1.0") ∷ []

abbrev pub is_status_ok : ℤ → Bool
is_status_ok code = leb_ℤ code (pos 200) && leb_ℤ (pos 200) code

module _ {F : Type 0} (lib : Library F) where
  -- A request, the check of its status, and the decoding of its body; `what` stands in the errors.
  unfoldable pub exchange : {A : Type 0} → String → HttpRequest → (String → Result A) → Result A
  exchange what request decode = elim (lib.new_request request.method request.url) [
    | err e ↦ err ("creating " <> what <> " request: " <> e)
    | ok _ ↦ elim (lib.send request) [
      | err e ↦ err ("fetching " <> what <> ": " <> e)
      | ok response ↦
          let decoded = decode (HttpResponse.body response) in
          let code = HttpResponse.status_code response in
          if is_status_ok code
          then elim decoded [
            | err e ↦ err ("decoding " <> what <> " response: " <> e)
            | ok data_of ↦ ok data_of
          ]
          else err (what <> " API returned " <> lib.itoa code <> ": " <> HttpResponse.body response)
    ]
  ]

  unfoldable pub fetch_categories : ApiClient → Result (List PlanCategory)
  unfolding exchange
  fetch_categories c =
      exchange "categories"
        (record {
          method = "GET";
          url = c.base_url <> "/api/v2/plans/category";
          headers = auth_headers c;
          form = [];
        })
        lib.decode_categories

  abbrev pub to_plan : String → PlanData F → Plan F
  to_plan category_id p = record {
    identifier = p.identifier;
    nickname = p.nickname;
    cpu = p.cpu;
    ram = p.ram;
    ssd = p.ssd;
    traffic = p.traffic;
    price_monthly = p.price;
    category_id = category_id;
    category_name = "";
  }

  abbrev pub plans_form : String → String → String → Dict String
  plans_form dc_id os_id category_id =
      ("dcIdentifier", dc_id)
      ∷ ("osIdentifier", os_id)
      ∷ ("planCatIdentifier", category_id)
      ∷ ("name", "query")
      ∷ ("description", "query")
      ∷ ("isCustom", "0")
      ∷ []

  unfoldable pub fetch_plans : ApiClient → String → String → String → Result (List (Plan F))
  unfolding exchange
  fetch_plans c dc_id os_id category_id =
      elim (exchange "plans"
        (record {
          method = "POST";
          url = c.base_url <> "/apps/v2/resources";
          headers = ("Content-Type", "application/x-www-form-urlencoded") ∷ auth_headers c;
          form = plans_form dc_id os_id category_id;
        })
        lib.decode_plans) [ err e ↦ err e | ok data_of ↦ ok (map (to_plan category_id) data_of) ]

  -- The client as the pricing cache takes it.
  unfoldable pub pricing_client : ApiClient → PricingClient F
  unfolding fetch_categories fetch_plans
  pricing_client c = record {
    fetch_categories = fetch_categories c;
    fetch_plans = λ dc_id os_id category_id. fetch_plans c dc_id os_id category_id;
  }
