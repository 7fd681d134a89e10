-- ===== src/Route.antt =====
-- shared/model-route.ts: route snapshots, and `assertModelRouteSnapshotSafe`. The platform's `URL`
-- parser is a parameter: what it gives for an absolute URL.
mod Keys
pub use Keys.{is_credential_query_key}
use zch_coding_agent.Base.{
  ℕ, Bool, not, ◌&&◌, ◌||◌, Option, none, some, List, [], ◌∷◌, ◌==◌, nat_eq, string_eq, Result, ok,
  err, ◌>>◌, throw_if, String,
}

-- The parts of a parsed `URL` that are read. A text is its UTF-16 code units.
pub record Url : Type 0 where
  pub protocol : String
  pub username : String
  pub password : String
  pub fragment : String
  pub query_keys : List (List ℕ)

pub data ProviderPurpose : Type 0 where
  main approval compression : ProviderPurpose

pub data ReasoningEffort : Type 0 where
  off low medium high xhigh max : ReasoningEffort

pub record ModelRouteSnapshot : Type 0 where
  pub purpose : ProviderPurpose
  pub provider_type : String
  pub provider_id : String
  pub model : String
  pub reasoning : ReasoningEffort
  pub endpoint : String
  pub provider_config_revision : ℕ

pub data RouteError : Type 0 where
  not_absolute not_http credentials credential_query : RouteError

abbrev is_empty : String → Bool
is_empty s = s == ""

-- The loop over `searchParams.keys()`.
unfoldable pub check_keys : List (List ℕ) → Result RouteError (Unit {0})
check_keys [] = ok tt
check_keys (key ∷ keys) = do
  throw_if (is_credential_query_key key) credential_query
  check_keys keys

unfoldable pub assert_model_route_snapshot_safe :
    (String → Option Url) → ModelRouteSnapshot → Result RouteError (Unit {0})
unfolding check_keys
assert_model_route_snapshot_safe parse_url route = elim (parse_url route.endpoint) [
  | none ↦ err not_absolute
  | some url ↦ do
    throw_if (not (url.protocol == "https:") && not (url.protocol == "http:")) not_http
    throw_if
        (not (is_empty url.username) || not (is_empty url.password) || not (is_empty url.fragment))
        credentials
    check_keys url.query_keys
]
