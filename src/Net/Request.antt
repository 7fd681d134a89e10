-- ===== src/Net/Request.antt =====
-- electron/net/ssrf.ts: the URLs, addresses and requests of a fetch: `validateUrl`, `sameOrigin`,
-- `stripSensitiveHeaders`, `resolvePublicAddresses` and `buildPinnedRequest`.
use zch_coding_agent.Base.{
  ℕ, Bool, true, false, not, ◌&&◌, ◌||◌, Option, none, some, List, [], ◌∷◌, if◌then◌else◌, ◌==◌,
  nat_eq, string_eq, option_eq, Result, ok, err, ◌>>=◌, ◌>>◌, throw_if, String, append_text,
}

pub record Url : Type 0 where
  pub href : String
  pub protocol : String
  pub username : String
  pub password : String
  pub hostname : String
  pub port : String

pub record ResolvedAddress : Type 0 where
  pub address : String
  pub family : ℕ

abbrev pub Headers : Type 0
Headers = List (String × String)

-- How a request fails on the wire.
pub data TransportFailure : Type 0 where
  timed_out was_aborted : TransportFailure
  broken : String → TransportFailure

pub data FetchError : Type 0 where
  aborted invalid_url dns_failed private_address too_many_redirects unsupported_mime : FetchError
  transport : TransportFailure → FetchError
  -- The `TypeError` that `new URL` throws on the location of a redirect.
  bad_location : FetchError
  -- The loop's fuel is used up, which no run of the source has.
  out_of_fuel : FetchError

pub record Response : Type 0 where
  pub status : ℕ
  pub location : Option String
  pub content_type : String
  pub body : List ℕ
  pub truncated : Bool

pub record SsrfFetchOptions : Type 0 where
  pub max_redirects : ℕ
  pub allowed_schemes : Option (List String)
  pub allowed_mime_prefixes : Option (List String)
  pub headers : Option Headers
  pub is_aborted : Bool

-- A text that is written to the `host` of a URL: `[address]:port`.
pub data HostText : Type 0 where
  bracketed : (address port : String) → HostText

pub record PinnedRequest : Type 0 where
  pub pinned_url : Url
  pub host_header : String
  pub servername : Option String

-- A request on the wire: what it was made from, and what it was made into.
pub record Request : Type 0 where
  pub url : Url
  pub pinned : ResolvedAddress
  pub pinned_request : PinnedRequest
  pub headers : Option Headers

-- `new URL(text, base)`, `toLowerCase`, the type before the parameters of a content type, `startsWith`,
-- `isPublicNetworkAddress`, `isIP` as a test for version 6, the setters of a URL, the address that a
-- connection to a URL goes to with no name server asked, and at each hop the name server and the other
-- end.
pub record World : Type 0 where
  pub parse_url : String → Option String → Option Url
  pub lower : String → String
  pub mime_of : String → String
  pub has_start : String → String → Bool
  pub is_address_public : String → Bool
  pub is_ipv6 : String → Bool
  pub set_host : HostText → Url → Url
  pub set_hostname : String → Url → Url
  pub set_port : String → Url → Url
  pub goes_to : Url → String → Bool
  pub lookup : ℕ → String → Option (List ResolvedAddress)
  pub respond : ℕ → Request → Result TransportFailure Response

abbrev pub includes : String → List String → Bool
includes name [] = false
includes name (other ∷ others) = other == name || includes name others

unfoldable pub check_url : List String → Url → Result FetchError Url
check_url schemes url = do
  throw_if (not (includes url.protocol schemes)) invalid_url
  throw_if (not (url.username == "") || not (url.password == "")) invalid_url
  ok url

-- `validateUrl`, on the URL as it is parsed.
unfoldable pub validate_url : List String → Option Url → Result FetchError Url
validate_url schemes none = err invalid_url
validate_url schemes (some url) = check_url schemes url

abbrev pub sensitive_headers : List String
sensitive_headers =
    "authorization" ∷ "cookie" ∷ "x-subscription-token" ∷ "x-api-key" ∷ "proxy-authorization" ∷ []

unfoldable pub is_sensitive : World → String → Bool
is_sensitive w name = includes (w.lower name) sensitive_headers

unfoldable pub same_origin : Url → Url → Bool
same_origin a b = a.protocol == b.protocol && a.hostname == b.hostname && a.port == b.port

unfoldable pub strip_sensitive_headers : World → Headers → Headers
strip_sensitive_headers w [] = []
strip_sensitive_headers w ((name, value) ∷ rest) =
    let kept = strip_sensitive_headers w rest in
    if is_sensitive w name then kept else (name, value) ∷ kept

abbrev pub all_public : World → List ResolvedAddress → Bool
all_public w [] = true
all_public w (r ∷ rs) = w.is_address_public r.address && all_public w rs

abbrev pub is_nil {ℓ} : {A : Type ℓ} → List A → Bool
is_nil [] = true
is_nil (x ∷ xs) = false

abbrev pub check_records :
    World → Option (List ResolvedAddress) → Result FetchError (List ResolvedAddress)
check_records w none = err dns_failed
check_records w (some records) = do
  throw_if (is_nil records) dns_failed
  throw_if (not (all_public w records)) private_address
  ok records

unfoldable pub resolve_public_addresses :
    World → ℕ → String → Result FetchError (List ResolvedAddress)
resolve_public_addresses w time hostname = check_records w (w.lookup time hostname)

-- The copy of the URL that the setters change is the URL.
unfoldable pub build_pinned_request : World → Url → ResolvedAddress → PinnedRequest
build_pinned_request w url pinned =
    let default_port = if url.protocol == "https:" then "443" else "80" in
    let port = if url.port == "" then default_port else url.port in
    record {
      pinned_url =
          if pinned.family == 6
          then w.set_host (bracketed pinned.address port) url
          else w.set_port port (w.set_hostname pinned.address url);
      host_header =
          if url.port == ""
          then url.hostname
          else append_text url.hostname (append_text ":" url.port);
      servername = if url.protocol == "https:" then some url.hostname else none;
    }

abbrev pub first_of : List ResolvedAddress → Result FetchError ResolvedAddress
first_of [] = err dns_failed
first_of (r ∷ rs) = ok r

-- The request of one hop.
unfoldable pub request_of : World → ℕ → Url → Option Headers → Result FetchError Request
request_of w time url headers = do
  records ← resolve_public_addresses w time url.hostname
  pinned ← first_of records
  ok (record {
    url = url;
    pinned = pinned;
    pinned_request = build_pinned_request w url pinned;
    headers = headers;
  })
