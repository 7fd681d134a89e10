-- ===== src/Net/Fetch.antt =====
-- electron/net/ssrf.ts: `fetchWithSsrfGuard`, a fetch that follows redirects and dials public
-- addresses only. The world answers each hop of the loop: a name server may answer a name differently
-- each time.
pub mod Runs
pub mod Guard
pub mod Bounds
pub mod Origin
use zch_coding_agent.Base.{
  ℕ, zero, suc, Bool, false, not, ◌&&◌, ◌||◌, Option, none, some, List, [], ◌∷◌, ltb, leb,
  if◌then◌else◌, Result, ok, err, ◌>>◌, throw_if, String,
}
use zch_coding_agent.Base.Text.{truthy}
pub use zch_coding_agent.Net.Request.{
  Url, ResolvedAddress, Headers, TransportFailure, FetchError, Response, SsrfFetchOptions, HostText,
  PinnedRequest, Request, World, includes, sensitive_headers, all_public, is_nil, check_records,
  first_of, timed_out, was_aborted, broken, aborted, invalid_url, dns_failed, private_address,
  too_many_redirects, unsupported_mime, transport, bad_location, out_of_fuel, bracketed,
}
unfoldable pub use zch_coding_agent.Net.Request.{
  check_url, validate_url, is_sensitive, same_origin, strip_sensitive_headers,
  resolve_public_addresses, build_pinned_request, request_of,
}

-- The target of a response that is a redirect.
unfoldable pub redirect_of : Response → Option String
redirect_of response =
    if leb 300 response.status && ltb response.status 400 then truthy response.location else none

abbrev pub any_start : World → String → List String → Bool
any_start w mime [] = false
any_start w mime (p ∷ prefixes) = w.has_start mime p || any_start w mime prefixes

abbrev pub check_prefixes : World → Response → Option (List String) → Result FetchError (Unit {0})
check_prefixes w response none = ok tt
check_prefixes w response (some prefixes) =
    throw_if
      (not (is_nil prefixes)
        && not (any_start w (w.mime_of (w.lower response.content_type)) prefixes))
      unsupported_mime

pub record SsrfFetchResponse : Type 0 where
  pub url : String
  pub response : Response

abbrev pub schemes_of : SsrfFetchOptions → List String
schemes_of options = elim options.allowed_schemes [ none ↦ "https:" ∷ [] | some schemes ↦ schemes ]

abbrev pub finish : World → SsrfFetchOptions → Url → Response → Result FetchError SsrfFetchResponse
finish w options url response = do
  check_prefixes w response options.allowed_mime_prefixes
  ok (record { url = url.href; response = response })

-- The headers after a redirect from one URL to another.
unfoldable pub forward : World → Url → Url → Option Headers → Option Headers
forward w url next none = none
forward w url next (some headers) =
    if same_origin url next then some headers else some (strip_sensitive_headers w headers)

-- A run: the requests that were sent, in order, and the result.
abbrev pub Run : Type 0
Run = List Request × Result FetchError SsrfFetchResponse

abbrev pub sent : Request → Run → Run
sent request (requests, result) = (request ∷ requests, result)

abbrev pub located : World → SsrfFetchOptions → Option Url → Result FetchError Url
located w options none = err bad_location
located w options (some next) = validate_url (schemes_of options) (w.parse_url next.href none)

-- The next URL after a redirect.
unfoldable pub next_url : World → SsrfFetchOptions → ℕ → Url → String → Result FetchError Url
next_url w options redirects url location = do
  throw_if (ltb options.max_redirects (suc redirects)) too_many_redirects
  located w options (w.parse_url location (some url.href))

-- The body of the loop after the request of hop `redirects`, given the next turn of the loop.
abbrev pub go_on : (Url → Run) → Result FetchError Url → Run
go_on next_turn (err error) = ([], err error)
go_on next_turn (ok next) = next_turn next

abbrev pub at_location :
    World → SsrfFetchOptions → ℕ → Url → (Url → Run) → Response → Option String → Run
at_location w options redirects url next_turn response none = ([], finish w options url response)
at_location w options redirects url next_turn response (some location) =
    go_on next_turn (next_url w options redirects url location)

abbrev pub handle :
    World → SsrfFetchOptions → ℕ → Url → (Url → Run) → Result TransportFailure Response → Run
handle w options redirects url next_turn (err error) = ([], err (transport error))
handle w options redirects url next_turn (ok response) =
    at_location w options redirects url next_turn response (redirect_of response)

abbrev pub perform :
    World → SsrfFetchOptions → ℕ → Url → (Url → Run) → Result FetchError Request → Run
perform w options redirects url next_turn (err error) = ([], err error)
perform w options redirects url next_turn (ok request) =
    sent request (handle w options redirects url next_turn (w.respond redirects request))

unfoldable pub fetch_loop : World → SsrfFetchOptions → ℕ → ℕ → Url → Option Headers → Run
fetch_loop w options zero redirects url headers = ([], err out_of_fuel)
fetch_loop w options (suc fuel) redirects url headers =
    perform w options redirects url
      (λ next. fetch_loop w options fuel (suc redirects) next (forward w url next headers))
      (request_of w redirects url headers)

abbrev pub start : World → SsrfFetchOptions → Result FetchError Url → Run
start w options (err error) = ([], err error)
start w options (ok url) = fetch_loop w options (suc options.max_redirects) 0 url options.headers

unfoldable pub fetch_with_ssrf_guard : World → SsrfFetchOptions → String → Run
fetch_with_ssrf_guard w options input =
    if options.is_aborted
    then ([], err aborted)
    else start w options (validate_url (schemes_of options) (w.parse_url input none))
