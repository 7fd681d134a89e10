-- ===== src/Net/Fetch/Guard.antt =====
-- The requests of a fetch: their schemes, and the addresses that they dial.
use zch_coding_agent.Base.{ℕ, ◌≡◌, true, false, some, List, ◌==◌, nat_eq, option_eq, String}
use zch_coding_agent.Base.Preds.{All}
use zch_coding_agent.Net.Fetch.{
  start, fetch_with_ssrf_guard, Url, ResolvedAddress, SsrfFetchOptions, bracketed, Request, World,
  includes, schemes_of, start, fetch_with_ssrf_guard,
}

-- The scheme is allowed, and there are no credentials in the URL.
abbrev pub IsValid : SsrfFetchOptions → Url → Type 0
IsValid options url =
    (includes url.protocol (schemes_of options) ≡ true) × (url.username ≡ "") × (url.password ≡ "")

-- A connection to the URL of the request as it is sent goes to an address that is public.
abbrev pub IsGuarded : World → SsrfFetchOptions → Request → Type 0
IsGuarded w options r =
    IsValid options r.url
    × ((address : String) × (w.is_address_public address ≡ true)
        × (w.goes_to r.pinned_request.pinned_url address ≡ true))

-- Documented behaviour of the platform: the name server gives an address of version 6 the family 6
-- and no other one; a URL whose `host` is set to such an address in brackets goes there, and a URL
-- whose `hostname` is set to another address goes there. Of a bare address of version 6 that is set
-- as `hostname`, nothing is said.
pub record IsPlatform (w : World) : Type 0 where
  pub families :
      (time : ℕ) (hostname : String) (rs : List ResolvedAddress)
      → w.lookup time hostname ≡ some rs
      → All (λ r. (r.family == 6) ≡ w.is_ipv6 r.address) rs
  pub host_set :
      (url : Url) (address port : String)
      → w.is_ipv6 address ≡ true
      → w.goes_to (w.set_host (bracketed address port) url) address ≡ true
  pub hostname_set :
      (url : Url) (address port : String)
      → w.is_ipv6 address ≡ false
      → w.goes_to (w.set_port port (w.set_hostname address url)) address ≡ true
