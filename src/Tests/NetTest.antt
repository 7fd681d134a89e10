-- ===== src/Tests/NetTest.antt =====
-- A fetch that is sent on to another origin, and an address that is written into IPv6.
use zch_coding_agent.Base.{
  ℕ, zero, suc, ap, ltb, ◌/◌, ◌%◌, ◌==◌, ◌||◌, if◌then◌else◌, ◌+◌, ◌-◌, ◌*◌, ◌≤◌, ◌≡◌, refl, ◌≢◌,
  ◌↔◌, true, false, none, some, List, [], ◌∷◌, arith, length, nat_eq, string_eq, option_eq, ok, err,
  String, append_text,
}
use zch_coding_agent.Base.Preds.{All}
use zch_coding_agent.Net.Address.{
  AddressHost, is_public_network_address, is_public_within, mapped_ipv4_address, mapped_suffix,
  is_blocked_v6,
}
use zch_coding_agent.Base.Text.{split}
use zch_coding_agent.Net.Address.Ranges.{IsReserved}
use zch_coding_agent.Net.Address.Denoted as Denoted
use zch_coding_agent.Net.Address.Denoted.{mapped_words, is_public_network_address_iff}
use zch_coding_agent.Net.Body.{empty_body, read_body}
use zch_coding_agent.Net.Body.Bounded.{IsStartOf, read_body-IsStartOf}
use zch_coding_agent.Net.Fetch.{
  Url, HostText, bracketed, ResolvedAddress, Response, SsrfFetchOptions, World, validate_url,
  check_url, out_of_fuel, schemes_of, fetch_with_ssrf_guard,
}
use zch_coding_agent.Net.Fetch.Guard.{IsPlatform}
use zch_coding_agent.Net.Fetch.Bounds.{fetch_with_ssrf_guard-terminates}
use zch_coding_agent.Net.Fetch.Origin.{SameOrigin, carries_any, fetch-SameOrigin}

-- A decimal text.
abbrev digits : ℕ → List ℕ → ℕ
digits value [] = value
digits value (c ∷ rest) = digits (value * 10 + (c - 48)) rest

abbrev decimal_of : ℕ → List ℕ
decimal_of n =
    if ltb n 10
    then (48 + n) ∷ []
    else if ltb n 100
    then (48 + n / 10) ∷ (48 + n % 10) ∷ []
    else (48 + n / 100) ∷ (48 + n / 10 % 10) ∷ (48 + n % 10) ∷ []

-- A hexadecimal text, in small letters.
abbrev hex : ℕ → List ℕ → ℕ
hex value [] = value
hex value (c ∷ rest) = hex (value * 16 + (if ltb c 97 then c - 48 else c - 87)) rest

-- The URL parser leaves these texts as they are.
abbrev address_host : AddressHost
address_host = record {
  is_ip = λ text. if length (split 46 text) == 4 then 4 else 6;
  to_number = λ text. some (digits 0 text);
  url_hostname = λ text. some text;
  parse_hex = λ text. some (hex 0 text);
  decimal = decimal_of;
  lower = λ text. text;
}

digits-decimal_of : (n : ℕ) → n ≤ 255 → digits 0 (decimal_of n) ≡ n
digits-decimal_of n h = ground arith

decimal_of-no_dot : (n : ℕ) → n ≤ 255 → All (λ c. c ≢ 46) (decimal_of n)
decimal_of-no_dot n h = ground arith

address_host-IsPlatform : Denoted.IsPlatform address_host
address_host-IsPlatform = record {
  reads_back = λ n h. ap some (digits-decimal_of n h);
  no_dot = decimal_of-no_dot;
  is_ipv4 = λ text a b c d ha hb hc hd e. rw e refl;
}

-- ::ffff:a01:203
abbrev mapped_text : List ℕ
mapped_text = 58 ∷ 58 ∷ 102 ∷ 102 ∷ 102 ∷ 102 ∷ 58 ∷ 97 ∷ 48 ∷ 49 ∷ 58 ∷ 50 ∷ 48 ∷ 51 ∷ []

is_public_network_address_iff_example :
    (is_public_network_address address_host mapped_text ≡ true) ↔ ¬ IsReserved 10 1 2
is_public_network_address_iff_example =
    is_public_network_address_iff address_host mapped_text 10 1 2 3 address_host-IsPlatform (
      mapped_words (97 ∷ 48 ∷ 49 ∷ 58 ∷ 50 ∷ 48 ∷ 51 ∷ []) (97 ∷ 48 ∷ 49 ∷ []) (50 ∷ 48 ∷ 51 ∷ [])
        (refl, refl) refl refl refl refl (omega arith, omega arith, omega arith, omega arith))

-- Another spelling of the loopback address in IPv6, which the URL parser writes as `::1`.
abbrev spelling_host : AddressHost
spelling_host = record address_host {
  is_ip = λ text. 6;
  url_hostname = λ text. some (58 ∷ 58 ∷ 49 ∷ []);
}

spelled_loopback : is_public_network_address spelling_host (48 ∷ 58 ∷ 58 ∷ 49 ∷ []) ≡ true
unfolding is_public_network_address is_public_within mapped_ipv4_address mapped_suffix is_blocked_v6
spelled_loopback = refl

abbrev url_at : String → Url
url_at hostname = record {
  href = append_text "https://" hostname;
  protocol = "https:";
  username = "";
  password = "";
  hostname = hostname;
  port = "";
}

abbrev redirect : Response
redirect = record {
  status = 302;
  location = some "b.test";
  content_type = "text/plain";
  body = [];
  truncated = false;
}

-- The name server's answer changes after the first hop.
abbrev answer : ℕ → ResolvedAddress
answer zero = record { address = "2606::1"; family = 6 }
answer (suc time) = record { address = "8.8.8.8"; family = 4 }

abbrev in_brackets : String → String
in_brackets address = append_text "[" (append_text address "]")

abbrev set_host_to : HostText → Url → Url
set_host_to (bracketed address port) url = record url {
  hostname = in_brackets address;
  port = port;
}

-- A bare address of version 6 leaves the hostname as it is. The first host sends the fetch on to another host, again and again.
abbrev world : World
world = record {
  parse_url = λ input base. some (url_at input);
  lower = λ content. content;
  mime_of = λ content. content;
  has_start = λ content start. true;
  is_address_public = λ address. true;
  is_ipv6 = λ address. address == "2606::1";
  set_host = λ host url. set_host_to host url;
  set_hostname =
      λ address url. if address == "2606::1" then url else record url { hostname = address };
  set_port = λ port url. record url { port = port };
  goes_to = λ url address. url.hostname == address || url.hostname == in_brackets address;
  lookup = λ time hostname. some (answer time ∷ []);
  respond = λ time request. ok redirect;
}

abbrev options : SsrfFetchOptions
options = record {
  max_redirects = 3;
  allowed_schemes = none;
  allowed_mime_prefixes = none;
  headers = some (("authorization", "secret") ∷ []);
  is_aborted = false;
}

fetch_with_ssrf_guard-terminates_example :
    (length (fetch_with_ssrf_guard world options "a.test").0 ≤ 4)
    × ((fetch_with_ssrf_guard world options "a.test").1 ≢ err out_of_fuel)
fetch_with_ssrf_guard-terminates_example = fetch_with_ssrf_guard-terminates world options "a.test"

first_valid : validate_url (schemes_of options) (some (url_at "a.test")) ≡ ok (url_at "a.test")
unfolding validate_url check_url
first_valid = refl

fetch-SameOrigin_example :
    All
      (λ r. carries_any world r.headers ≡ true → SameOrigin (url_at "a.test") r.url)
      (fetch_with_ssrf_guard world options "a.test").0
fetch-SameOrigin_example = fetch-SameOrigin world options "a.test" (url_at "a.test") first_valid

read_body-IsStartOf_example :
    IsStartOf 3 (1 ∷ 2 ∷ 3 ∷ 4 ∷ []) (read_body 3 empty_body ((1 ∷ 2 ∷ []) ∷ (3 ∷ 4 ∷ []) ∷ []))
read_body-IsStartOf_example = read_body-IsStartOf 3 ((1 ∷ 2 ∷ []) ∷ (3 ∷ 4 ∷ []) ∷ [])
