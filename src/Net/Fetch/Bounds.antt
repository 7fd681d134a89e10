-- ===== src/Net/Fetch/Bounds.antt =====
-- How long a fetch goes on.
use zch_coding_agent.Base.{
  ℕ, zero, suc, ◌+◌, ◌≤◌, ◌≡◌, refl, subst, ◌≢◌, Bool, true, false, not, ◌||◌, Option, none, some,
  List, [], ◌∷◌, arith, ltb, if◌then◌else◌, length, ◌==◌, nat_eq, string_eq, option_eq, Result, ok,
  err, ◌>>=◌, throw_if, throw_if-eq-ok, String,
}
use zch_coding_agent.Net.Fetch.{
  Url, ResolvedAddress, Headers, FetchError, out_of_fuel, aborted, invalid_url, TransportFailure,
  Response, SsrfFetchOptions, Request, World, includes, check_url, validate_url, all_public, is_nil,
  check_records, resolve_public_addresses, first_of, request_of, redirect_of, schemes_of,
  check_prefixes, finish, forward, Run, located, next_url, go_on, at_location, handle, perform,
  fetch_loop, start, fetch_with_ssrf_guard, unsupported_mime, dns_failed, private_address,
  too_many_redirects,
}

-- The result is not that the fuel ran out.
abbrev IsSettled {ℓ} : {A : Type ℓ} → Result FetchError A → Type 0
IsSettled (ok a) = Unit
IsSettled (err e) = e ≢ out_of_fuel

settled {ℓ} : {A : Type ℓ} (r : Result FetchError A) → IsSettled r → r ≢ err out_of_fuel
settled (ok a) h = λ e. absurd cc
settled (err x) h = λ e. h cc

bind-IsSettled {ℓ κ} :
    {A : Type ℓ} {B : Type κ} (r : Result FetchError A) (next : A → Result FetchError B)
    → IsSettled r
    → ((a : A) → IsSettled (next a))
    → IsSettled (r >>= next)
bind-IsSettled (ok a) next h k = k a
bind-IsSettled (err e) next h k = h

check-IsSettled : (b : Bool) (e : FetchError) → e ≢ out_of_fuel → IsSettled (throw_if b e)
check-IsSettled true e h = h
check-IsSettled false e h = tt

module _ (w : World) (options : SsrfFetchOptions) where
  records-IsSettled : (o : Option (List ResolvedAddress)) → IsSettled (check_records w o)
  records-IsSettled none = λ e. absurd cc
  records-IsSettled (some rs) =
      bind-IsSettled _ _ (check-IsSettled (is_nil rs) dns_failed (λ e. absurd cc)) (λ _.
        bind-IsSettled _ _
          (check-IsSettled (not (all_public w rs)) private_address (λ e. absurd cc)) (λ _. tt))

  first-IsSettled : (rs : List ResolvedAddress) → IsSettled (first_of rs)
  first-IsSettled [] = λ e. absurd cc
  first-IsSettled (r ∷ rs) = tt

  request-IsSettled :
      (n : ℕ) (url : Url) (headers : Option Headers) → IsSettled (request_of w n url headers)
  unfolding request_of resolve_public_addresses
  request-IsSettled n url headers =
      bind-IsSettled _ _ (records-IsSettled (w.lookup n url.hostname))
        (λ rs. bind-IsSettled _ _ (first-IsSettled rs) (λ r. tt))

  validate_url-IsSettled :
      (schemes : List String) (o : Option Url) → IsSettled (validate_url schemes o)
  unfolding validate_url check_url
  validate_url-IsSettled schemes none = λ e. absurd cc
  validate_url-IsSettled schemes (some url) =
      bind-IsSettled _ _
        (check-IsSettled (not (includes url.protocol schemes)) invalid_url (λ e. absurd cc))
        (λ _.
          bind-IsSettled _ _
            (check-IsSettled (not (url.username == "") || not (url.password == "")) invalid_url
              (λ e. absurd cc))
            (λ _. tt))

  located-IsSettled : (o : Option Url) → IsSettled (located w options o)
  located-IsSettled none = λ e. absurd cc
  located-IsSettled (some next) =
      validate_url-IsSettled (schemes_of options) (w.parse_url next.href none)

  next_url-IsSettled :
      (n : ℕ) (url : Url) (location : String) → IsSettled (next_url w options n url location)
  unfolding next_url
  next_url-IsSettled n url location =
      bind-IsSettled _ _
        (check-IsSettled (ltb options.max_redirects (suc n)) too_many_redirects (λ e. absurd cc))
        (λ _. located-IsSettled (w.parse_url location (some url.href)))

  mime-IsSettled :
      (response : Response) (o : Option (List String)) → IsSettled (check_prefixes w response o)
  mime-IsSettled response none = tt
  mime-IsSettled response (some prefixes) = check-IsSettled _ unsupported_mime (λ e. absurd cc)

  finish-IsSettled : (url : Url) (response : Response) → IsSettled (finish w options url response)
  finish-IsSettled url response =
      bind-IsSettled _ _ (mime-IsSettled response options.allowed_mime_prefixes) (λ _. tt)

  -- At most so many requests, and an end.
  abbrev Ends : ℕ → Run → Type 0
  Ends limit run = (length run.0 ≤ limit) × IsSettled run.1

  next_url-limit :
      (n : ℕ) (url : Url) (location : String) {next : Url}
      → next_url w options n url location ≡ ok next
      → suc n ≤ options.max_redirects
  unfolding next_url
  next_url-limit n url location e =
      let (within, rest) = throw_if-eq-ok (ltb options.max_redirects (suc n)) _ _ e in ground arith

  module _ (fuel n : ℕ) (url : Url) (next_turn : Url → Run)
      (turn : (location : String) (next : Url)
        → next_url w options n url location ≡ ok next
        → Ends fuel (next_turn next)) where
    go_on-Ends :
        (location : String) (r : Result FetchError Url)
        → next_url w options n url location ≡ r
        → Ends fuel (go_on next_turn r)
    go_on-Ends location (err e) found =
        (omega arith, subst IsSettled found (next_url-IsSettled n url location))
    go_on-Ends location (ok next) found = turn location next found

    at_location-Ends :
        (response : Response) (o : Option String)
        → Ends fuel (at_location w options n url next_turn response o)
    at_location-Ends response none = (omega arith, finish-IsSettled url response)
    at_location-Ends response (some location) =
        go_on-Ends location (next_url w options n url location) refl

    handle-Ends :
        (r : Result TransportFailure Response) → Ends fuel (handle w options n url next_turn r)
    handle-Ends (err e) = (omega arith, λ f. absurd cc)
    handle-Ends (ok response) = at_location-Ends response (redirect_of response)

    perform-Ends :
        (r : Result FetchError Request)
        → IsSettled r
        → Ends (suc fuel) (perform w options n url next_turn r)
    perform-Ends (err e) h = (omega arith, h)
    perform-Ends (ok r) h = let (few, end) = handle-Ends (w.respond n r) in (omega arith, end)

  loop-Ends :
      (fuel n : ℕ) (url : Url) (headers : Option Headers)
      → n + suc fuel ≡ suc options.max_redirects
      → Ends (suc fuel) (fetch_loop w options (suc fuel) n url headers)
  unfolding fetch_loop
  loop-Ends zero n url headers h =
      perform-Ends 0 n url _
        (λ location next found. absurd (over (next_url-limit n url location found)))
        (request_of w n url headers) (request-IsSettled n url headers)
    where
      over : suc n ≤ options.max_redirects → ⊥
      over le = absurd (omega arith)
  loop-Ends (suc fuel) n url headers h =
      perform-Ends (suc fuel) n url _
        (λ location next found.
          loop-Ends fuel (suc n) next (forward w url next headers) (omega arith))
        (request_of w n url headers) (request-IsSettled n url headers)

  start-Ends :
      (r : Result FetchError Url)
      → IsSettled r
      → Ends (suc options.max_redirects) (start w options r)
  start-Ends (err e) h = (omega arith, h)
  start-Ends (ok url) h = loop-Ends options.max_redirects 0 url options.headers (omega arith)

  guarded-Ends :
      (a : Bool) (r : Run)
      → Ends (suc options.max_redirects) r
      → Ends (suc options.max_redirects) (if a then ([], err aborted) else r)
  guarded-Ends true r h = (omega arith, λ e. absurd cc)
  guarded-Ends false r h = h

  -- A fetch ends with an answer or an error of the source's, and sends at most one request more than
  -- the limit on redirects, whatever the other end does.
  pub fetch_with_ssrf_guard-terminates :
      (input : String)
      → (length (fetch_with_ssrf_guard w options input).0 ≤ suc options.max_redirects)
        × ((fetch_with_ssrf_guard w options input).1 ≢ err out_of_fuel)
  unfolding fetch_with_ssrf_guard
  fetch_with_ssrf_guard-terminates input =
      let (few, end) =
        guarded-Ends options.is_aborted _
          (start-Ends _ (validate_url-IsSettled (schemes_of options) (w.parse_url input none))) in
      (few, settled _ end)
