-- ===== src/Net/Fetch/Origin.antt =====
-- The headers of a fetch, and the origins that they go to.
use zch_coding_agent.Base.{
  ℕ, ◌≡◌, refl, sym, ap, ◌∙◌, subst, inl, inr, Bool, true, false, ◌||◌, ◌==◌, Option, none, some,
  [], ◌∷◌, arith, if◌then◌else◌, Bool-cases, nat_eq, string_eq, option_eq, ok, err, >>=-eq-ok,
  ok_injective, String,
}
use zch_coding_agent.Base.Preds.{All}
use zch_coding_agent.Net.Fetch.Runs.{start_all}
use zch_coding_agent.Net.Fetch.{
  Url, Headers, aborted, SsrfFetchOptions, Request, World, is_sensitive, same_origin,
  strip_sensitive_headers, validate_url, resolve_public_addresses, first_of, Run, request_of,
  schemes_of, forward, fetch_with_ssrf_guard,
}

-- A header of the list has one of these names, in small letters.
abbrev pub carries : World → Headers → Bool
carries w [] = false
carries w ((name, value) ∷ rest) =
    "authorization" == w.lower name
    || "cookie" == w.lower name
    || "x-subscription-token" == w.lower name
    || "x-api-key" == w.lower name
    || "proxy-authorization" == w.lower name
    || carries w rest

abbrev pub carries_any : World → Option Headers → Bool
carries_any w none = false
carries_any w (some headers) = carries w headers

not_listed :
    (w : World) (name : String) (others : Bool)
    → is_sensitive w name ≡ false
    → others ≡ false
    → ("authorization" == w.lower name
        || "cookie" == w.lower name
        || "x-subscription-token" == w.lower name
        || "x-api-key" == w.lower name
        || "proxy-authorization" == w.lower name
        || others)
      ≡ false
unfolding is_sensitive
not_listed w name others e h = ground arith

strip-carries :
    (w : World) (headers : Headers) → carries w (strip_sensitive_headers w headers) ≡ false
unfolding strip_sensitive_headers
strip-carries w [] = refl
strip-carries w ((name, value) ∷ rest) = elim (Bool-cases (is_sensitive w name)) [
  | inl e ↦ rw (strip_sensitive_headers, e) (strip-carries w rest)
  | inr e ↦ rw (strip_sensitive_headers, e) (not_listed w name _ e (strip-carries w rest))
]

abbrev pub SameOrigin : Url → Url → Type 0
SameOrigin a b = (a.protocol ≡ b.protocol) × (a.hostname ≡ b.hostname) × (a.port ≡ b.port)

same_origin→SameOrigin : (a b : Url) → same_origin a b ≡ true → SameOrigin a b
unfolding same_origin
same_origin→SameOrigin a b h = ground (
  arith,
  string_eq.same_iff a.protocol b.protocol,
  string_eq.same_iff a.hostname b.hostname,
  string_eq.same_iff a.port b.port,
)

chain : (a b c : Url) → SameOrigin a b → SameOrigin b c → SameOrigin a c
chain a b c (p, q, r) (p', q', r') = (p ∙ p', q ∙ q', r ∙ r')

true-false : true ≡ false → ⊥
true-false e = absurd cc

module _ (w : World) (options : SsrfFetchOptions) (first : Url) where
  -- Sensitive headers only for the first origin.
  abbrev Keeps : Url → Option Headers → Type 0
  Keeps url headers = carries_any w headers ≡ true → SameOrigin first url

  forward-Keeps :
      (url next : Url) (headers : Option Headers)
      → Keeps url headers
      → Keeps next (forward w url next headers)
  unfolding forward
  forward-Keeps url next none k = λ h. absurd cc
  forward-Keeps url next (some headers) k = elim (Bool-cases (same_origin url next)) [
    | inl e ↦ rw (forward, e) (λ h. chain first url next (k h) (same_origin→SameOrigin url next e))
    | inr e ↦ rw (forward, e) (λ h. absurd (true-false (sym h ∙ strip-carries w headers)))
  ]

  request-Keeps :
      (n : ℕ) (url : Url) (headers : Option Headers) (r : Request)
      → Keeps url headers
      → request_of w n url headers ≡ ok r
      → Keeps r.url r.headers
  unfolding request_of
  request-Keeps n url headers r k e =
      let (records, resolved, rest) = >>=-eq-ok (resolve_public_addresses w n url.hostname) _ e in
      let (pinned, found, last) = >>=-eq-ok (first_of records) _ rest in
      subst (λ q. Keeps q.url q.headers) (ok_injective last) k

guarded-All :
    (P : Request → Type 0) (a : Bool) (r : Run)
    → All P r.0
    → All P (if a then ([], err aborted) else r).0
guarded-All P true r h = tt
guarded-All P false r h = h

same_url : {a b : Url} → a ≡ b → SameOrigin a b
same_url e = (ap (λ u. u.protocol) e, ap (λ u. u.hostname) e, ap (λ u. u.port) e)

-- A request of a fetch that carries a header named authorization, cookie, x-subscription-token,
-- x-api-key or proxy-authorization, in letters of any case, goes to the origin, which is the protocol,
-- the hostname and the port, of the first URL, whatever the redirects in between.
pub fetch-SameOrigin :
    (w : World) (options : SsrfFetchOptions) (input : String) (url : Url)
    → validate_url (schemes_of options) (w.parse_url input none) ≡ ok url
    → All
        (λ r. carries_any w r.headers ≡ true → SameOrigin url r.url)
        (fetch_with_ssrf_guard w options input).0
unfolding fetch_with_ssrf_guard
fetch-SameOrigin w options input url e = guarded-All _ options.is_aborted _ (
    start_all w options (Keeps w options url) (λ r. Keeps w options url r.url r.headers)
      (request-Keeps w options url)
      (λ n u headers location next k found. forward-Keeps w options url u next headers k)
      (validate_url (schemes_of options) (w.parse_url input none))
      (λ found f h. same_url (ok_injective (sym e ∙ f))))
