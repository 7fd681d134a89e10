-- ===== src/Net/Fetch/Runs.antt =====
-- How a property of requests is carried through the loop.
use zch_coding_agent.Base.{
  ℕ, zero, suc, ◌≡◌, refl, Option, none, some, [], nat_eq, string_eq, option_eq, Result, ok, err,
  String,
}
use zch_coding_agent.Base.Preds.{All}
use zch_coding_agent.Net.Fetch.{
  Url, Headers, FetchError, TransportFailure, transport, Response, SsrfFetchOptions, Request, World,
  request_of, redirect_of, finish, forward, Run, next_url, go_on, at_location, handle, perform,
  fetch_loop, start, SsrfFetchResponse,
}

module _ (w : World) (options : SsrfFetchOptions) where
  module _ (Holds : Run → Type 0) (idle : (r : Result FetchError SsrfFetchResponse) → Holds ([], r))
      (n : ℕ) (url : Url) (next_turn : Url → Run)
      (turn : (location : String) (next : Url)
        → next_url w options n url location ≡ ok next
        → Holds (next_turn next)) where
    go_on-Holds :
        (location : String) (r : Result FetchError Url)
        → next_url w options n url location ≡ r
        → Holds (go_on next_turn r)
    go_on-Holds location (err e) found = idle (err e)
    go_on-Holds location (ok next) found = turn location next found

    at_location-Holds :
        (response : Response) (o : Option String)
        → Holds (at_location w options n url next_turn response o)
    at_location-Holds response none = idle (finish w options url response)
    at_location-Holds response (some location) =
        go_on-Holds location (next_url w options n url location) refl

    -- What holds of a run without requests and of each next turn holds after the response.
    pub handle-Holds :
        (r : Result TransportFailure Response) → Holds (handle w options n url next_turn r)
    handle-Holds (err e) = idle (err (transport e))
    handle-Holds (ok response) = at_location-Holds response (redirect_of response)

  module _ (Keeps : Url → Option Headers → Type 0) (P : Request → Type 0)
      (made : (n : ℕ) (url : Url) (headers : Option Headers) (r : Request)
        → Keeps url headers
        → request_of w n url headers ≡ ok r
        → P r)
      (kept : (n : ℕ) (url : Url) (headers : Option Headers) (location : String) (next : Url)
        → Keeps url headers
        → next_url w options n url location ≡ ok next
        → Keeps next (forward w url next headers)) where
    perform_all :
        (n : ℕ) (url : Url) (headers : Option Headers) (next_turn : Url → Run)
        (r : Result FetchError Request)
        → Keeps url headers
        → request_of w n url headers ≡ r
        → ((location : String) (next : Url)
            → next_url w options n url location ≡ ok next
            → All P (next_turn next).0)
        → All P (perform w options n url next_turn r).0
    perform_all n url headers next_turn (err e) k found turn = tt
    perform_all n url headers next_turn (ok r) k found turn = (
      made n url headers r k found,
      handle-Holds (λ run. All P run.0) (λ r. tt) n url next_turn turn (w.respond n r),
    )

    -- An invariant of the loop's URL and headers gives a property of every request.
    pub loop_all :
        (fuel n : ℕ) (url : Url) (headers : Option Headers)
        → Keeps url headers
        → All P (fetch_loop w options fuel n url headers).0
    unfolding fetch_loop
    loop_all zero n url headers k = tt
    loop_all (suc fuel) n url headers k =
        perform_all n url headers
          (λ next. fetch_loop w options fuel (suc n) next (forward w url next headers))
          (request_of w n url headers) k refl
          (λ location next found.
            loop_all fuel (suc n) next (forward w url next headers)
              (kept n url headers location next k found))

    pub start_all :
        (r : Result FetchError Url)
        → ((url : Url) → r ≡ ok url → Keeps url options.headers)
        → All P (start w options r).0
    start_all (err e) k = tt
    start_all (ok url) k = loop_all (suc options.max_redirects) 0 url options.headers (k url refl)
