-- ===== src/Http/Loop.antt =====
-- The request loop (companydata/http.go: doRequestRaw).
use company_data_go.Prelude.{
  ℕ, zero, suc, ◌+◌, String, Bool, true, false, not, ◌&&◌, Option, none, some, List, [], ◌∷◌, ◌++◌,
  ◌==◌, ltb, codes, str_eq, if◌then◌else◌,
}
use Prim.Native.String.{◌++◌ as cat}
use company_data_go.Json.{Fields, get, text_or_empty}
use company_data_go.Http.Wire.{
  Request, Response, Reply, response, broken, ErrorBody, extract_error, parse_retry_after,
  backoff_delay, url,
}
use company_data_go.Http.Client.{
  Env, Client, HttpError, auth_error, api_error, rate_limited, Answer, answered, failed,
  no_request_error, rebase_to, send_resending_once, is_success, bearer,
}

-- `query` is the encoded parameters, empty when there are none.
pub record Call : Type 0 where
  pub method : String
  pub path : List ℕ
  pub query : List ℕ
  pub content_type : Option String
  pub body : List ℕ

-- What the loop remembers of its earlier rounds.
pub record Tries : Type 0 where
  pub retries : ℕ
  pub refreshed : Bool
  pub rebased : Bool

abbrev pub no_tries : Tries
no_tries = record { retries = 0; refreshed = false; rebased = false }

-- How a round of the loop ends.
pub data Round (World : Type 0) : Type 0 where
  finish : Answer Response → Client World → Round World
  again : Tries → Client World → Round World

module _ {World : Type 0} (env : Env World) where
  abbrev pub api_error_of : ℕ → ErrorBody → HttpError
  api_error_of status e = api_error status e.error_key e.message e.details

  abbrev pub error_body : List ℕ → ErrorBody
  error_body body = extract_error env.parsers env.format body

  -- One refresh for a 401.
  abbrev pub after_refresh : Tries → Answer String × Client World → Round World
  after_refresh t (failed x, c) = finish (failed x) c
  after_refresh t (answered token, c) = again (record t { refreshed = true }) c

  unfoldable pub on_unauthorized : Tries → Client World → Round World
  on_unauthorized t c =
      if t.refreshed then finish (failed auth_error) c else after_refresh t (bearer env true c)

  -- One rebase for a 421 that names a base other than the current one.
  abbrev pub after_rebase : Tries → ErrorBody → Bool × Client World → Round World
  after_rebase t e (true, c) = again (record t { rebased = true }) c
  after_rebase t e (false, c) = finish (failed (api_error_of 421 e)) c

  unfoldable pub on_misdirected : Tries → ErrorBody → Client World → Round World
  on_misdirected t e c =
      if not t.rebased && str_eq e.error_key "region.rebase_required"
      then after_rebase t e (rebase_to env (text_or_empty (get e.details "api_url")) c)
      else finish (failed (api_error_of 421 e)) c

  -- A bounded number of waits for a 429, none when the cap on pending challenges is reached.
  unfoldable pub on_limited : Tries → Response → ErrorBody → Client World → Round World
  on_limited t r e c =
      if str_eq e.error_key "twofa.pending_cap"
      then finish (failed (api_error 429 e.error_key e.message Fields.end)) c
      else if ltb t.retries env.max_retries429
      then again (record t { retries = t.retries + 1 })
          (record c {
            world =
                env.sleep
                  (backoff_delay env.parsers (parse_retry_after env.parsers r.retry_after)
                    (t.retries + 1))
                  c.world;
          })
      else finish
          (failed
            (rate_limited (parse_retry_after env.parsers r.retry_after) e.error_key e.message))
          c

  -- The cases of the status, on a body that was read.
  unfoldable pub judge : Tries → Response → List ℕ → Client World → Round World
  judge t r body c =
      if is_success env r.status
      then finish (answered r) c
      else if r.status == 401
      then on_unauthorized t c
      else if r.status == 421
      then on_misdirected t (error_body body) c
      else if r.status == 429
      then on_limited t r (error_body body) c
      else finish (failed (api_error_of r.status (error_body body))) c

  abbrev pub after_body : Tries → Response → Option (List ℕ) → Client World → Round World
  after_body t r none c = finish (failed no_request_error) c
  after_body t r (some body) c = judge t r body c

  abbrev pub after_reply : Tries → Client World → Reply × World → Round World
  after_reply t c (broken f, w) = finish (failed no_request_error) (record c { world = w })
  after_reply t c (response r, w) = after_body t r r.body (record c { world = w })

  abbrev pub with_query : List ℕ → List ℕ → List ℕ
  with_query u [] = u
  with_query u (q ∷ qs) = u ++ codes "?" ++ q ∷ qs

  abbrev pub authorized : Call → String → Client World → Request
  authorized call token c = record {
    method = call.method;
    url = with_query (url env.parse_url c.api_url call.path) call.query;
    authorization = some (cat "Bearer " token);
    accept = if str_eq env.format "xml" then "application/xml" else "application/json";
    content_type = call.content_type;
    body = call.body;
  }

  abbrev pub after_bearer : Call → Tries → Answer String × Client World → Round World
  after_bearer call t (failed x, c) = finish (failed x) c
  after_bearer call t (answered token, c) =
      after_reply t c (send_resending_once env (authorized call token c) c.world)

  unfoldable pub round : Call → Tries → Client World → Round World
  round call t c = after_bearer call t (bearer env false c)

  -- The loop; `none` means that the fuel, one for a round, ran out.
  unfoldable pub request_loop :
      Call → ℕ → Tries → Client World → Option (Answer Response × Client World)
  request_loop call zero t c = none
  request_loop call (suc fuel) t c = elim (round call t c) [
    | finish a c' ↦ some (a, c')
    | again t' c' ↦ request_loop call fuel t' c'
  ]

  -- A round is left for each retry, the refresh, the rebase and the answer.
  unfoldable pub do_request_raw : Call → Client World → Option (Answer Response × Client World)
  do_request_raw call c = request_loop call (env.max_retries429 + 3) no_tries c
