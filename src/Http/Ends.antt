-- ===== src/Http/Ends.antt =====
-- The request loop ends, and what it ends with (companydata/http.go: doRequestRaw).
use company_data_go.Prelude.{
  ℕ, zero, suc, ◌+◌, ◌-◌, ◌<◌, ◌≡◌, refl, ◌∙◌, String, Bool, true, false, not, ◌&&◌, Bool-cases,
  inl, inr, Option, none, some, List, [], ◌==◌, ltb, str_eq, codes, eqb, if◌then◌else◌, arith,
}
use company_data_go.Buffer.Decimal.{trim_space}
use company_data_go.Buffer.Order.{eqb_refl}
use company_data_go.Json.{get, text_or_empty}
use company_data_go.Http.Wire.{Response, ErrorBody, Reply, response, broken, trim_slashes}
use company_data_go.Http.Client.{
  Env, Client, HttpError, Answer, answered, failed, rebase_to, moved_to, send_resending_once,
  is_success, bearer,
}
use company_data_go.Http.Loop.{
  Call, Tries, no_tries, Round, finish, again, on_unauthorized, on_misdirected, on_limited, judge,
  after_body, after_reply, after_refresh, after_rebase, after_bearer, round, request_loop,
  do_request_raw, error_body, authorized,
}

module _ {World : Type 0} (env : Env World) where
  -- The rounds that the loop can still take.
  abbrev pub rounds_left : Tries → ℕ
  rounds_left t =
      (env.max_retries429 - t.retries)
      + (if t.refreshed then 0 else 1)
      + (if t.rebased then 0 else 1)

  -- A round ends with a successful response or an error, or the next has fewer rounds left.
  pub data Judged (t : Tries) (r : Round World) : Type 0 where
    ended_well :
        (p : Response) (c : Client World)
        → r ≡ finish (answered p) c
        → is_success env p.status ≡ true
        → Judged t r
    ended_badly : (x : HttpError) (c : Client World) → r ≡ finish (failed x) c → Judged t r
    goes_on :
        (t' : Tries) (c : Client World)
        → r ≡ again t' c
        → rounds_left t' < rounds_left t
        → Judged t r

  unauthorized-Judged : (t : Tries) (c : Client World) → Judged t (on_unauthorized env t c)
  unfolding on_unauthorized
  unauthorized-Judged t c = by (t.refreshed) refl
    where
      refreshed_by :
          t.refreshed ≡ false
          → (a : Answer String × Client World) → Judged t (after_refresh env t a)
      refreshed_by e (failed x, c') = ended_badly x c' refl
      refreshed_by e (answered token, c') = goes_on _ c' refl (rw e (omega arith))

      by :
          (b : Bool)
          → t.refreshed ≡ b
          → Judged t (
              if b
              then finish (failed HttpError.auth_error) c
              else after_refresh env t (bearer env true c))
      by true e = ended_badly _ c refl
      by false e = refreshed_by e (bearer env true c)

  misdirected-Judged :
      (t : Tries) (e : ErrorBody) (c : Client World) → Judged t (on_misdirected env t e c)
  unfolding on_misdirected
  misdirected-Judged t e c = by t.rebased (str_eq e.error_key "region.rebase_required") refl
    where
      moved : t.rebased ≡ false → (r : Bool × Client World) → Judged t (after_rebase env t e r)
      moved k (true, c') = goes_on _ c' refl (rw k (omega arith))
      moved k (false, c') = ended_badly _ c' refl

      by :
          (a b : Bool)
          → t.rebased ≡ a
          → Judged t (
              if not a && b
              then after_rebase env t e (rebase_to env (text_or_empty (get e.details "api_url")) c)
              else finish (failed (HttpError.api_error 421 e.error_key e.message e.details)) c)
      by true b k = ended_badly _ c refl
      by false false k = ended_badly _ c refl
      by false true k = moved k (rebase_to env (text_or_empty (get e.details "api_url")) c)

  limited-Judged :
      (t : Tries) (r : Response) (e : ErrorBody) (c : Client World)
      → Judged t (on_limited env t r e c)
  unfolding on_limited
  limited-Judged t r e c = elim (Bool-cases (str_eq e.error_key "twofa.pending_cap")) [
    | inl k ↦ rw k (ended_badly _ c refl)
    | inr k ↦ elim (Bool-cases (ltb t.retries env.max_retries429)) [
      | inl l ↦ rw (k, l) (goes_on _ _ refl (ground arith))
      | inr l ↦ rw (k, l) (ended_badly _ c refl)
    ]
  ]

  judge-Judged :
      (t : Tries) (r : Response) (body : List ℕ) (c : Client World)
      → Judged t (judge env t r body c)
  unfolding judge
  judge-Judged t r body c = elim (Bool-cases (is_success env r.status)) [
    | inl k ↦ rw k (ended_well r c refl k)
    | inr k ↦ elim (Bool-cases (r.status == 401)) [
      | inl l ↦ rw (k, l) (unauthorized-Judged t c)
      | inr l ↦ elim (Bool-cases (r.status == 421)) [
        | inl m ↦ rw (k, l, m) (misdirected-Judged t (error_body env body) c)
        | inr m ↦ elim (Bool-cases (r.status == 429)) [
          | inl n ↦ rw (k, l, m, n) (limited-Judged t r (error_body env body) c)
          | inr n ↦ rw (k, l, m, n) (ended_badly _ c refl)
        ]
      ]
    ]
  ]

  reply-Judged :
      (t : Tries) (c : Client World) (r : Reply × World) → Judged t (after_reply env t c r)
  reply-Judged t c (broken f, w) = ended_badly _ _ refl
  reply-Judged t c (response r, w) = by r.body
    where
      by : (b : Option (List ℕ)) → Judged t (after_body env t r b (record c { world = w }))
      by none = ended_badly _ _ refl
      by (some body) = judge-Judged t r body (record c { world = w })

  round-Judged : (call : Call) (t : Tries) (c : Client World) → Judged t (round env call t c)
  unfolding round
  round-Judged call t c = by (bearer env false c)
    where
      by : (a : Answer String × Client World) → Judged t (after_bearer env call t a)
      by (failed x, c') = ended_badly x c' refl
      by (answered token, c') =
          reply-Judged t c' (send_resending_once env (authorized env call token c') c'.world)

  -- What the loop may answer: an error, or a response whose status is a success.
  abbrev pub IsAnswer : Answer Response → Type 0
  IsAnswer (answered p) = is_success env p.status ≡ true
  IsAnswer (failed x) = Unit

  pub record Ended (r : Option (Answer Response × Client World)) : Type 0 where
    pub answer : Answer Response
    pub client : Client World
    pub result_is : r ≡ some (answer, client)
    pub is_answer : IsAnswer answer

  request_loop_again :
      (call : Call) (fuel : ℕ) (t t' : Tries) (c c' : Client World)
      → round env call t c ≡ again t' c'
      → request_loop env call (suc fuel) t c ≡ request_loop env call fuel t' c'
  unfolding request_loop
  request_loop_again call fuel t t' c c' e = rw (e, request_loop)

  request_loop-Ended :
      (call : Call) (fuel : ℕ) (t : Tries) (c : Client World)
      → rounds_left t < fuel
      → Ended (request_loop env call fuel t c)
  request_loop-Ended call zero t c h = absurd (omega arith)
  request_loop-Ended call (suc fuel) t c h = elim (round-Judged call t c) [
    | ended_well p c' e k ↦ record {
      answer = answered p;
      client = c';
      result_is = unfold request_loop in rw (e, request_loop);
      is_answer = k;
    }
    | ended_badly x c' e ↦ record {
      answer = failed x;
      client = c';
      result_is = unfold request_loop in rw (e, request_loop);
      is_answer = tt;
    }
    | goes_on t' c' e l ↦
        let s = request_loop-Ended call fuel t' c' (omega arith) in
        record {
          answer = s.answer;
          client = s.client;
          result_is = request_loop_again call fuel t t' c c' e ∙ s.result_is;
          is_answer = s.is_answer;
        }
  ]

  -- Whatever the server replies, the loop ends within its rounds, and a response that it returns
  -- has a status from 200 to 299.
  pub do_request_raw-Ended : (call : Call) (c : Client World) → Ended (do_request_raw env call c)
  unfolding do_request_raw
  do_request_raw-Ended call c =
      request_loop-Ended call (env.max_retries429 + 3) no_tries c (omega arith)

-- ── regions ──

module _ {World : Type 0} (env : Env World) where
  -- `rebaseTo` reports a move exactly when the base changes, and touches nothing else.
  pub rebase_to-moved :
      (candidate : String) (c : Client World)
      → ((rebase_to env candidate c).0 ≡ not (eqb (rebase_to env candidate c).1.api_url c.api_url))
        × ((rebase_to env candidate c).1.token ≡ c.token)
        × ((rebase_to env candidate c).1.world ≡ c.world)
  unfolding rebase_to
  rebase_to-moved candidate c = go (trim_slashes (trim_space (codes candidate)))
    where
      go :
          (base : List ℕ)
          → ((moved_to env base c).0 ≡ not (eqb (moved_to env base c).1.api_url c.api_url))
            × ((moved_to env base c).1.token ≡ c.token)
            × ((moved_to env base c).1.world ≡ c.world)
      go base = elim (Bool-cases (eqb base [])) [
        | inl e ↦ rw e (rw (eqb_refl c.api_url) (refl, refl, refl))
        | inr e ↦ elim (Bool-cases (eqb base c.api_url)) [
          | inl f ↦ rw (e, f) (rw (eqb_refl c.api_url) (refl, refl, refl))
          | inr f ↦ rw (e, f) (rw f (refl, refl, refl))
        ]
      ]
