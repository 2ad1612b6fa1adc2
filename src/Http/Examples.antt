-- ===== src/Http/Examples.antt =====
-- A server that is at its limit once and then answers; the theorems on the transport at that input.
use company_data_go.Prelude.{ℕ, zero, suc, ◌+◌, none, some, [], codes, pos}
use company_data_go.Http.Wire.{Reply, response, Parsers}
use company_data_go.Http.Client.{Env, Client}
use company_data_go.Http.Loop.{Call, do_request_raw}
use company_data_go.Http.Ends.{Ended, do_request_raw-Ended}

abbrev no_parsers : Parsers
no_parsers = record {
  json = λ t. none;
  xml = λ t. none;
  float = λ t. none;
  seconds = λ bits. pos 0;
}

-- The first request asks for the token; the second is refused, the third answered.
abbrev reply_to : ℕ → Reply
reply_to (suc zero) = response (record { status = 429; retry_after = []; body = some [] })
reply_to n = response (record { status = 200; retry_after = []; body = some (codes "{}") })

abbrev small_server : Env ℕ
small_server = record {
  parsers = no_parsers;
  token_body = λ t. some (record { access_token = "t"; expires_in = 0; api_url = "" });
  parse_url = λ u. none;
  form = [];
  format = "json";
  max_retries429 = 3;
  now = λ w. 0;
  sleep = λ delay w. w;
  send = λ request w. (reply_to w, w + 1);
}

abbrev new_client : Client ℕ
new_client = record { api_url = codes "https://a"; token = ""; token_expiry = 0; world = 0 }

abbrev get_call : Call
get_call = record { method = "GET"; path = codes "/x"; query = []; content_type = none; body = [] }

do_request_raw-Ended_example : Ended small_server (do_request_raw small_server get_call new_client)
do_request_raw-Ended_example = do_request_raw-Ended small_server get_call new_client
