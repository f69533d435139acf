-- ===== src/Fixtures.antt =====
-- Concrete values that the test modules share: a policy with its text, an etcd without failures,
-- and a request.
use aizen_gate.Base.{
  ℕ, refl, String, Option, true, false, none, some, [], str_eq, is_some, if◌then◌else◌,
}
use aizen_gate.Base.Int.{pos}
use aizen_gate.Base.Dict.{Dict, lookup, insert, erase}
use aizen_gate.Policy.{Policy}
use aizen_gate.Http.{Request, Context, Writer, Part}
use aizen_gate.Metrics.{Metrics, new_handler}
use aizen_gate.RateLimit.TokenBucket.{TokenBucketLimiter, new_token_bucket_limiter}
use aizen_gate.ControlPlane.{Etcd, PolicyJson, Client}

-- One policy, with its text; every other text is malformed.
abbrev pub sample : Policy
sample = record {
  id = "a";
  path = "/anything";
  method = "*";
  limit = pos 100;
  window_sec = pos 60;
  tier = "basic";
}

abbrev pub read_sample : String → Option Policy
read_sample text = if str_eq text "A" then some sample else none

abbrev pub sample_json : PolicyJson
sample_json = record { marshal = λ p. some "A"; unmarshal = read_sample; decode = read_sample }

-- An etcd that never fails.
abbrev pub steady : Etcd (Dict String)
steady = record {
  get_prefix = λ key s. some s;
  put = λ key v s. (insert key v s, true);
  delete = λ key s. (erase key s, if is_some (lookup key s) then some 1 else some 0);
}

abbrev pub offline : Client
offline = record { connected = false; policies = []; has_callback = true; watching = false }

abbrev pub empty_context : Context
empty_context = record {
  identity = none;
  client_id = none;
  client_tier = none;
  request_id = none;
  start_time = none;
}

abbrev pub ask : String → String → Request
ask method path = record {
  method = method;
  path = path;
  query = [];
  headers = [];
  body = "";
  remote_addr = "1.2.3.4:5";
  context = empty_context;
}

abbrev pub fresh : Writer
fresh = record { headers = []; status = none; body = []; captures = []; size = λ c. 7 }

-- A gateway with a local limiter.
pub record Gateway : Type 0 where
  pub limits : TokenBucketLimiter
  pub control : Client
  pub metrics : Metrics
  pub request_ids : ℕ

abbrev pub limits_part : Part Gateway TokenBucketLimiter
limits_part = record {
  get = λ g. g.limits;
  put = λ x g. record g { limits = x };
  get-put = λ x g. refl;
}

abbrev pub control_part : Part Gateway Client
control_part = record {
  get = λ g. g.control;
  put = λ x g. record g { control = x };
  get-put = λ x g. refl;
}

abbrev pub metrics_part : Part Gateway Metrics
metrics_part = record {
  get = λ g. g.metrics;
  put = λ x g. record g { metrics = x };
  get-put = λ x g. refl;
}

abbrev pub ids_part : Part Gateway ℕ
ids_part = record {
  get = λ g. g.request_ids;
  put = λ x g. record g { request_ids = x };
  get-put = λ x g. refl;
}

-- A gateway whose buckets hold `capacity` tokens.
abbrev pub gateway : ℕ → Gateway
gateway capacity = record {
  limits = new_token_bucket_limiter 1 capacity;
  control = offline;
  metrics = new_handler 0;
  request_ids = 0;
}
