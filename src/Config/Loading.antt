-- ===== src/Config/Loading.antt =====
-- What `Load` of internal/config/config.go accepts.
use stockflow_erp_mock.Common.{
  ◌≡◌, ◌<◌, ◌↔◌, refl, sym, Option, none, some, ok, arith, inl, inr, bind-eq_ok,
}
use stockflow_erp_mock.Common.Int.{ℤ, pos_part}
use stockflow_erp_mock.Common.Text.{Text}
use stockflow_erp_mock.Config.{
  Config, Getenv, Parsers, default_http_address, default_log_level, default_consumer_tag,
  default_url, default_max_retry_count, default_prefetch_count, default_publish_timeout,
  default_retry_delay, default_shutdown_timeout, string_from_env, duration_from_env,
  positive_int_from_env, parse_log_level, load,
}
use stockflow_erp_mock.Config.Description.{
  IsNumber, IsConfigured, string_from_env_lem, string_from_env-eq, duration_from_env_lem,
  positive_int_from_env_lem,
}

parse_log_level-eq_ok : (o : Option ℤ) {n : ℤ} → parse_log_level o ≡ ok n → o ≡ some n
unfolding parse_log_level
parse_log_level-eq_ok none h = ground (arith, h)
parse_log_level-eq_ok (some m) h = ground (arith, h)

load-IsConfigured :
    (parsers : Parsers) (getenv : Getenv) (c : Config)
    → load parsers getenv ≡ ok c
    → IsConfigured parsers getenv c
unfolding load
load-IsConfigured parsers getenv c h =
    let (st, shutdown, h1) =
      bind-eq_ok (duration_from_env parsers getenv "ERP_SHUTDOWN_TIMEOUT" default_shutdown_timeout)
        h in
    let (level, leveled, h2) =
      bind-eq_ok
        (parse_log_level
          (parsers.unmarshal_level (string_from_env getenv "ERP_LOG_LEVEL" default_log_level)))
        h1 in
    let (pc, prefetch, h3) =
      bind-eq_ok
        (positive_int_from_env parsers getenv "ERP_RABBITMQ_PREFETCH_COUNT" default_prefetch_count)
        h2 in
    let (pt, publish, h4) =
      bind-eq_ok
        (duration_from_env parsers getenv "ERP_RABBITMQ_PUBLISH_TIMEOUT" default_publish_timeout)
        h3 in
    let (rd, delay, h5) =
      bind-eq_ok (duration_from_env parsers getenv "ERP_RABBITMQ_RETRY_DELAY" default_retry_delay)
        h4 in
    let (mr, retries, h6) =
      bind-eq_ok
        (positive_int_from_env parsers getenv "ERP_RABBITMQ_MAX_RETRY_COUNT"
          default_max_retry_count)
        h5 in
    let e : record {
      http_address = string_from_env getenv "ERP_HTTP_ADDRESS" default_http_address;
      log_level = level;
      consumer_tag = string_from_env getenv "ERP_RABBITMQ_CONSUMER_TAG" default_consumer_tag;
      max_retry_count = mr;
      prefetch_count = pc;
      publish_timeout = pt;
      retry_delay = rd;
      url = string_from_env getenv "ERP_RABBITMQ_URL" default_url;
      shutdown_timeout = st;
    }
        ≡ c =
      ground (arith, h6) in
    rw (sym e) (record {
      http_address = string_from_env_lem getenv _ _;
      log_level = (
        _,
        string_from_env_lem getenv "ERP_LOG_LEVEL" default_log_level,
        parse_log_level-eq_ok _ leveled,
      );
      consumer_tag = string_from_env_lem getenv _ _;
      max_retry_count = (positive_int_from_env_lem parsers getenv _ _ mr).0 retries;
      prefetch_count = (positive_int_from_env_lem parsers getenv _ _ pc).0 prefetch;
      publish_timeout = (duration_from_env_lem parsers getenv _ _ pt).0 publish;
      retry_delay = (duration_from_env_lem parsers getenv _ _ rd).0 delay;
      url = string_from_env_lem getenv _ _;
      shutdown_timeout = (duration_from_env_lem parsers getenv _ _ st).0 shutdown;
    })

IsConfigured-load :
    (parsers : Parsers) (getenv : Getenv) (c : Config)
    → IsConfigured parsers getenv c
    → load parsers getenv ≡ ok c
unfolding load parse_log_level
IsConfigured-load parsers getenv c i =
    let (level, is_level, leveled) = i.log_level in
    rw
      (
        (duration_from_env_lem parsers getenv _ _ _).1 i.shutdown_timeout,
        string_from_env-eq getenv "ERP_LOG_LEVEL" default_log_level level is_level,
        leveled,
        (positive_int_from_env_lem parsers getenv _ _ _).1 i.prefetch_count,
        (duration_from_env_lem parsers getenv _ _ _).1 i.publish_timeout,
        (duration_from_env_lem parsers getenv _ _ _).1 i.retry_delay,
        (positive_int_from_env_lem parsers getenv _ _ _).1 i.max_retry_count,
        string_from_env-eq getenv "ERP_HTTP_ADDRESS" default_http_address c.http_address
            i.http_address,
        string_from_env-eq getenv "ERP_RABBITMQ_CONSUMER_TAG" default_consumer_tag c.consumer_tag
            i.consumer_tag,
        string_from_env-eq getenv "ERP_RABBITMQ_URL" default_url c.url i.url,
      )
      refl

-- `Load` returns a configuration exactly if it is the one that the environment describes: each
-- text is the trimmed value of its variable, each number a positive one that parses, and each takes
-- its default where the variable is blank. It fails if there is none.
pub load_iff :
    (parsers : Parsers) (getenv : Getenv) (c : Config)
    → (load parsers getenv ≡ ok c) ↔ IsConfigured parsers getenv c
load_iff parsers getenv c = (load-IsConfigured parsers getenv c, IsConfigured-load parsers getenv c)

IsNumber-positive :
    (parse : Text → Option ℤ) (value : Text) (fallback n : ℤ)
    → 0 < pos_part fallback
    → IsNumber parse value fallback n
    → 0 < pos_part n
IsNumber-positive parse value fallback n p (inl (_, e)) = rw e p
IsNumber-positive parse value fallback n p (inr (_, _, q)) = q

-- Whatever the environment, a configuration that `Load` returns has a positive prefetch count,
-- retry limit, retry delay, publish timeout and shutdown timeout.
pub load-positive :
    (parsers : Parsers) (getenv : Getenv) (c : Config)
    → load parsers getenv ≡ ok c
    → (0 < pos_part c.prefetch_count)
      × (0 < pos_part c.max_retry_count)
      × (0 < pos_part c.retry_delay)
      × (0 < pos_part c.publish_timeout)
      × (0 < pos_part c.shutdown_timeout)
load-positive parsers getenv c h =
    let i = load-IsConfigured parsers getenv c h in
    (
      IsNumber-positive parsers.atoi _ _ _ (omega arith) i.prefetch_count,
      IsNumber-positive parsers.atoi _ _ _ (omega arith) i.max_retry_count,
      IsNumber-positive parsers.parse_duration _ _ _ (omega arith) i.retry_delay,
      IsNumber-positive parsers.parse_duration _ _ _ (omega arith) i.publish_timeout,
      IsNumber-positive parsers.parse_duration _ _ _ (omega arith) i.shutdown_timeout,
    )
