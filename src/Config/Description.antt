-- ===== src/Config/Description.antt =====
-- The configuration that an environment describes, field by field.
use stockflow_erp_mock.Common.{
  ◌≡◌, ◌<◌, ◌↔◌, refl, true, false, Option, some, String, is_empty, ok, arith, ◌⊎◌, inl, inr,
  Bool-cases, if◌then◌else◌,
}
use stockflow_erp_mock.Common.Int.{ℤ, pos_part}
use stockflow_erp_mock.Common.Text.{Text, trim_space}
use stockflow_erp_mock.Config.{
  Config, Getenv, Parsers, default_http_address, default_log_level, default_consumer_tag,
  default_url, default_max_retry_count, default_prefetch_count, default_publish_timeout,
  default_retry_delay, default_shutdown_timeout, string_from_env, duration_from_env,
  positive_int_from_env, positive,
}

-- A text is the trimmed one of the environment, or the default where that is blank.
abbrev pub IsText : Text → Text → Text → Type 0
IsText value fallback t =
    ((is_empty (trim_space value) ≡ true) × (t ≡ fallback))
    ⊎ ((is_empty (trim_space value) ≡ false) × (t ≡ trim_space value))

-- A number is the positive one that the environment holds, or the default where that is blank.
abbrev pub IsNumber : (Text → Option ℤ) → Text → ℤ → ℤ → Type 0
IsNumber parse value fallback n =
    ((is_empty (trim_space value) ≡ true) × (n ≡ fallback))
    ⊎ ((is_empty (trim_space value) ≡ false)
        × (parse (trim_space value) ≡ some n)
        × (0 < pos_part n))

-- The configuration that an environment describes.
pub record IsConfigured (parsers : Parsers) (getenv : Getenv) (c : Config) : Type 0 where
  pub http_address : IsText (getenv "ERP_HTTP_ADDRESS") default_http_address c.http_address
  pub log_level :
      (level : Text) × IsText (getenv "ERP_LOG_LEVEL") default_log_level level
      × (parsers.unmarshal_level level ≡ some c.log_level)
  pub consumer_tag : IsText (getenv "ERP_RABBITMQ_CONSUMER_TAG") default_consumer_tag c.consumer_tag
  pub max_retry_count :
      IsNumber parsers.atoi
        (getenv "ERP_RABBITMQ_MAX_RETRY_COUNT")
        default_max_retry_count
        c.max_retry_count
  pub prefetch_count :
      IsNumber parsers.atoi
        (getenv "ERP_RABBITMQ_PREFETCH_COUNT")
        default_prefetch_count
        c.prefetch_count
  pub publish_timeout :
      IsNumber parsers.parse_duration
        (getenv "ERP_RABBITMQ_PUBLISH_TIMEOUT")
        default_publish_timeout
        c.publish_timeout
  pub retry_delay :
      IsNumber parsers.parse_duration
        (getenv "ERP_RABBITMQ_RETRY_DELAY")
        default_retry_delay
        c.retry_delay
  pub url : IsText (getenv "ERP_RABBITMQ_URL") default_url c.url
  pub shutdown_timeout :
      IsNumber parsers.parse_duration
        (getenv "ERP_SHUTDOWN_TIMEOUT")
        default_shutdown_timeout
        c.shutdown_timeout

number_lem :
    (parse : Text → Option ℤ) (value : Text) (fallback n : ℤ)
    → ((if is_empty (trim_space value) then ok fallback else positive (parse (trim_space value)))
        ≡ ok n)
      ↔ IsNumber parse value fallback n
unfolding positive
number_lem parse value fallback n = ground arith

pub string_from_env_lem :
    (getenv : Getenv) (key : String) (fallback : Text)
    → IsText (getenv key) fallback (string_from_env getenv key fallback)
unfolding string_from_env
string_from_env_lem getenv key fallback = elim (Bool-cases (is_empty (trim_space (getenv key)))) [
  | inl e ↦ inl (e, rw e refl)
  | inr e ↦ inr (e, rw e refl)
]

IsText-unique :
    (value fallback t u : Text) → IsText value fallback t → IsText value fallback u → t ≡ u
IsText-unique value fallback t u (inl (e, f)) (inl (e', f')) = cc
IsText-unique value fallback t u (inl (e, f)) (inr (e', f')) = cc
IsText-unique value fallback t u (inr (e, f)) (inl (e', f')) = cc
IsText-unique value fallback t u (inr (e, f)) (inr (e', f')) = cc

pub string_from_env-eq :
    (getenv : Getenv) (key : String) (fallback t : Text)
    → IsText (getenv key) fallback t
    → string_from_env getenv key fallback ≡ t
string_from_env-eq getenv key fallback t is_text =
    IsText-unique (getenv key) fallback _ t (string_from_env_lem getenv key fallback) is_text

pub duration_from_env_lem :
    (parsers : Parsers) (getenv : Getenv) (key : String) (fallback n : ℤ)
    → (duration_from_env parsers getenv key fallback ≡ ok n)
      ↔ IsNumber parsers.parse_duration (getenv key) fallback n
unfolding duration_from_env
duration_from_env_lem parsers getenv key fallback n =
    number_lem parsers.parse_duration (getenv key) fallback n

pub positive_int_from_env_lem :
    (parsers : Parsers) (getenv : Getenv) (key : String) (fallback n : ℤ)
    → (positive_int_from_env parsers getenv key fallback ≡ ok n)
      ↔ IsNumber parsers.atoi (getenv key) fallback n
unfolding positive_int_from_env
positive_int_from_env_lem parsers getenv key fallback n =
    number_lem parsers.atoi (getenv key) fallback n
