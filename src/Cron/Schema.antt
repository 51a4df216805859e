-- ===== src/Cron/Schema.antt =====
-- crates/avix-core/src/cron_svc/schema.rs. Of a value of JSON the text that it renders to is kept.
use avix.Base.{ℕ, String, List, Option}
use avix.Base.Dict.{Dict}

pub data OnFailure : Type 0 where
  ignore alert retry : OnFailure

pub record RetryPolicy : Type 0 where
  pub max_attempts : ℕ
  pub backoff_sec : ℕ

abbrev pub default_retry_policy : RetryPolicy
default_retry_policy = record { max_attempts = 3; backoff_sec = 60 }

pub data JsonValue : Type 0 where
  json_string : String → JsonValue
  json_other : (text : String) → JsonValue

pub record CrontabJob : Type 0 where
  pub id : String
  pub schedule : String
  pub user : String
  pub agent_template : String
  pub goal : String
  pub args : Dict String JsonValue
  pub timeout : ℕ
  pub on_failure : OnFailure
  pub retry_policy : RetryPolicy
  pub timezone : Option String

pub record CrontabSpec : Type 0 where
  pub timezone : String
  pub jobs : List CrontabJob
