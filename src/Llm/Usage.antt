-- ===== src/Llm/Usage.antt =====
-- crates/avix-core/src/llm_svc/usage.rs. The counters are of type u64 and wrap where overflow is not checked;
-- `Seconds` stands for f64 with its addition.
pub mod Totals
use avix.Base.{ℕ, ◌+◌, ◌%◌, ◌^◌, String, string_eq, List, [], ◌∷◌, Option, none, some}
use avix.Base.Dict.{Dict, get, insert}

pub record Seconds : Type 1 where
  pub Float : Type 0
  pub zero : Float
  pub add : Float → Float → Float

pub record TextUsage : Type 0 where
  pub input_tokens : ℕ
  pub output_tokens : ℕ
  pub requests : ℕ
  pub errors : ℕ

pub record ImageUsage : Type 0 where
  pub requests : ℕ
  pub errors : ℕ

pub record SpeechUsage : Type 0 where
  pub characters_generated : ℕ
  pub requests : ℕ
  pub errors : ℕ

pub record EmbeddingUsage : Type 0 where
  pub input_tokens : ℕ
  pub requests : ℕ
  pub errors : ℕ

abbrev pub plus : ℕ → ℕ → ℕ
plus a b = (a + b) % 2 ^ 64

module _ (f : Seconds) where
  pub record TranscriptionUsage : Type 0 where
    pub audio_seconds : f.Float
    pub requests : ℕ
    pub errors : ℕ

  pub record ProviderUsage : Type 0 where
    pub text : TextUsage
    pub image : ImageUsage
    pub speech : SpeechUsage
    pub transcription : TranscriptionUsage
    pub embedding : EmbeddingUsage

  abbrev pub default_usage : ProviderUsage
  default_usage = record {
    text = record { input_tokens = 0; output_tokens = 0; requests = 0; errors = 0 };
    image = record { requests = 0; errors = 0 };
    speech = record { characters_generated = 0; requests = 0; errors = 0 };
    transcription = record { audio_seconds = f.zero; requests = 0; errors = 0 };
    embedding = record { input_tokens = 0; requests = 0; errors = 0 };
  }

  abbrev pub UsageTracker : Type 0
  UsageTracker = Dict String ProviderUsage

  abbrev pub or_default : Option ProviderUsage → ProviderUsage
  or_default none = default_usage
  or_default (some u) = u

  -- `map.entry(provider).or_default()`, and a change of what stands there
  unfoldable pub change_usage :
      String → (ProviderUsage → ProviderUsage) → UsageTracker → UsageTracker
  change_usage provider change map = insert provider (change (or_default (get provider map))) map

  -- The methods `record_text`, `record_text_error` and so on, each as what it does to a provider's usage.
  pub data UsageEvent : Type 0 where
    text_used : (input output : ℕ) → UsageEvent
    image_used : UsageEvent
    speech_used : (chars : ℕ) → UsageEvent
    transcription_used : (audio_sec : f.Float) → UsageEvent
    embedding_used : (input_tokens : ℕ) → UsageEvent
    text_failed image_failed speech_failed transcription_failed embedding_failed : UsageEvent

  unfoldable pub count_event : UsageEvent → ProviderUsage → ProviderUsage
  count_event (text_used input output) u = record u {
    text = record u.text {
      input_tokens = plus u.text.input_tokens input;
      output_tokens = plus u.text.output_tokens output;
      requests = plus u.text.requests 1;
    };
  }
  count_event text_failed u = record u { text = record u.text { errors = plus u.text.errors 1 } }
  count_event image_used u = record u {
    image = record u.image { requests = plus u.image.requests 1 };
  }
  count_event image_failed u = record u {
    image = record u.image { errors = plus u.image.errors 1 };
  }
  count_event (speech_used chars) u = record u {
    speech = record u.speech {
      characters_generated = plus u.speech.characters_generated chars;
      requests = plus u.speech.requests 1;
    };
  }
  count_event speech_failed u = record u {
    speech = record u.speech { errors = plus u.speech.errors 1 };
  }
  count_event (transcription_used audio_sec) u = record u {
    transcription = record u.transcription {
      audio_seconds = f.add u.transcription.audio_seconds audio_sec;
      requests = plus u.transcription.requests 1;
    };
  }
  count_event transcription_failed u = record u {
    transcription = record u.transcription { errors = plus u.transcription.errors 1 };
  }
  count_event (embedding_used tokens) u = record u {
    embedding = record u.embedding {
      input_tokens = plus u.embedding.input_tokens tokens;
      requests = plus u.embedding.requests 1;
    };
  }
  count_event embedding_failed u = record u {
    embedding = record u.embedding { errors = plus u.embedding.errors 1 };
  }

  unfoldable pub record_usage : String → UsageEvent → UsageTracker → UsageTracker
  unfolding change_usage count_event
  record_usage provider event map = change_usage provider (count_event event) map
