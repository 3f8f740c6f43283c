-- ===== src/Core.antt =====
-- internal/core/types.go and errors.go: the data that the components share.
--
-- A float64 or float32 is carried by its bit pattern and a time by its nanoseconds; both are only
-- copied here. Job ids are byte strings, since the spool takes them apart; other texts are native
-- strings that are only compared and copied.
pub mod Float
use Prim.Native.String.{String}
use nano_asr.Prelude.{ℕ, Bool, List, Option, ℕ_discrete}

abbrev pub Bytes : Type 0
Bytes = List ℕ

-- Decidable equality of job ids.
unfoldable pub bytes_discrete : Discrete Bytes
unfolding ℕ_discrete
bytes_discrete = hlevel ℕ_discrete

pub data Code : Type 0 where
  invalid_request unauthorized model_forbidden model_not_found job_not_found : Code
  isolation_not_found isolation_busy dictionary_not_found model_in_use : Code
  dictionary_exists file_too_large duration_exceeded unsupported_media_type : Code
  capability_unavailable queue_full rate_limited processing_timeout model_unavailable : Code
  draining internal not_implemented : Code
  -- Codes written as plain text where the error is made.
  audio_missing server_restart : Code

pub data ChannelMode : Type 0 where
  -- The empty text of a request that names no mode.
  unset downmix first split : ChannelMode

pub data Source : Type 0 where
  unknown api ui : Source

-- An AudioSource by what its methods answer. `path` is the file of a spooled source; `detachable`
-- marks an upload that can hand its own storage over.
pub record Audio : Type 0 where
  pub filename : String
  pub size : ℕ
  pub path : Option Bytes
  pub detachable : Bool

pub record Request : Type 0 where
  pub audio : Option Audio
  pub model_id : String
  pub language : String
  pub channel_mode : ChannelMode
  pub decoding_method : String
  pub max_active_paths : ℕ
  pub diarize : Bool
  pub num_speakers : ℕ
  pub punctuate : Bool
  pub itn : Bool
  pub hotwords : List String
  pub hotword_dicts : List String
  pub hotwords_score : ℕ
  pub strict : Bool
  pub source : Source
  pub api_key_id : String
  pub webhook_url : String

pub record Word : Type 0 where
  pub word : String
  pub start : ℕ
  pub end : ℕ
  pub confidence : ℕ
  pub original : String
  pub speaker : Option String
  pub speaker_confidence : ℕ
  pub channel : ℕ

pub record Segment : Type 0 where
  pub id : ℕ
  pub start : ℕ
  pub end : ℕ
  pub text : String
  pub channel : ℕ
  pub speaker : Option String
  pub avg_confidence : ℕ
  pub words : List Word

pub record Silence : Type 0 where
  pub start : ℕ
  pub end : ℕ

pub record Speaker : Type 0 where
  pub id : String
  pub name : String
  pub total_speech : ℕ
  pub segments : ℕ

pub record Stats : Type 0 where
  pub audio_duration : ℕ
  pub processing_ms : ℕ
  pub rtf : ℕ
  pub stages_ms : List (String × ℕ)
  pub segments_total : ℕ
  pub speech_ratio : ℕ

pub record Warning : Type 0 where
  pub code : String
  pub message : String

pub record Result : Type 0 where
  pub id : String
  pub model : String
  pub language : String
  pub duration : ℕ
  pub text : String
  pub timestamp_source : String
  pub segments : List Segment
  pub silence : List Silence
  pub speakers : List Speaker
  pub stats : Stats
  pub warnings : List Warning

pub data JobStatus : Type 0 where
  queued running succeeded failed canceled expired : JobStatus

pub record Job : Type 0 where
  pub id : Bytes
  pub status : JobStatus
  pub position : ℕ
  pub stage : String
  pub percent : ℕ
  pub model_id : String
  pub model_rev : String
  pub filename : String
  pub source : Source
  pub created_at : ℕ
  pub started_at : Option ℕ
  pub finished_at : Option ℕ
  pub result : Option Result
  pub error : Option Code
