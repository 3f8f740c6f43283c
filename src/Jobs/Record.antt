-- ===== src/Jobs/Record.antt =====
-- internal/job/record.go: what is stored of a job, and the request rebuilt from it.
use Prim.Native.String.{String}
use nano_asr.Prelude.{ℕ, Bool, true, false, List, Option, none, some}
use nano_asr.Core.{
  Bytes, ChannelMode, Source, Audio, Request, Job, JobStatus, queued, succeeded, failed, canceled,
  expired,
}

pub data Priority : Type 0 where
  batch interactive : Priority

-- The value of the constant.
abbrev pub rank : Priority → ℕ
rank batch = 0
rank interactive = 10

pub record Params : Type 0 where
  pub model_id : String
  pub language : String
  pub channel_mode : ChannelMode
  pub decoding_method : String
  pub max_active_paths : ℕ
  pub diarize : Bool
  pub num_speakers : ℕ
  pub punctuate : Bool
  pub itn : Bool
  pub hotwords : List String
  pub hotword_dicts : List String
  pub hotwords_score : ℕ
  pub strict : Bool
  pub source : Source
  pub webhook_url : String

pub record Record : Type 0 where
  pub job : Job
  pub params : Params
  pub priority : Priority
  pub api_key_id : String
  pub audio_bytes : ℕ
  pub audio_seconds : ℕ

unfoldable pub params_of : Request → Params
params_of req = record {
  model_id = req.model_id;
  language = req.language;
  channel_mode = req.channel_mode;
  decoding_method = req.decoding_method;
  max_active_paths = req.max_active_paths;
  diarize = req.diarize;
  num_speakers = req.num_speakers;
  punctuate = req.punctuate;
  itn = req.itn;
  hotwords = req.hotwords;
  hotword_dicts = req.hotword_dicts;
  hotwords_score = req.hotwords_score;
  strict = req.strict;
  source = req.source;
  webhook_url = req.webhook_url;
}

-- Params.Request
unfoldable pub request : Params → Option Audio → String → Request
request p audio api_key_id = record {
  audio = audio;
  model_id = p.model_id;
  language = p.language;
  channel_mode = p.channel_mode;
  decoding_method = p.decoding_method;
  max_active_paths = p.max_active_paths;
  diarize = p.diarize;
  num_speakers = p.num_speakers;
  punctuate = p.punctuate;
  itn = p.itn;
  hotwords = p.hotwords;
  hotword_dicts = p.hotword_dicts;
  hotwords_score = p.hotwords_score;
  strict = p.strict;
  source = p.source;
  api_key_id = api_key_id;
  webhook_url = p.webhook_url;
}

-- The two variables that NewRecord reads off the audio, and their zero values.
unfoldable pub audio_size : Option Audio → ℕ
audio_size none = 0
audio_size (some a) = a.size

unfoldable pub audio_filename : Option Audio → String
audio_filename none = ""
audio_filename (some a) = a.filename

unfoldable pub new_record : Bytes → Request → Priority → ℕ → Record
unfolding params_of audio_size audio_filename
new_record id req priority now = record {
  job = record {
    id = id;
    status = queued;
    position = 0;
    stage = "";
    percent = 0;
    model_id = req.model_id;
    model_rev = "";
    filename = audio_filename req.audio;
    source = req.source;
    created_at = now;
    started_at = none;
    finished_at = none;
    result = none;
    error = none;
  };
  params = params_of req;
  priority = priority;
  api_key_id = req.api_key_id;
  audio_bytes = audio_size req.audio;
  audio_seconds = 0;
}

unfoldable pub terminal : JobStatus → Bool
terminal succeeded = true
terminal failed = true
terminal canceled = true
terminal expired = true
terminal _ = false
