-- ===== src/Jobs/Work/Examples.antt =====
-- internal/job/queue.go: a restart with one queued job and its audio in the spool.
use nano_asr.Prelude.{lookup, ◌&&◌, ◌||◌, ◌≡◌, refl, true, false, [], ◌∷◌, some, none}
use nano_asr.Core.{Bytes, bytes_discrete, Request, ChannelMode, Source}
use nano_asr.Jobs.Record.{terminal, Record, batch, new_record}
use nano_asr.Jobs.Queue
use nano_asr.Jobs.Queue.{Queue, Item}
use nano_asr.Jobs.Hub.{new_hub}
use nano_asr.Jobs.Work.{World, Outcome, recover, finish}
use nano_asr.Jobs.Work.Outcomes.{answers, finish-terminal}
use nano_asr.Jobs.Work.Recovery.{in_line, is_live, waits_in, recover-live}
use nano_asr.Jobs.Work.Restart.{has_file, recover-keeps_audio}
use nano_asr.Spool
use nano_asr.Spool.{sweep, name}

abbrev asked : Request
asked = record {
  audio = some (record { filename = "call.wav"; size = 60; path = none; detachable = false });
  model_id = "gigaam";
  language = "ru";
  channel_mode = ChannelMode.split;
  decoding_method = "";
  max_active_paths = 4;
  diarize = false;
  num_speakers = 0;
  punctuate = true;
  itn = false;
  hotwords = [];
  hotword_dicts = [];
  hotwords_score = 0;
  strict = false;
  source = Source.api;
  api_key_id = "key";
  webhook_url = "";
}

abbrev job_id : Bytes
job_id = b'j' ∷ b'1' ∷ []

abbrev stopped : World
stopped = record {
  queue = Queue.new 3 2;
  has_spool = true;
  spool = Spool.new (record { name = name job_id; is_dir = false } ∷ []) 100;
  rows = (job_id, new_record job_id asked batch 9) ∷ [];
  hub = new_hub 16;
  notified = [];
  has_notifier = false;
}

recover-live_example :
    (in_line job_id (recover stopped (λ _. true) true 20).0.queue.items
      ≡ (in_line job_id stopped.queue.items || (waits_in job_id stopped.rows && true)))
    × (is_live job_id (recover stopped (λ _. true) true 20).1
        ≡ (waits_in job_id stopped.rows && true))
    × ((recover stopped (λ _. true) true 20).0.queue.admitted ≡ stopped.queue.admitted)
recover-live_example = recover-live stopped (λ _. true) true 20 job_id

recover-keeps_audio_example :
    has_file
      (name job_id)
      (sweep
        (recover stopped (λ _. true) true 20).0.spool
        (λ _. true)
        (recover stopped (λ _. true) true 20).1).0.dir
    ≡ has_file (name job_id) stopped.spool.dir
unfolding new_record Spool.new bytes_discrete
recover-keeps_audio_example =
    recover-keeps_audio stopped (λ _. true) true 20 job_id (tt, tt) (λ e. cc) refl refl

-- The job is being run.
abbrev taken : Item
taken = record {
  id = job_id;
  request = asked;
  priority = batch;
  enqueued = 9;
  has_cancel = true;
  ctx_done = false;
  canceled = false;
}

abbrev at_work : World
at_work = record stopped { queue = record (stopped.queue) { running = (job_id, taken) ∷ [] } }

finish-terminal_example :
    ((r : Record) × (lookup bytes_discrete job_id
          (finish at_work answers true 30 taken Outcome.timed_out).rows
        ≡ some r)
      × (terminal r.job.status ≡ true))
    × (lookup bytes_discrete job_id
          (finish at_work answers true 30 taken Outcome.timed_out).queue.running
        ≡ none)
unfolding new_record lookup bytes_discrete
finish-terminal_example =
    finish-terminal at_work true 30 taken taken Outcome.timed_out _ refl refl refl refl
