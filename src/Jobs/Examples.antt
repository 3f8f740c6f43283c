-- ===== src/Jobs/Examples.antt =====
-- The theorems on internal/job at concrete inputs.
use Prim.Native.Nat.{max}
use nano_asr.Prelude.{
  ℕ, ◌-◌, ◌≡◌, refl, true, false, List, [], ◌∷◌, some, none, arith, lookup, insert, ℕ_discrete,
}
use nano_asr.Core.{Bytes, bytes_discrete, Request, Audio, Job, JobStatus, Code, ChannelMode, Source}
use nano_asr.Jobs.Record.{
  Record, request, new_record, Priority, batch, interactive, audio_size, terminal,
}
use nano_asr.Jobs.Queue
use nano_asr.Jobs.Queue.{Queue, Item}
use nano_asr.Jobs.Queue.Order.{IsServiceOrder, PutIn, enqueue_order}
use nano_asr.Jobs.Queue.Capacity
use nano_asr.Jobs.Queue.Capacity.{System, begin, reserves, enqueues, IsAdmitted, Reach-IsAdmitted}
use nano_asr.Jobs.Store.{stored, written}
use nano_asr.Jobs.Store.Resuming.{Reach, here, then}
use nano_asr.Jobs.Hub.{Topic, Chan, new_hub, subscribe, publish, topic_for, publish_on}
use nano_asr.Jobs.Hub.Runs.{Op, publishes, run}
use nano_asr.Jobs.Hub.Replay.{seqs, range, subscribe_replays}
use nano_asr.Jobs.Work.{World, SubmitEnv, submit, err, adopt_audio, adopted}
use nano_asr.Jobs.Work.Submission.{submit_unwinds}
use nano_asr.Spool
use nano_asr.Spool.{Transfer}

abbrev upload : Audio
upload = record { filename = "call.wav"; size = 60; path = none; detachable = false }

abbrev asked : Request
asked = record {
  audio = some upload;
  model_id = "gigaam";
  language = "ru";
  channel_mode = ChannelMode.split;
  decoding_method = "";
  max_active_paths = 4;
  diarize = true;
  num_speakers = 2;
  punctuate = true;
  itn = true;
  hotwords = "NanoASR" ∷ [];
  hotword_dicts = "names" ∷ [];
  hotwords_score = 3;
  strict = false;
  source = Source.api;
  api_key_id = "k1";
  webhook_url = "";
}

abbrev first_id : Bytes
first_id = b'a' ∷ []

abbrev item : Bytes → Priority → ℕ → Item
item id priority at = record {
  id = id;
  request = asked;
  priority = priority;
  enqueued = at;
  has_cancel = false;
  ctx_done = false;
  canceled = false;
}

abbrev waiting : Queue
waiting = record {
  items = item (1 ∷ []) interactive 5 ∷ item (2 ∷ []) batch 1 ∷ item (3 ∷ []) batch 4 ∷ [];
  running = [];
  stopped = false;
  admitted = 1;
  size = 4;
  workers = 1;
}

enqueue_order_example :
    IsServiceOrder (Queue.enqueue waiting (item (4 ∷ []) batch 2)).items
    × PutIn
        (item (4 ∷ []) batch 2)
        waiting.items
        (Queue.enqueue waiting (item (4 ∷ []) batch 2)).items
enqueue_order_example =
    enqueue_order waiting (item (4 ∷ []) batch 2) ((tt, (tt, tt)), ((omega arith, tt), (tt, tt)))

abbrev one_waiting : System
one_waiting = record {
  queue = Queue.enqueue (record (Queue.new 3 2) { admitted = 1 }) (item (4 ∷ []) batch 2);
  accepting = 1 - 1;
  resumed = 0;
}

reach_one_waiting : Capacity.Reach (begin 3 2) one_waiting
unfolding Queue.reserve Queue.new
reach_one_waiting =
    Capacity.then
      (Capacity.then Capacity.here (reserves (record (Queue.new 3 2) { admitted = 1 }) refl))
      (enqueues (item (4 ∷ []) batch 2) (omega arith))

Reach-IsAdmitted_example : IsAdmitted 3 one_waiting
Reach-IsAdmitted_example = Reach-IsAdmitted 3 2 (omega arith) reach_one_waiting

abbrev job : JobStatus → Job
job status = record {
  id = first_id;
  status = status;
  position = 0;
  stage = "";
  percent = 0;
  model_id = "gigaam";
  model_rev = "";
  filename = "call.wav";
  source = Source.api;
  created_at = 7;
  started_at = none;
  finished_at = none;
  result = none;
  error = none;
}

-- A job that starts to run before the process dies.
abbrev submitted : Record
submitted = new_record first_id asked interactive 7

abbrev begun : Record
begun = record submitted { job = job JobStatus.running; api_key_id = "" }

abbrev survivor : Record
survivor = written (stored submitted) begun

abbrev queued_then_running : List Op
queued_then_running = publishes (job JobStatus.queued) ∷ publishes (job JobStatus.running) ∷ []

abbrev tracked : Topic
tracked = record {
  seq = 2;
  ring = record { seq = 2; job = job JobStatus.running } ∷ [];
  last = job JobStatus.running;
  subs = [];
}

subscribe_replays_example :
    let h = run (new_hub 1) queued_then_running in
    (c : Chan) × (lookup ℕ_discrete h.next_chan (subscribe h first_id 0).0.chans ≡ some c)
    × ((subscribe h first_id 0).1 ≡ some h.next_chan)
    × (c.closed ≡ false)
    × (seqs c.buffer ≡ (let from = max 0 (2 - h.ring) in range from (2 - from)))
unfolding run publish topic_for publish_on terminal new_hub lookup insert bytes_discrete
subscribe_replays_example = subscribe_replays 1 queued_then_running first_id 0 tracked refl

-- Nothing is queued, and there are 100 bytes of room for audio.
abbrev idle : World
idle = record {
  queue = Queue.new 3 2;
  has_spool = true;
  spool = Spool.new [] 100;
  rows = [];
  hub = new_hub 16;
  notified = [];
  has_notifier = false;
}

-- The copy of the upload breaks off, and the part is deleted.
abbrev broken_copy : SubmitEnv
broken_copy = record {
  id = first_id;
  now = 9;
  transfer = Transfer.cut_short true;
  creates = true;
  unlinks = true;
}

submit_fails :
    submit idle broken_copy asked batch
    ≡ ((submit idle broken_copy asked batch).0, err Code.internal)
unfolding submit Queue.reserve Queue.new Spool.reserve Spool.new Spool.adopt lookup insert
    adopt_audio adopted Spool.transfer audio_size
submit_fails = refl

submit_unwinds_example : (submit idle broken_copy asked batch).0 ≡ idle
submit_unwinds_example =
    submit_unwinds idle _ broken_copy asked batch Code.internal (unfold Spool.new in tt)
      (refl, λ e. cc) submit_fails
