-- ===== src/Jobs/Hub.antt =====
-- internal/job/hub.go: the stream of job transitions. Each function is one critical section.
--
-- A channel is a bounded buffer with a closed flag, kept in `chans` under the number it was made
-- with; `job` is the job id that the cancel function of its subscriber has captured. Where Go would
-- panic, on a send to a closed channel or a second close, the hub is marked `panicked`. A topic's
-- subscribers stand in a list; the source walks a map, whose order is unspecified, and nothing
-- below depends on it.
pub mod Runs
pub mod Replay
use Prim.Native.String.{String}
use nano_asr.Prelude.{
  ℕ, zero, suc, ◌+◌, ◌-◌, ◌<◌, ◌||◌, Bool, true, false, List, [], ◌∷◌, ◌++◌, Option, none, some,
  ltb, leb, lookup, insert, delete, if◌then◌else◌, ite, length, drop, ℕ_discrete,
}
use nano_asr.Core.{Bytes, bytes_discrete, Job, JobStatus, running}
use nano_asr.Jobs.Record.{terminal}

pub record Event : Type 0 where
  pub seq : ℕ
  pub job : Job

pub record Chan : Type 0 where
  pub job : Bytes
  pub cap : ℕ
  pub buffer : List Event
  pub closed : Bool

pub record Topic : Type 0 where
  pub seq : ℕ
  pub ring : List Event
  pub last : Job
  pub subs : List ℕ

pub record Hub : Type 0 where
  pub topics : List (Bytes × Topic)
  pub ring : ℕ
  pub chans : List (ℕ × Chan)
  pub next_chan : ℕ
  pub panicked : Bool

-- NewHub
unfoldable pub new_hub : ℕ → Hub
new_hub ring = record {
  topics = [];
  ring = if ltb ring 1 then 16 else ring;
  chans = [];
  next_chan = 0;
  panicked = false;
}

-- The state of the channels: what they hold, and whether an operation on one has panicked.
pub record Chans : Type 0 where
  pub chans : List (ℕ × Chan)
  pub panicked : Bool

-- `select { case ch <- ev: default: }`, and whether the send was made.
unfoldable pub try_send : Chans → ℕ → Event → Chans × Bool
try_send s ch ev = elim (lookup ℕ_discrete ch s.chans) [
  | none ↦ (s, false)
  | some c ↦
      if c.closed
      then (record s { panicked = true }, false)
      else if ltb (length c.buffer) c.cap
      then (
        record s {
          chans = insert ℕ_discrete ch (record c { buffer = c.buffer ++ ev ∷ [] }) s.chans;
        },
        true,
      )
      else (s, false)
]

-- close(ch)
unfoldable pub close : Chans → ℕ → Chans
close s ch = elim (lookup ℕ_discrete ch s.chans) [
  | none ↦ record s { panicked = true }
  | some c ↦
      if c.closed
      then record s { panicked = true }
      else record s { chans = insert ℕ_discrete ch (record c { closed = true }) s.chans }
]

-- The loop of Publish over the subscribers: one that cannot keep up is dropped and closed.
unfoldable pub deliver : Event → List ℕ → Chans → List ℕ × Chans
unfolding try_send close
deliver ev [] s = ([], s)
deliver ev (ch ∷ chs) s =
    let (s', sent) = try_send s ch ev in
    let (kept, s'') = deliver ev chs (if sent then s' else close s' ch) in
    (if sent then ch ∷ kept else kept, s'')

unfoldable pub close_all : List ℕ → Chans → Chans
unfolding close
close_all [] s = s
close_all (ch ∷ chs) s = close_all chs (close s ch)

-- The ring's `append` and cut.
unfoldable pub push_ring : ℕ → List Event → Event → List Event
push_ring size ring ev =
    let all : List Event = ring ++ ev ∷ [] in
    if ltb size (length all) then drop (length all - size) all else all

-- The topic of a job, made if the job is not over.
unfoldable pub topic_for : Hub → Job → Option Topic
topic_for h j = elim (lookup bytes_discrete j.id h.topics) [
  | some t ↦ some t
  | none ↦
      if terminal j.status then none else some (record { seq = 0; ring = []; last = j; subs = [] })
]

-- The rest of Publish, on the job's topic.
unfoldable pub publish_on : Hub → Job → Topic → Hub
unfolding deliver close_all push_ring
publish_on h j t =
    let ev : Event = record { seq = t.seq + 1; job = j } in
    let (subs, s) = deliver ev t.subs (record { chans = h.chans; panicked = h.panicked }) in
    let t' : Topic = record {
      seq = t.seq + 1;
      ring = push_ring h.ring t.ring ev;
      last = j;
      subs = subs;
    } in
    if terminal j.status
    then record h {
      topics = delete bytes_discrete j.id h.topics;
      chans = (close_all subs s).chans;
      panicked = (close_all subs s).panicked;
    }
    else record h {
      topics = insert bytes_discrete j.id t' h.topics;
      chans = s.chans;
      panicked = s.panicked;
    }

unfoldable pub publish : Hub → Job → Hub
publish h j = elim (topic_for h j) [ none ↦ h | some t ↦ publish_on h j t ]

abbrev is_running : JobStatus → Bool
is_running running = true
is_running _ = false

-- The critical section of Stage, and the job that it publishes afterwards.
unfoldable pub stage_job : Hub → Bytes → String → ℕ → Option Job
stage_job h id stage percent = elim (lookup bytes_discrete id h.topics) [
  | none ↦ none
  | some t ↦
      if is_running t.last.status
      then some (record t.last { stage = stage; percent = percent })
      else none
]

-- Stage, where nothing comes between its two critical sections.
unfoldable pub stage : Hub → Bytes → String → ℕ → Hub
stage h id s percent = elim (stage_job h id s percent) [ none ↦ h | some j ↦ publish h j ]

-- The replay of Subscribe, into a channel with room for `room` events.
unfoldable pub replay : ℕ → ℕ → List Event → List Event
replay after room [] = []
replay after room (ev ∷ evs) =
    let skip : List Event = replay after room evs in
    let keep : List Event = ev ∷ replay after (room - 1) evs in
    if leb ev.seq after then skip else if ltb 0 room then keep else skip

-- Subscribe: the channel, or nothing if the job has no topic.
unfoldable pub subscribe : Hub → Bytes → ℕ → Hub × Option ℕ
unfolding replay
subscribe h id after = elim (lookup bytes_discrete id h.topics) [
  | none ↦ (h, none)
  | some t ↦
      let ch : ℕ = h.next_chan in
      let c : Chan = record {
        job = id;
        cap = h.ring + 8;
        buffer = replay after (h.ring + 8) t.ring;
        closed = false;
      } in
      (
        record h {
          topics = insert bytes_discrete id (record t { subs = ch ∷ t.subs }) h.topics;
          chans = insert ℕ_discrete ch c h.chans;
          next_chan = ch + 1;
        },
        some ch,
      )
]

unfoldable pub has : ℕ → List ℕ → Bool
has ch [] = false
has ch (x ∷ xs) = ite (ℕ_discrete x ch) true (has ch xs)

unfoldable pub drop_sub : ℕ → List ℕ → List ℕ
drop_sub ch [] = []
drop_sub ch (x ∷ xs) = ite (ℕ_discrete x ch) xs (x ∷ drop_sub ch xs)

-- The cancel function of a channel, with the job id that it captured.
unfoldable pub unsubscribe : Hub → Bytes → ℕ → Hub
unfolding has drop_sub close
unsubscribe h id ch = elim (lookup bytes_discrete id h.topics) [
  | none ↦ h
  | some t ↦
      if has ch t.subs
      then (let s : Chans = close (record { chans = h.chans; panicked = h.panicked }) ch in
          record h {
            topics = insert bytes_discrete id (record t { subs = drop_sub ch t.subs }) h.topics;
            chans = s.chans;
            panicked = s.panicked;
          })
      else h
]

-- The reader of a channel takes its oldest event.
unfoldable pub receive : Hub → ℕ → Hub × Option Event
receive h ch = elim (lookup ℕ_discrete ch h.chans) [
  | none ↦ (h, none)
  | some c ↦ elim c.buffer [
    | [] ↦ (h, none)
    | ev ∷ evs ↦
        (record h { chans = insert ℕ_discrete ch (record c { buffer = evs }) h.chans }, some ev)
  ]
]

unfoldable pub watching : Hub → ℕ
watching h = length h.topics

-- stagePercent; a stage that is not listed gets 0.
pub data Stage : Type 0 where
  decode vad asr assemble other : Stage

unfoldable pub stage_percent : Stage → ℕ
stage_percent decode = 10
stage_percent vad = 25
stage_percent asr = 40
stage_percent assemble = 95
stage_percent other = 0
