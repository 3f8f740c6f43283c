-- ===== src/Jobs/Hub/Replay.antt =====
-- internal/job/hub.go: the replay buffer of a topic, and what a new subscriber is sent first.
use Prim.Native.Nat.{max}
use mathlib.Core.List.{map-append}
use nano_asr.Prelude.{
  ℕ, zero, suc, ◌+◌, ◌-◌, ◌≤◌, ◌<◌, ◌≡◌, refl, sym, ap, ◌∙◌, false, List, [], ◌∷◌, ◌++◌, map, some,
  arith, length, length-append, drop, length-drop, lookup, Entries, Entries-insert, Entries-delete,
  Entries-lookup, Option-cases, inl, inr, Bool-cases, ltb, ℕ_discrete, lookup-insert_self,
}
use native.Mathlib.Decide.{dec_le, dec_lt}
use mathlib.Core.Path.{subst}
use nano_asr.Core.{Bytes, bytes_discrete, Job}
use nano_asr.Jobs.Record.{terminal}
use nano_asr.Jobs.Hub.Runs.{Op, publishes, subscribes, unsubscribes, receives, apply, run}
use nano_asr.Jobs.Hub.{
  Chan, Event, Topic, Hub, new_hub, push_ring, topic_for, publish_on, publish, replay, subscribe,
  unsubscribe, receive, has,
}

-- n + 1, …, n + k
abbrev pub range : ℕ → ℕ → List ℕ
range n zero = []
range n (suc k) = (n + 1) ∷ range (n + 1) k

abbrev pub seqs : List Event → List ℕ
seqs = map (λ ev. ev.seq)

range-eq : {m n : ℕ} (j k : ℕ) → m ≡ n → j ≡ k → range m j ≡ range n k
range-eq j k e f = cc

range-snoc : (n k : ℕ) → range n k ++ (n + k + 1) ∷ [] ≡ range n (suc k)
range-snoc n zero = ground arith
range-snoc n (suc k) =
    let e : n + suc k + 1 ≡ n + 1 + k + 1 = omega arith in
    rw e (ap (◌∷◌ (n + 1)) (range-snoc (n + 1) k))

drop-range : (d n k : ℕ) → d ≤ k → drop d (range n k) ≡ range (n + d) (k - d)
drop-range zero n k h = range-eq k (k - 0) (omega arith) (omega arith)
drop-range (suc d) n zero h = absurd (omega arith)
drop-range (suc d) n (suc k) h =
    drop-range d (n + 1) k (omega arith)
    ∙ range-eq (k - d) (suc k - suc d) (omega arith) (omega arith)

drop-map : (d : ℕ) (xs : List Event) → drop d (seqs xs) ≡ seqs (drop d xs)
drop-map zero xs = refl
drop-map (suc d) [] = refl
drop-map (suc d) (x ∷ xs) = drop-map d xs

-- The ring holds the latest events, as many as have been published and fit.
pub record IsRing (size : ℕ) (t : Topic) : Type 0 where
  pub dropped : ℕ
  pub numbered : seqs t.ring ≡ range dropped (length t.ring)
  pub latest : dropped + length t.ring ≡ t.seq
  pub fits : length t.ring ≤ size
  pub full : 0 < dropped → length t.ring ≡ size

module _ (size : ℕ) (t : Topic) (j : Job) (subs : List ℕ) where
  abbrev event : Event
  event = record { seq = t.seq + 1; job = j }

  -- The topic with one more event.
  abbrev extended : Topic
  extended = record { seq = t.seq + 1; ring = push_ring size t.ring event; last = j; subs = subs }

  abbrev all : List Event
  all = t.ring ++ event ∷ []

  length-all : length all ≡ suc (length t.ring)
  length-all = omega (arith, length-append t.ring (event ∷ []))

  seqs-all : (r : IsRing size t) → seqs all ≡ range r.dropped (suc (length t.ring))
  seqs-all r =
      let e : t.seq + 1 ≡ r.dropped + length t.ring + 1 = omega (arith, r.latest) in
      map-append _ t.ring (event ∷ []) ∙ rw (r.numbered, e) (range-snoc r.dropped (length t.ring))

  push-IsRing : 1 ≤ size → IsRing size t → IsRing size extended
  unfolding push_ring
  push-IsRing h r = elim (Bool-cases (ltb size (length all))) [
    | inr room ↦
        let kept : push_ring size t.ring event ≡ all = rw (push_ring, room) refl in
        record {
          dropped = r.dropped;
          numbered = rw kept (seqs-all r ∙ range-eq _ _ refl (sym length-all));
          latest = rw kept (omega (arith, length-all, r.latest));
          fits = rw kept (ground (arith, length-all));
          full = rw kept (λ p. ground (arith, length-all, r.full p));
        }
    | inl over ↦
        let k : ℕ = length all - size in
        let one : length all - size ≡ 1 = ground (arith, length-all, r.fits) in
        let cut : push_ring size t.ring event ≡ drop 1 all = rw (push_ring, over, one) refl in
        let len : length (drop 1 all) ≡ length t.ring =
          omega (arith, length-drop 1 all, length-all) in
        record {
          dropped = r.dropped + 1;
          numbered = rw (cut, len) (sym (drop-map 1 all) ∙ ap (drop 1) (seqs-all r));
          latest = rw cut (omega (arith, len, r.latest));
          fits = rw cut (omega (arith, len, r.fits));
          full = rw cut (λ p. ground (arith, len, length-all, r.fits));
        }
  ]

pub record Rings (h : Hub) : Type 0 where
  pub positive : 1 ≤ h.ring
  pub each : Entries (λ _ t. IsRing h.ring t) h.topics

-- The invariant reads nothing of the hub but its ring size and topics, and of a topic but its ring.
SameRing-IsRing :
    (size : ℕ) (t u : Topic) → u.seq ≡ t.seq → u.ring ≡ t.ring → IsRing size t → IsRing size u
SameRing-IsRing size t u e f r = record {
  dropped = r.dropped;
  numbered = rw f r.numbered;
  latest = rw (e, f) r.latest;
  fits = rw f r.fits;
  full = rw f r.full;
}

new_hub-Rings : (ring : ℕ) → Rings (new_hub ring)
unfolding new_hub
new_hub-Rings ring = record { positive = ground arith; each = tt }

empty-IsRing :
    (size : ℕ) (j : Job) → IsRing size (record { seq = 0; ring = []; last = j; subs = [] })
empty-IsRing size j = record {
  dropped = 0;
  numbered = refl;
  latest = omega arith;
  fits = omega arith;
  full = λ p. absurd (omega arith);
}

publish_on-Rings :
    (h : Hub) (j : Job) (t : Topic) → IsRing h.ring t → Rings h → Rings (publish_on h j t)
unfolding publish_on
publish_on-Rings h j t r v = elim (Bool-cases (terminal j.status)) [
  | inl over ↦ rw over (record {
    positive = v.positive;
    each = Entries-delete bytes_discrete _ j.id h.topics v.each;
  })
  | inr goes_on ↦ rw goes_on (record {
    positive = v.positive;
    each =
        Entries-insert bytes_discrete _ j.id _ h.topics (push-IsRing h.ring t j _ v.positive r)
          v.each;
  })
]

topic_for-IsRing :
    (h : Hub) (j : Job) (t : Topic) → topic_for h j ≡ some t → Rings h → IsRing h.ring t
unfolding topic_for
topic_for-IsRing h j t e v = elim (Option-cases (lookup bytes_discrete j.id h.topics)) [
  | inl new ↦
      let made : record { seq = 0; ring = []; last = j; subs = [] } ≡ t = ground arith in
      subst (IsRing h.ring) made (empty-IsRing h.ring j)
  | inr (u, found) ↦
      let same : u ≡ t = ground arith in
      subst (IsRing h.ring) same (Entries-lookup bytes_discrete _ j.id u h.topics v.each found)
]

publish-Rings : (h : Hub) (j : Job) → Rings h → Rings (publish h j)
unfolding publish
publish-Rings h j v = elim (Option-cases (topic_for h j)) [
  | inl over ↦ rw (over, publish) v
  | inr (t, found) ↦ rw (found, publish) (publish_on-Rings h j t (topic_for-IsRing h j t found v) v)
]

subscribe-Rings : (h : Hub) (id : Bytes) (after : ℕ) → Rings h → Rings (subscribe h id after).0
unfolding subscribe
subscribe-Rings h id after v = elim (Option-cases (lookup bytes_discrete id h.topics)) [
  | inl missing ↦ rw (missing, subscribe) v
  | inr (t, found) ↦
      rw (found, subscribe)
        (record {
          positive = v.positive;
          each =
              Entries-insert bytes_discrete _ id _ h.topics
                (SameRing-IsRing h.ring t _ refl refl
                  (Entries-lookup bytes_discrete _ id t h.topics v.each found))
                v.each;
        })
]

unsubscribe-Rings : (h : Hub) (id : Bytes) (ch : ℕ) → Rings h → Rings (unsubscribe h id ch)
unfolding unsubscribe
unsubscribe-Rings h id ch v = elim (Option-cases (lookup bytes_discrete id h.topics)) [
  | inl missing ↦ rw (missing, unsubscribe) v
  | inr (t, found) ↦ elim (Bool-cases (has ch t.subs)) [
    | inr gone ↦ rw (found, unsubscribe) (rw gone v)
    | inl there ↦
        rw (found, unsubscribe)
          (rw there (record {
            positive = v.positive;
            each =
                Entries-insert bytes_discrete _ id _ h.topics
                  (SameRing-IsRing h.ring t _ refl refl
                    (Entries-lookup bytes_discrete _ id t h.topics v.each found))
                  v.each;
          }))
  ]
]

receive-topics :
    (h : Hub) (ch : ℕ) → ((receive h ch).0.topics ≡ h.topics) × ((receive h ch).0.ring ≡ h.ring)
unfolding receive
receive-topics h ch = ground arith

receive-Rings : (h : Hub) (ch : ℕ) → Rings h → Rings (receive h ch).0
receive-Rings h ch v =
    let (topics, ring) = receive-topics h ch in
    record { positive = rw ring v.positive; each = rw (topics, ring) v.each }

apply-Rings : (h : Hub) (o : Op) → Rings h → Rings (apply h o)
unfolding apply
apply-Rings h (publishes j) v = publish-Rings h j v
apply-Rings h (subscribes id after) v = subscribe-Rings h id after v
apply-Rings h (unsubscribes id ch) v = unsubscribe-Rings h id ch v
apply-Rings h (receives ch) v = receive-Rings h ch v

run_from-Rings : (h : Hub) (os : List Op) → Rings h → Rings (run h os)
unfolding run
run_from-Rings h [] v = v
run_from-Rings h (o ∷ os) v = run_from-Rings (apply h o) os (apply-Rings h o v)

pub run-Rings : (ring : ℕ) (os : List Op) → Rings (run (new_hub ring) os)
run-Rings ring os = run_from-Rings _ os (new_hub-Rings ring)

replay_skip :
    (after room : ℕ) (ev : Event) (evs : List Event)
    → ev.seq ≤ after
    → replay after room (ev ∷ evs) ≡ replay after room evs
unfolding replay
replay_skip after room ev evs h = ground arith

replay_keep :
    (after room : ℕ) (ev : Event) (evs : List Event)
    → after < ev.seq
    → 0 < room
    → replay after room (ev ∷ evs) ≡ ev ∷ replay after (room - 1) evs
unfolding replay
replay_keep after room ev evs h k = ground arith

seqs-replay :
    (after room n : ℕ) (evs : List Event)
    → seqs evs ≡ range n (length evs)
    → length evs ≤ room
    → seqs (replay after room evs) ≡ range (max after n) (n + length evs - max after n)
seqs-replay after room n [] e h =
    let none_left : 0 ≡ n + 0 - max after n = omega arith in
    unfold replay in (rw (← none_left) refl)
seqs-replay after room n (ev ∷ evs) e h =
    let first : ev.seq ≡ n + 1 = cc in
    let others : seqs evs ≡ range (n + 1) (length evs) = cc in
    elim (dec_le ev.seq after) [
      | yes old ↦ rw (replay_skip after room ev evs old) (
          seqs-replay after room (n + 1) evs others (omega arith)
          ∙ range-eq _ _ (omega arith) (omega arith))
      | no new ↦
          let count : n + suc (length evs) - max after n ≡ suc (length evs) = omega arith in
          let top : max after n ≡ n = omega arith in
          rw (replay_keep after room ev evs (omega arith) (omega arith), count, top, first)
            (ap (◌∷◌ (n + 1)) (
              seqs-replay after (room - 1) (n + 1) evs others (omega arith)
              ∙ range-eq _ _ (omega arith) (omega arith)))
    ]

dropped-eq : (size : ℕ) (t : Topic) (r : IsRing size t) → r.dropped ≡ t.seq - size
dropped-eq size t r = elim (dec_lt 0 r.dropped) [
  | yes some_gone ↦ omega (arith, r.latest, r.full some_gone)
  | no none_gone ↦ omega (arith, r.latest, r.fits)
]

-- After any run of the hub, the channel of a new subscriber that has seen the transitions up to
-- `after` is open and holds, in order and each once, the numbers of the later ones among the latest
-- ones of the job, as many as the ring has places.
pub subscribe_replays :
    (ring : ℕ) (os : List Op) (id : Bytes) (after : ℕ) (t : Topic)
    → let h = run (new_hub ring) os in
      lookup bytes_discrete id h.topics ≡ some t
      → (c : Chan) × (lookup ℕ_discrete h.next_chan (subscribe h id after).0.chans ≡ some c)
        × ((subscribe h id after).1 ≡ some h.next_chan)
        × (c.closed ≡ false)
        × (seqs c.buffer ≡ (let from = max after (t.seq - h.ring) in range from (t.seq - from)))
unfolding subscribe
subscribe_replays ring os id after t e =
    let h : Hub = run (new_hub ring) os in
    let v = run-Rings ring os in
    let r = Entries-lookup bytes_discrete _ id t h.topics v.each e in
    let gone : r.dropped ≡ t.seq - h.ring = dropped-eq h.ring t r in
    (
      record {
        job = id;
        cap = h.ring + 8;
        buffer = replay after (h.ring + 8) t.ring;
        closed = false;
      },
      rw (e, subscribe) (lookup-insert_self ℕ_discrete h.next_chan _ h.chans),
      rw (e, subscribe) refl,
      refl,
      seqs-replay after (h.ring + 8) r.dropped t.ring r.numbered (omega (arith, r.fits))
          ∙ range-eq _ _ (omega (arith, gone)) (omega (arith, gone, r.latest)),
    )
