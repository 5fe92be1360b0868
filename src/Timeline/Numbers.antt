-- ===== src/Timeline/Numbers.antt =====
-- The numbers of the events of a stream.
use mathlib.Core.Path.{subst}
use apanel.Base.{
  ℕ, ◌+◌, ◌≤◌, ◌<◌, ◌≡◌, refl, inl, inr, Bool, true, false, Option, List, [], ◌∷◌, ◌++◌, arith,
  Bool-cases, length, ok,
}
use apanel.Alerts.Service.Records.{EventKind}
use apanel.Timeline.Records.{Observed, Fact, TimelineEvent, Timeline}
use apanel.Timeline.Publish.{
  is_replaced, previous_through, invalidate, numbered, rewritten, replace_suffix, is_stale, publish,
}

-- The numbers of the events rise strictly, from above `low` up to at most `top`.
abbrev pub Rises : ℕ → List TimelineEvent → ℕ → Type 0
Rises low [] top = low ≤ top
Rises low (e ∷ l) top = (low < e.stream_seq) × Rises e.stream_seq l top

Rises-numbered :
    (previous : Option ℕ) (seq : ℕ) (es : List (Fact × EventKind))
    → Rises seq (numbered previous seq es) (seq + length es)
unfolding numbered
Rises-numbered previous seq [] = omega arith
Rises-numbered previous seq ((f, k) ∷ es) = (
  omega arith,
  subst (Rises (seq + 1) (numbered previous (seq + 1) es)) (omega arith)
      (Rises-numbered previous (seq + 1) es),
)

Rises-append :
    (low : ℕ) (l : List TimelineEvent) (mid : ℕ) (m : List TimelineEvent) (top : ℕ)
    → Rises low l mid
    → Rises mid m top
    → Rises low (l ++ m) top
Rises-append low [] mid [] top h g = omega (arith, h, g)
Rises-append low [] mid (e ∷ m) top h (g, r) = (omega (arith, h, g), r)
Rises-append low (e ∷ l) mid m top (h, r) g = (h, Rises-append e.stream_seq l mid m top r g)

Rises-invalidate :
    (start : Option ℕ) (until low : ℕ) (l : List TimelineEvent) (top : ℕ)
    → Rises low l top
    → Rises low (invalidate start until l) top
unfolding invalidate
Rises-invalidate start until low [] top h = h
Rises-invalidate start until low (e ∷ l) top (h, r) =
    elim (Bool-cases (is_replaced start until e)) [
      | inl replaced ↦ rw replaced (h, Rises-invalidate start until e.stream_seq l top r)
      | inr kept ↦ rw kept (h, Rises-invalidate start until e.stream_seq l top r)
    ]

rewritten-Rises :
    (unchanged : Bool) (start : Option ℕ) (until : ℕ) (events : List (Fact × EventKind))
    (t : Timeline)
    → Rises 0 t.events t.event_sequence
    → let rows = rewritten unchanged start until events t in
      Rises 0 rows.0 (t.event_sequence + rows.1)
unfolding rewritten
rewritten-Rises true start until events t h = subst (Rises 0 t.events) (omega arith) h
rewritten-Rises false start until events t h =
    Rises-append 0 (invalidate start until t.events) t.event_sequence
      (numbered (previous_through t.current) t.event_sequence events)
      (t.event_sequence + length events)
      (Rises-invalidate start until 0 t.events t.event_sequence h)
      (Rises-numbered (previous_through t.current) t.event_sequence events)

-- A publication whose target day is not before the current states returns. If the numbers of the
-- events rose strictly up to the event sequence before, they do so after, and the event sequence
-- has grown by the number of events that the publication reports.
pub publish-Rises :
    (observations : List Observed) (start : Option ℕ) (until : ℕ) (t : Timeline)
    → is_stale until t ≡ false
    → Rises 0 t.events t.event_sequence
    → (t' : Timeline) × (written : ℕ) × (publish observations start until t ≡ ok (t', written))
      × Rises 0 t'.events t'.event_sequence
      × (t'.event_sequence ≡ t.event_sequence + written)
unfolding publish replace_suffix
publish-Rises observations start until t fresh h =
    let out = replace_suffix observations start until t in
    (out.0, out.1, rw fresh refl, rewritten-Rises _ start until _ t h, refl)
