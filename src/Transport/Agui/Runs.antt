-- ===== src/Transport/Agui/Runs.antt =====
-- The run and the thread that the events of a stream name, and a closed stream.
use open_bbc.Llm.{Bytes}
use open_bbc.Base.{String, Bool, ◌∙◌, false, true, Bool-cases, inl, inr, ◌≡◌, refl, List, [], ◌∷◌}
use open_bbc.Transport.{
  Event, session_start, text_start, text_delta, text_end, tool_call_start, tool_call_args,
  tool_call_end, tool_result, step_started, step_finished, artifact_ref, turn_end, error,
}
use open_bbc.Transport.Agui.{
  AguiEvent, run_started, run_finished, run_error, Sink, Wire, translate, send, send_all, close,
}

-- The run and thread that the event names, if it names any, are these.
abbrev pub IsOfRun : (thread run : String) → AguiEvent → Type 0
IsOfRun thread run (run_started t r) = (t ≡ thread) × (r ≡ run)
IsOfRun thread run (run_finished t r) = (t ≡ thread) × (r ≡ run)
IsOfRun thread run (run_error m c r) = r ≡ run
IsOfRun thread run ev = Unit

abbrev pub is_start : Event → Bool
is_start (session_start s a) = true
is_start ev = false

-- No event starts a session.
abbrev pub StartsNone : List Event → Type 0
StartsNone [] = Unit
StartsNone (ev ∷ evs) = (is_start ev ≡ false) × StartsNone evs

translate-IsOfRun :
    (payload : Bytes → Bool → Bytes) (thread run : String) (s : Sink) (ev : Event)
    → s.thread_id ≡ thread
    → s.run_id ≡ run
    → is_start ev ≡ false
    → IsOfRun thread run (translate payload s ev).0 × ((translate payload s ev).1 ≡ s)
unfolding translate
translate-IsOfRun payload thread run s (session_start i a) t u h = absurd (cc h)
translate-IsOfRun payload thread run s (text_start i) t u h = (tt, refl)
translate-IsOfRun payload thread run s (text_delta i d) t u h = (tt, refl)
translate-IsOfRun payload thread run s (text_end i) t u h = (tt, refl)
translate-IsOfRun payload thread run s (tool_call_start i n c) t u h = (tt, refl)
translate-IsOfRun payload thread run s (tool_call_args i a c) t u h = (tt, refl)
translate-IsOfRun payload thread run s (tool_call_end i c) t u h = (tt, refl)
translate-IsOfRun payload thread run s (tool_result i r e c) t u h = (tt, refl)
translate-IsOfRun payload thread run s (step_started n i c d) t u h = (tt, refl)
translate-IsOfRun payload thread run s (step_finished n i c e) t u h = (tt, refl)
translate-IsOfRun payload thread run s (artifact_ref i r) t u h = (tt, refl)
translate-IsOfRun payload thread run s (turn_end r i o) t u h = ((t, u), refl)
translate-IsOfRun payload thread run s (error c m) t u h = (u, refl)

module _ {W : Type 0} (wire : Wire W) where
  -- After Close, no list of events changes what is on the stream.
  pub send_all-close :
      (s : Sink) (w : W) (evs : List Event) → send_all wire (close s) w evs ≡ (close s, w)
  unfolding send_all send close
  send_all-close s w [] = refl
  send_all-close s w (ev ∷ evs) = send_all-close s w evs

  module _ (thread run : String) (P : W → Type 0)
      (written : (w : W) (ev : AguiEvent)
        → IsOfRun thread run ev
        → P w
        → P (wire.write_event w ev).1)
      (flushed : (w : W) → P w → P (wire.flush w)) where
    -- `Send` of an open sink, where the translated event is of the run.
    send-Keeps :
        (s : Sink) (w : W) (ev : Event)
        → s.closed ≡ false
        → IsOfRun thread run (translate wire.payload s ev).0
        → P w
        → P (send wire s w ev).2 × ((send wire s w ev).1 ≡ (translate wire.payload s ev).1)
    unfolding send
    send-Keeps s w ev opened r p =
        let q = written w (translate wire.payload s ev).0 r p in
        elim (Bool-cases (wire.write_event w (translate wire.payload s ev).0).0) [
          | inl e ↦
              simp (opened, e)
                (flushed (wire.write_event w (translate wire.payload s ev).0).1 q, refl)
          | inr e ↦ simp (opened, e) (q, refl)
        ]

    send_all-Keeps :
        (s : Sink) (w : W) (evs : List Event)
        → s.closed ≡ false
        → s.thread_id ≡ thread
        → s.run_id ≡ run
        → StartsNone evs
        → P w
        → P (send_all wire s w evs).1
    unfolding send_all
    send_all-Keeps s w [] opened t r h p = p
    send_all-Keeps s w (ev ∷ evs) opened t r (e, h) p =
        let (named, same) = translate-IsOfRun wire.payload thread run s ev t r e in
        let (q, next) = send-Keeps s w ev opened named p in
        rw (next ∙ same, send_all) (send_all-Keeps s (send wire s w ev).2 evs opened t r h q)

-- Where a turn's events begin with the start of a session and start no other, each RUN_STARTED,
-- RUN_FINISHED and RUN_ERROR that an open sink writes names that session and the sink's own run,
-- whichever writes fail: a property of the stream that the writing of such events and the flusher
-- keep holds afterwards.
pub send_all-IsOfRun :
    {W : Type 0} (wire : Wire W) (s : Sink) (session agent : String) (evs : List Event) (w : W)
    (P : W → Type 0)
    → ((w : W) (ev : AguiEvent) → IsOfRun session s.run_id ev → P w → P (wire.write_event w ev).1)
    → ((w : W) → P w → P (wire.flush w))
    → s.closed ≡ false
    → StartsNone evs
    → P w
    → P (send_all wire s w (session_start session agent ∷ evs)).1
unfolding send_all translate
send_all-IsOfRun wire s session agent evs w P written flushed opened h p =
    let start = session_start session agent in
    let (q, next) =
      send-Keeps wire session s.run_id P written flushed s w start opened (refl, refl) p in
    rw (next, send_all)
      (send_all-Keeps wire session s.run_id P written flushed (translate wire.payload s start).1
        (send wire s w start).2 evs opened refl refl h q)
