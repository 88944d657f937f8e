-- ===== src/Tests/Agui.antt =====
-- The AG-UI sink (open-bbcd/internal/transport/agui) on a stream that keeps its events, latest first.
use open_bbc.Base.{String, ◌≡◌, refl, true, false, List, [], ◌∷◌}
use open_bbc.Transport.{Event, session_start, text_delta, tool_call_start, turn_end}
use open_bbc.Transport.Agui.{AguiEvent, Sink, Wire, child_tool_call_id, send_all, close}
use open_bbc.Transport.Agui.Ids.{child_tool_call_id-inj}
use open_bbc.Transport.Agui.Runs.{IsOfRun, send_all-IsOfRun, send_all-close}

abbrev kept : Wire (List AguiEvent)
kept = record { write_event = λ w ev. (true, ev ∷ w); flush = λ w. w; payload = λ r e. r }

abbrev fresh_sink : Sink
fresh_sink = record { closed = false; run_id = "r1"; thread_id = "" }

abbrev AllOfRun : List AguiEvent → Type 0
AllOfRun [] = Unit
AllOfRun (ev ∷ evs) = IsOfRun "s1" "r1" ev × AllOfRun evs

abbrev three_events : List Event
three_events = text_delta "m" "hi" ∷ tool_call_start "t1" "get" "" ∷ turn_end "end_turn" 1 2 ∷ []

send_all-IsOfRun_example :
    AllOfRun (send_all kept fresh_sink [] (session_start "s1" "a1" ∷ three_events)).1
send_all-IsOfRun_example =
    send_all-IsOfRun kept fresh_sink "s1" "a1" three_events [] (λ w. AllOfRun w)
      (λ w ev r p. (r, p)) (λ w p. p) refl (refl, (refl, (refl, tt))) tt

send_all-close_example :
    send_all kept (close fresh_sink) [] (session_start "s1" "a1" ∷ three_events)
    ≡ (close fresh_sink, [])
send_all-close_example = send_all-close kept fresh_sink [] (session_start "s1" "a1" ∷ three_events)

abbrev child : String
child = "s2"

abbrev call_id : String
call_id = "t1"

same_ids : child_tool_call_id child call_id ≡ "s2:t1"
unfolding child_tool_call_id
same_ids = refl

child_tool_call_id-inj_example : (child ≡ "s2") × (call_id ≡ "t1")
child_tool_call_id-inj_example =
    child_tool_call_id-inj child "s2" call_id "t1" (refl, (refl, tt)) (refl, (refl, tt))
      (λ e. (refl, (refl, tt))) (λ e. (refl, (refl, tt))) refl
