-- ===== src/Chat/Round/Keeps.antt =====
-- The effects of one round of `Turn` (open-bbcd/internal/chat/orchestrator.go).
use open_bbc.Base.{ℕ, String, ◌≡◌, Option, none, some, List}
use open_bbc.Llm
use open_bbc.Llm.{Bytes, Block, Message, Request, ToolUse, ToolResult, ArtifactRef}
use open_bbc.Transport
use open_bbc.Chat.Render
use open_bbc.Chat.Render.{Cache, Pass, Rendering, render_artifacts}
use open_bbc.Chat.Stream.{new_round, on_events}
use open_bbc.Chat.Env.{
  Error, Outcome, ok, err, panicked, Content, Env, generated, State, Io, ◌>>=◌, lift, log, Sink,
  send, send_all,
}
use open_bbc.Chat.Env.Run.{continue-eq-ok}
use open_bbc.Chat.Env.Keeps.{
  Passes, Traced, Keeps, >>=-Keeps, >>-Keeps, pure-Keeps, raise-Keeps, log-Keeps, lift-Keeps,
  send-Keeps, send_all-Keeps, continue-Traced,
}
use open_bbc.Chat.Stored.{Encoded, encoded, failed}
use open_bbc.Chat.Round.{encode, report, or_fail, of_rendering, drain, stream_round}

module _ {W : Type 0} (S : Transport.Event → Type 0) (G : Request → Type 0) where
  report-Traced :
      {A : Type 0} (sink : Sink)
      → Passes S sink
      → (code : String) (r : Outcome A × State W) → Traced S G r.1
      → Traced S G (report sink code r).1
  unfolding report
  report-Traced sink p code (ok a, s) h = h
  report-Traced sink p code (err e, s) h =
      continue-Traced S G (send sink (Transport.error code e.message) s) _
        ((send-Keeps S G sink p (Transport.error code e.message)).kept s h)
        (λ _ _ _. raise-Keeps S G e)
  report-Traced sink p code (panicked, s) h = h

  pub or_fail-Keeps :
      {A : Type 0} (sink : Sink)
      → Passes S sink
      → (code : String) (m : Io W A) → Keeps S G m
      → Keeps S G (or_fail sink code m)
  unfolding or_fail
  or_fail-Keeps sink p code m k = record {
    kept = λ s h. report-Traced sink p code (m s) (k.kept s h);
  }

  report-eq-ok :
      {A : Type 0} (sink : Sink) (code : String) (r : Outcome A × State W) (t : State W) (a : A)
      → report sink code r ≡ (ok a, t)
      → r ≡ (ok a, t)
  unfolding report
  report-eq-ok sink code (ok b, s) t a h = h
  report-eq-ok sink code (err e, s) t a h =
      let (_, _, _, h') = continue-eq-ok (send sink (Transport.error code e.message) s) _ h in cc
  report-eq-ok sink code (panicked, s) t a h = cc

  pub or_fail-eq-ok :
      {A : Type 0} (sink : Sink) (code : String) (m : Io W A) (s t : State W) (a : A)
      → or_fail sink code m s ≡ (ok a, t)
      → m s ≡ (ok a, t)
  unfolding or_fail
  or_fail-eq-ok sink code m s t a h = report-eq-ok sink code (m s) t a h

  pub encode-Keeps : (e : Encoded Content) → Keeps {W = W} S G (encode e)
  encode-Keeps (encoded c) = record { kept = λ s h. h }
  encode-Keeps (failed e) = record { kept = λ s h. h }

  of_rendering-Keeps : (env : Env W) (r : Rendering (List Message)) → Keeps S G (of_rendering env r)
  unfolding of_rendering
  of_rendering-Keeps env (Render.ok ms p) = record { kept = λ s h. h }
  of_rendering-Keeps env Render.err = record { kept = λ s h. h }

  pub of_rendering-eq-ok :
      (env : Env W) (r : Rendering (List Message)) (p : List Message × Pass) (s t : State W)
      → of_rendering env r s ≡ (ok p, t)
      → r ≡ Render.ok p.0 p.1
  unfolding of_rendering
  of_rendering-eq-ok env (Render.ok ms p) q s t h = cc
  of_rendering-eq-ok env Render.err q s t h = cc

module _ {W : Type 0} (env : Env W) (S : Transport.Event → Type 0) (G : Request → Type 0)
    (sink : Sink) (p : Passes S sink) where
  drain-Keeps :
      (msg : String) (i o : ℕ) (r : List Llm.Event × Option Error)
      → Keeps S G (drain env sink msg i o r)
  unfolding drain
  drain-Keeps msg i o (events, none) =
      >>-Keeps S G (send_all sink (on_events msg events (new_round i o)).1) _
        (send_all-Keeps S G sink p _) (pure-Keeps S G _)
  drain-Keeps msg i o (events, some e) =
      >>-Keeps S G (send_all sink (on_events msg events (new_round i o)).1) _
        (send_all-Keeps S G sink p _) (raise-Keeps S G _)

  rendered-eq-ok :
      (r : Rendering (List Message)) (q : List Message × Pass) (s t : State W)
      → or_fail sink "artifact_render" (of_rendering env r) s ≡ (ok q, t)
      → r ≡ Render.ok q.0 q.1
  rendered-eq-ok r q s t h =
      of_rendering-eq-ok S G env r q s t
        (or_fail-eq-ok S G sink "artifact_render" (of_rendering env r) s t q h)

  pub stream_round-Keeps :
      (req : Request) (cache : Cache) (clock i o : ℕ)
      → ((ms : List Message) (pass : Pass)
          → render_artifacts env.renderer req.messages cache clock ≡ Render.ok ms pass
          → G (record req { messages = ms }))
      → Keeps S G (stream_round env sink req cache clock i o)
  unfolding stream_round
  stream_round-Keeps req cache clock i o good =
      let rendering = render_artifacts env.renderer req.messages cache clock in
      >>=-Keeps S G (or_fail sink "artifact_render" (of_rendering env rendering)) _
        (or_fail-Keeps S G sink p _ _ (of_rendering-Keeps S G env rendering))
        (λ q s t h.
          let req' = record req { messages = q.0 } in
          >>=-Keeps S G (lift env.new_uuid) _ (lift-Keeps S G env.new_uuid) (λ msg _ _ _.
            >>-Keeps S G (send sink (Transport.text_start msg)) _ (send-Keeps S G sink p _) (
              >>-Keeps S G (log (generated req')) _
                (log-Keeps S G _ (good q.0 q.1 (rendered-eq-ok rendering q s t h)))
                (>>=-Keeps S G
                  (or_fail sink "llm_error" (lift (env.generate req') >>= drain env sink msg i o)) _
                  (or_fail-Keeps S G sink p "llm_error"
                    (lift (env.generate req') >>= drain env sink msg i o)
                    (>>=-Keeps S G (lift (env.generate req')) (drain env sink msg i o)
                      (lift-Keeps S G (env.generate req')) (λ r _ _ _. drain-Keeps msg i o r)))
                  (λ _ _ _ _.
                    >>-Keeps S G (send sink (Transport.text_end msg)) _ (send-Keeps S G sink p _)
                      (pure-Keeps S G _))))))
