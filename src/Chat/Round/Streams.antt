-- ===== src/Chat/Round/Streams.antt =====
-- What a streamed round of `Turn` (open-bbcd/internal/chat/orchestrator.go) comes from.
use mathlib.Core.Path.{subst}
use open_bbc.Base.{ℕ, String, ◌≡◌, refl, sym, ◌∙◌, Option, none, some, List, ◌∷◌, ap}
use open_bbc.Llm
use open_bbc.Llm.{Message, Request}
use open_bbc.Transport
use open_bbc.Chat.Render
use open_bbc.Chat.Render.{Cache, Pass, Rendering, render_artifacts}
use open_bbc.Chat.Stream.{Round, new_round, on_events}
use open_bbc.Chat.Env.{Error, ok, Env, State, ◌>>=◌, generated, lift, Sink, send, send_all}
use open_bbc.Chat.Env.Run.{>>=-eq-ok, returned-injective, lift-eq-ok}
use open_bbc.Chat.Round.{Streamed, or_fail, of_rendering, drain, stream_round}
use open_bbc.Chat.Round.Keeps.{or_fail-eq-ok, of_rendering-eq-ok}

drain-eq-ok :
    {W : Type 0} (env : Env W) (sink : Sink) (msg : String) (i o : ℕ) (events : List Llm.Event)
    (failure : Option Error) (s t : State W) (round : Round)
    → drain env sink msg i o (events, failure) s ≡ (ok round, t)
    → (failure ≡ none) × (round ≡ (on_events msg events (new_round i o)).0)
unfolding drain
drain-eq-ok env sink msg i o events none s t round h =
    let (_, u, _, h') = >>=-eq-ok (send_all sink (on_events msg events (new_round i o)).1) _ s h in
    (refl, sym (returned-injective _ round _ _ h'))
drain-eq-ok env sink msg i o events (some e) s t round h =
    let (_, u, _, h') = >>=-eq-ok (send_all sink (on_events msg events (new_round i o)).1) _ s h in
    cc

-- The streamed events and the rendering that a round was made from.
pub record IsStreamed {W : Type 0} (env : Env W) (req : Request) (cache : Cache) (clock i o : ℕ)
    (r : Streamed) : Type 0 where
  pub messages : List Message
  pub pass : Pass
  pub is_rendered : render_artifacts env.renderer req.messages cache clock ≡ Render.ok messages pass
  pub same_cache : r.cache ≡ pass.cache
  pub events : List Llm.Event
  pub world : W
  pub is_generated : (env.generate (record req { messages = messages }) world).0 ≡ ok (events, none)
  pub same_round : r.round ≡ (on_events r.message_id events (new_round i o)).0

pub stream_round-IsStreamed :
    {W : Type 0} (env : Env W) (sink : Sink) (req : Request) (cache : Cache) (clock i o : ℕ)
    (s t : State W) (r : Streamed)
    → stream_round env sink req cache clock i o s ≡ (ok r, t)
    → IsStreamed env req cache clock i o r
unfolding stream_round
stream_round-IsStreamed env sink req cache clock i o s t r h =
    let rendering = render_artifacts env.renderer req.messages cache clock in
    let (q, s1, e1, h1) =
      >>=-eq-ok (or_fail sink "artifact_render" (of_rendering env rendering)) _ s h in
    let req' = record req { messages = q.0 } in
    let (msg, s2, e2, h2) = >>=-eq-ok (lift env.new_uuid) _ s1 h1 in
    let (_, s3, e3, h3) = >>=-eq-ok (send sink (Transport.text_start msg)) _ s2 h2 in
    let s3' = record s3 { trace = generated req' ∷ s3.trace } in
    let (round, s4, e4, h4) =
      >>=-eq-ok (or_fail sink "llm_error" (lift (env.generate req') >>= drain env sink msg i o)) _
        s3' h3 in
    let (_, s5, e5, h5) = >>=-eq-ok (send sink (Transport.text_end msg)) _ s4 h4 in
    let (gen, s6, e6, h6) = >>=-eq-ok (lift (env.generate req')) (drain env sink msg i o) s3' (
      or_fail-eq-ok (λ _. Unit) (λ _. Unit) sink "llm_error"
        (lift (env.generate req') >>= drain env sink msg i o) s3' s4 round e4) in
    let (ended, same) = drain-eq-ok env sink msg i o gen.0 gen.1 s6 s4 round h6 in
    let made : Streamed = record {
      message_id = msg;
      round = round;
      cache = q.1.cache;
      clock = q.1.clock;
    } in
    let is_made = returned-injective made r s5 t h5 in
    record {
      messages = q.0;
      pass = q.1;
      is_rendered =
          of_rendering-eq-ok (λ _. Unit) (λ _. Unit) env rendering q s s1
            (or_fail-eq-ok (λ _. Unit) (λ _. Unit) sink "artifact_render"
              (of_rendering env rendering) s s1 q e1);
      same_cache = sym (ap (λ x. x.cache) is_made);
      events = gen.0;
      world = s3.world;
      is_generated = lift-eq-ok (env.generate req') s3' s6 gen e6 ∙ ap (λ x. ok (gen.0, x)) ended;
      same_round =
          subst (λ (x : Streamed). x.round ≡ (on_events x.message_id gen.0 (new_round i o)).0)
            is_made same;
    }
