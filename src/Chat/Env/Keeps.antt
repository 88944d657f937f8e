-- ===== src/Chat/Env/Keeps.antt =====
-- Actions of a turn (open-bbcd/internal/chat/orchestrator.go) that keep a property of all effects of
-- the trace. `S` is what holds of the events sent to the root's stream, `G` of the requests.
use open_bbc.Base.{◌≡◌, refl, Option, none, some, List, [], ◌∷◌, All}
use open_bbc.Llm.{Request}
use open_bbc.Transport
use open_bbc.Chat.Env.{
  Error, pure, raise, log, Outcome, ok, err, panicked, Call, Effect, sent, generated, State, Io,
  continue, ◌>>=◌, ◌>>◌, lift, Sink, emit, send, send_all,
}

abbrev pub Allowed : (Transport.Event → Type 0) → (Request → Type 0) → Effect → Type 0
Allowed S G (sent ev) = S ev
Allowed S G (generated req) = G req
Allowed S G e = Unit

abbrev pub IsAllowed : (Transport.Event → Type 0) → Option Transport.Event → Type 0
IsAllowed S none = Unit
IsAllowed S (some ev) = S ev

-- Everything that the sink lets through has the property.
abbrev pub Passes : (Transport.Event → Type 0) → Sink → Type 0
Passes S sink = (ev : Transport.Event) → IsAllowed S (sink ev)

module _ {W : Type 0} (S : Transport.Event → Type 0) (G : Request → Type 0) where
  abbrev pub Traced : State W → Type 0
  Traced s = All (Allowed S G) s.trace

  pub record Keeps {A : Type 0} (m : Io W A) : Type 0 where
    pub kept : (s : State W) → Traced s → Traced (m s).1

  pub continue-Traced :
      {A B : Type 0} (r : Outcome A × State W) (f : A → Io W B)
      → Traced r.1
      → ((a : A) (t : State W) → r ≡ (ok a, t) → Keeps (f a))
      → Traced (continue r f).1
  continue-Traced (ok a, t) f h k = (k a t refl).kept t h
  continue-Traced (err e, t) f h k = h
  continue-Traced (panicked, t) f h k = h

  -- The second action may rely on how the first came to its value.
  pub >>=-Keeps :
      {A B : Type 0} (m : Io W A) (f : A → Io W B)
      → Keeps m
      → ((a : A) (s t : State W) → m s ≡ (ok a, t) → Keeps (f a))
      → Keeps (m >>= f)
  >>=-Keeps m f h k = record { kept = λ s g. continue-Traced (m s) f (h.kept s g) (λ a t. k a s t) }

  pub >>-Keeps : {A B : Type 0} (m : Io W A) (n : Io W B) → Keeps m → Keeps n → Keeps (m >> n)
  >>-Keeps m n h k = >>=-Keeps m (λ _. n) h (λ _ _ _ _. k)

  pub lift-Keeps : {A : Type 0} (c : Call W A) → Keeps (lift c)
  lift-Keeps c = record { kept = λ s h. h }

  pub pure-Keeps : {A : Type 0} (a : A) → Keeps (pure a)
  pure-Keeps a = record { kept = λ s h. h }

  pub raise-Keeps : {A : Type 0} (e : Error) → Keeps (raise {A = A} e)
  raise-Keeps e = record { kept = λ s h. h }

  pub log-Keeps : (e : Effect) → Allowed S G e → Keeps (log e)
  log-Keeps e q = record { kept = λ s h. (q, h) }

  pub send-Keeps : (sink : Sink) → Passes S sink → (ev : Transport.Event) → Keeps (send sink ev)
  send-Keeps sink p ev = emitted (sink ev) (p ev)
    where
      emitted : (o : Option Transport.Event) → IsAllowed S o → Keeps (emit o)
      emitted none q = record { kept = λ s h. h }
      emitted (some e) q = record { kept = λ s h. (q, h) }

  pub send_all-Keeps :
      (sink : Sink) → Passes S sink → (evs : List Transport.Event) → Keeps (send_all sink evs)
  send_all-Keeps sink p [] = record { kept = λ s h. h }
  send_all-Keeps sink p (ev ∷ evs) =
      >>-Keeps (send sink ev) (send_all sink evs) (send-Keeps sink p ev) (send_all-Keeps sink p evs)
