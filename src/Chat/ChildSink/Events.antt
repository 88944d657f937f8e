-- ===== src/Chat/ChildSink/Events.antt =====
-- What a child's sink lets through to the streams above it, and whose id an event ends up with.
use open_bbc.Base.{
  String, Option, none, sym, ap, ◌≡◌, refl, ◌∙◌, ◌≢◌, Bool-cases, inl, inr, false, List, [], ◌∷◌,
  ◌==◌, eq_iff, arith,
}
use mathlib.Core.Path.{subst}
use open_bbc.Transport
use open_bbc.Chat.Env.{Sink}
use open_bbc.Chat.ChildSink.{relabel, child_sink, forward, tag}

-- The sink of a child whose ancestors are these, the root's child first.
abbrev pub sink_under : Sink → List String → Sink
sink_under root [] = root
sink_under root (id ∷ ids) = sink_under (child_sink root id) ids

is_empty-refuted : (s : String) → s ≢ "" → (s == "") ≡ false
is_empty-refuted s filled = elim (Bool-cases (s == "")) [
  | inl e ↦ elim (filled ((eq_iff s "").0 e)) [ ]
  | inr e ↦ e
]

pub tag-filled : (inner child : String) → inner ≢ "" → (tag inner child == "") ≡ false
tag-filled inner child filled = elim (Bool-cases (child == "")) [
  | inl e ↦ rw e (is_empty-refuted inner filled)
  | inr e ↦ rw e e
]

tag-tag : (outer inner child : String) → inner ≢ "" → tag outer (tag inner child) ≡ tag inner child
tag-tag outer inner child filled = rw (tag-filled inner child filled)

-- A child's sink in front of another's is that child's sink.
child_sink-child_sink :
    (root : Sink) (outer inner : String)
    → inner ≢ ""
    → (ev : Transport.Event)
    → child_sink (child_sink root outer) inner ev ≡ child_sink root inner ev
unfolding child_sink relabel forward
child_sink-child_sink root outer inner filled (Transport.tool_call_start c n child) =
    rw (tag-tag outer inner child filled)
child_sink-child_sink root outer inner filled (Transport.tool_call_args c a child) =
    rw (tag-tag outer inner child filled)
child_sink-child_sink root outer inner filled (Transport.tool_call_end c child) =
    rw (tag-tag outer inner child filled)
child_sink-child_sink root outer inner filled (Transport.tool_result c r e child) =
    rw (tag-tag outer inner child filled)
child_sink-child_sink root outer inner filled ev = ground arith

pub nested-child_sink :
    (ids : List String) (root : Sink) (inner : String)
    → inner ≢ ""
    → (ev : Transport.Event) → child_sink (sink_under root ids) inner ev ≡ child_sink root inner ev
nested-child_sink [] root inner filled ev = refl
nested-child_sink (id ∷ ids) root inner filled ev =
    nested-child_sink ids (child_sink root id) inner filled ev
    ∙ child_sink-child_sink root id inner filled ev

-- The child's id where the event carries none, and the id that it carries otherwise.
pub data OwnId (inner : String) : (carried shown : String) → Type 0 where
  own : OwnId inner "" inner
  deeper : (carried : String) → carried ≢ "" → OwnId inner carried carried

own_id :
    (inner carried : String)
    → (shown : String) × OwnId inner carried shown × (tag inner carried ≡ shown)
own_id inner carried = elim (Bool-cases (carried == "")) [
  | inl e ↦
      let empty = (eq_iff carried "").0 e in
      (inner, subst (λ c. OwnId inner c inner) (sym empty) own, rw e refl)
  | inr e ↦ (carried, deeper carried (λ h. cc (e, (eq_iff carried "").1 h)), rw e refl)
]

-- What the root's sink gets of an event that a child sends: a tool event with the id that OwnId
-- shows, the start or end of a step as it is, and nothing else.
abbrev pub SeenAtRoot : Sink → String → Transport.Event → Option Transport.Event → Type 0
SeenAtRoot root inner (Transport.tool_call_start c n child) got =
    (id : String) × OwnId inner child id × (got ≡ root (Transport.tool_call_start c n id))
SeenAtRoot root inner (Transport.tool_call_args c a child) got =
    (id : String) × OwnId inner child id × (got ≡ root (Transport.tool_call_args c a id))
SeenAtRoot root inner (Transport.tool_call_end c child) got =
    (id : String) × OwnId inner child id × (got ≡ root (Transport.tool_call_end c id))
SeenAtRoot root inner (Transport.tool_result c r e child) got =
    (id : String) × OwnId inner child id × (got ≡ root (Transport.tool_result c r e id))
SeenAtRoot root inner (Transport.step_started n c child d) got =
    got ≡ root (Transport.step_started n c child d)
SeenAtRoot root inner (Transport.step_finished n c child e) got =
    got ≡ root (Transport.step_finished n c child e)
SeenAtRoot root inner ev got = got ≡ none

child_sink-SeenAtRoot :
    (root : Sink) (inner : String) (ev : Transport.Event)
    → SeenAtRoot root inner ev (child_sink root inner ev)
unfolding child_sink relabel forward
child_sink-SeenAtRoot root inner (Transport.tool_call_start c n child) =
    let (id, o, e) = own_id inner child in
    (id, o, ap (λ i. root (Transport.tool_call_start c n i)) e)
child_sink-SeenAtRoot root inner (Transport.tool_call_args c a child) =
    let (id, o, e) = own_id inner child in
    (id, o, ap (λ i. root (Transport.tool_call_args c a i)) e)
child_sink-SeenAtRoot root inner (Transport.tool_call_end c child) =
    let (id, o, e) = own_id inner child in (id, o, ap (λ i. root (Transport.tool_call_end c i)) e)
child_sink-SeenAtRoot root inner (Transport.tool_result c r x child) =
    let (id, o, e) = own_id inner child in (id, o, ap (λ i. root (Transport.tool_result c r x i)) e)
child_sink-SeenAtRoot root inner (Transport.step_started n c child d) = refl
child_sink-SeenAtRoot root inner (Transport.step_finished n c child e) = refl
child_sink-SeenAtRoot root inner (Transport.session_start s a) = refl
child_sink-SeenAtRoot root inner (Transport.text_start m) = refl
child_sink-SeenAtRoot root inner (Transport.text_delta m d) = refl
child_sink-SeenAtRoot root inner (Transport.text_end m) = refl
child_sink-SeenAtRoot root inner (Transport.artifact_ref c r) = refl
child_sink-SeenAtRoot root inner (Transport.turn_end r i o) = refl
child_sink-SeenAtRoot root inner (Transport.error c m) = refl

-- However deep a child is, and whatever the ids of its ancestors are: of what it sends to its sink,
-- the root's sink gets a tool event of its own with the child's id, a tool event that has an id
-- already with that id, the start and end of steps as they are, and nothing else. The child's id is
-- not empty.
pub nested_sinks :
    (ids : List String) (root : Sink) (inner : String)
    → inner ≢ ""
    → (ev : Transport.Event) → SeenAtRoot root inner ev (child_sink (sink_under root ids) inner ev)
nested_sinks ids root inner filled ev =
    rw (nested-child_sink ids root inner filled ev) (child_sink-SeenAtRoot root inner ev)
