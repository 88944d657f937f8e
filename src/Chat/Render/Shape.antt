-- ===== src/Chat/Render/Shape.antt =====
-- What a render pass leaves as it was, and what it replaces.
use open_bbc.Base.{
  ℕ, ◌≡◌, ◌⊎◌, refl, Bool, true, false, Option, none, some, List, [], ◌∷◌, arith, All, All-keep,
}
use open_bbc.Llm.{
  Block, text, tool_use, tool_result, artifact_ref, inline_media, ArtifactRef, Message,
}
use open_bbc.Chat.Render.Bind.{>>=-eq-ok, ok-injective}
use open_bbc.Chat.Render.{
  RenderKey, key_of, Renderer, Pass, Cache, Rendering, ok, err, ◌>>=◌, find, mem, render_one, place,
  visit_ref, visit, visit_blocks, visit_messages, prune, render_artifacts, start_pass,
  surrogate_blocks, surrogate_messages, rendered,
}

abbrev pub is_ref : Block → Bool
is_ref (artifact_ref ref) = true
is_ref b = false

-- What a provider can show in place of a reference: text or media.
abbrev pub is_shown : Block → Bool
is_shown (text t) = true
is_shown (inline_media m) = true
is_shown b = false

-- The output block `c` for the input block `b`.
abbrev pub Follows : Block → Block → Type 0
Follows b c = ((is_ref b ≡ true) × (is_shown c ≡ true)) ⊎ ((is_ref b ≡ false) × (c ≡ b))

abbrev pub BlocksFollow : List Block → List Block → Type 0
BlocksFollow [] [] = Unit
BlocksFollow (b ∷ bs) (c ∷ cs) = Follows b c × BlocksFollow bs cs
BlocksFollow _ _ = ⊥

abbrev pub MessagesFollow : List Message → List Message → Type 0
MessagesFollow [] [] = Unit
MessagesFollow (m ∷ ms) (n ∷ ns) =
    (n.role ≡ m.role) × BlocksFollow m.content n.content × MessagesFollow ms ns
MessagesFollow _ _ = ⊥

-- Every cached block is text or media.
abbrev pub IsClean : Cache → Type 0
IsClean c = All (λ e. is_shown e.1 ≡ true) c.rendered

-- The provider answers a reference with text or media.
abbrev pub RendersNative : Renderer → Type 0
RendersNative r =
    (clock : ℕ) (ref : ArtifactRef) (b : Block)
    → r.render_artifact_as_block clock ref ≡ rendered b
    → is_shown b ≡ true

find-IsClean :
    (k : RenderKey) (m : List (RenderKey × Block)) (b : Block)
    → All (λ e. is_shown e.1 ≡ true) m
    → find k m ≡ some b
    → is_shown b ≡ true
find-IsClean k [] b h e = cc
find-IsClean k ((j, c) ∷ m) b h e = ground (arith, find-IsClean k m b h.1)

abbrev IsNative : Option Block → Type 0
IsNative none = Unit
IsNative (some b) = is_shown b ≡ true

module _ (r : Renderer) (native : RendersNative r) where
  render_one-IsClean :
      (ref : ArtifactRef) (s t : Pass) (o : Option Block)
      → render_one r ref s ≡ ok o t
      → IsClean s.cache
      → IsClean t.cache × IsNative o
  unfolding render_one
  render_one-IsClean ref s t none h c = ground arith
  render_one-IsClean ref s t (some b) h c =
      ground (arith, native s.clock ref b, find-IsClean (key_of ref) s.cache.rendered b c)

  place-IsClean :
      (ref : ArtifactRef) (o : Option Block) (s t : Pass) (b : Block)
      → place r ref o s ≡ ok b t
      → IsNative o
      → (t.cache ≡ s.cache) × (is_shown b ≡ true)
  unfolding place
  place-IsClean ref none s t b h n = ground arith
  place-IsClean ref (some c) s t b h n = ground arith

  attempt-IsClean :
      (ref : ArtifactRef) (s t : Pass) (b : Block) (m : Rendering (Option Block))
      → render_one r ref s ≡ m
      → (m >>= place r ref) ≡ ok b t
      → IsClean s.cache
      → IsClean t.cache × (is_shown b ≡ true)
  attempt-IsClean ref s t b err e h c = cc
  attempt-IsClean ref s t b (ok o u) e h c =
      let (clean, n) = render_one-IsClean ref s u o e c in
      let (same, is_native) = place-IsClean ref o u t b h n in (rw same clean, is_native)

  visit-Follows :
      (b c : Block) (s t : Pass)
      → visit r b s ≡ ok c t
      → IsClean s.cache
      → IsClean t.cache × Follows b c
  unfolding visit visit_ref
  visit-Follows (artifact_ref ref) c s t h k =
      ground (arith, attempt-IsClean ref s t c (render_one r ref s) refl)
  visit-Follows (inline_media m) c s t h k = ground arith
  visit-Follows (text _) c s t h k = ground arith
  visit-Follows (tool_use _) c s t h k = ground arith
  visit-Follows (tool_result _) c s t h k = ground arith

  visit_blocks-Follow :
      (bs cs : List Block) (s t : Pass)
      → visit_blocks r bs s ≡ ok cs t
      → IsClean s.cache
      → IsClean t.cache × BlocksFollow bs cs
  unfolding visit_blocks
  visit_blocks-Follow [] cs s t h k = ground arith
  visit_blocks-Follow (b ∷ bs) cs s t h k =
      let (bs', u, e, h') = >>=-eq-ok (visit_blocks r bs s) _ h in
      let (b', v, e', h'') = >>=-eq-ok (visit r b u) _ h' in
      let (k', follow) = visit_blocks-Follow bs bs' s u e k in
      let (k'', here) = visit-Follows b b' u v e' k' in ground (arith, h'', here, follow, k'')

  visit_messages-Follow :
      (ms ns : List Message) (s t : Pass)
      → visit_messages r ms s ≡ ok ns t
      → IsClean s.cache
      → IsClean t.cache × MessagesFollow ms ns
  unfolding visit_messages
  visit_messages-Follow [] ns s t h k = ground arith
  visit_messages-Follow (m ∷ ms) ns s t h k =
      let (ms', u, e, h') = >>=-eq-ok (visit_messages r ms s) _ h in
      let (c, v, e', h'') = >>=-eq-ok (visit_blocks r m.content u) _ h' in
      let (k', follow) = visit_messages-Follow ms ms' s u e k in
      let (k'', here) = visit_blocks-Follow m.content c u v e' k' in
      ground (arith, h'', here, follow, k'')

surrogate-Follow : (bs : List Block) → BlocksFollow bs (surrogate_blocks bs)
surrogate-Follow [] = tt
surrogate-Follow (b ∷ bs) = ground (arith, surrogate-Follow bs)

surrogate_messages-Follow : (ms : List Message) → MessagesFollow ms (surrogate_messages ms)
surrogate_messages-Follow [] = tt
surrogate_messages-Follow (m ∷ ms) =
    (refl, surrogate-Follow m.content, surrogate_messages-Follow ms)

abbrev pub AnswersNative : Option Renderer → Type 0
AnswersNative none = Unit
AnswersNative (some r) = RendersNative r

-- A rendered conversation has the messages of the original, with their roles and blocks in order:
-- each artifact reference is replaced by text or media, and each other block is unchanged. The
-- cache comes back with text and media only. (The provider answers references with text or media,
-- and the cache that is passed in holds nothing else.)
pub render-Follows :
    (p : Option Renderer) (ms out : List Message) (c : Cache) (clock : ℕ) (t : Pass)
    → AnswersNative p
    → IsClean c
    → render_artifacts p ms c clock ≡ ok out t
    → IsClean t.cache × MessagesFollow ms out
unfolding render_artifacts prune
render-Follows none ms out c clock t n k h = ground (arith, surrogate_messages-Follow ms)
render-Follows (some r) ms out c clock t n k h =
    let (ns, s, e, h') = >>=-eq-ok (visit_messages r ms (start_pass c clock)) _ h in
    let (k', follow) = visit_messages-Follow r n ms ns (start_pass c clock) s e k in
    let clean = All-keep (λ e. is_shown e.1 ≡ true) (λ e. mem e.0 s.placed) s.cache.rendered k' in
    let (same, pruned) = ok-injective ns out _ t h' in rw (← pruned, ← same) (clean, follow)
