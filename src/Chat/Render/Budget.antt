-- ===== src/Chat/Render/Budget.antt =====
-- The media budget of one render pass.
use open_bbc.Base.{
  ℕ, ◌+◌, ◌≤◌, ◌<◌, ◌≡◌, ◌⊎◌, refl, Option, none, some, List, [], ◌∷◌, arith, length,
}
use open_bbc.Llm.{
  Block, text, tool_use, tool_result, artifact_ref, inline_media, ArtifactRef, Message,
}
use open_bbc.Chat.Render.Bind.{>>=-eq-ok}
use open_bbc.Chat.Render.{
  Renderer, Pass, Cache, Rendering, ok, err, ◌>>=◌, base64_len, render_one, charged_size, place,
  visit_ref, visit, visit_blocks, visit_messages, render_artifacts, start_pass,
}

-- The base64 length of the raw media in a block, and the number of media blocks (0 or 1).
abbrev pub media_bytes : Block → ℕ
media_bytes (inline_media m) = base64_len (length m.bytes)
media_bytes b = 0

abbrev pub media_count : Block → ℕ
media_count (inline_media m) = 1
media_count b = 0

abbrev pub sum_blocks : (Block → ℕ) → List Block → ℕ
sum_blocks f [] = 0
sum_blocks f (b ∷ bs) = f b + sum_blocks f bs

abbrev pub sum_messages : (Block → ℕ) → List Message → ℕ
sum_messages f [] = 0
sum_messages f (m ∷ ms) = sum_blocks f m.content + sum_messages f ms

base64_len_mono : (m n : ℕ) → m ≤ n → base64_len m ≤ base64_len n
unfolding base64_len
base64_len_mono m n h = omega arith

media-le-charged : (ref : ArtifactRef) (b : Block) → media_bytes b ≤ base64_len (charged_size ref b)
unfolding charged_size
media-le-charged ref (inline_media m) = base64_len_mono _ _ (omega arith)
media-le-charged ref (text _) = omega arith
media-le-charged ref (tool_use _) = omega arith
media-le-charged ref (tool_result _) = omega arith
media-le-charged ref (artifact_ref _) = omega arith

-- What a part of the pass may do to the totals, when it puts out `bytes` and `blocks` of media.
record Charges (r : Renderer) (s t : Pass) (bytes blocks : ℕ) : Type 0 where
  bytes_charged : bytes + s.used_bytes ≤ t.used_bytes
  blocks_charged : blocks + s.used_blocks ≤ t.used_blocks
  bytes_capped :
      0 < r.native_render_budget.max_bytes
      → s.used_bytes ≤ r.native_render_budget.max_bytes
      → t.used_bytes ≤ r.native_render_budget.max_bytes
  blocks_capped :
      0 < r.native_render_budget.max_blocks
      → s.used_blocks ≤ r.native_render_budget.max_blocks
      → t.used_blocks ≤ r.native_render_budget.max_blocks

render_one-keeps :
    (r : Renderer) (ref : ArtifactRef) (s t : Pass) (o : Option Block)
    → render_one r ref s ≡ ok o t
    → (t.used_bytes ≡ s.used_bytes) × (t.used_blocks ≡ s.used_blocks)
unfolding render_one
render_one-keeps r ref s t o h = ground arith

place-Charges :
    (r : Renderer) (ref : ArtifactRef) (o : Option Block) (s t : Pass) (b : Block)
    → place r ref o s ≡ ok b t
    → (0 < r.native_render_budget.max_blocks
        → s.used_blocks + 1 ≤ r.native_render_budget.max_blocks)
    → Charges r s t (media_bytes b) (media_count b)
unfolding place
place-Charges r ref none s t b h room = ground arith
place-Charges r ref (some (text x)) s t b h room = ground (arith, media-le-charged ref b)
place-Charges r ref (some (tool_use x)) s t b h room = ground (arith, media-le-charged ref b)
place-Charges r ref (some (tool_result x)) s t b h room = ground (arith, media-le-charged ref b)
place-Charges r ref (some (artifact_ref x)) s t b h room = ground (arith, media-le-charged ref b)
place-Charges r ref (some (inline_media x)) s t b h room = ground (arith, media-le-charged ref b)

Charges-refl : (r : Renderer) (s : Pass) → Charges r s s 0 0
Charges-refl r s = omega arith

attempt-Charges :
    (r : Renderer) (ref : ArtifactRef) (s t : Pass) (b : Block) (m : Rendering (Option Block))
    → render_one r ref s ≡ m
    → (m >>= place r ref) ≡ ok b t
    → (0 < r.native_render_budget.max_blocks
        → s.used_blocks + 1 ≤ r.native_render_budget.max_blocks)
    → Charges r s t (media_bytes b) (media_count b)
attempt-Charges r ref s t b err e h room = cc
attempt-Charges r ref s t b (ok o u) e h room =
    ground (arith, render_one-keeps r ref s u o e, place-Charges r ref o u t b h)

visit_ref-Charges :
    (r : Renderer) (ref : ArtifactRef) (s t : Pass) (b : Block)
    → visit_ref r ref s ≡ ok b t
    → Charges r s t (media_bytes b) (media_count b)
unfolding visit_ref
visit_ref-Charges r ref s t b h =
    ground (arith, attempt-Charges r ref s t b (render_one r ref s) refl, Charges-refl r s)

visit-Charges :
    (r : Renderer) (b c : Block) (s t : Pass)
    → visit r b s ≡ ok c t
    → media_count b ≡ 0
    → Charges r s t (media_bytes c) (media_count c)
unfolding visit
visit-Charges r (artifact_ref ref) c s t h z = visit_ref-Charges r ref s t c h
visit-Charges r (inline_media m) c s t h z = absurd (omega arith)
visit-Charges r (text _) c s t h z = ground arith
visit-Charges r (tool_use _) c s t h z = ground arith
visit-Charges r (tool_result _) c s t h z = ground arith

Charges-trans :
    (r : Renderer) (s t u : Pass) (a b c d : ℕ)
    → Charges r s t a b
    → Charges r t u c d
    → Charges r s u (c + a) (d + b)
Charges-trans r s t u a b c d h k = ground arith

visit_blocks-Charges :
    (r : Renderer) (bs : List Block) (cs : List Block) (s t : Pass)
    → visit_blocks r bs s ≡ ok cs t
    → sum_blocks media_count bs ≡ 0
    → Charges r s t (sum_blocks media_bytes cs) (sum_blocks media_count cs)
unfolding visit_blocks
visit_blocks-Charges r [] cs s t h z = ground (arith, Charges-refl r s)
visit_blocks-Charges r (b ∷ bs) cs s t h z =
    let (bs', u, e, h') = >>=-eq-ok (visit_blocks r bs s) _ h in
    let (b', v, e', h'') = >>=-eq-ok (visit r b u) _ h' in
    ground (
      arith,
      h'',
      visit_blocks-Charges r bs bs' s u e,
      visit-Charges r b b' u v e',
      Charges-trans r s u v _ _ (media_bytes b') (media_count b'),
    )

visit_messages-Charges :
    (r : Renderer) (ms ns : List Message) (s t : Pass)
    → visit_messages r ms s ≡ ok ns t
    → sum_messages media_count ms ≡ 0
    → Charges r s t (sum_messages media_bytes ns) (sum_messages media_count ns)
unfolding visit_messages
visit_messages-Charges r [] ns s t h z = ground (arith, Charges-refl r s)
visit_messages-Charges r (m ∷ ms) ns s t h z =
    let (ms', u, e, h') = >>=-eq-ok (visit_messages r ms s) _ h in
    let (c, v, e', h'') = >>=-eq-ok (visit_blocks r m.content u) _ h' in
    ground (
      arith,
      h'',
      visit_messages-Charges r ms ms' s u e,
      visit_blocks-Charges r m.content c u v e',
      Charges-trans r s u v _ _ (sum_blocks media_bytes c) (sum_blocks media_count c),
    )

-- A cap of 0 is no cap.
abbrev pub IsWithin : (cap used : ℕ) → Type 0
IsWithin cap used = (cap ≡ 0) ⊎ (used ≤ cap)

-- For a conversation that holds refs and no raw media, whatever the provider answers: the raw media
-- of the rendered copy, base64-expanded, is within the byte cap of the budget, and its number of
-- media blocks is within the block cap; a cap of 0 is none.
pub render-IsWithin_budget :
    (r : Renderer) (ms out : List Message) (c : Cache) (clock : ℕ) (t : Pass)
    → sum_messages media_count ms ≡ 0
    → render_artifacts (some r) ms c clock ≡ ok out t
    → IsWithin r.native_render_budget.max_bytes (sum_messages media_bytes out)
      × IsWithin r.native_render_budget.max_blocks (sum_messages media_count out)
unfolding render_artifacts
render-IsWithin_budget r ms out c clock t z h =
    let (ns, s, e, h') = >>=-eq-ok (visit_messages r ms (start_pass c clock)) _ h in
    ground (arith, h', visit_messages-Charges r ms ns (start_pass c clock) s e)
