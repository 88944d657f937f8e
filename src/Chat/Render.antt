-- ===== src/Chat/Render.antt =====
-- `renderArtifactsForLLM` and `renderOne` of open-bbcd/internal/chat/artifacts.go.
-- The provider's renderer, the store resolver and the fetcher's `Stat` are parameters (`Renderer`).
-- Their answers may change with time: each takes the number of calls made so far (`clock`).
mod Bind
pub mod Budget
pub mod Shape
use open_bbc.Base.{
  ℕ, suc, ◌+◌, ◌*◌, ◌/◌, String, Bool, true, false, not, ◌&&◌, ◌||◌, Option, none, some, List, [],
  ◌∷◌, length, any, keep, ltb, max, ◌==◌, if◌then◌else◌,
}
use open_bbc.Llm.{ArtifactRef, Block, artifact_ref, inline_media, Message, RenderBudget}
use open_bbc.Llm.Surrogate.{text_surrogate}

pub record RenderKey : Type 0 where
  pub store_id : String
  pub uri : String
  pub mime : String

abbrev pub key_eq : RenderKey → RenderKey → Bool
key_eq a b = a.store_id == b.store_id && a.uri == b.uri && a.mime == b.mime

abbrev pub key_of : ArtifactRef → RenderKey
key_of ref = record { store_id = ref.store_id; uri = ref.uri; mime = ref.mime }

-- The result of `RenderArtifactAsBlock`: a block, `ErrUnsupported` or another error.
pub data RenderOutcome : Type 0 where
  rendered : Block → RenderOutcome
  unsupported failed : RenderOutcome

pub data StatOutcome : Type 0 where
  exists missing stat_failed : StatOutcome

pub record Renderer : Type 0 where
  pub render_artifact_as_block : ℕ → ArtifactRef → RenderOutcome
  pub supports_native : ArtifactRef → Bool
  pub native_render_budget : RenderBudget
  -- whether the resolver has a fetcher for the store
  pub resolves : String → Bool
  pub stat : ℕ → ArtifactRef → StatOutcome

pub record Cache : Type 0 where
  pub rendered : List (RenderKey × Block)
  pub not_native : List RenderKey

abbrev pub new_render_cache : Cache
new_render_cache = record { rendered = []; not_native = [] }

-- The variables of one render pass.
pub record Pass : Type 0 where
  pub cache : Cache
  pub used_bytes : ℕ
  pub used_blocks : ℕ
  pub exhausted : Bool
  pub placed : List RenderKey
  pub clock : ℕ

-- `ok` is the value and the pass after it; `err` is an error that fails the turn.
pub data Rendering (A : Type 0) : Type 0 where
  ok : A → Pass → Rendering A
  err : Rendering A

infixl 5 ◌>>=◌
abbrev pub ◌>>=◌ : {A B : Type 0} → Rendering A → (A → Pass → Rendering B) → Rendering B
ok a s >>= f = f a s
err >>= f = err

unfoldable pub base64_len : ℕ → ℕ
base64_len n = (n + 2) / 3 * 4

abbrev pub mem : RenderKey → List RenderKey → Bool
mem k ks = any (key_eq k) ks

abbrev pub find : RenderKey → List (RenderKey × Block) → Option Block
find k [] = none
find k ((j, b) ∷ m) = if key_eq k j then some b else find k m

abbrev pub over_bytes : RenderBudget → ℕ → ℕ → Bool
over_bytes b used cost = ltb 0 b.max_bytes && ltb b.max_bytes (used + cost)

abbrev pub over_blocks : RenderBudget → ℕ → Bool
over_blocks b used = ltb 0 b.max_blocks && ltb b.max_blocks (used + 1)

remember_not_native : RenderKey → Pass → Pass
remember_not_native k s = record s {
  cache = record s.cache { not_native = k ∷ s.cache.not_native };
}

remember_rendered : RenderKey → Block → Pass → Pass
remember_rendered k b s = record s {
  cache = record s.cache { rendered = (k, b) ∷ s.cache.rendered };
}

tick : Pass → Pass
tick s = record s { clock = suc s.clock }

-- What `renderOne` does with a failed fetch: a blob that `Stat` reports missing is not native.
after_stat : RenderKey → Pass → StatOutcome → Rendering (Option Block)
unfolding remember_not_native
after_stat k s missing = ok none (remember_not_native k s)
after_stat k s exists = err
after_stat k s stat_failed = err

after_fetch : Renderer → ArtifactRef → Pass → RenderOutcome → Rendering (Option Block)
unfolding after_stat remember_not_native remember_rendered tick
after_fetch r ref s unsupported = ok none (remember_not_native (key_of ref) s)
after_fetch r ref s failed = after_stat (key_of ref) (tick s) (r.stat s.clock ref)
after_fetch r ref s (rendered b) = ok (some b) (remember_rendered (key_of ref) b s)

or_fetch : Renderer → ArtifactRef → Pass → Option Block → Rendering (Option Block)
unfolding after_fetch tick
or_fetch r ref s (some b) = ok (some b) s
or_fetch r ref s none = after_fetch r ref (tick s) (r.render_artifact_as_block s.clock ref)

unfoldable pub render_one : Renderer → ArtifactRef → Pass → Rendering (Option Block)
unfolding or_fetch
render_one r ref s = or_fetch r ref s (find (key_of ref) s.cache.rendered)

-- The size that a native block is charged at.
pub charged_size : ArtifactRef → Block → ℕ
charged_size ref (inline_media m) = max ref.size_bytes (length m.bytes)
charged_size ref b = ref.size_bytes

-- The end of the loop body: a rendered block is placed unless its actual cost overflows.
unfoldable pub place : Renderer → ArtifactRef → Option Block → Pass → Rendering Block
unfolding charged_size
place r ref none s = ok (text_surrogate ref) s
place r ref (some b) s =
    let cost = base64_len (charged_size ref b) in
    if over_bytes r.native_render_budget s.used_bytes cost
    then ok (text_surrogate ref) (record s { exhausted = true })
    else ok b (record s {
      used_blocks = s.used_blocks + 1;
      used_bytes = s.used_bytes + cost;
      placed = key_of ref ∷ s.placed;
    })

unfoldable pub visit_ref : Renderer → ArtifactRef → Pass → Rendering Block
visit_ref r ref s =
    let surrogate = ok (text_surrogate ref) s in
    let attempt = (render_one r ref s >>= place r ref) in
    if s.exhausted || not (r.resolves ref.store_id) || not (r.supports_native ref)
    then surrogate
    else if over_blocks r.native_render_budget s.used_blocks
        || over_bytes r.native_render_budget s.used_bytes (base64_len ref.size_bytes)
    then ok (text_surrogate ref) (record s { exhausted = true })
    else if mem (key_of ref) s.cache.not_native
    then surrogate
    else attempt

unfoldable pub visit : Renderer → Block → Pass → Rendering Block
visit r (artifact_ref ref) s = visit_ref r ref s
visit r b s = ok b s

-- The loops run from the last message and block to the first.
unfoldable pub visit_blocks : Renderer → List Block → Pass → Rendering (List Block)
visit_blocks r [] s = ok [] s
visit_blocks r (b ∷ bs) s =
    visit_blocks r bs s >>= λ bs' s'. visit r b s' >>= λ b' s''. ok (b' ∷ bs') s''

unfoldable pub visit_messages : Renderer → List Message → Pass → Rendering (List Message)
visit_messages r [] s = ok [] s
visit_messages r (m ∷ ms) s = visit_messages r ms s >>= λ ms' s'.
    visit_blocks r m.content s' >>= λ c s''. ok (record m { content = c } ∷ ms') s''

-- Only the keys placed in this pass stay in the cache.
unfoldable pub prune : List RenderKey → Cache → Cache
prune placed c = record c { rendered = keep (λ e. mem e.0 placed) c.rendered }

abbrev pub start_pass : Cache → ℕ → Pass
start_pass c t = record {
  cache = c;
  used_bytes = 0;
  used_blocks = 0;
  exhausted = false;
  placed = [];
  clock = t;
}

abbrev pub surrogate_block : Block → Block
surrogate_block (artifact_ref ref) = text_surrogate ref
surrogate_block b = b

abbrev pub surrogate_blocks : List Block → List Block
surrogate_blocks [] = []
surrogate_blocks (b ∷ bs) = surrogate_block b ∷ surrogate_blocks bs

abbrev pub surrogate_messages : List Message → List Message
surrogate_messages [] = []
surrogate_messages (m ∷ ms) =
    record m { content = surrogate_blocks m.content } ∷ surrogate_messages ms

-- The whole function. `none` is a provider without a renderer, or no resolver. The result holds the
-- rendered copy, and the pass with the pruned cache.
unfoldable pub render_artifacts :
    Option Renderer → List Message → Cache → ℕ → Rendering (List Message)
unfolding prune
render_artifacts none ms c t = ok (surrogate_messages ms) (start_pass c t)
render_artifacts (some r) ms c t = visit_messages r ms (start_pass c t) >>= λ ms' s.
    ok ms' (record s { cache = prune s.placed s.cache })
