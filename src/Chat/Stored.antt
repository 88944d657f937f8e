-- ===== src/Chat/Stored.antt =====
-- `blocksToJSON`, `parseBlocks` and `historyToLLM` of open-bbcd/internal/chat/orchestrator.go. A raw
-- value stands in the stored array as `stored_raw` of the codec lays it out.
pub mod RoundTrip
use open_bbc.Base.{String, Option, none, some, List, [], ◌∷◌, if◌then◌else◌}
use open_bbc.Json.{valid}
use open_bbc.Llm
use open_bbc.Llm.{Bytes, Block, Message, ArtifactRef}
use open_bbc.Chat.Env
use open_bbc.Chat.Env.{Codec, Error, StoredBlock, Content, blocks, malformed, ChatMessage}

-- What `blocksToJSON` returns: the array, or its error.
pub data Encoded (A : Type 0) : Type 0 where
  encoded : A → Encoded A
  failed : Error → Encoded A

infixl 5 ◌>>=◌
abbrev pub ◌>>=◌ : {A B : Type 0} → Encoded A → (A → Encoded B) → Encoded B
encoded a >>= f = f a
failed e >>= f = failed e

abbrev pub inline_media_not_persistable : Error
inline_media_not_persistable = record {
  kind = Env.inline_media;
  message = "chat: inline media blocks must never be persisted";
}

-- The text of `json.Marshal`'s own error is not modelled.
abbrev pub not_json : Error
not_json = record { kind = Env.other; message = "json: error calling MarshalJSON" }

-- `json.Marshal` of a `json.RawMessage`: `null` for nil, and otherwise a text that must be valid.
unfoldable pub marshal_raw : Codec → Bytes → Encoded Bytes
marshal_raw codec [] = encoded (b'n' ∷ b'u' ∷ b'l' ∷ b'l' ∷ [])
marshal_raw codec (b ∷ bs) =
    if valid (b ∷ bs) then encoded (codec.stored_raw (b ∷ bs)) else failed not_json

unfoldable pub store_block : Codec → Block → Encoded StoredBlock
store_block codec (Llm.text t) = encoded (Env.text t)
store_block codec (Llm.tool_use u) =
    marshal_raw codec u.input >>= λ input. encoded (Env.tool_use u.id u.name input)
store_block codec (Llm.tool_result r) =
    marshal_raw codec r.result >>= λ c. encoded (Env.tool_result r.tool_use_id c r.is_error)
store_block codec (Llm.artifact_ref ref) = encoded (Env.artifact_ref ref)
store_block codec (Llm.inline_media m) = failed inline_media_not_persistable

-- The source converts every block before it marshals the array, so a media block anywhere is its
-- error, whatever stands before it.
abbrev pub media_first : List Block → Option Error
media_first [] = none
media_first (Llm.inline_media m ∷ bs) = some inline_media_not_persistable
media_first (b ∷ bs) = media_first bs

unfoldable pub store_blocks : Codec → List Block → Encoded (List StoredBlock)
store_blocks codec [] = encoded []
store_blocks codec (b ∷ bs) =
    store_block codec b >>= λ c. store_blocks codec bs >>= λ cs. encoded (c ∷ cs)

unless_media : Option Error → Encoded (List StoredBlock) → Encoded Content
unless_media (some e) r = failed e
unless_media none r = r >>= λ cs. encoded (blocks cs)

unfoldable pub blocks_to_json : Codec → List Block → Encoded Content
unfolding unless_media
blocks_to_json codec bs = unless_media (media_first bs) (store_blocks codec bs)

-- Blocks of an unknown type are skipped.
unfoldable pub parse_blocks : List StoredBlock → List Block
parse_blocks [] = []
parse_blocks (Env.text t ∷ bs) = Llm.text t ∷ parse_blocks bs
parse_blocks (Env.tool_use id name input ∷ bs) =
    Llm.tool_use (record { id = id; name = name; input = input }) ∷ parse_blocks bs
parse_blocks (Env.tool_result id c e ∷ bs) =
    Llm.tool_result (record { tool_use_id = id; result = c; is_error = e }) ∷ parse_blocks bs
parse_blocks (Env.artifact_ref ref ∷ bs) = Llm.artifact_ref ref ∷ parse_blocks bs
parse_blocks (Env.other ∷ bs) = parse_blocks bs

-- Rows whose content is no array are skipped.
unfoldable pub history_to_llm : List ChatMessage → List Message
history_to_llm [] = []
history_to_llm (m ∷ ms) = add m.content (history_to_llm ms)
  where
    add : Content → List Message → List Message
    add malformed rest = rest
    add (blocks bs) rest = record { role = m.role; content = parse_blocks bs } ∷ rest
