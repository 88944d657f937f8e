-- ===== src/Chat/Stored/RoundTrip.antt =====
-- What comes back of a stored message.
use open_bbc.Base.{◌≡◌, refl, Option, none, some, List, [], ◌∷◌, arith}
use open_bbc.Llm
use open_bbc.Llm.{Bytes, Block, Message}
use open_bbc.Chat.Env
use open_bbc.Chat.Env.{Codec, StoredBlock, Content, blocks, malformed, ChatMessage}
use open_bbc.Chat.Stored.{
  Encoded, encoded, failed, ◌>>=◌, marshal_raw, store_block, store_blocks, media_first,
  unless_media, blocks_to_json, parse_blocks, history_to_llm,
}

-- A raw value that was never set comes back as the text `null`, any other in its stored layout.
abbrev pub or_null : Codec → Bytes → Bytes
or_null codec [] = b'n' ∷ b'u' ∷ b'l' ∷ b'l' ∷ []
or_null codec (b ∷ bs) = codec.stored_raw (b ∷ bs)

abbrev pub reloaded : Codec → Block → Block
reloaded codec (Llm.tool_use u) = Llm.tool_use (record u { input = or_null codec u.input })
reloaded codec (Llm.tool_result r) = Llm.tool_result (record r { result = or_null codec r.result })
reloaded codec b = b

abbrev pub reloaded_blocks : Codec → List Block → List Block
reloaded_blocks codec [] = []
reloaded_blocks codec (b ∷ bs) = reloaded codec b ∷ reloaded_blocks codec bs

>>=-eq-encoded :
    {A B : Type 0} (m : Encoded A) (f : A → Encoded B) {b : B}
    → (m >>= f) ≡ encoded b
    → (a : A) × (m ≡ encoded a) × (f a ≡ encoded b)
>>=-eq-encoded (encoded a) f h = (a, refl, h)
>>=-eq-encoded (failed e) f h = cc

marshal_raw-or_null :
    (codec : Codec) (raw out : Bytes)
    → marshal_raw codec raw ≡ encoded out
    → out ≡ or_null codec raw
unfolding marshal_raw
marshal_raw-or_null codec [] out h = cc
marshal_raw-or_null codec (b ∷ bs) out h = ground arith

encoded-injective : {A : Type 0} (a b : A) → encoded a ≡ encoded b → a ≡ b
encoded-injective a b h = cc

parse-store_block :
    (codec : Codec) (b : Block) (c : StoredBlock) (cs : List StoredBlock)
    → store_block codec b ≡ encoded c
    → parse_blocks (c ∷ cs) ≡ reloaded codec b ∷ parse_blocks cs
unfolding store_block parse_blocks
parse-store_block codec (Llm.text t) c cs h = rw (← encoded-injective _ c h)
parse-store_block codec (Llm.tool_use u) c cs h =
    let (input, e, h') = >>=-eq-encoded (marshal_raw codec u.input) _ h in
    rw (← encoded-injective _ c h', marshal_raw-or_null codec u.input input e)
parse-store_block codec (Llm.tool_result r) c cs h =
    let (result, e, h') = >>=-eq-encoded (marshal_raw codec r.result) _ h in
    rw (← encoded-injective _ c h', marshal_raw-or_null codec r.result result e)
parse-store_block codec (Llm.artifact_ref ref) c cs h = rw (← encoded-injective _ c h)
parse-store_block codec (Llm.inline_media m) c cs h = cc

parse-store_blocks :
    (codec : Codec) (bs : List Block) (cs : List StoredBlock)
    → store_blocks codec bs ≡ encoded cs
    → parse_blocks cs ≡ reloaded_blocks codec bs
unfolding store_blocks
parse-store_blocks codec [] cs h = rw (← encoded-injective _ cs h) (unfold parse_blocks in refl)
parse-store_blocks codec (b ∷ bs) cs h =
    let (c, e, h') = >>=-eq-encoded (store_block codec b) _ h in
    let (rest, e', h'') = >>=-eq-encoded (store_blocks codec bs) _ h' in
    rw (
      ← encoded-injective _ cs h'',
      parse-store_block codec b c rest e,
      parse-store_blocks codec bs rest e',
    )

unless_media-eq-encoded :
    (o : Option Env.Error) (m : Encoded (List StoredBlock)) (content : Content)
    → unless_media o m ≡ encoded content
    → (cs : List StoredBlock) × (m ≡ encoded cs) × (blocks cs ≡ content)
unfolding unless_media
unless_media-eq-encoded (some e) m content h = cc
unless_media-eq-encoded none (encoded cs) content h = (cs, refl, encoded-injective _ _ h)
unless_media-eq-encoded none (failed e) content h = cc

-- A message that is stored comes back as the provider message of its role, with the same blocks in
-- the same order, except that each raw value comes back in the layout in which it is stored, and one
-- that was never set as the text `null`.
pub history-blocks_to_json :
    (codec : Codec) (bs : List Block) (m : ChatMessage)
    → blocks_to_json codec bs ≡ encoded m.content
    → history_to_llm (m ∷ []) ≡ record { role = m.role; content = reloaded_blocks codec bs } ∷ []
unfolding blocks_to_json history_to_llm
history-blocks_to_json codec bs m h =
    let (cs, e, same) =
      unless_media-eq-encoded (media_first bs) (store_blocks codec bs) m.content h in
    rw (← same, parse-store_blocks codec bs cs e)
