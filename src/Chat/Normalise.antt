-- ===== src/Chat/Normalise.antt =====
-- `normaliseToolResult` and its helpers of open-bbcd/internal/chat/artifacts.go. Log lines are left
-- out.
pub mod Keeps
pub mod Plain
pub mod Safe
use Prim.Native.Char.{Char, code}
use Prim.Native.String
use open_bbc.Base.{
  ℕ, suc, ◌+◌, ◌-◌, String, Bool, true, false, not, ◌&&◌, ◌||◌, Option, none, some, List, [], ◌∷◌,
  ◌++◌, length, any, ltb, leb, lookup, ◌==◌, if◌then◌else◌,
}
use open_bbc.Llm.{Bytes, ArtifactRef}
use open_bbc.Llm.Surrogate.{human_bytes}
use open_bbc.Artifacts.Label.{clean_text}
use open_bbc.Artifacts.Mime.{Sniffer, octet_stream, resolve_mime}
use open_bbc.Chat.Env.{
  Codec, McpContentItem, McpResource, Outcome, ok, err, panicked, Call, Io, State, lift, pure,
  run_call, ◌>>=◌, continue,
}

pub record NormaliseResult : Type 0 where
  pub refs : List ArtifactRef
  pub output : Bytes
  pub force_error : Bool

abbrev or_default : String → String → String
or_default s d = if s == "" then d else s

abbrev codes : String → Bytes
codes String.[] = []
codes (String.◌∷◌ c s) = code c ∷ codes s

-- What `inlineMedia` finds in an item: nothing, media that does not decode, or its bytes.
pub data Media : Type 0 where
  no_media : Media
  undecodable : (declared : String) → Media
  decoded : (declared : String) → Bytes → Media

-- Data that decodes to no bytes is never uploaded.
unfoldable pub decoded_or : String → Option Bytes → Media
decoded_or declared none = undecodable declared
decoded_or declared (some []) = undecodable declared
decoded_or declared (some (b ∷ bs)) = decoded declared (b ∷ bs)

unfoldable pub resource_media : Codec → Option McpResource → Media
unfolding decoded_or
resource_media codec none = no_media
resource_media codec (some r) =
    if not (r.blob == "")
    then decoded_or (or_default r.mime_type octet_stream) (codec.decode_base64 r.blob)
    else if not (r.text == "")
    then decoded (or_default r.mime_type "text/plain") (codec.text_bytes r.text)
    else no_media

unfoldable pub inline_media : Codec → McpContentItem → Media
unfolding resource_media decoded_or
inline_media codec item =
    if item.kind == "image" || item.kind == "audio"
    then decoded_or (or_default item.mime_type octet_stream) (codec.decode_base64 item.base64)
    else if item.kind == "resource"
    then resource_media codec item.resource
    else no_media

-- The bytes that a character takes in UTF-8.
utf8_length : Char → ℕ
utf8_length c =
    let n = code c in
    if ltb n 0x80 then 1 else if ltb n 0x800 then 2 else if ltb n 0x10000 then 3 else 4

-- The whole characters among the first bytes.
take_bytes : ℕ → String → String
take_bytes room String.[] = String.[]
take_bytes room (String.◌∷◌ c s) =
    let rest = take_bytes (room - utf8_length c) s in
    if leb (utf8_length c) room then String.◌∷◌ c rest else String.[]

unfoldable pub truncate_mime : String → String
unfolding take_bytes utf8_length
truncate_mime mime = take_bytes 100 (clean_text mime)

unfoldable pub unavailable_note : Codec → String → String → Bytes
unavailable_note codec mime size = codec.text_item (
    String.◌++◌ "[artifact unavailable: "
      (String.◌++◌ (truncate_mime mime) (String.◌++◌ ", " (String.◌++◌ size "]"))))

unfoldable pub non_empty : Codec → Option Bytes → Bool
non_empty codec none = false
non_empty codec (some v) = elim (codec.decode_text v) [ none ↦ false | some s ↦ not (s == "") ]

unfoldable pub nested_blob : Codec → Option Bytes → Bool
unfolding non_empty
nested_blob codec none = false
nested_blob codec (some v) = elim (codec.members v) [
  | none ↦ false
  | some m ↦ non_empty codec (lookup "blob" m)
]

unfoldable pub carries_inline_bytes : Codec → Bytes → Bool
unfolding non_empty nested_blob
carries_inline_bytes codec raw = elim (codec.members raw) [
  | none ↦ false
  | some m ↦
      non_empty codec (lookup "data" m)
      || non_empty codec (lookup "blob" m)
      || nested_blob codec (lookup "resource" m)
]

unfoldable pub is_present : Option Bytes → Bool
is_present none = false
is_present (some v) = true

unfoldable pub is_media_kind : Codec → Option Bytes → Bool
is_media_kind codec none = false
is_media_kind codec (some v) = elim (codec.decode_text v) [
  | none ↦ false
  | some typ ↦ typ == "image" || typ == "audio" || typ == "resource"
]

unfoldable pub looks_like_media : Codec → Bytes → Bool
unfolding is_present is_media_kind
looks_like_media codec raw = elim (codec.members raw) [
  | none ↦ false
  | some m ↦
      is_media_kind codec (lookup "type" m)
      || is_present (lookup "data" m)
      || is_present (lookup "blob" m)
      || is_present (lookup "resource" m)
]

-- One item becomes a ref, or an item that is kept.
pub data Slot : Type 0 where
  moved : ArtifactRef → Slot
  kept : Bytes → Slot

module _ {W : Type 0} (codec : Codec) (sniffer : Sniffer)
    (upload : String → Bytes → Call W ArtifactRef) where
  -- A failed upload leaves a note in place of the item.
  uploaded : String → Bytes → Outcome ArtifactRef × State W → Outcome Slot × State W
  uploaded declared bytes (ok ref, s) = (ok (moved ref), s)
  uploaded declared bytes (err e, s) = (
    ok (
        kept (
          unavailable_note codec (resolve_mime sniffer declared bytes)
            (human_bytes (length bytes)))),
    s,
  )
  uploaded declared bytes (panicked, s) = (panicked, s)

  normalise_media : Bytes → Media → Io W Slot
  unfolding uploaded
  normalise_media raw no_media =
      if carries_inline_bytes codec raw
      then pure (kept (unavailable_note codec "unknown" "unknown"))
      else pure (kept raw)
  normalise_media raw (undecodable declared) =
      pure (kept (unavailable_note codec declared "unknown"))
  normalise_media raw (decoded declared bytes) =
      λ s. uploaded declared bytes (lift (upload declared bytes) s)

  normalise_decoded : Bytes → Option McpContentItem → Io W Slot
  unfolding normalise_media
  normalise_decoded raw none =
      if looks_like_media codec raw
      then pure (kept (unavailable_note codec "unknown" "unknown"))
      else pure (kept raw)
  normalise_decoded raw (some item) = normalise_media raw (inline_media codec item)

  unfoldable pub normalise_item : Bytes → Io W Slot
  unfolding normalise_decoded
  normalise_item raw = normalise_decoded raw (codec.decode_item raw)

  unfoldable pub normalise_items : List Bytes → Io W (List Slot)
  normalise_items [] = pure []
  normalise_items (raw ∷ raws) =
      normalise_item raw >>= λ slot. normalise_items raws >>= λ slots. pure (slot ∷ slots)

abbrev pub refs_of : List Slot → List ArtifactRef
refs_of [] = []
refs_of (moved r ∷ ss) = r ∷ refs_of ss
refs_of (kept b ∷ ss) = refs_of ss

abbrev pub kept_of : List Slot → List Bytes
kept_of [] = []
kept_of (moved r ∷ ss) = kept_of ss
kept_of (kept b ∷ ss) = b ∷ kept_of ss

-- The bytes of `{"content":[{"type":"text","text":"[tool result unavailable]"}]}`.
abbrev pub unavailable_tool_result : Bytes
unavailable_tool_result =
    codes "{\"content\":[{\"type\":\"text\",\"text\":\"[tool result unavailable]\"}]}"

reassembled : List Slot → Option Bytes → NormaliseResult
reassembled slots (some out) = record { refs = refs_of slots; output = out; force_error = false }
reassembled slots none = record {
  refs = refs_of slots;
  output = unavailable_tool_result;
  force_error = true;
}

module _ {W : Type 0} (codec : Codec) (sniffer : Sniffer)
    (upload : String → Bytes → Call W ArtifactRef) where
  of_items : Bytes → Option (List Bytes) → Io W NormaliseResult
  unfolding reassembled
  of_items payload none = pure (record { refs = []; output = payload; force_error = false })
  of_items payload (some items) = normalise_items codec sniffer upload items >>= λ slots.
      pure (reassembled slots (codec.with_content payload (kept_of slots)))

  unfoldable pub normalise_tool_result : Bytes → Io W NormaliseResult
  unfolding of_items
  normalise_tool_result payload = of_items payload (codec.content_items payload)
