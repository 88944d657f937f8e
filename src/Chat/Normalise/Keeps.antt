-- ===== src/Chat/Normalise/Keeps.antt =====
-- `normaliseToolResult` (open-bbcd/internal/chat/artifacts.go) has no effects but uploads.
use open_bbc.Base.{String, Bool-cases, inl, inr, Option, none, some, List, [], ◌∷◌}
use open_bbc.Llm.{Bytes, Request, ArtifactRef}
use open_bbc.Transport
use open_bbc.Artifacts.Mime.{Sniffer}
use open_bbc.Chat.Env.{Codec, Call, McpContentItem, Outcome, ok, err, panicked, State, lift}
use open_bbc.Chat.Env.Keeps.{Traced, Keeps, >>=-Keeps, pure-Keeps}
use open_bbc.Chat.Normalise.{
  Media, no_media, undecodable, decoded, uploaded, normalise_media, normalise_decoded,
  normalise_item, normalise_items, of_items, normalise_tool_result, inline_media,
  carries_inline_bytes, looks_like_media,
}

module _ {W : Type 0} (S : Transport.Event → Type 0) (G : Request → Type 0) (codec : Codec)
    (sniffer : Sniffer) (upload : String → Bytes → Call W ArtifactRef) where
  uploaded-Traced :
      (declared : String) (bytes : Bytes) (r : Outcome ArtifactRef × State W)
      → Traced S G r.1
      → Traced S G (uploaded codec sniffer upload declared bytes r).1
  unfolding uploaded
  uploaded-Traced declared bytes (ok ref, s) h = h
  uploaded-Traced declared bytes (err e, s) h = h
  uploaded-Traced declared bytes (panicked, s) h = h

  normalise_media-Keeps :
      (raw : Bytes) (m : Media) → Keeps S G (normalise_media codec sniffer upload raw m)
  unfolding normalise_media
  normalise_media-Keeps raw no_media = record {
    kept = λ s h. elim (Bool-cases (carries_inline_bytes codec raw)) [
      | inl c ↦ rw c h
      | inr c ↦ rw c h
    ];
  }
  normalise_media-Keeps raw (undecodable declared) = record { kept = λ s h. h }
  normalise_media-Keeps raw (decoded declared bytes) = record {
    kept = λ s h. uploaded-Traced declared bytes (lift (upload declared bytes) s) h;
  }

  normalise_item-Keeps :
      (raw : Bytes) (o : Option McpContentItem)
      → Keeps S G (normalise_decoded codec sniffer upload raw o)
  unfolding normalise_decoded
  normalise_item-Keeps raw none = record {
    kept =
        λ s h. elim (Bool-cases (looks_like_media codec raw)) [ inl c ↦ rw c h | inr c ↦ rw c h ];
  }
  normalise_item-Keeps raw (some item) = normalise_media-Keeps raw (inline_media codec item)

  normalise_items-Keeps :
      (raws : List Bytes) → Keeps S G (normalise_items codec sniffer upload raws)
  unfolding normalise_items normalise_item
  normalise_items-Keeps [] = record { kept = λ s h. h }
  normalise_items-Keeps (raw ∷ raws) =
      >>=-Keeps S G (normalise_item codec sniffer upload raw) _
        (normalise_item-Keeps raw (codec.decode_item raw))
        (λ slot _ _ _.
          >>=-Keeps S G (normalise_items codec sniffer upload raws) _ (normalise_items-Keeps raws)
            (λ _ _ _ _. pure-Keeps S G _))

  of_items-Keeps :
      (payload : Bytes) (o : Option (List Bytes))
      → Keeps S G (of_items codec sniffer upload payload o)
  unfolding of_items
  of_items-Keeps payload none = record { kept = λ s h. h }
  of_items-Keeps payload (some items) =
      >>=-Keeps S G (normalise_items codec sniffer upload items) _ (normalise_items-Keeps items)
        (λ _ _ _ _. pure-Keeps S G _)

  pub normalise_tool_result-Keeps :
      (payload : Bytes) → Keeps S G (normalise_tool_result codec sniffer upload payload)
  unfolding normalise_tool_result
  normalise_tool_result-Keeps payload = of_items-Keeps payload (codec.content_items payload)
