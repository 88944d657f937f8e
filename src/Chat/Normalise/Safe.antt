-- ===== src/Chat/Normalise/Safe.antt =====
-- What becomes of each item of a tool result.
use mathlib.Core.Path.{subst}
use open_bbc.Base.{
  String, ◌≡◌, ◌≢◌, ◌⊎◌, refl, sym, ◌∙◌, inl, inr, true, false, Bool-cases, Option, none, some,
  List, [], ◌∷◌,
}
use open_bbc.Llm.{Bytes, ArtifactRef}
use open_bbc.Artifacts.Mime.{Sniffer}
use open_bbc.Chat.Env.{Codec, McpContentItem, Outcome, ok, err, panicked, Call, State, lift}
use open_bbc.Chat.Env.Run.{>>=-eq-ok}
use open_bbc.Chat.Normalise.Plain.{
  IsPlain, IsTypedPlain, carries_inline_bytes-HoldsNoBytes, looks_like_media-ShowsNoMedia,
  inline_media-IsTypedPlain,
}
use open_bbc.Chat.Normalise.{
  Media, no_media, undecodable, decoded, Slot, moved, kept, refs_of, kept_of, inline_media,
  unavailable_note, carries_inline_bytes, looks_like_media, uploaded, normalise_media,
  normalise_decoded, normalise_item, normalise_items, NormaliseResult, unavailable_tool_result,
  reassembled, of_items, normalise_tool_result,
}

module _ {W : Type 0} (codec : Codec) (sniffer : Sniffer)
    (upload : String → Bytes → Call W ArtifactRef) where
  -- A note about media that could not be stored.
  abbrev pub IsNote : Bytes → Type 0
  IsNote raw = (mime : String) × (size : String) × (raw ≡ unavailable_note codec mime size)

  -- The ref answers an upload of the bytes that the item decodes to.
  abbrev pub IsUploaded : Bytes → ArtifactRef → Type 0
  IsUploaded raw r =
      (item : McpContentItem) × (declared : String) × (bytes : Bytes) × (s : State W) × (t : State
        W)
      × (codec.decode_item raw ≡ some item)
      × (inline_media codec item ≡ decoded declared bytes)
      × (lift (upload declared bytes) s ≡ (ok r, t))

  -- An item without inline bytes is kept as it is; any other becomes a ref or a note.
  abbrev pub Treated : Bytes → Slot → Type 0
  Treated raw (moved r) = (¬ IsPlain codec raw) × IsUploaded raw r
  Treated raw (kept b) = (IsPlain codec raw × (b ≡ raw)) ⊎ ((¬ IsPlain codec raw) × IsNote b)

  -- One slot for each item, in order.
  abbrev pub AllTreated : List Bytes → List Slot → Type 0
  AllTreated [] [] = Unit
  AllTreated [] (s ∷ ss) = ⊥
  AllTreated (raw ∷ raws) [] = ⊥
  AllTreated (raw ∷ raws) (s ∷ ss) = Treated raw s × AllTreated raws ss

  returned-Treated :
      (raw : Bytes) (x slot : Slot) (s t : State W)
      → Treated raw x
      → ◌≡◌ {A = Outcome Slot × State W} (ok x, s) (ok slot, t)
      → Treated raw slot
  returned-Treated raw x slot s t h e =
      let same : x ≡ slot = cc e in subst (λ y. Treated raw y) same h

  media-not-IsPlain :
      (raw : Bytes) (item : McpContentItem) (m : Media)
      → codec.decode_item raw ≡ some item
      → inline_media codec item ≡ m
      → m ≢ no_media
      → ¬ IsPlain codec raw
  media-not-IsPlain raw item m d e media (typed, untyped) =
      media (sym e ∙ (inline_media-IsTypedPlain codec item).1 (typed item d).0)

  uploaded-Treated :
      (raw : Bytes) (item : McpContentItem) (declared : String) (bytes : Bytes) (s : State W)
      (r : Outcome ArtifactRef × State W) (slot : Slot) (t : State W)
      → codec.decode_item raw ≡ some item
      → inline_media codec item ≡ decoded declared bytes
      → lift (upload declared bytes) s ≡ r
      → uploaded codec sniffer upload declared bytes r ≡ (ok slot, t)
      → Treated raw slot
  unfolding uploaded
  uploaded-Treated raw item declared bytes s (ok ref, u) slot t d e l h =
      returned-Treated raw (moved ref) slot u t
        (
          media-not-IsPlain raw item _ d e (λ x. absurd (cc x)),
          (item, declared, bytes, s, u, d, e, l),
        )
        h
  uploaded-Treated raw item declared bytes s (err x, u) slot t d e l h =
      returned-Treated raw (kept _) slot u t
        (inr (media-not-IsPlain raw item _ d e (λ x. absurd (cc x)), (_, _, refl))) h
  uploaded-Treated raw item declared bytes s (panicked, u) slot t d e l h = absurd (cc h)

  normalise_media-Treated :
      (raw : Bytes) (item : McpContentItem) (m : Media) (s t : State W) (slot : Slot)
      → codec.decode_item raw ≡ some item
      → inline_media codec item ≡ m
      → normalise_media codec sniffer upload raw m s ≡ (ok slot, t)
      → Treated raw slot
  unfolding normalise_media
  normalise_media-Treated raw item no_media s t slot d e h =
      elim (Bool-cases (carries_inline_bytes codec raw)) [
        | inl c ↦
            returned-Treated raw (kept _) slot s t
              (inr (
                λ (typed, untyped).
                    let clear = (carries_inline_bytes-HoldsNoBytes codec raw).1 (typed item d).1 in
                    absurd (cc (c, clear)),
                (_, _, refl),
              ))
              (rw c at h)
        | inr c ↦
            let typed = (inline_media-IsTypedPlain codec item).0 e in
            let bare = (carries_inline_bytes-HoldsNoBytes codec raw).0 c in
            returned-Treated raw (kept raw) slot s t
              (inl (
                (
                  λ other d2.
                      let same : item ≡ other = cc (d, d2) in
                      (subst (λ i. IsTypedPlain codec i) same typed, bare),
                  λ n. absurd (cc (d, n)),
                ),
                refl,
              ))
              (rw c at h)
      ]
  normalise_media-Treated raw item (undecodable declared) s t slot d e h =
      returned-Treated raw (kept _) slot s t
        (inr (media-not-IsPlain raw item _ d e (λ x. absurd (cc x)), (_, _, refl))) h
  normalise_media-Treated raw item (decoded declared bytes) s t slot d e h =
      uploaded-Treated raw item declared bytes s (lift (upload declared bytes) s) slot t d e refl h

  normalise_decoded-Treated :
      (raw : Bytes) (o : Option McpContentItem) (s t : State W) (slot : Slot)
      → codec.decode_item raw ≡ o
      → normalise_decoded codec sniffer upload raw o s ≡ (ok slot, t)
      → Treated raw slot
  unfolding normalise_decoded
  normalise_decoded-Treated raw none s t slot d h = elim (Bool-cases (looks_like_media codec raw)) [
    | inl c ↦
        returned-Treated raw (kept _) slot s t
          (inr (
            λ (typed, untyped).
                absurd (cc (c, (looks_like_media-ShowsNoMedia codec raw).1 (untyped d))),
            (_, _, refl),
          ))
          (rw c at h)
    | inr c ↦
        returned-Treated raw (kept raw) slot s t
          (inl (
            (λ item e. absurd (cc (d, e)), λ n. (looks_like_media-ShowsNoMedia codec raw).0 c),
            refl,
          ))
          (rw c at h)
  ]
  normalise_decoded-Treated raw (some item) s t slot d h =
      normalise_media-Treated raw item (inline_media codec item) s t slot d refl h

  normalise_items-AllTreated :
      (raws : List Bytes) (s t : State W) (slots : List Slot)
      → normalise_items codec sniffer upload raws s ≡ (ok slots, t)
      → AllTreated raws slots
  unfolding normalise_items normalise_item
  normalise_items-AllTreated [] s t slots h =
      let same : [] ≡ slots = cc h in subst (λ ss. AllTreated [] ss) same tt
  normalise_items-AllTreated (raw ∷ raws) s t slots h =
      let (slot, u, e, h') = >>=-eq-ok (normalise_item codec sniffer upload raw) _ s h in
      let (rest, v, e', h'') = >>=-eq-ok (normalise_items codec sniffer upload raws) _ u h' in
      let here = normalise_decoded-Treated raw (codec.decode_item raw) s u slot refl e in
      let same : slot ∷ rest ≡ slots = cc h'' in
      subst (λ ss. AllTreated (raw ∷ raws) ss) same
        (here, normalise_items-AllTreated raws u v rest e')

  -- How the result of a payload with a content array is put together from the kept items.
  abbrev pub Assembled : Bytes → List Bytes → NormaliseResult → Type 0
  Assembled payload kept_items res =
      ((codec.with_content payload kept_items ≡ some res.output) × (res.force_error ≡ false))
      ⊎ ((codec.with_content payload kept_items ≡ none)
          × (res.output ≡ unavailable_tool_result)
          × (res.force_error ≡ true))

  abbrev pub IsNormalised : Bytes → List Bytes → NormaliseResult → Type 0
  IsNormalised payload items res =
      (slots : List Slot) × AllTreated items slots
      × (res.refs ≡ refs_of slots)
      × Assembled payload (kept_of slots) res

  reassembled-IsNormalised :
      (payload : Bytes) (items : List Bytes) (slots : List Slot) (o : Option Bytes)
      → AllTreated items slots
      → codec.with_content payload (kept_of slots) ≡ o
      → IsNormalised payload items (reassembled slots o)
  unfolding reassembled
  reassembled-IsNormalised payload items slots none all e = (slots, all, refl, inr (e, refl, refl))
  reassembled-IsNormalised payload items slots (some out) all e = (slots, all, refl, inl (e, refl))

  -- Of a payload with a content array, each item is treated in turn. One without inline bytes, in its
  -- typed form and in its members, is kept as it is. Any other becomes the ref of an upload of its
  -- bytes, or a note. The refs and the kept items are in the order of the items, and the output is
  -- the payload with the kept items for its content, or, if that does not serialise, the fixed error
  -- result.
  pub normalise-IsNormalised :
      (payload : Bytes) (items : List Bytes) (s t : State W) (res : NormaliseResult)
      → codec.content_items payload ≡ some items
      → normalise_tool_result codec sniffer upload payload s ≡ (ok res, t)
      → IsNormalised payload items res
  unfolding normalise_tool_result
  normalise-IsNormalised payload items s t res c h =
      let (slots, u, e, h') =
        >>=-eq-ok (normalise_items codec sniffer upload items) _ s (rw (c, of_items) at h) in
      let all = normalise_items-AllTreated items s u slots e in
      let eq : reassembled slots (codec.with_content payload (kept_of slots)) ≡ res = cc h' in
      subst (IsNormalised payload items) eq
        (reassembled-IsNormalised payload items slots _ all refl)
