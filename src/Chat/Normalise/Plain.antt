-- ===== src/Chat/Normalise/Plain.antt =====
-- Which items of a tool result hold inline bytes, described apart from the tests of
-- open-bbcd/internal/chat/artifacts.go.
use open_bbc.Base.{
  String, ◌≡◌, ◌≢◌, refl, inl, inr, false, ◌||◌, Bool-cases, Option, none, some, Option-cases, List,
  [], ◌∷◌, lookup, ◌==◌, eq_iff, arith,
}
use open_bbc.Llm.{Bytes}
use open_bbc.Chat.Env.{Codec, McpContentItem, McpResource}
use open_bbc.Chat.Normalise.{
  no_media, decoded_or, resource_media, inline_media, non_empty, nested_blob, carries_inline_bytes,
  is_present, is_media_kind, looks_like_media,
}

module _ (codec : Codec) where
  -- The member is not there, is no text, or is the empty text.
  abbrev pub HasNoText : String → List (String × Bytes) → Type 0
  HasNoText key m =
      (v : Bytes) (s : String) → lookup key m ≡ some v → codec.decode_text v ≡ some s → s ≡ ""

  -- Neither `data` nor `blob`, nor the `blob` of `resource`, has text in it.
  abbrev pub HoldsNoBytes : Bytes → Type 0
  HoldsNoBytes raw =
      (m : List (String × Bytes))
      → codec.members raw ≡ some m
      → HasNoText "data" m
        × HasNoText "blob" m
        × ((v : Bytes) (n : List (String × Bytes))
            → lookup "resource" m ≡ some v
            → codec.members v ≡ some n
            → HasNoText "blob" n)

  -- No member `data`, `blob` or `resource`, and no type of media.
  abbrev pub ShowsNoMedia : Bytes → Type 0
  ShowsNoMedia raw =
      (m : List (String × Bytes))
      → codec.members raw ≡ some m
      → (lookup "data" m ≡ none)
        × (lookup "blob" m ≡ none)
        × (lookup "resource" m ≡ none)
        × ((v : Bytes) (s : String)
            → lookup "type" m ≡ some v
            → codec.decode_text v ≡ some s
            → (s ≢ "image") × (s ≢ "audio") × (s ≢ "resource"))

  -- No image or audio, and no resource with a blob or a text.
  abbrev pub IsTypedPlain : McpContentItem → Type 0
  IsTypedPlain item =
      (item.kind ≢ "image")
      × (item.kind ≢ "audio")
      × (item.kind ≡ "resource"
          → (r : McpResource) → item.resource ≡ some r
          → (r.blob ≡ "") × (r.text ≡ ""))

  -- An item without inline bytes: as it decodes and in its members, or, where it does not decode, in
  -- its members alone.
  abbrev pub IsPlain : Bytes → Type 0
  IsPlain raw =
      ((item : McpContentItem)
        → codec.decode_item raw ≡ some item
        → IsTypedPlain item × HoldsNoBytes raw)
      × (codec.decode_item raw ≡ none → ShowsNoMedia raw)

  non_empty-HasNoText :
      (key : String) (m : List (String × Bytes))
      → (non_empty codec (lookup key m) ≡ false → HasNoText key m)
        × (HasNoText key m → non_empty codec (lookup key m) ≡ false)
  unfolding non_empty
  non_empty-HasNoText key m = (
    λ h v s e d. (eq_iff s "").0 (ground (arith, h, e, d)),
    λ h. elim (Option-cases (lookup key m)) [
      | inl e ↦ rw e refl
      | inr (v, e) ↦ elim (Option-cases (codec.decode_text v)) [
        | inl d ↦ rw e (rw (d, non_empty) refl)
        | inr (s, d) ↦ rw e (rw (d, non_empty) (ground (arith, (eq_iff s "").1 (h v s e d))))
      ]
    ],
  )

  -- The blob of a resource's members.
  abbrev HasNoBlob : List (String × Bytes) → Type 0
  HasNoBlob m =
      (v : Bytes) (n : List (String × Bytes))
      → lookup "resource" m ≡ some v
      → codec.members v ≡ some n
      → HasNoText "blob" n

  nested_blob-HasNoBlob :
      (m : List (String × Bytes))
      → (nested_blob codec (lookup "resource" m) ≡ false → HasNoBlob m)
        × (HasNoBlob m → nested_blob codec (lookup "resource" m) ≡ false)
  unfolding nested_blob
  nested_blob-HasNoBlob m = (
    λ h v n e d. (non_empty-HasNoText "blob" n).0 (rw (d, nested_blob) at (rw e at h)),
    λ h. elim (Option-cases (lookup "resource" m)) [
      | inl e ↦ rw e refl
      | inr (v, e) ↦ elim (Option-cases (codec.members v)) [
        | inl d ↦ rw e (rw (d, nested_blob) refl)
        | inr (n, d) ↦ rw e (rw (d, nested_blob) ((non_empty-HasNoText "blob" n).1 (h v n e d)))
      ]
    ],
  )

  pub carries_inline_bytes-HoldsNoBytes :
      (raw : Bytes)
      → (carries_inline_bytes codec raw ≡ false → HoldsNoBytes raw)
        × (HoldsNoBytes raw → carries_inline_bytes codec raw ≡ false)
  unfolding carries_inline_bytes
  carries_inline_bytes-HoldsNoBytes raw = (
    λ h m e.
        let k = rw (e, carries_inline_bytes) at h in
        (
          (non_empty-HasNoText "data" m).0 (ground (arith, k)),
          (non_empty-HasNoText "blob" m).0 (ground (arith, k)),
          (nested_blob-HasNoBlob m).0 (ground (arith, k)),
        ),
    λ h. elim (Option-cases (codec.members raw)) [
      | inl e ↦ rw (e, carries_inline_bytes) refl
      | inr (m, e) ↦
          let (a, b, c) = h m e in
          let x = (non_empty-HasNoText "data" m).1 a in
          let y = (non_empty-HasNoText "blob" m).1 b in
          let z = (nested_blob-HasNoBlob m).1 c in
          rw (e, carries_inline_bytes) (ground (arith, x, y, z))
    ],
  )

  is_present-none : (o : Option Bytes) → is_present o ≡ false → o ≡ none
  unfolding is_present
  is_present-none none h = refl
  is_present-none (some v) h = absurd (cc h)

  abbrev HasNoMediaType : List (String × Bytes) → Type 0
  HasNoMediaType m =
      (v : Bytes) (s : String)
      → lookup "type" m ≡ some v
      → codec.decode_text v ≡ some s
      → (s ≢ "image") × (s ≢ "audio") × (s ≢ "resource")

  differs : (s t : String) → (s == t) ≡ false → s ≢ t
  differs s t h e = absurd (cc (h, (eq_iff s t).1 e))

  differs_back : (s t : String) → s ≢ t → (s == t) ≡ false
  differs_back s t h = elim (Bool-cases (s == t)) [
    | inl e ↦ absurd (h ((eq_iff s t).0 e))
    | inr e ↦ e
  ]

  is_media_kind-HasNoMediaType :
      (m : List (String × Bytes))
      → (is_media_kind codec (lookup "type" m) ≡ false → HasNoMediaType m)
        × (HasNoMediaType m → is_media_kind codec (lookup "type" m) ≡ false)
  unfolding is_media_kind
  is_media_kind-HasNoMediaType m = (
    λ h v s e d. (
      differs s "image" (ground (arith, h, e, d)),
      differs s "audio" (ground (arith, h, e, d)),
      differs s "resource" (ground (arith, h, e, d)),
    ),
    λ h. elim (Option-cases (lookup "type" m)) [
      | inl e ↦ rw e refl
      | inr (v, e) ↦ elim (Option-cases (codec.decode_text v)) [
        | inl d ↦ rw e (rw (d, is_media_kind) refl)
        | inr (s, d) ↦
            let (a, b, c) = h v s e d in
            let x = differs_back s "image" a in
            let y = differs_back s "audio" b in
            let z = differs_back s "resource" c in
            rw e (rw (d, is_media_kind) (ground (arith, x, y, z)))
      ]
    ],
  )

  pub looks_like_media-ShowsNoMedia :
      (raw : Bytes)
      → (looks_like_media codec raw ≡ false → ShowsNoMedia raw)
        × (ShowsNoMedia raw → looks_like_media codec raw ≡ false)
  unfolding looks_like_media is_present
  looks_like_media-ShowsNoMedia raw = (
    λ h m e.
        let k = rw (e, looks_like_media) at h in
        (
          is_present-none (lookup "data" m) (ground (arith, k)),
          is_present-none (lookup "blob" m) (ground (arith, k)),
          is_present-none (lookup "resource" m) (ground (arith, k)),
          (is_media_kind-HasNoMediaType m).0 (ground (arith, k)),
        ),
    λ h. elim (Option-cases (codec.members raw)) [
      | inl e ↦ rw (e, looks_like_media) refl
      | inr (m, e) ↦
          let (a, b, c, d) = h m e in
          let x = (is_media_kind-HasNoMediaType m).1 d in
          rw (e, looks_like_media) (ground (arith, a, b, c, x))
    ],
  )

  decoded_or-media : (declared : String) (o : Option Bytes) → decoded_or declared o ≢ no_media
  unfolding decoded_or
  decoded_or-media declared none h = absurd (cc h)
  decoded_or-media declared (some []) h = absurd (cc h)
  decoded_or-media declared (some (b ∷ bs)) h = absurd (cc h)

  -- A resource with neither a blob nor a text.
  abbrev IsBare : Option McpResource → Type 0
  IsBare o = (r : McpResource) → o ≡ some r → (r.blob ≡ "") × (r.text ≡ "")

  resource_media-IsBare :
      (o : Option McpResource)
      → (resource_media codec o ≡ no_media → IsBare o)
        × (IsBare o → resource_media codec o ≡ no_media)
  unfolding resource_media
  resource_media-IsBare none = (λ h r e. absurd (cc e), λ h. refl)
  resource_media-IsBare (some r) = elim (Bool-cases (r.blob == "")) [
    | inr b ↦ (
      λ h. absurd (decoded_or-media _ _ (rw b at h)),
      λ h. absurd (cc (b, (eq_iff r.blob "").1 (h r refl).0)),
    )
    | inl b ↦ elim (Bool-cases (r.text == "")) [
      | inr t ↦ (
        λ h. absurd (cc (rw (b, t) at h)),
        λ h. absurd (cc (t, (eq_iff r.text "").1 (h r refl).1)),
      )
      | inl t ↦ (
        λ h q e.
            let same : r ≡ q = cc e in rw (← same) ((eq_iff r.blob "").0 b, (eq_iff r.text "").0 t),
        λ h. rw (b, t) refl,
      )
    ]
  ]

  pub inline_media-IsTypedPlain :
      (item : McpContentItem)
      → (inline_media codec item ≡ no_media → IsTypedPlain item)
        × (IsTypedPlain item → inline_media codec item ≡ no_media)
  unfolding inline_media
  inline_media-IsTypedPlain item =
      elim (Bool-cases (item.kind == "image" || item.kind == "audio")) [
        | inl k ↦ (
          λ h. absurd (decoded_or-media _ _ (rw k at h)),
          λ (a, b, c).
              let x = differs_back item.kind "image" a in
              let y = differs_back item.kind "audio" b in absurd (ground (arith, k, x, y)),
        )
        | inr k ↦
            let image = differs item.kind "image" (ground (arith, k)) in
            let audio = differs item.kind "audio" (ground (arith, k)) in
            elim (Bool-cases (item.kind == "resource")) [
              | inr n ↦ (
                λ h. (image, audio, λ e. absurd (differs item.kind "resource" n e)),
                λ h. rw (k, n) refl,
              )
              | inl y ↦ (
                λ h. (image, audio, λ e. (resource_media-IsBare item.resource).0 (rw (k, y) at h)),
                λ (a, b, c).
                    rw (k, y)
                      ((resource_media-IsBare item.resource).1
                        (c ((eq_iff item.kind "resource").0 y))),
              )
            ]
      ]
