-- ===== src/Artifacts/Mime.antt =====
-- `ResolveMIME`, `normaliseMIME` and `IsNativeRenderMIME` of open-bbcd/internal/artifacts/mime.go.
-- The content sniffer, the image decoder and Unicode lower case are parameters.
pub mod Resolve
use Prim.Native.Char.{code}
use Prim.Native.String.{[], ◌∷◌}
use open_bbc.Base.{String, Bool, true, false, ◌||◌, nat_eq, ◌==◌, if◌then◌else◌}
use open_bbc.Llm.{Bytes}
use open_bbc.Artifacts.Label.{clean_text, trim_space}
use package.text.Mathlib.Text.{starts_with}

pub record Sniffer : Type 0 where
  pub detect_content_type : Bytes → String
  -- whether `image.DecodeConfig` accepts the bytes
  pub decodes : Bytes → Bool
  pub to_lower : String → String

abbrev pub octet_stream : String
octet_stream = "application/octet-stream"

unfoldable pub is_native_render_mime : String → Bool
is_native_render_mime mime =
    mime == "image/png"
    || mime == "image/jpeg"
    || mime == "image/gif"
    || mime == "image/webp"
    || mime == "application/pdf"

-- The text before the first semicolon.
before_params : String → String
before_params [] = []
before_params (c ∷ s) = let rest = before_params s in if nat_eq (code c) b';' then [] else c ∷ rest

unfoldable pub normalise_mime : Sniffer → String → String
unfolding before_params
normalise_mime sniffer s =
    let m = sniffer.to_lower (trim_space (before_params (clean_text s))) in
    if m == "" then octet_stream else m

unfoldable pub resolve_mime : Sniffer → String → Bytes → String
resolve_mime sniffer declared bytes =
    let d = normalise_mime sniffer declared in
    let sniffed = normalise_mime sniffer (sniffer.detect_content_type bytes) in
    if is_native_render_mime sniffed
    then (if starts_with sniffed "image/"
        then (if sniffer.decodes bytes then sniffed else octet_stream)
        else sniffed)
    else if is_native_render_mime d
    then octet_stream
    else d
