-- ===== src/Artifacts/Mime/Resolve.antt =====
-- When a stored label is one that the renderer trusts.
use open_bbc.Base.{String, ◌≡◌, ◌⊎◌, refl, true, false, arith}
use open_bbc.Llm.{Bytes}
use open_bbc.Artifacts.Mime.{
  Sniffer, is_native_render_mime, octet_stream, normalise_mime, resolve_mime,
}
use package.text.Mathlib.Text.{starts_with}

octet_stream_not_native : is_native_render_mime octet_stream ≡ false
unfolding is_native_render_mime
octet_stream_not_native = refl

-- A label of the native-render set is stored only for bytes that the sniffer gives that very label,
-- whatever was declared; and for an image, only if its header decodes.
pub resolve_mime-native :
    (sniffer : Sniffer) (declared : String) (bytes : Bytes)
    → is_native_render_mime (resolve_mime sniffer declared bytes) ≡ true
    → let m = resolve_mime sniffer declared bytes in
      (m ≡ normalise_mime sniffer (sniffer.detect_content_type bytes))
      × ((starts_with m "image/" ≡ false) ⊎ (sniffer.decodes bytes ≡ true))
unfolding resolve_mime
resolve_mime-native sniffer declared bytes native = ground (arith, octet_stream_not_native)
