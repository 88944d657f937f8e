-- ===== src/Tests/Labels.antt =====
-- Labels of artifacts (open-bbcd/internal/artifacts).
use open_bbc.Base.{◌≡◌, ◌⊎◌, refl, true, false, [], ◌∷◌}
use open_bbc.Tests.Fixtures.{sniffer}
use open_bbc.Artifacts.Mime.{is_native_render_mime, normalise_mime, resolve_mime}
use open_bbc.Artifacts.Mime.Resolve.{resolve_mime-native}
use open_bbc.Artifacts.Label.{
  clean_text, drop_controls, trim_space, trim_left, trim_right, cons_trimmed,
}
use open_bbc.Artifacts.Label.Laws.{IsClean, clean_text-IsClean, clean_text_of_IsClean}
use package.text.Mathlib.Text.{starts_with}

png_stored : is_native_render_mime (resolve_mime sniffer "image/png" (137 ∷ 80 ∷ [])) ≡ true
unfolding is_native_render_mime resolve_mime normalise_mime clean_text drop_controls trim_space
    trim_left trim_right cons_trimmed
png_stored = refl

resolve_mime-native_example :
    let m = resolve_mime sniffer "image/png" (137 ∷ 80 ∷ []) in
    (m ≡ normalise_mime sniffer (sniffer.detect_content_type (137 ∷ 80 ∷ [])))
    × ((starts_with m "image/" ≡ false) ⊎ (sniffer.decodes (137 ∷ 80 ∷ []) ≡ true))
resolve_mime-native_example = resolve_mime-native sniffer "image/png" (137 ∷ 80 ∷ []) png_stored

-- A text with a line feed and a mark that turns the reading order.
clean_text-IsClean_example : IsClean (clean_text " a\n\u{202e}b ")
clean_text-IsClean_example = clean_text-IsClean " a\n\u{202e}b "

clean_text_of_IsClean_example : clean_text (clean_text " a\nb ") ≡ clean_text " a\nb "
clean_text_of_IsClean_example =
    clean_text_of_IsClean (clean_text " a\nb ") (clean_text-IsClean " a\nb ")
