-- ===== src/Llm/Surrogate.antt =====
-- `TextSurrogate`, `HumanBytes` and `itoa` of open-bbcd/internal/llm/llm.go.
use Prim.Native.Char.{code}
use Prim.Native.String.{[], ◌∷◌, ◌++◌}
use open_bbc.Base.{
  ℕ, zero, suc, ◌*◌, ◌/◌, ◌%◌, ◌^◌, String, Option, none, some, get_or, leb, nat_eq, ◌==◌,
  if◌then◌else◌,
}
use open_bbc.Base
use open_bbc.Llm.{ArtifactRef, Block, text}

abbrev digit_names : Base.List String
digit_names = Base.◌∷◌ "0" (
    Base.◌∷◌ "1" (
      Base.◌∷◌ "2" (
        Base.◌∷◌ "3" (
          Base.◌∷◌ "4"
            (Base.◌∷◌ "5" (Base.◌∷◌ "6" (Base.◌∷◌ "7" (Base.◌∷◌ "8" (Base.◌∷◌ "9" Base.[])))))))))

digit : ℕ → String
digit d = get_or digit_names d ""

-- The loop that fills `buf [20]byte` from its end; the fuel is the length of the buffer.
itoa_from : ℕ → ℕ → String → String
itoa_from zero n acc = acc
itoa_from (suc room) n acc =
    let more = itoa_from room (n / 10) (digit (n % 10) ++ acc) in if nat_eq n 0 then acc else more

pub itoa : ℕ → String
unfolding itoa_from digit
itoa n = if nat_eq n 0 then "0" else itoa_from 20 n ""

format_decimal : ℕ → ℕ → String
unfolding itoa
format_decimal n unit =
    let frac = n % unit * 10 / unit in
    if nat_eq frac 0 then itoa (n / unit) else itoa (n / unit) ++ "." ++ itoa frac

unfoldable pub human_bytes : ℕ → String
unfolding format_decimal itoa
human_bytes n =
    if leb (2 ^ 30) n
    then format_decimal n (2 ^ 30) ++ " GB"
    else if leb (2 ^ 20) n
    then format_decimal n (2 ^ 20) ++ " MB"
    else if leb (2 ^ 10) n
    then format_decimal n (2 ^ 10) ++ " KB"
    else itoa n ++ " B"

-- What follows the last slash, found by the downward scan of the source.
after_slash : String → Option String
after_slash [] = none
after_slash (c ∷ s) = or_here (after_slash s)
  where
    or_here : Option String → Option String
    or_here (some t) = some t
    or_here none = if nat_eq (code c) b'/' then some s else none

uri_label : String → Option String → String
uri_label uri none = uri
uri_label uri (some t) = if t == "" then uri else t

unfoldable pub attachment_note : ArtifactRef → String
unfolding human_bytes after_slash uri_label
attachment_note ref =
    let label =
      if ref.filename == "" then uri_label ref.uri (after_slash ref.uri) else ref.filename in
    "[Attachment: " ++ label ++ " (" ++ ref.mime ++ ", " ++ human_bytes ref.size_bytes ++ ")]"

abbrev pub text_surrogate : ArtifactRef → Block
text_surrogate ref = text (attachment_note ref)
