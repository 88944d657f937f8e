-- ===== src/Json.antt =====
-- What the orchestrator uses of Go's encoding/json and bytes: `json.Valid`, as the byte-by-byte
-- scanner of that package, and `bytes.TrimSpace`. A state names what the next byte may be;
-- the stack holds the open objects and arrays.
use open_bbc.Base.{
  ℕ, zero, suc, ◌-◌, ◌≡◌, refl, Bool, true, false, ◌&&◌, ◌||◌, Option, none, some, List, [], ◌∷◌,
  ltb, leb, nat_eq, length, if◌then◌else◌,
}
use open_bbc.Llm.{Bytes}

pub data Frame : Type 0 where
  object_key object_value array_value : Frame

pub data Scan : Type 0 where
  begin_value begin_value_or_close begin_key begin_key_or_close : Scan
  in_text in_escape : Scan
  in_hex : ℕ → Scan
  after_minus after_zero in_digits after_dot in_fraction after_e after_sign in_exponent : Scan
  -- the bytes of a literal name that are still to come
  in_name : Bytes → Scan
  after_value : Scan

abbrev Machine : Type 0
Machine = Scan × List Frame

-- The white space of JSON.
abbrev is_json_space : ℕ → Bool
is_json_space c = nat_eq c 0x20 || nat_eq c 0x09 || nat_eq c 0x0a || nat_eq c 0x0d

abbrev is_digit : ℕ → Bool
is_digit c = leb b'0' c && leb c b'9'

abbrev is_hex : ℕ → Bool
is_hex c = is_digit c || leb b'a' c && leb c b'f' || leb b'A' c && leb c b'F'

-- encoding/json refuses documents nested deeper than this.
abbrev max_nesting_depth : ℕ
max_nesting_depth = 10000

push : Scan → Frame → List Frame → Option Machine
push q f st = if ltb max_nesting_depth (length (f ∷ st)) then none else some (q, f ∷ st)

start_value : ℕ → List Frame → Option Machine
unfolding push
start_value c st =
    if nat_eq c b'{'
    then push begin_key_or_close object_key st
    else if nat_eq c b'['
    then push begin_value_or_close array_value st
    else if nat_eq c 0x22
    then some (in_text, st)
    else if nat_eq c b'-'
    then some (after_minus, st)
    else if nat_eq c b'0'
    then some (after_zero, st)
    else if is_digit c
    then some (in_digits, st)
    else if nat_eq c b't'
    then some (in_name (b'r' ∷ b'u' ∷ b'e' ∷ []), st)
    else if nat_eq c b'f'
    then some (in_name (b'a' ∷ b'l' ∷ b's' ∷ b'e' ∷ []), st)
    else if nat_eq c b'n'
    then some (in_name (b'u' ∷ b'l' ∷ b'l' ∷ []), st)
    else none

-- The byte after a complete value.
end_value : ℕ → List Frame → Option Machine
end_value c [] = if is_json_space c then some (after_value, []) else none
end_value c (object_key ∷ st) =
    if is_json_space c
    then some (after_value, object_key ∷ st)
    else if nat_eq c b':'
    then some (begin_value, object_value ∷ st)
    else none
end_value c (object_value ∷ st) =
    if is_json_space c
    then some (after_value, object_value ∷ st)
    else if nat_eq c b','
    then some (begin_key, object_key ∷ st)
    else if nat_eq c b'}'
    then some (after_value, st)
    else none
end_value c (array_value ∷ st) =
    if is_json_space c
    then some (after_value, array_value ∷ st)
    else if nat_eq c b','
    then some (begin_value, array_value ∷ st)
    else if nat_eq c b']'
    then some (after_value, st)
    else none

abbrev is_escape : ℕ → Bool
is_escape c =
    nat_eq c 0x22
    || nat_eq c 0x5c
    || nat_eq c b'/'
    || nat_eq c b'b'
    || nat_eq c b'f'
    || nat_eq c b'n'
    || nat_eq c b'r'
    || nat_eq c b't'

close : List Frame → Option Machine
close [] = none
close (f ∷ st) = some (after_value, st)

step : Scan → ℕ → List Frame → Option Machine
unfolding start_value end_value close
step begin_value c st = if is_json_space c then some (begin_value, st) else start_value c st
step begin_value_or_close c st =
    if is_json_space c
    then some (begin_value_or_close, st)
    else if nat_eq c b']'
    then close st
    else start_value c st
step begin_key c st =
    if is_json_space c
    then some (begin_key, st)
    else if nat_eq c 0x22
    then some (in_text, st)
    else none
step begin_key_or_close c st =
    if is_json_space c
    then some (begin_key_or_close, st)
    else if nat_eq c b'}'
    then close st
    else if nat_eq c 0x22
    then some (in_text, st)
    else none
step in_text c st =
    if nat_eq c 0x22
    then some (after_value, st)
    else if nat_eq c 0x5c
    then some (in_escape, st)
    else if ltb c 0x20
    then none
    else some (in_text, st)
step in_escape c st =
    if nat_eq c b'u' then some (in_hex 3, st) else if is_escape c then some (in_text, st) else none
step (in_hex zero) c st = if is_hex c then some (in_text, st) else none
step (in_hex (suc n)) c st = if is_hex c then some (in_hex n, st) else none
step after_minus c st =
    if nat_eq c b'0'
    then some (after_zero, st)
    else if is_digit c
    then some (in_digits, st)
    else none
step in_digits c st =
    if is_digit c
    then some (in_digits, st)
    else if nat_eq c b'.'
    then some (after_dot, st)
    else if nat_eq c b'e' || nat_eq c b'E'
    then some (after_e, st)
    else end_value c st
step after_zero c st =
    if nat_eq c b'.'
    then some (after_dot, st)
    else if nat_eq c b'e' || nat_eq c b'E'
    then some (after_e, st)
    else end_value c st
step after_dot c st = if is_digit c then some (in_fraction, st) else none
step in_fraction c st =
    if is_digit c
    then some (in_fraction, st)
    else if nat_eq c b'e' || nat_eq c b'E'
    then some (after_e, st)
    else end_value c st
step after_e c st =
    if nat_eq c 0x2b || nat_eq c b'-'
    then some (after_sign, st)
    else if is_digit c
    then some (in_exponent, st)
    else none
step after_sign c st = if is_digit c then some (in_exponent, st) else none
step in_exponent c st = if is_digit c then some (in_exponent, st) else end_value c st
step (in_name []) c st = end_value c st
step (in_name (b ∷ [])) c st = if nat_eq c b then some (after_value, st) else none
step (in_name (b ∷ d ∷ bs)) c st = if nat_eq c b then some (in_name (d ∷ bs), st) else none
step after_value c st = end_value c st

abbrev is_number_end : Scan → Bool
is_number_end after_zero = true
is_number_end in_digits = true
is_number_end in_fraction = true
is_number_end in_exponent = true
is_number_end after_value = true
is_number_end q = false

-- At the end of the input: one whole value and nothing open.
finished : Scan → List Frame → Bool
finished q [] = is_number_end q
finished q (f ∷ st) = false

scan : Option Machine → Bytes → Bool
unfolding finished step
scan none bs = false
scan (some (q, st)) [] = finished q st
scan (some (q, st)) (c ∷ bs) = scan (step q c st) bs

-- `json.Valid`.
unfoldable pub valid : Bytes → Bool
unfolding scan
valid bs = scan (some (begin_value, [])) bs

-- The ASCII white space of `bytes.TrimSpace`: it has two bytes more than JSON's, 0x0b and 0x0c.
abbrev is_ascii_space : ℕ → Bool
is_ascii_space c = is_json_space c || nat_eq c 0x0b || nat_eq c 0x0c

-- The second byte of a white-space rune that begins with 0xc2: U+0085 and U+00A0.
abbrev is_latin_space_tail : Bytes → Bool
is_latin_space_tail [] = false
is_latin_space_tail (d ∷ bs) = nat_eq d 0x85 || nat_eq d 0xa0

-- The tail of a white-space rune of three bytes: U+1680, U+2000 to U+200A, U+2028, U+2029, U+202F,
-- U+205F and U+3000.
abbrev is_wide_space_tail : ℕ → Bytes → Bool
is_wide_space_tail c [] = false
is_wide_space_tail c (d ∷ []) = false
is_wide_space_tail c (d ∷ e ∷ bs) =
    nat_eq c 0xe1 && nat_eq d 0x9a && nat_eq e 0x80
    || nat_eq c 0xe2
      && nat_eq d 0x80
      && (leb 0x80 e && leb e 0x8a || nat_eq e 0xa8 || nat_eq e 0xa9 || nat_eq e 0xaf)
    || nat_eq c 0xe2 && nat_eq d 0x81 && nat_eq e 0x9f
    || nat_eq c 0xe3 && nat_eq d 0x80 && nat_eq e 0x80

-- The bytes of the rune in front if that is white space, and 0 otherwise.
abbrev space_width : ℕ → Bytes → ℕ
space_width c bs =
    if is_ascii_space c
    then 1
    else if nat_eq c 0xc2 && is_latin_space_tail bs
    then 2
    else if is_wide_space_tail c bs
    then 3
    else 0

-- What is left after these bytes and the white space behind them.
skip_space : ℕ → Bytes → Bytes
skip_space n [] = []
skip_space (suc n) (c ∷ bs) = skip_space n bs
skip_space zero (c ∷ bs) =
    let width = space_width c bs in
    let rest = skip_space (width - 1) bs in if nat_eq width 0 then c ∷ bs else rest

trim_left : Bytes → Bytes
unfolding skip_space
trim_left bs = skip_space 0 bs

abbrev is_nil : Bytes → Bool
is_nil [] = true
is_nil (c ∷ bs) = false

-- The end goes where it is nothing but white space.
trim_right : Bytes → Bytes
unfolding trim_left
trim_right [] = []
trim_right (c ∷ bs) =
    let rest = trim_right bs in if is_nil (trim_left (c ∷ bs)) then [] else c ∷ rest

-- `bytes.TrimSpace`
unfoldable pub trim_space : Bytes → Bytes
unfolding trim_left trim_right
trim_space bs = trim_right (trim_left bs)

-- `{}`
abbrev pub empty_object : Bytes
empty_object = b'{' ∷ b'}' ∷ []

empty_object-valid : valid empty_object ≡ true
unfolding valid
empty_object-valid = refl
