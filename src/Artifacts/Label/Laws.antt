-- ===== src/Artifacts/Label/Laws.antt =====
-- What a cleaned label holds.
use Prim.Native.Char.{Char, code}
use Prim.Native.String.{[], ◌∷◌}
use open_bbc.Base.{String, ◌≡◌, refl, Bool-cases, false, inl, inr}
use open_bbc.Artifacts.Label.{
  is_dropped, is_space, drop_controls, trim_left, cons_trimmed, trim_right, trim_space, clean_text,
}

-- No control character and no bidirectional mark.
abbrev pub IsPrintable : String → Type 0
IsPrintable [] = Unit
IsPrintable (c ∷ s) = (is_dropped (code c) ≡ false) × IsPrintable s

-- No white space at the two ends.
abbrev pub StartsClean : String → Type 0
StartsClean [] = Unit
StartsClean (c ∷ s) = is_space (code c) ≡ false

abbrev pub EndsClean : String → Type 0
EndsClean [] = Unit
EndsClean (c ∷ []) = is_space (code c) ≡ false
EndsClean (c ∷ d ∷ s) = EndsClean (d ∷ s)

drop_controls-IsPrintable : (s : String) → IsPrintable (drop_controls s)
unfolding drop_controls
drop_controls-IsPrintable [] = tt
drop_controls-IsPrintable (c ∷ s) = elim (Bool-cases (is_dropped (code c))) [
  | inl e ↦ rw e (drop_controls-IsPrintable s)
  | inr e ↦ rw e (e, drop_controls-IsPrintable s)
]

drop_controls_of_IsPrintable : (s : String) → IsPrintable s → drop_controls s ≡ s
unfolding drop_controls
drop_controls_of_IsPrintable [] h = refl
drop_controls_of_IsPrintable (c ∷ s) (e, h) = rw (e, drop_controls_of_IsPrintable s h)

trim_left-IsPrintable : (s : String) → IsPrintable s → IsPrintable (trim_left s)
unfolding trim_left
trim_left-IsPrintable [] h = tt
trim_left-IsPrintable (c ∷ s) h = elim (Bool-cases (is_space (code c))) [
  | inl e ↦ rw e (trim_left-IsPrintable s h.1)
  | inr e ↦ rw e h
]

trim_left-StartsClean : (s : String) → StartsClean (trim_left s)
unfolding trim_left
trim_left-StartsClean [] = tt
trim_left-StartsClean (c ∷ s) = elim (Bool-cases (is_space (code c))) [
  | inl e ↦ rw e (trim_left-StartsClean s)
  | inr e ↦ rw e e
]

trim_left_of_StartsClean : (s : String) → StartsClean s → trim_left s ≡ s
unfolding trim_left
trim_left_of_StartsClean [] h = refl
trim_left_of_StartsClean (c ∷ s) h = rw h

cons_trimmed-IsPrintable :
    (c : Char) (s : String)
    → is_dropped (code c) ≡ false
    → IsPrintable s
    → IsPrintable (cons_trimmed c s)
unfolding cons_trimmed
cons_trimmed-IsPrintable c [] e h = elim (Bool-cases (is_space (code c))) [
  | inl b ↦ rw b tt
  | inr b ↦ rw b (e, tt)
]
cons_trimmed-IsPrintable c (d ∷ s) e h = (e, h)

trim_right-IsPrintable : (s : String) → IsPrintable s → IsPrintable (trim_right s)
unfolding trim_right
trim_right-IsPrintable [] h = tt
trim_right-IsPrintable (c ∷ s) (e, h) =
    cons_trimmed-IsPrintable c (trim_right s) e (trim_right-IsPrintable s h)

cons_trimmed-EndsClean : (c : Char) (s : String) → EndsClean s → EndsClean (cons_trimmed c s)
unfolding cons_trimmed
cons_trimmed-EndsClean c [] h = elim (Bool-cases (is_space (code c))) [
  | inl b ↦ rw b tt
  | inr b ↦ rw b b
]
cons_trimmed-EndsClean c (d ∷ s) h = h

trim_right-EndsClean : (s : String) → EndsClean (trim_right s)
unfolding trim_right
trim_right-EndsClean [] = tt
trim_right-EndsClean (c ∷ s) = cons_trimmed-EndsClean c (trim_right s) (trim_right-EndsClean s)

cons_trimmed-StartsClean :
    (c : Char) (s : String) → is_space (code c) ≡ false → StartsClean (cons_trimmed c s)
unfolding cons_trimmed
cons_trimmed-StartsClean c [] h = rw h h
cons_trimmed-StartsClean c (d ∷ s) h = h

trim_right-StartsClean : (s : String) → StartsClean s → StartsClean (trim_right s)
unfolding trim_right
trim_right-StartsClean [] h = tt
trim_right-StartsClean (c ∷ s) h = cons_trimmed-StartsClean c (trim_right s) h

trim_right_of_EndsClean : (s : String) → EndsClean s → trim_right s ≡ s
unfolding trim_right cons_trimmed
trim_right_of_EndsClean [] h = refl
trim_right_of_EndsClean (c ∷ []) h = rw h
trim_right_of_EndsClean (c ∷ d ∷ s) h = rw (trim_right_of_EndsClean (d ∷ s) h)

pub record IsClean (s : String) : Type 0 where
  pub printable : IsPrintable s
  pub starts : StartsClean s
  pub ends : EndsClean s

-- A cleaned label holds no control character and no bidirectional mark, and neither begins nor ends
-- with white space.
pub clean_text-IsClean : (s : String) → IsClean (clean_text s)
unfolding clean_text trim_space
clean_text-IsClean s =
    let t = trim_left (drop_controls s) in
    record {
      printable = trim_right-IsPrintable t (trim_left-IsPrintable _ (drop_controls-IsPrintable s));
      starts = trim_right-StartsClean t (trim_left-StartsClean (drop_controls s));
      ends = trim_right-EndsClean t;
    }

-- A clean label is left as it is; so cleaning a label twice is cleaning it once.
pub clean_text_of_IsClean : (s : String) → IsClean s → clean_text s ≡ s
unfolding clean_text trim_space
clean_text_of_IsClean s h = rw (
  drop_controls_of_IsPrintable s h.printable,
  trim_left_of_StartsClean s h.starts,
  trim_right_of_EndsClean s h.ends,
)
