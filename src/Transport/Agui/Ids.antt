-- ===== src/Transport/Agui/Ids.antt =====
-- The ids of tool calls on the stream.
use Prim.Native.Char.{Char, code}
use Prim.Native.String
use Prim.Native.String.{[], ◌∷◌}
use Prim.Native.String.append
use open_bbc.Base.{
  String, false, inl, inr, Bool-cases, ◌==◌, eq_iff, ◌≡◌, refl, sym, ap, ◌∙◌, nat_eq,
}
use open_bbc.Transport.Agui.{child_tool_call_id}

abbrev pub HasNoColon : String → Type 0
HasNoColon [] = Unit
HasNoColon (c ∷ s) = (nat_eq (code c) b':' ≡ false) × HasNoColon s

-- A child's id on the stream.
abbrev joined : String → String → String
joined a t = String.◌++◌ a (String.◌++◌ ":" t)

abbrev colon : Char
colon = ":"

joined-nil : (t : String) → joined [] t ≡ colon ∷ t
joined-nil t =
    let front : joined [] t ≡ String.◌++◌ ":" t = λ i. append.nil (String.◌++◌ ":" t) i in
    let next : String.◌++◌ ":" t ≡ colon ∷ String.◌++◌ [] t = λ i. append.cons colon [] t i in
    let rest : String.◌++◌ [] t ≡ t = λ i. append.nil t i in front ∙ next ∙ ap (λ u. colon ∷ u) rest

joined-cons : (c : Char) (a t : String) → joined (c ∷ a) t ≡ c ∷ joined a t
joined-cons c a t = λ i. append.cons c a (String.◌++◌ ":" t) i

joined_of_HasNoColon : (a t : String) → ¬ HasNoColon (joined a t)
joined_of_HasNoColon [] t h =
    let (e, r) : HasNoColon (colon ∷ t) = rw (joined-nil t) at h in absurd (cc e)
joined_of_HasNoColon (c ∷ a) t h =
    let (e, r) : HasNoColon (c ∷ joined a t) = rw (joined-cons c a t) at h in
    joined_of_HasNoColon a t r

joined-inj :
    (a b s t : String) → HasNoColon a → HasNoColon b → joined a s ≡ joined b t → (a ≡ b) × (s ≡ t)
joined-inj [] [] s t h k e =
    let f : colon ∷ s ≡ colon ∷ t = sym (joined-nil s) ∙ e ∙ joined-nil t in (refl, cc f)
joined-inj [] (d ∷ b) s t h k e =
    let f : colon ∷ s ≡ d ∷ joined b t = sym (joined-nil s) ∙ e ∙ joined-cons d b t in
    absurd (cc (f, k.0))
joined-inj (c ∷ a) [] s t h k e =
    let f : c ∷ joined a s ≡ colon ∷ t = sym (joined-cons c a s) ∙ e ∙ joined-nil t in
    absurd (cc (f, h.0))
joined-inj (c ∷ a) (d ∷ b) s t h k e =
    let f : c ∷ joined a s ≡ d ∷ joined b t = sym (joined-cons c a s) ∙ e ∙ joined-cons d b t in
    let (p, q) = joined-inj a b s t h.1 k.1 (cc f) in (cc (f, p), q)

child_tool_call_id-joined :
    (c : Char) (a id : String) → child_tool_call_id (c ∷ a) id ≡ joined (c ∷ a) id
unfolding child_tool_call_id
child_tool_call_id-joined c a id = elim (Bool-cases ((c ∷ a) == "")) [
  | inl e ↦ absurd (cc ((eq_iff (c ∷ a) "").0 e))
  | inr e ↦ rw e refl
]

-- Two tool calls have the same id on the stream only if they have the same id in the same session,
-- where the ids of child sessions, and those of the root's own calls, hold no colon.
pub child_tool_call_id-inj :
    (child1 child2 id1 id2 : String)
    → HasNoColon child1
    → HasNoColon child2
    → (child1 ≡ "" → HasNoColon id1)
    → (child2 ≡ "" → HasNoColon id2)
    → child_tool_call_id child1 id1 ≡ child_tool_call_id child2 id2
    → (child1 ≡ child2) × (id1 ≡ id2)
unfolding child_tool_call_id
child_tool_call_id-inj [] [] id1 id2 h k p q e = (refl, e)
child_tool_call_id-inj [] (d ∷ b) id1 id2 h k p q e =
    let f = e ∙ child_tool_call_id-joined d b id2 in
    absurd (joined_of_HasNoColon (d ∷ b) id2 (rw f at (p refl)))
child_tool_call_id-inj (c ∷ a) [] id1 id2 h k p q e =
    let f = sym e ∙ child_tool_call_id-joined c a id1 in
    absurd (joined_of_HasNoColon (c ∷ a) id1 (rw f at (q refl)))
child_tool_call_id-inj (c ∷ a) (d ∷ b) id1 id2 h k p q e =
    joined-inj (c ∷ a) (d ∷ b) id1 id2 h k
      (sym (child_tool_call_id-joined c a id1) ∙ e ∙ child_tool_call_id-joined d b id2)
