-- ===== src/Flowmap/Bypass/Edges.antt =====
-- The edges of a workflow without its parallel nodes.
use mathlib.Core.List.{Memᴰ}
use mathlib.Core.List.Memᴰ.{
  head, tail, append_cases, append_left, append_right, of_map, map as mem-map,
}
use open_bbc.Base.{
  String, Bool, true, false, Bool-cases, ◌≡◌, ◌⊎◌, ◌↔◌, inl, inr, refl, sym, ap, ◌∙◌, keep, List,
  [], ◌∷◌, any, ◌==◌, ◌&&◌, not, eq_iff, arith,
}
use open_bbc.Store.Rows.{mem-keep, keep-mem}
use open_bbc.Flowmap.Bypass.{
  ParsedEdge, ParsedWorkflow, is_parallel, is_into, is_out_of, bridges_of, bridges_at, preds, succs,
  bridge, each, bridges, bypass_parallel,
}

mem-each :
    {A B : Type 0} (f : A → List B) (xs : List A) (y : B)
    → Memᴰ y (each f xs)
    → (x : A) × Memᴰ x xs × Memᴰ y (f x)
mem-each f [] y m = elim m [ ]
mem-each f (x ∷ xs) y m = elim (append_cases (f x) m) [
  | inl h ↦ (x, head refl, h)
  | inr t ↦ let (z, i, h) = mem-each f xs y t in (z, tail i, h)
]

each-mem :
    {A B : Type 0} (f : A → List B) (xs : List A) (x : A) (y : B)
    → Memᴰ x xs
    → Memᴰ y (f x)
    → Memᴰ y (each f xs)
each-mem f [] x y m h = elim m [ ]
each-mem f (z ∷ xs) x y (head e) h = append_left (each f xs) (rw e at h)
each-mem f (z ∷ xs) x y (tail m) h = append_right (f z) (each-mem f xs x y m h)

-- An edge between two nodes that are not parallel.
abbrev pub IsDirect : List String → ParsedEdge → Type 0
IsDirect parallels e = (is_parallel parallels e.to ≡ false) × (is_parallel parallels e.from ≡ false)

-- An edge of the workflow into the parallel node, from one that is not, and one out of it, to one
-- that is not.
abbrev pub ArePassed : List String → List ParsedEdge → (before after : ParsedEdge) → Type 0
ArePassed parallels edges pe se =
    Memᴰ pe edges
    × Memᴰ se edges
    × (pe.to ≡ se.from)
    × (is_parallel parallels pe.to ≡ true)
    × (is_parallel parallels pe.from ≡ false)
    × (is_parallel parallels se.to ≡ false)

mem-bridges :
    (parallels : List String) (edges : List ParsedEdge) (e : ParsedEdge)
    → Memᴰ e (bridges parallels edges)
    → (pe se : ParsedEdge) × ArePassed parallels edges pe se × (bridge pe se ≡ e)
unfolding bridges preds succs
mem-bridges parallels edges e m =
    let (pid, i, m1) = mem-each (λ pid. bridges_at parallels edges pid) parallels e m in
    let (pe, j, m2) =
      mem-each (λ pe. bridges_of parallels edges pid pe) (preds parallels edges pid) e m1 in
    let (se, k, same) = of_map (λ se. bridge pe se) (succs parallels edges pid) m2 in
    let (p, a) = mem-keep (is_into parallels pid) edges pe j in
    let (q, b) = mem-keep (is_out_of parallels pid) edges se k in
    let x : pe.to ≡ pid = (eq_iff pe.to pid).0 (ground (arith, a)) in
    let y : se.from ≡ pid = (eq_iff se.from pid).0 (ground (arith, b)) in
    (pe, se, (p, q, x ∙ sym y, ground (arith, a), ground (arith, a), ground (arith, b)), same)

mem-any :
    {A : Type 0} (p : A → Bool) (xs : List A) → any p xs ≡ true → (x : A) × Memᴰ x xs × (p x ≡ true)
mem-any p [] h = absurd (cc h)
mem-any p (x ∷ xs) h = elim (Bool-cases (p x)) [
  | inl e ↦ (x, head refl, e)
  | inr e ↦ let (y, i, k) = mem-any p xs (rw e at h) in (y, tail i, k)
]

bridges-mem :
    (parallels : List String) (edges : List ParsedEdge) (pe se : ParsedEdge)
    → ArePassed parallels edges pe se
    → Memᴰ (bridge pe se) (bridges parallels edges)
unfolding bridges preds succs
bridges-mem parallels edges pe se (p, q, same, a, b, c) =
    let (pid, i, k) = mem-any (λ p. p == pe.to) parallels a in
    let x : pid ≡ pe.to = (eq_iff pid pe.to).0 k in
    let before : (pe.to == pid) ≡ true = (eq_iff pe.to pid).1 (sym x) in
    let after : (se.from == pid) ≡ true = (eq_iff se.from pid).1 (sym same ∙ sym x) in
    let out : is_parallel parallels se.from ≡ true =
      ap (λ n. is_parallel parallels n) (sym same) ∙ a in
    each-mem (λ pid. bridges_at parallels edges pid) parallels pid (bridge pe se) i
      (each-mem (λ pe. bridges_of parallels edges pid pe) (preds parallels edges pid) pe
        (bridge pe se) (keep-mem (is_into parallels pid) edges pe p (ground (arith, a, b, before)))
        (mem-map (λ se. bridge pe se)
          (keep-mem (is_out_of parallels pid) edges se q (ground (arith, c, out, after)))))

-- The edges of the result are exactly the direct edges of the workflow, and those that bridge an
-- edge into a parallel node and an edge out of the same node, from and to nodes that are not
-- parallel, with the label of the second or, where that is empty, of the first.
pub bypass_parallel-edges :
    (wf : ParsedWorkflow) (parallels : List String) (e : ParsedEdge)
    → Memᴰ e (bypass_parallel wf parallels).edges ↔ (
        (Memᴰ e wf.edges × IsDirect parallels e)
        ⊎ ((pe se : ParsedEdge) × ArePassed parallels wf.edges pe se × (bridge pe se ≡ e)))
unfolding bypass_parallel
bypass_parallel-edges wf parallels e = (
  λ m. elim (append_cases (keep is_direct wf.edges) m) [
    | inl d ↦
        let (i, k) = mem-keep is_direct wf.edges e d in
        inl (i, (ground (arith, k), ground (arith, k)))
    | inr b ↦ inr (mem-bridges parallels wf.edges e b)
  ],
  λ h. elim h [
    | inl (i, (a, b)) ↦
        append_left (bridges parallels wf.edges)
          (keep-mem is_direct wf.edges e i (ground (arith, a, b)))
    | inr (pe, se, p, same) ↦
        append_right (keep is_direct wf.edges) (rw same at (bridges-mem parallels wf.edges pe se p))
  ],
)
  where
    is_direct : ParsedEdge → Bool
    is_direct e = not (is_parallel parallels e.to) && not (is_parallel parallels e.from)
