-- ===== src/Store/Bindings/Reach/Walks.antt =====
-- `reach` finds exactly the versions at the ends of walks.
use mathlib.Core.List.{Memᴰ}
use mathlib.Core.List.Memᴰ.{head, tail, append_left, append_right, append_cases, eq_of_singleton}
use mathlib.Core.List.Memᴰ
use open_bbc.Base.{
  ℕ, zero, suc, ◌≤◌, ◌<◌, String, ◌≡◌, refl, sym, ap, ◌⊎◌, inl, inr, ◌↔◌, Bool, true, false, not,
  Bool-cases, List, [], ◌∷◌, ◌++◌, map, keep, length, ◌==◌, arith, eq_iff,
}
use open_bbc.Chat.Env.{SubAgentBinding}
use open_bbc.Store.Rows.{mem-keep, keep-mem, any-of-mem, mem-of-any}
use open_bbc.Store.Bindings.Reach.{leaves, follow, reach}
use open_bbc.Store.Invariant.Topology.{Edge, Walk, edge, step}

abbrev found : List String → List SubAgentBinding → List String
found ids bs = map (λ (b : SubAgentBinding). b.target_version_id) (keep (leaves ids) bs)

abbrev rest : List String → List SubAgentBinding → List SubAgentBinding
rest ids bs = keep (λ b. not (leaves ids b)) bs

leaves-mem :
    (ids : List String) (b : SubAgentBinding) → leaves ids b ≡ true → Memᴰ b.caller_version_id ids
leaves-mem ids b h =
    let (i, m, e) = mem-of-any (λ (id : String). id == b.caller_version_id) ids h in
    Memᴰ.cast (sym ((eq_iff i b.caller_version_id).0 e)) m

mem-leaves :
    (ids : List String) (b : SubAgentBinding) → Memᴰ b.caller_version_id ids → leaves ids b ≡ true
mem-leaves ids b m =
    any-of-mem (λ (id : String). id == b.caller_version_id) ids b.caller_version_id m
      ((eq_iff b.caller_version_id b.caller_version_id).1 refl)

-- A version that is found is the end of an edge from the frontier.
found-Edge :
    (ids : List String) (bs : List SubAgentBinding) (x : String)
    → Memᴰ x (found ids bs)
    → (a : String) × Memᴰ a ids × Edge bs a x
unfolding Edge
found-Edge ids bs x m =
    let (b, n, e) =
      Memᴰ.of_map (λ (b : SubAgentBinding). b.target_version_id) (keep (leaves ids) bs) m in
    let (i, k) = mem-keep (leaves ids) bs b n in
    (b.caller_version_id, leaves-mem ids b k, (b, i, refl, e))

edge-found :
    (ids : List String) (bs : List SubAgentBinding) (b : SubAgentBinding) (x : String)
    → Memᴰ b bs
    → leaves ids b ≡ true
    → b.target_version_id ≡ x
    → Memᴰ x (found ids bs)
edge-found ids bs b x m h e =
    Memᴰ.cast (sym e)
      (Memᴰ.map (λ (b : SubAgentBinding). b.target_version_id) (keep-mem (leaves ids) bs b m h))

Walk-rest :
    (ids : List String) (bs : List SubAgentBinding) (a x : String)
    → Walk (rest ids bs) a x
    → Walk bs a x
unfolding Edge
Walk-rest ids bs a x (edge (b, m, e, k)) = edge (b, (mem-keep _ bs b m).0, e, k)
Walk-rest ids bs a x (step {b = y} (b, m, e, k) w) =
    step {b = y} (b, (mem-keep _ bs b m).0, e, k) (Walk-rest ids bs y x w)

Walk-of-follow :
    (n : ℕ) (ids : List String) (bs : List SubAgentBinding) (x : String)
    → Memᴰ x (follow n ids bs)
    → (a : String) × Memᴰ a ids × Walk bs a x
unfolding follow
Walk-of-follow zero ids bs x m = elim m [ ]
Walk-of-follow (suc n) ids bs x m = elim (append_cases (found ids bs) m) [
  | inl i ↦ let (a, k, e) = found-Edge ids bs x i in (a, k, edge e)
  | inr i ↦
      let (y, k, w) = Walk-of-follow n (found ids bs) (rest ids bs) x i in
      let (a, l, e) = found-Edge ids bs y k in (a, l, step e (Walk-rest ids bs y x w))
]

-- The part of a walk after the last binding that leaves the frontier.
data Suffix (ids : List String) (bs : List SubAgentBinding) (a x : String) : Type 0 where
  whole : Walk (rest ids bs) a x → Suffix ids bs a x
  ends : Memᴰ x (found ids bs) → Suffix ids bs a x
  part : (y : String) → Memᴰ y (found ids bs) → Walk (rest ids bs) y x → Suffix ids bs a x

suffix-Edge :
    (ids : List String) (bs : List SubAgentBinding) (a x : String)
    → Edge bs a x
    → Edge (rest ids bs) a x ⊎ Memᴰ x (found ids bs)
unfolding Edge
suffix-Edge ids bs a x (b, m, e, k) = elim (Bool-cases (leaves ids b)) [
  | inl h ↦ inr (edge-found ids bs b x m h k)
  | inr h ↦ inl (b, keep-mem (λ c. not (leaves ids c)) bs b m (rw h refl), e, k)
]

suffix :
    (ids : List String) (bs : List SubAgentBinding) (a x : String) → Walk bs a x → Suffix ids bs a x
suffix ids bs a x (edge e) = elim (suffix-Edge ids bs a x e) [
  | inl f ↦ whole (edge f)
  | inr m ↦ ends m
]
suffix ids bs a x (step {b = y} e w) = extend (suffix ids bs y x w)
  where
    extend : Suffix ids bs y x → Suffix ids bs a x
    extend (ends m) = ends m
    extend (part z m v) = part z m v
    extend (whole v) = elim (suffix-Edge ids bs a y e) [
      | inl f ↦ whole (step f v)
      | inr m ↦ part y m v
    ]

first-Edge : (bs : List SubAgentBinding) (a x : String) → Walk bs a x → (y : String) × Edge bs a y
first-Edge bs a x (edge e) = (x, e)
first-Edge bs a x (step {b = y} e w) = (y, e)

length-keep :
    (p : SubAgentBinding → Bool) (bs : List SubAgentBinding) → length (keep p bs) ≤ length bs
length-keep p [] = omega arith
length-keep p (b ∷ bs) = ground (arith, length-keep p bs)

length-keep-lt :
    (p : SubAgentBinding → Bool) (bs : List SubAgentBinding) (b : SubAgentBinding)
    → Memᴰ b bs
    → p b ≡ false
    → length (keep p bs) < length bs
length-keep-lt p [] b m h = elim m [ ]
length-keep-lt p (c ∷ bs) b (head e) h = ground (arith, ap p e, length-keep p bs)
length-keep-lt p (c ∷ bs) b (tail m) h = ground (arith, length-keep-lt p bs b m h)

follow-Walk :
    (n : ℕ) (ids : List String) (bs : List SubAgentBinding) (a x : String)
    → length bs ≤ n
    → Memᴰ a ids
    → Walk bs a x
    → Memᴰ x (follow n ids bs)
unfolding follow Edge
follow-Walk zero ids [] a x h m w = let (y, (b, i, e, k)) = first-Edge [] a x w in elim i [ ]
follow-Walk zero ids (b ∷ bs) a x h m w = absurd (omega (arith, h))
follow-Walk (suc n) ids bs a x h m w =
    let (y, (b, i, e, k)) = first-Edge bs a x w in
    let l = mem-leaves ids b (Memᴰ.cast e m) in
    let less = length-keep-lt (λ c. not (leaves ids c)) bs b i (rw l refl) in
    finish (λ y j v. follow-Walk n (found ids bs) (rest ids bs) y x (omega (arith, less, h)) j v)
      (suffix ids bs a x w)
  where
    finish :
        ((y : String)
          → Memᴰ y (found ids bs)
          → Walk (rest ids bs) y x
          → Memᴰ x (follow n (found ids bs) (rest ids bs)))
        → Suffix ids bs a x
        → Memᴰ x (found ids bs ++ follow n (found ids bs) (rest ids bs))
    finish again (ends i) = append_left _ i
    finish again (part y i v) = append_right (found ids bs) (again y i v)
    finish again (whole v) =
        let (y, (b, i, e, k)) = first-Edge (rest ids bs) a x v in
        let (_, off) = mem-keep (λ c. not (leaves ids c)) bs b i in
        let l = mem-leaves ids b (Memᴰ.cast e m) in absurd (cc)

-- The recursive query of `AddBinding` finds exactly the versions that the version reaches by one or
-- more bindings, cyclic or not.
pub reach-Walk : (bs : List SubAgentBinding) (a x : String) → Memᴰ x (reach bs a) ↔ Walk bs a x
unfolding reach
reach-Walk bs a x = (to, λ w. follow-Walk (length bs) (a ∷ []) bs a x (omega arith) (head refl) w)
  where
    to : Memᴰ x (follow (length bs) (a ∷ []) bs) → Walk bs a x
    to m = let (b, i, w) = Walk-of-follow (length bs) (a ∷ []) bs x m in rw (← eq_of_singleton i) w
