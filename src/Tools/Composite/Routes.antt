-- ===== src/Tools/Composite/Routes.antt =====
-- A tool that the composite lists is one that it can call.
use mathlib.Core.List.{Memᴰ}
use mathlib.Core.List.Memᴰ.{head, tail, append_cases, cases_cons}
use Prim.Native.String
use open_bbc.Base.{
  String, ◌≡◌, refl, sym, ap, ◌∙◌, ◌⊎◌, inl, inr, true, false, Bool-cases, some, Option-cases, List,
  [], ◌∷◌, ◌++◌, map, ◌==◌, eq_iff, arith,
}
use open_bbc.Llm.{Bytes, ToolDef}
use open_bbc.Chat.AgentTool.{skill_tool_name}
use open_bbc.Store.Rows.{any-of-mem}
use open_bbc.Tools.Composite.Prefix.{strip_prefix}
use open_bbc.Tools.Composite.{
  Backend, Skill, skill_description, SkillCodec, ToolError, Answer, ok, err, call_failed, or_error,
  build_skill_tool_def, backend_tools, bundle_skills, tools, by_prefix, owner, lists, call,
}

-- The backend takes a call of the tool under this name.
unfoldable pub Takes : Backend → (tool name : String) → Type 0
Takes b tool name =
    (strip_prefix (String.◌++◌ b.name "__") tool ≡ some name)
    ⊎ ((name ≡ tool) × (defs : List ToolDef) × (b.tools ≡ some defs) × (lists tool defs ≡ true))

by_prefix-Takes :
    (backends : List Backend) (tool name : String) (b : Backend)
    → by_prefix backends tool ≡ some (b, name)
    → Memᴰ b backends × Takes b tool name
unfolding by_prefix Takes
by_prefix-Takes [] tool name b h = absurd (cc h)
by_prefix-Takes (c ∷ cs) tool name b h =
    elim (Option-cases (strip_prefix (String.◌++◌ c.name "__") tool)) [
      | inl e ↦ let (m, t) = by_prefix-Takes cs tool name b (rw (e, by_prefix) at h) in (tail m, t)
      | inr (n, e) ↦
          let same : some (c, n) ≡ some (b, name) = rw (e, by_prefix) at h in
          (head (cc same), inl (cc (same, e)))
    ]

Answer-cases :
    {A : Type 0} (r : Answer A) → ((a : A) × (r ≡ ok a)) ⊎ ((e : ToolError) × (r ≡ err e))
Answer-cases (ok a) = inl (a, refl)
Answer-cases (err e) = inr (e, refl)

listed : (defs : List ToolDef) (d : ToolDef) → Memᴰ d defs → lists d.name defs ≡ true
listed defs d m =
    any-of-mem (λ (t : ToolDef). t.name == d.name) defs d m ((eq_iff d.name d.name).1 refl)

owner-here :
    (c : Backend) (cs : List Backend) (tool : String) (ts : List ToolDef)
    → c.tools ≡ some ts
    → lists tool ts ≡ true
    → owner (c ∷ cs) tool ≡ ok c
unfolding owner
owner-here c cs tool ts e l = ground arith

owner-there :
    (c : Backend) (cs : List Backend) (tool : String) (ts : List ToolDef)
    → c.tools ≡ some ts
    → lists tool ts ≡ false
    → owner (c ∷ cs) tool ≡ owner cs tool
unfolding owner
owner-there c cs tool ts e l = ground arith

-- Where the backends list a tool, it has an owner among them.
owned :
    (backends : List Backend) (defs : List ToolDef) (d : ToolDef)
    → backend_tools backends ≡ ok defs
    → Memᴰ d defs
    → (b : Backend) × (owner backends d.name ≡ ok b) × Memᴰ b backends × Takes b d.name d.name
unfolding backend_tools owner Takes
owned [] defs d h m = absurd (cc_nil (cc h) m)
  where
    cc_nil : defs ≡ [] → ¬ Memᴰ d defs
    cc_nil e n = elim (rw e at n) [ ]
owned (c ∷ cs) defs d h m = elim (Option-cases c.tools) [
  | inl e ↦ absurd (cc (rw (e, backend_tools) at h))
  | inr (ts, e) ↦ elim (Answer-cases (backend_tools cs)) [
    | inr (x, k) ↦ absurd (cc (rw (e, k, backend_tools) at h))
    | inl (more, k) ↦
        let all : ts ++ more ≡ defs = cc (rw (e, k, backend_tools) at h) in
        elim (Bool-cases (lists d.name ts)) [
          | inl l ↦ (c, owner-here c cs d.name ts e l, head refl, inr (refl, ts, e, l))
          | inr l ↦ elim (append_cases ts (rw (← all) at m)) [
            | inl n ↦ absurd (cc (l, listed ts d n))
            | inr n ↦
                let (b, o, i, t) = owned cs more d k n in
                (b, owner-there c cs d.name ts e l ∙ o, tail i, t)
          ]
        ]
  ]
]

build_skill_tool_def-name :
    (codec : SkillCodec) (bundle : Bytes) (skill : ToolDef)
    → build_skill_tool_def codec bundle ≡ ok skill
    → skill.name ≡ skill_tool_name
unfolding build_skill_tool_def
build_skill_tool_def-name codec bundle skill h = elim (Option-cases (bundle_skills codec bundle)) [
  | inl e ↦ absurd (cc (rw (e, build_skill_tool_def) at h))
  | inr (skills, e) ↦ named skills skill (rw (e, build_skill_tool_def) at h)
]
  where
    name_of : Answer ToolDef → String
    name_of (ok d) = d.name
    name_of (err e) = ""

    named :
        (skills : List Skill) (skill : ToolDef)
        → ◌≡◌ {A = Answer ToolDef}
            (ok (record {
              name = skill_tool_name;
              description = skill_description;
              input_schema = codec.schema (map (λ (s : Skill). s.name) skills);
            }))
            (ok skill)
        → skill.name ≡ skill_tool_name
    named skills skill h = sym (ap (λ r. name_of r) h)

-- A listed tool that is not the Skill tool is a backend's.
owned_of_tools :
    (codec : SkillCodec) (bundle : Bytes) (backends : List Backend) (defs : List ToolDef)
    (d : ToolDef)
    → tools codec bundle backends ≡ ok defs
    → Memᴰ d defs
    → (d.name == skill_tool_name) ≡ false
    → (b : Backend) × (owner backends d.name ≡ ok b) × Memᴰ b backends × Takes b d.name d.name
unfolding tools
owned_of_tools codec bundle backends defs d h m other =
    elim (Answer-cases (build_skill_tool_def codec bundle)) [
      | inr (x, e) ↦ absurd (cc (rw (e, tools) at h))
      | inl (skill, e) ↦ elim (Answer-cases (backend_tools backends)) [
        | inr (x, k) ↦ absurd (cc (rw (e, k, tools) at h))
        | inl (more, k) ↦
            let all : skill ∷ more ≡ defs = cc (rw (e, k, tools) at h) in
            elim (cases_cons (rw (← all) at m)) [
              | inl s ↦
                  let name = build_skill_tool_def-name codec bundle skill e in
                  let same : d.name ≡ skill_tool_name = ap (λ (r : ToolDef). r.name) s ∙ name in
                  absurd (cc (other, (eq_iff d.name skill_tool_name).1 same))
              | inr n ↦ owned backends more d k n
            ]
      ]
    ]

-- A tool that Tools lists is the Skill tool, or Call passes it on to a backend: to one whose name is
-- its prefix, under the name without that prefix, or to one that lists it, under its own name. No
-- call of a listed tool fails for want of an owner.
pub listed-is_routed :
    (codec : SkillCodec) (bundle input : Bytes) (backends : List Backend) (defs : List ToolDef)
    (d : ToolDef)
    → tools codec bundle backends ≡ ok defs
    → Memᴰ d defs
    → (d.name ≡ skill_tool_name)
      ⊎ ((b : Backend) × (name : String) × Memᴰ b backends
          × Takes b d.name name
          × (call codec bundle backends d.name input ≡ or_error call_failed (b.call name input)))
unfolding call
listed-is_routed codec bundle input backends defs d h m =
    elim (Bool-cases (d.name == skill_tool_name)) [
      | inl e ↦ inl ((eq_iff d.name skill_tool_name).0 e)
      | inr e ↦ elim (Option-cases (by_prefix backends d.name)) [
        | inr ((b, n), k) ↦
            let (i, t) = by_prefix-Takes backends d.name n b k in
            inr (b, n, i, t, rw (e, call) (rw k refl))
        | inl k ↦
            let (b, o, i, t) = owned_of_tools codec bundle backends defs d h m e in
            inr (b, d.name, i, t, rw (e, call) (rw (k, o) refl))
      ]
    ]
