-- ===== src/Tools/Composite.antt =====
-- open-bbcd/internal/llm/tools/composite.go: the handler of a session, which answers the Skill tool
-- itself and passes other calls on to its backends. A backend is a parameter: during a turn it lists
-- the same tools each time. Go's encoding/json is the parameter `SkillCodec`.
pub mod Prefix
pub mod Routes
use Prim.Native.String
use open_bbc.Base.{
  String, Bool, true, false, Option, none, some, List, [], ◌∷◌, ◌++◌, map, any, ◌==◌, if◌then◌else◌,
}
use open_bbc.Llm.{Bytes, ToolDef}
use open_bbc.Chat.Env.{ToolCallResult}
use open_bbc.Chat.AgentTool.{skill_tool_name}
use open_bbc.Tools.Composite.Prefix.{strip_prefix}

-- `Backend`; none is an error.
pub record Backend : Type 0 where
  pub name : String
  pub tools : Option (List ToolDef)
  pub call : String → Bytes → Option ToolCallResult

pub record Skill : Type 0 where
  pub name : String
  pub description : String
  pub prompt : String

pub record SkillCodec : Type 0 where
  -- the `skills` of a bundle
  pub skills : Bytes → Option (List Skill)
  pub schema : List String → Bytes
  -- the `name` of a call's input
  pub argument : Bytes → Option String
  pub prompt_object : String → Bytes
  pub error_object : String → Bytes

pub data ToolError : Type 0 where
  bundle_unparsed input_unparsed call_failed : ToolError
  tools_failed unowned : String → ToolError

pub data Answer (A : Type 0) : Type 0 where
  ok : A → Answer A
  err : ToolError → Answer A

abbrev pub or_error : {A : Type 0} → ToolError → Option A → Answer A
or_error e none = err e
or_error e (some a) = ok a

-- An empty bundle has no skills.
unfoldable pub bundle_skills : SkillCodec → Bytes → Option (List Skill)
bundle_skills codec [] = some []
bundle_skills codec (b ∷ bs) = codec.skills (b ∷ bs)

abbrev pub skill_description : String
skill_description =
    "Load the prompt for a named skill into your working context. Use when the user's intent matches a skill in skills_index."

-- `buildSkillToolDef`
unfoldable pub build_skill_tool_def : SkillCodec → Bytes → Answer ToolDef
unfolding bundle_skills
build_skill_tool_def codec bundle = elim (bundle_skills codec bundle) [
  | none ↦ err bundle_unparsed
  | some skills ↦ ok (record {
    name = skill_tool_name;
    description = skill_description;
    input_schema = codec.schema (map (λ (s : Skill). s.name) skills);
  })
]

-- The backends' tools, in order, up to the first that fails.
unfoldable pub backend_tools : List Backend → Answer (List ToolDef)
backend_tools [] = ok []
backend_tools (b ∷ bs) =
    let rest = backend_tools bs in
    elim b.tools [
      | none ↦ err (tools_failed b.name)
      | some defs ↦ elim rest [ ok more ↦ ok (defs ++ more) | err e ↦ err e ]
    ]

-- `Composite.Tools`
unfoldable pub tools : SkillCodec → Bytes → List Backend → Answer (List ToolDef)
unfolding build_skill_tool_def backend_tools
tools codec bundle backends = elim (build_skill_tool_def codec bundle) [
  | err e ↦ err e
  | ok skill ↦ elim (backend_tools backends) [ ok defs ↦ ok (skill ∷ defs) | err e ↦ err e ]
]

prompt_of : SkillCodec → String → List Skill → ToolCallResult
prompt_of codec name [] = record {
  output = codec.error_object (String.◌++◌ "unknown skill: " name);
  is_error = true;
}
prompt_of codec name (s ∷ skills) =
    let rest = prompt_of codec name skills in
    if s.name == name
    then record { output = codec.prompt_object s.prompt; is_error = false }
    else rest

-- `callSkillMetaTool`
unfoldable pub call_skill : SkillCodec → (bundle input : Bytes) → Answer ToolCallResult
unfolding prompt_of bundle_skills
call_skill codec bundle input = elim (bundle_skills codec bundle) [
  | none ↦ err bundle_unparsed
  | some skills ↦ elim (codec.argument input) [
    | none ↦ err input_unparsed
    | some name ↦ ok (prompt_of codec name skills)
  ]
]

-- The first loop of `Composite.Call`.
unfoldable pub by_prefix : List Backend → String → Option (Backend × String)
unfolding strip_prefix
by_prefix [] name = none
by_prefix (b ∷ bs) name =
    let rest = by_prefix bs name in
    elim (strip_prefix (String.◌++◌ b.name "__") name) [ none ↦ rest | some n ↦ some (b, n) ]

abbrev pub lists : String → List ToolDef → Bool
lists name defs = any (λ d. d.name == name) defs

-- The second loop: the first backend that lists the tool.
unfoldable pub owner : List Backend → String → Answer Backend
owner [] name = err (unowned name)
owner (b ∷ bs) name =
    let rest = owner bs name in
    elim b.tools [
      | none ↦ err (tools_failed b.name)
      | some defs ↦ if lists name defs then ok b else rest
    ]

-- `Composite.Call`
unfoldable pub call :
    SkillCodec
    → (bundle : Bytes) → List Backend
    → (name : String) (input : Bytes) → Answer ToolCallResult
unfolding call_skill by_prefix owner
call codec bundle backends name input =
    if name == skill_tool_name
    then call_skill codec bundle input
    else elim (by_prefix backends name) [
      | some (b, n) ↦ or_error call_failed (b.call n input)
      | none ↦ elim (owner backends name) [
        | err e ↦ err e
        | ok b ↦ or_error call_failed (b.call name input)
      ]
    ]
