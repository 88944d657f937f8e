-- ===== src/Tests/Tools.antt =====
-- Two backends behind the composite of open-bbcd/internal/llm/tools.
use mathlib.Core.List.{Memᴰ}
use mathlib.Core.List.Memᴰ.{head, tail}
use open_bbc.Base.{String, ◌≡◌, ◌⊎◌, refl, false, some, List, [], ◌∷◌, ◌==◌}
use open_bbc.Llm.{ToolDef}
use open_bbc.Chat.AgentTool.{skill_tool_name}
use open_bbc.Tools.Composite.Routes.{Takes, listed-is_routed}
use open_bbc.Tools.Composite.{
  Backend, skill_description, SkillCodec, ok, call_failed, or_error, bundle_skills,
  build_skill_tool_def, backend_tools, tools, call,
}

abbrev skill_codec : SkillCodec
skill_codec = record {
  skills = λ b. some [];
  schema = λ names. [];
  argument = λ b. some "name";
  prompt_object = λ s. [];
  error_object = λ s. [];
}

abbrev search : ToolDef
search = record { name = "mcp__search"; description = ""; input_schema = [] }

abbrev get_user : ToolDef
get_user = record { name = "get_user"; description = ""; input_schema = [] }

abbrev two_backends : List Backend
two_backends =
    record {
      name = "http";
      tools = some (get_user ∷ []);
      call = λ n i. some (record { output = i; is_error = false });
    }
    ∷ record {
      name = "mcp";
      tools = some (search ∷ []);
      call = λ n i. some (record { output = []; is_error = n == "search" });
    }
    ∷ []

abbrev skill_def : ToolDef
skill_def = record { name = skill_tool_name; description = skill_description; input_schema = [] }

two_listed : tools skill_codec [] two_backends ≡ ok (skill_def ∷ get_user ∷ search ∷ [])
unfolding tools build_skill_tool_def bundle_skills backend_tools
two_listed = refl

listed-is_routed_example :
    (search.name ≡ skill_tool_name)
    ⊎ ((b : Backend) × (name : String) × Memᴰ b two_backends
        × Takes b search.name name
        × (call skill_codec [] two_backends search.name (b'{' ∷ b'}' ∷ [])
            ≡ or_error call_failed (b.call name (b'{' ∷ b'}' ∷ []))))
listed-is_routed_example =
    listed-is_routed skill_codec [] (b'{' ∷ b'}' ∷ []) two_backends
      (skill_def ∷ get_user ∷ search ∷ []) search two_listed (tail (tail (head refl)))
