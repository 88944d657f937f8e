-- ===== src/Tests/Fixtures.antt =====
-- The collaborators of a turn of open-bbcd/internal/chat, each as a small concrete function. The
-- world counts the calls that change it.
use open_bbc.Base.{List, ℕ, suc, String, true, false, none, some, [], ◌∷◌, nat_eq, if◌then◌else◌}
use open_bbc.Llm
use open_bbc.Llm.{Message, Bytes, ArtifactRef, ToolUse, RenderBudget}
use open_bbc.Artifacts.Mime.{Sniffer}
use open_bbc.Chat.Render
use open_bbc.Chat.Render.{Renderer}
use open_bbc.Chat.Stream.{starts_object}
use open_bbc.Chat.Env.{
  ok, Call, Codec, Env, Config, McpContentItem, State, decoded, root_sink, SubAgentBinding,
}
use open_bbc.Chat.Round.{Setting}

abbrev pub photo : ArtifactRef
photo = record {
  store_id = "main";
  uri = "a/cat.png";
  mime = "image/png";
  size_bytes = 3;
  sha256 = "00";
  filename = "cat.png";
}

abbrev pub object_bytes : Bytes
object_bytes = b'{' ∷ b'}' ∷ []

abbrev quoted : Bytes
quoted = b'"' ∷ b'"' ∷ []

abbrev image_item : McpContentItem
image_item = record {
  kind = "image";
  text = "";
  base64 = "iVBO";
  mime_type = "image/png";
  resource = none;
}

abbrev text_item : McpContentItem
text_item = record { kind = "text"; text = "hello"; base64 = ""; mime_type = ""; resource = none }

-- The item of the single byte 1 is an image, every other is a text.
abbrev item_of : Bytes → McpContentItem
item_of [] = text_item
item_of (b ∷ bs) = if nat_eq b 1 then image_item else text_item

abbrev pub codec : Codec
codec = record {
  stored_raw = λ raw. raw;
  main_prompt = λ raw. ok "You help.";
  quote = λ s. quoted;
  error_object = λ s. object_bytes;
  decode_agent_input =
      λ raw. decoded (record { subagent = "helper"; description = "look"; prompt = "find it" });
  tool_names = λ raw. some ("search" ∷ []);
  agent_schema = λ names. object_bytes;
  quote_go = λ s. s;
  content_items = λ raw. if starts_object raw then some ((1 ∷ []) ∷ (2 ∷ []) ∷ []) else none;
  with_content = λ raw items. some object_bytes;
  decode_item = λ raw. some (item_of raw);
  members = λ raw. some [];
  decode_text = λ raw. none;
  text_item = λ s. object_bytes;
  decode_base64 = λ s. some (137 ∷ 80 ∷ []);
  text_bytes = λ s. 104 ∷ [];
}

-- Bytes that start like a PNG are one.
abbrev sniffed : Bytes → String
sniffed [] = "text/plain; charset=utf-8"
sniffed (c ∷ bs) = if nat_eq c 137 then "image/png" else "text/plain; charset=utf-8"

abbrev pub sniffer : Sniffer
sniffer = record { detect_content_type = sniffed; decodes = λ bytes. true; to_lower = λ s. s }

abbrev pub renderer : Renderer
renderer = record {
  render_artifact_as_block = λ clock ref.
      Render.rendered (Llm.inline_media (record { mime = "image/png"; bytes = 1 ∷ 2 ∷ 3 ∷ [] }));
  supports_native = λ ref. true;
  native_render_budget = record { max_bytes = 6; max_blocks = 2 };
  resolves = λ store. true;
  stat = λ clock ref. Render.exists;
}

abbrev pub upload : String → Bytes → Call ℕ ArtifactRef
upload mime bytes w = (ok photo, suc w)

-- The provider asks for a tool on the first message, and then ends the turn.
abbrev pub answer_to : List Message → List Llm.Event
answer_to (m ∷ []) =
    Llm.tool_use_start "t1" "search"
    ∷ Llm.tool_use_input "t1" object_bytes
    ∷ Llm.tool_use_end "t1"
    ∷ Llm.message_stop "tool_use"
    ∷ []
answer_to ms = Llm.text_delta "hi" ∷ Llm.message_stop "end_turn" ∷ []

abbrev pub env : Env ℕ
env = record {
  codec = codec;
  renderer = some renderer;
  sanitize_tool_name = λ s. s;
  get_with_agent = λ id w. (
    ok (
      record { id = "v1"; prompts = object_bytes; agent_tool_enabled = true },
      record { id = "a1"; architecture = object_bytes },
    ),
    w,
  );
  list_sub_agent_bindings = λ id w. (ok [], w);
  ensure_session = λ session scope w. (ok tt, w);
  load_messages = λ session w. (ok [], w);
  append_messages = λ version row w. (ok tt, suc w);
  append_user_turn = λ version row w. (ok [], suc w);
  append_tool_message = λ version row refs w. (ok tt, suc w);
  next_seq = λ session w. (ok w, w);
  create_child_session = λ root parent call target w. (ok "child", suc w);
  build = λ agent version architecture w. (ok (record { handle = 1; is_closer = true }), w);
  tools = λ handler architecture w. (ok [], w);
  call = λ handler architecture id name input w.
      (ok (record { output = object_bytes; is_error = false }), suc w);
  close = λ handler w. (ok tt, w);
  generate = λ req w. (ok (answer_to req.messages, none), w);
  sniffer = sniffer;
  upload = some upload;
  new_uuid = λ w. (ok "id", suc w);
  ctx_err = λ w. none;
  acquire = λ w. (true, w);
}

abbrev pub config : Config
config = record { model = "m"; max_tokens = 100; max_tool_rounds = 3; max_depth = 2 }

abbrev pub start : State ℕ
start = record { world = 0; trace = [] }

abbrev pub helper : SubAgentBinding
helper = record { caller_version_id = "v1"; target_version_id = "v2"; name = "helper"; note = "" }

-- A turn of a version that binds one sub-agent.
abbrev pub setting : Setting
setting = record {
  version_id = "v1";
  architecture = object_bytes;
  session_id = "root";
  sink = root_sink;
  handler = record { handle = 1; is_closer = true };
  bindings = some (("helper", helper) ∷ []);
}

abbrev pub search_call : ToolUse
search_call = record { id = "t1"; name = "search"; input = object_bytes }

abbrev pub agent_call : ToolUse
agent_call = record { id = "t2"; name = "agent"; input = object_bytes }
