-- ===== src/Llm/Durable/Rig.antt =====
-- What the durable engine uses of the agent library: `AgentRun` and its steps, serialization, and
-- the tools' results. The library is not part of the repository, so it is a parameter.
use cja.Common.{ℕ, String, Option, Bool, List}
use cja.Common.Sql.{Result}
use cja.Llm.Durable.Nuls.{Text, ToolOutput}
use cja.Llm.Durable.Tables.{Role}

pub data PromptError : Type 0 where
  max_turns prompt_cancelled unknown_tool_call provider report memory other_prompt_error :
      PromptError

-- The kinds of a pending tool call. A call is named by the id of its wire form; an ask has the
-- question that its arguments parse to.
pub data ToolCall : Type 0 where
  ask : String → Option Text → ToolCall
  execute : String → ToolCall
  malformed : String → ToolCall
  unsupported : ToolCall

pub data AgentStep : Type 0 where
  call_model : AgentStep
  call_tools : List ToolCall → AgentStep
  finished : String → AgentStep

-- What a call is answered with: a tool's result, the answer of a human, or a correction.
pub data ToolAnswer : Type 0 where
  tool_result : ToolOutput → ToolAnswer
  human_answer : Text → ToolAnswer
  invalid_args corrective_feedback : ToolAnswer

pub record Rig : Type 1 where
  pub Run : Type 0
  -- `serde_json::to_value` and `from_value`
  pub to_value : Run → Option String
  pub from_value : String → Option Run
  -- `turn`, and `usage` with `unwrap_or(0)`
  pub turn : Run → ℕ
  pub input_tokens : Run → ℕ
  pub output_tokens : Run → ℕ
  -- the committed messages with their roles and serialized bodies
  pub messages : Run → List (Role × Option String)
  pub next_step : Run → Result PromptError AgentStep × Run
  -- `prepare_request`, `advertise_tools` and `set_previous_model`
  pub prepare : Run → Result String Run
  -- `model_response`: `true` if a call needs a resolution
  pub model_response : Run → String → Result PromptError Bool × Run
  pub resolve_unhandled_invalid_tool_call : Run → Result PromptError Bool × Run
  -- `answer` of the call with an id
  pub answer : Run → String → ToolAnswer → Result PromptError (Unit {0}) × Run
  -- the payload of an `AdvanceRunJob`
  pub payload : ℕ → String
