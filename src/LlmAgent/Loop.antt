-- ===== src/LlmAgent/Loop.antt =====
-- llm_agent/loop.py, run_goal: the model proposes, the broker decides.
pub mod Bounds
use paari_payments_protocol.Prelude.{
  ltb, if◌then◌else◌, ◌==◌, number_eq, text_eq, length, first, is_empty, is_some, ℕ, zero, suc, ◌+◌,
  String, Bool, true, false, ◌&&◌, ◌||◌, Option, none, some, List, [], ◌∷◌, ◌++◌,
}
use paari_payments_protocol.LlmAgent.Tools.{Texts, Args}
use paari_payments_protocol.LlmAgent.Broker.{
  is_ok, tool_confirm_payment, broker_execute, CausalContext, PaariBroker, Answers, ToolResult,
  executed, escaped,
}

pub record ToolCall : Type 0 where
  pub id : String
  pub name : String
  pub arguments : Args

-- A reply of the model; it wants tools where it names some.
pub record ModelReply : Type 0 where
  pub text : Option String
  pub tool_calls : List ToolCall

-- An entry of the transcript.
pub record TranscriptEntry : Type 0 where
  pub turn : ℕ
  pub call_id : String
  pub tool : String
  pub arguments : Args
  pub result : ToolResult

-- `RunOutcome`, without the usage figures; the messages follow from the goal and the transcript
pub record RunOutcome : Type 0 where
  pub ok : Bool
  pub turns : ℕ
  pub tool_calls : ℕ
  pub transcript : List TranscriptEntry
  pub final_text : Option String
  pub payment_executed : Bool
  pub error : Option String

-- A run ends with an outcome, or with an exception that left the broker.
pub data Run : Type 0 where
  finished : RunOutcome → PaariBroker → Run
  aborted : RunOutcome → PaariBroker → Run

abbrev pub stamp : String → String → Option CausalContext → Option CausalContext
stamp call_id name none = none
stamp call_id name (some c) = some (record c { tool_call_id = some call_id; tool_name = some name })

abbrev pub is_escaped : ToolResult → Bool
is_escaped escaped = true
is_escaped _ = false

-- `call.id or f"call_{turn}_{i}"`, where `label` makes the text
abbrev pub call_id_of : (ℕ → ℕ → String) → ℕ → ℕ → ToolCall → String
call_id_of label turn i c = if c.id == "" then label turn i else c.id

-- The outcome after a call that was answered.
abbrev pub entered : ℕ → String → ToolCall → ToolResult → RunOutcome → RunOutcome
entered turn call_id c result o = record o {
  tool_calls = o.tool_calls + 1;
  transcript =
      o.transcript
      ++ record {
        turn = turn;
        call_id = call_id;
        tool = c.name;
        arguments = c.arguments;
        result = result;
      }
        ∷ [];
  payment_executed = o.payment_executed || (is_ok result && c.name == "confirm_payment");
}

abbrev pub started : RunOutcome
started = record {
  ok = false;
  turns = 0;
  tool_calls = 0;
  transcript = [];
  final_text = none;
  payment_executed = false;
  error = none;
}

module _ (h : Texts) (label : ℕ → ℕ → String) (world : ℕ → Answers) where
  -- The calls of one reply, the first of them number `i`; each is counted before it is executed.
  unfoldable pub run_calls :
      ℕ → ℕ → List ToolCall → RunOutcome → PaariBroker → Bool × RunOutcome × PaariBroker
  run_calls turn i [] o b = (true, o, b)
  run_calls turn i (c ∷ cs) o b =
      let call_id = call_id_of label turn i c in
      let (result, b') =
        broker_execute h (world o.tool_calls) c.name c.arguments
          (record b { causal = stamp call_id c.name b.causal }) in
      let o' = entered turn call_id c result o in
      let rest = run_calls turn (suc i) cs o' b' in
      if is_escaped result then (false, record o { tool_calls = o.tool_calls + 1 }, b') else rest

  -- The turns that are left; `model` answers what it has been shown.
  unfoldable pub run_turns :
      (List TranscriptEntry → ModelReply) → ℕ → ℕ → ℕ → RunOutcome → PaariBroker → Run
  unfolding run_calls
  run_turns model max_tool_calls zero turn o b = finished (record o { error = some "MAX_TURNS" }) b
  run_turns model max_tool_calls (suc left) turn o b =
      let reply = model o.transcript in
      let (kept, o', b') = run_calls turn 1 reply.tool_calls (record o { turns = turn }) b in
      let rest = run_turns model max_tool_calls left (suc turn) o' b' in
      if is_empty reply.tool_calls
      then finished
          (record o {
            turns = turn;
            final_text = reply.text;
            ok = is_some reply.text;
            error = if is_some reply.text then none else some "EMPTY_REPLY";
          })
          b
      else if ltb max_tool_calls (o.tool_calls + length reply.tool_calls)
      then finished (record o { turns = turn; error = some "MAX_TOOL_CALLS" }) b
      else if kept
      then rest
      else aborted o' b'

  -- `run_goal`
  unfoldable pub run_goal : (List TranscriptEntry → ModelReply) → ℕ → ℕ → PaariBroker → Run
  unfolding run_turns
  run_goal model max_turns max_tool_calls b = run_turns model max_tool_calls max_turns 1 started b
