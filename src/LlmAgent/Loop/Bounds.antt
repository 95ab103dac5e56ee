-- ===== src/LlmAgent/Loop/Bounds.antt =====
-- llm_agent/loop.py, run_goal: the bounds of a run, and what it may have signed.
use paari_payments_protocol.Prelude.{
  ltb, number_eq, text_eq, Bool-cases, length, is_empty, ℕ, zero, suc, ◌+◌, ◌≤◌, String, ◌≡◌, refl,
  ◌≢◌, inl, inr, Option, some, List, [], ◌∷◌, ◌++◌, arith,
}
use paari_payments_protocol.LlmAgent.Tools.{Texts}
use paari_payments_protocol.LlmAgent.Broker.{
  PaariBroker, new_broker, CausalContext, Answers, broker_execute,
}
use paari_payments_protocol.LlmAgent.Broker.Custody.{Custody, broker_execute-Custody}
use paari_payments_protocol.LlmAgent.Loop.{
  ToolCall, ModelReply, TranscriptEntry, RunOutcome, Run, finished, aborted, is_escaped, stamp,
  call_id_of, entered, run_calls, run_turns, started, run_goal,
}

-- The books of the broker are in order, and the turns and tool calls within their bounds.
pub record IsWithin (id : String) (max : ℕ) (currency : String) (cap turns calls : ℕ)
    (o : RunOutcome) (b : PaariBroker) : Type 0 where
  pub books : Custody id max currency cap b
  pub turns_within : o.turns ≤ turns
  pub calls_within : o.tool_calls ≤ calls
  pub recorded : length o.transcript ≤ o.tool_calls

-- A run is in order however it ends.
abbrev pub Ends : (RunOutcome → PaariBroker → Type 0) → Run → Type 0
Ends P (finished o b) = P o b
Ends P (aborted o b) = P o b

length-append :
    (xs : List TranscriptEntry) (e : TranscriptEntry) → length (xs ++ e ∷ []) ≡ length xs + 1
length-append [] e = ground arith
length-append (x ∷ xs) e = ground (arith, length-append xs e)

module _ (id : String) (max : ℕ) (currency : String) (cap : ℕ) (named : id ≢ "") (h : Texts)
    (label : ℕ → ℕ → String) (world : ℕ → Answers) where
  abbrev Within : ℕ → ℕ → RunOutcome → PaariBroker → Type 0
  Within = IsWithin id max currency cap

  run_calls-IsWithin :
      (turn i : ℕ) (cs : List ToolCall) (turns calls : ℕ) (o : RunOutcome) (b : PaariBroker)
      → o.tool_calls + length cs ≤ calls
      → Within turns calls o b
      → Within turns calls
          (run_calls h label world turn i cs o b).1
          (run_calls h label world turn i cs o b).2
  unfolding run_calls
  run_calls-IsWithin turn i [] turns calls o b room k = k
  run_calls-IsWithin turn i (c ∷ cs) turns calls o b room k =
      let call_id = call_id_of label turn i c in
      let b0 : PaariBroker = record b { causal = stamp call_id c.name b.causal } in
      let x = broker_execute h (world o.tool_calls) c.name c.arguments b0 in
      let books : Custody id max currency cap x.1 =
        broker_execute-Custody id max currency cap h (world o.tool_calls) c.name c.arguments b0
          named
          (record {
            limits = k.books.limits;
            modest = k.books.modest;
            once = k.books.once;
            capped = k.books.capped;
          }) in
      let o' : RunOutcome = entered turn call_id c x.0 o in
      let ih = run_calls-IsWithin turn (suc i) cs turns calls o' x.1 (omega (arith, room)) (record {
        books = books;
        turns_within = k.turns_within;
        calls_within = omega (arith, room);
        recorded = omega (
          arith,
          k.recorded,
          length-append o.transcript (record {
            turn = turn;
            call_id = call_id;
            tool = c.name;
            arguments = c.arguments;
            result = x.0;
          }),
        );
      }) in
      elim (Bool-cases (is_escaped x.0)) [
        | inl e ↦ rw e (record {
          books = books;
          turns_within = k.turns_within;
          calls_within = omega (arith, room);
          recorded = omega (arith, k.recorded);
        })
        | inr e ↦ rw e ih
      ]

  run_turns-IsWithin :
      (model : List TranscriptEntry → ModelReply) (turns calls left turn : ℕ) (o : RunOutcome)
      (b : PaariBroker)
      → turn + left ≤ turns + 1
      → Within turns calls o b
      → Ends (Within turns calls) (run_turns h label world model calls left turn o b)
  unfolding run_turns
  run_turns-IsWithin model turns calls zero turn o b fits k = ended k
    where
      ended : Within turns calls o b → Within turns calls (record o { error = some "MAX_TURNS" }) b
      ended k = record {
        books = k.books;
        turns_within = k.turns_within;
        calls_within = k.calls_within;
        recorded = k.recorded;
      }
  run_turns-IsWithin model turns calls (suc left) turn o b fits k =
      let cs = (model o.transcript).tool_calls in
      let at_turn : Within turns calls (record o { turns = turn }) b = record {
        books = k.books;
        turns_within = omega (arith, fits);
        calls_within = k.calls_within;
        recorded = k.recorded;
      } in
      elim (Bool-cases (is_empty cs)) [
        | inl e ↦ rw e (record {
          books = k.books;
          turns_within = omega (arith, fits);
          calls_within = k.calls_within;
          recorded = k.recorded;
        })
        | inr e ↦ elim (Bool-cases (ltb calls (o.tool_calls + length cs))) [
          | inl f ↦
              rw (e, f)
                (record {
                  books = k.books;
                  turns_within = omega (arith, fits);
                  calls_within = k.calls_within;
                  recorded = k.recorded;
                })
          | inr f ↦
              let room : o.tool_calls + length cs ≤ calls = ground (arith, f) in
              let after = run_calls h label world turn 1 cs (record o { turns = turn }) b in
              let k' : Within turns calls after.1 after.2 =
                run_calls-IsWithin turn 1 cs turns calls (record o { turns = turn }) b room
                  at_turn in
              let ih =
                run_turns-IsWithin model turns calls left (suc turn) after.1 after.2
                  (omega (arith, fits)) k' in
              elim (Bool-cases after.0) [ inl g ↦ rw (e, f, g) ih | inr g ↦ rw (e, f, g) k' ]
        ]
      ]

-- Every run ends, within its bounds, and signs only what it may. For any model, server, texts and
-- named authorization: from a broker that has sent and granted nothing, a run takes no more than
-- `max_turns` turns and makes no more than `max_tool_calls` tool calls, whether it finishes or an
-- exception ends it; every intent that it signed is for a positive amount within the cap and in the
-- delegated currency; it sent no more consume requests for the authorization than it was granted it;
-- and the consume requests that were answered are at most `max_consumes`.
pub run_goal-IsWithin :
    (id : String) (h : Texts) (label : ℕ → ℕ → String) (world : ℕ → Answers)
    (model : List TranscriptEntry → ModelReply) (max_turns max_tool_calls max cap : ℕ)
    (currency : String) (causal : Option CausalContext)
    → id ≢ ""
    → Ends
        (IsWithin id max currency cap max_turns max_tool_calls)
        (run_goal h label world model max_turns max_tool_calls (new_broker max currency cap causal))
unfolding run_goal
run_goal-IsWithin id h label world model max_turns max_tool_calls max cap currency causal named =
    run_turns-IsWithin id max currency cap named h label world model max_turns max_tool_calls
      max_turns 1 started (new_broker max currency cap causal) (omega arith)
      (record {
        books = record {
          limits = (refl, refl, refl);
          modest = refl;
          once = omega arith;
          capped = (refl, omega arith);
        };
        turns_within = omega arith;
        calls_within = omega arith;
        recorded = omega arith;
      })
