-- ===== src/Lib.antt =====
-- Verification library of the agent core: the circuit breaker, the compaction of histories, the
-- protocol that pauses a step for local tools and resumes it, the contract of a task with the gates
-- of its end, the swarm of workers, the choice of the reasoning effort, and the live stream.
--
-- Breaker (src/deep_agent/msty_breaker.py) is the table of connections with its token counter; each
-- function of the file is a function of the same name on it, and Breaker.Events runs any sequence
-- of them, as the lock lets concurrent calls interleave. Times are whole milliseconds; the caller's
-- clock reading is the argument `now`. The `except Exception` clauses have nothing to catch here.
--
-- Compaction (src/deep_agent/msty_compaction.py) works on messages in checkpoint form (Message):
-- the whole tool bundles of a history (Bundles), the archived segments and their validation
-- (Segments), the projection that the model is sent (Projection), the choice of what to summarise
-- (Plan), and committing a summary (Commit). Trigger has the input size that starts it. Text has
-- the texts as code points, with their UTF-8 lengths and the two cuts. A raised
-- ExecutionProtocolError is `none`. Parameters stand for what the file does not implement: the
-- digests (SHA-256 over canonical JSON), the JSON length of a message, the fresh stage id. A field
-- of a type that the code does not look for is `none` or `other` in the model, so the tests on
-- dictionary shapes are the data types. Sorting by start is stable insertion.
--
-- Execution (src/deep_agent/msty_execution.py) is the protocol around a generation. Limits has the
-- identity and the budget binding of a task; Progress has `execution_after`, which counts a step
-- and its calls and leaves the batch that waits, with `finish_reason` of
-- src/deep_agent/msty_models.py; Checks, Walk, Catalog and Resume have `validate_resume`: the
-- guards against a changed input, the loops over the map of ids and over the client's messages, the
-- tools that a gateway staged, and the history that comes out. What a client or a gateway sends is
-- an arbitrary JSON document (Json), with Python's equality on it; what the code itself wrote into
-- the checkpoint (the execution record, its batch, the message list) is typed. An
-- ExecutionProtocolError is a Refusal, one for each message of the source; `type_error` stands for
-- the TypeError or AttributeError of a value of an unexpected shape. Parameters are the digest,
-- taken to succeed, the JSON parser and printer, the test and the choice of a UUID, the canonical
-- form of a message, the check of tool schemas, LangGraph's interrupt, and the update of the task
-- contract, which Task.Observe models.
--
-- Usage (`_checked_openai_usage` of src/deep_agent/msty_models.py) reads the token counts of a
-- provider's report or of the client library, also from an arbitrary JSON document.
--
-- Task (src/deep_agent/msty_task.py) is the contract of a task and the gates of its end. Receipts
-- finds the receipt in a tool's answer, Planning accepts a plan, Verify a verification, Learning the
-- optional learning parts of both; Observe has `observe`, which a batch of results updates the
-- contract by. Conversation has what the gates read of the messages, with `repeated_observation`;
-- OpenPlan the gate of a turn's own plan, Sites that of edited copies of a site, and Final
-- `gate_final`, which asks the gates in their order, `after_result` and `final_status`. The contract
-- is typed, as only this code writes it; receipts, calls and metadata are JSON documents.
-- Host holds the parameters: SHA-256, the JSON parser, the length of a value as JSON, and the two
-- regular expressions on the owner's words. A dictionary is asked for keys only, or its order is
-- that of insertion; `fresh` is the text of a new UUID.
-- The tools of a step are dictionaries, as src/deep_agent/msty.py declares them, and so is the
-- function of each; where the source calls a method on another value of an unexpected type, as
-- `.get` on the function of a tool choice, the model takes the key as missing. A call that a client
-- answers comes back under the client's id, and the gate of a plan counts only calls under the ids
-- that it gave.
--
-- Swarm (src/deep_agent/msty_swarm.py) is the split of a task between workers. Parsing has the plan
-- from the lead's call, Admission the descriptor for the bridge, the bridge's answer and the last
-- check before the run, Worker one call behind its circuit (Breaker), and Report the results in the
-- order of the plan. A SwarmPlanError is `none` or `false`. The digest of a plan, UUID5 and the
-- configured ceiling are parameters, and what becomes of a model call (it cannot be made, raises, is
-- refused, answers, or is cancelled) is the data type Call; LangGraph, which runs the workers, is the
-- order of the results given to `run_report`. Event times are not kept.
--
-- Effort (src/deep_agent/msty_effort.py) has the reasoning level of a turn (`classify`), its fit to
-- an output limit, and, in Steps, the level of a step inside a chain of tools. Words holds its regular
-- expressions.
--
-- Stream (src/deep_agent/msty_stream.py) has the texts of a chunk (Chunks), the relay of the model's
-- reasoning (Relay), and the provisional text with the mark that takes it back (Published). The
-- filter of secrets is a parameter, and so is which event of the relay the writer refuses.
--
-- All loops are structural recursions on lists; `_decode` counts its nine levels, as the source
-- counts its depth up to 8, the number of a part of a swarm has at most three digits, as a setting
-- allows at most 100 parts, and the loop that lowers an effort makes as many steps as there are levels
-- below. Nothing else runs on fuel.
--
-- Not modelled: the model adapter, the lead graphs and LangGraph's checkpoints, sub-agents, the tool
-- routing and evidence tables of regular expressions, and the operator scripts under tools/.
pub mod Base
pub mod Text
pub mod Json
pub mod Message
pub mod Breaker
pub mod Execution
pub mod Usage
pub mod Task
pub mod Swarm
pub mod Effort
pub mod Stream
pub mod Compaction
