-- ===== src/Engine/Round/Calls.antt =====
-- The loop over the tool calls of a directive, in `run_inner` (src/agent/loop/engine.rs).
use agent_kuibysheff.Common.{
  ℕ, suc, Bool, true, false, ◌&&◌, ◌||◌, Option, none, some, List, [], ◌∷◌, ◌++◌, ◌==◌, list_eq,
  nat_eq, contains, contains_text, insert, text_ord, Text, text, u32_max, saturating_add,
  if◌then◌else◌, Result, ok, err,
}
use agent_kuibysheff.History.{user}
use agent_kuibysheff.Access.ToolName.{QualifiedTool, ToolNameError, new}
use agent_kuibysheff.Access.Gate.{ToolError}
use agent_kuibysheff.Engine.Message.{
  message, home_read_path, truncate_chars, model_tool_result_max_chars,
}
use agent_kuibysheff.Engine.Host.{
  Host, AgentRunRequest, tool_start, tool_finish, ToolCallId, ToolCallDirective,
}
use agent_kuibysheff.Engine.State.{
  RunState, with_world, emit, push, prune, set_cancel_or_duration_stop, should_stop_for_duration,
  should_stop_for_cancel,
}

module _ {W V D E : Type 0} (h : Host W V D E) (r : AgentRunRequest D) where
  abbrev S : Type 0
  S = RunState W V D

  abbrev pub start : ToolCallId → ToolCallDirective V → S → S
  start id c = emit h r (tool_start id c.server c.tool c.arguments)

  abbrev pub finish : ToolCallId → Bool → V → S → S
  finish id success output = emit h r (tool_finish id success output)

  abbrev pub reply : Text → S → S
  reply t s = prune h r (push h r (message user t) s)

  abbrev model_tool_result : V → Text
  model_tool_result payload = truncate_chars (h.print payload) model_tool_result_max_chars

  abbrev pub is_absent : Option Text → S → Bool
  is_absent none s = false
  is_absent (some path) s = contains s.absent_paths path

  abbrev absent_text : Option Text → Text
  absent_text none = []
  absent_text (some path) =
      text "path `" ++ path ++ text "` is already absent in this run; do not read it again"

  -- A file that the tool did not find is remembered.
  abbrev pub note_absent : Text → Option Text → S → S
  note_absent e none s = s
  note_absent e (some path) s =
      if contains_text (text "os error 2") e
      then record s { absent_paths = insert path s.absent_paths }
      else s

  -- A call that is not run: its two events and the answer to the model.
  abbrev pub refuse : ToolCallId → ToolCallDirective V → Text → Text → S → Bool × S
  refuse id c e answer s = (false, reply answer (finish id false (h.error_output e) (start id c s)))

  abbrev count_success : ToolCallDirective V → S → S
  count_success c s = record s {
    diag = record s.diag {
      tools_executed = saturating_add u32_max s.diag.tools_executed 1;
      home_write_ok = c.server == text "home" && c.tool == text "write" || s.diag.home_write_ok;
      home_run_ok = c.server == text "home" && c.tool == text "run" || s.diag.home_run_ok;
    };
  }

  abbrev pub after_success : ToolCallDirective V → V → S → Bool × S
  after_success c value s =
      let timed = should_stop_for_duration h r s in
      let cancelled = should_stop_for_cancel h r timed.1 in
      if timed.0
      then timed
      else if cancelled.0
      then cancelled
      else (false, reply (model_tool_result (h.tool_result c.server c.tool value)) cancelled.1)

  -- What follows the call, or the cancellation in its place.
  abbrev pub executed :
      ToolCallId
      → ToolCallDirective V
      → Option Text
      → S
      → Option (Result V (ToolError E)) × W
      → Bool × S
  executed id c tracked s (none, w) = (
    true,
    set_cancel_or_duration_stop h r
        (finish id false (h.error_output (text "cancelled")) (with_world h r w s)),
  )
  executed id c tracked s (some (err e), w) =
      let shown = h.show_tool_error e in
      (
        false,
        reply (model_tool_result (h.tool_failure c.server c.tool shown)) (
            finish id false (h.error_output shown)
              (note_absent shown tracked (with_world h r w s))),
      )
  executed id c tracked s (some (ok value), w) =
      after_success c value (finish id true value (count_success c (with_world h r w s)))

  unfoldable pub execute :
      ToolCallId → ToolCallDirective V → QualifiedTool → Option Text → S → Bool × S
  execute id c q tracked s =
      executed id c tracked (start id c s)
        (h.select_call (h.tools.call_tool q.server q.tool c.arguments) s.world)

  abbrev pub named :
      ToolCallId → ToolCallDirective V → S → Result QualifiedTool ToolNameError → Bool × S
  named id c s (err reason) =
      let e = h.show_name_error reason in
      refuse id c e (h.print (h.tool_failure c.server c.tool e)) s
  named id c s (ok q) =
      let tracked = home_read_path c.server c.tool (h.path_argument c.arguments) in
      if is_absent tracked s
      then refuse id c (absent_text tracked)
          (model_tool_result (h.tool_failure c.server c.tool (absent_text tracked))) s
      else execute id c q tracked s

  -- The body of the loop: whether it breaks, and the state.
  unfoldable pub run_call : ToolCallId → ToolCallDirective V → S → Bool × S
  unfolding execute
  run_call id c s = named id c s (new c.server c.tool)

  unfoldable pub run_calls : ℕ → ℕ → List (ToolCallDirective V) → S → S
  unfolding run_call
  run_calls iteration index [] s = s
  run_calls iteration index (c ∷ cs) s =
      let called = run_call (iteration, index) c s in
      if called.0 then called.1 else run_calls iteration (suc index) cs called.1
