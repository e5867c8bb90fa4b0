-- ===== src/Engine/TurnDriver/Tools.antt =====
-- engine/turn_driver.py: the calls of a round's tools, and the completion by template.
use voxedge.Base.{
  ℕ, Bool, not, ◌&&◌, Option, none, some, List, [], ◌∷◌, ◌++◌, all, is_empty, if◌then◌else◌,
}
use voxedge.Text.Strip.{Text}
use voxedge.Text.Decimal.{decimal}
use voxedge.Text.Equality.{same_text}
use voxedge.Engine.TurnDriver.Host.{
  Call, tool_result, Tool, started, completed, misconfigured, Host, Turn, emit,
}
use voxedge.Engine.TurnDriver.Stream.{ToolCallAcc, or_else, announce}

-- "call_"
abbrev call_prefix : Text
call_prefix = 99 ∷ 97 ∷ 108 ∷ 108 ∷ 95 ∷ []

-- "template"
abbrev template : Text
template = 116 ∷ 101 ∷ 109 ∷ 112 ∷ 108 ∷ 97 ∷ 116 ∷ 101 ∷ []

-- "{}"
abbrev empty_object : Text
empty_object = 123 ∷ 125 ∷ []

unfoldable pub payload_of : List (ℕ × ToolCallAcc) → List Call
payload_of [] = []
payload_of ((idx, a) ∷ accs) =
    record {
      id = or_else a.id (call_prefix ++ decimal idx);
      name = a.name;
      arguments = or_else a.arguments empty_object;
    }
    ∷ payload_of accs

-- An entry of `dispatched`; an unknown tool has the mode "await", which is no template.
pub record Entry (R : Type 0) : Type 0 where
  pub name : Text
  pub response_mode : Text
  pub completion_text : Text
  pub result : R

-- "await"
abbrev await : Text
await = 97 ∷ 119 ∷ 97 ∷ 105 ∷ 116 ∷ []

entry_of : {R : Type 0} → Text → Option Tool → R → Entry R
entry_of name none r = record {
  name = name;
  response_mode = await;
  completion_text = [];
  result = r;
}
entry_of name (some tool) r = record {
  name = name;
  response_mode = or_else tool.response_mode await;
  completion_text = tool.completion_text;
  result = r;
}

-- How a call ends: with its entry, the preambles that were spoken and the turn; or in an exception.
pub data OneCall (R W : Type 0) : Type 0 where
  did : Entry R → List Text → Turn W → OneCall R W
  failed : Turn W → OneCall R W

-- How the loop over the calls ends.
pub data AllCalls (R W : Type 0) : Type 0 where
  all_did : List (Entry R) → Turn W → AllCalls R W
  stopped : Turn W → AllCalls R W

abbrev pub with_entry : {R W : Type 0} → Entry R → AllCalls R W → AllCalls R W
with_entry e (all_did es t) = all_did (e ∷ es) t
with_entry e (stopped t) = stopped t

module _ {A R W : Type 0} (h : Host A R W) where
  -- The result of a call, if there is one, and the world after it.
  call_result : Call → Option A → W → Option R × W
  call_result c none w = (some (h.invalid_arguments c.arguments), w)
  call_result c (some args) w = h.dispatch c.name args w

  -- With the result, and with its print.
  unfoldable pub add_result : Call → List Text → R → Option Text → Turn W → OneCall R W
  unfolding entry_of
  add_result c fired r none t = failed t
  add_result c fired r (some content) t =
      let t' = record t { messages = t.messages ++ (tool_result c.id content ∷ []) } in
      did (entry_of c.name (h.tool c.name) r) fired (emit (completed c.id) t')

  unfoldable pub use_result : Call → List Text → Option R → Turn W → OneCall R W
  unfolding add_result
  use_result c fired none t = failed t
  use_result c fired (some r) t = add_result c fired r (h.dumps r) t

  -- The body of the loop over `tc_payload`.
  unfoldable pub dispatch_one : Call → List Text → Turn W → OneCall R W
  unfolding call_result use_result
  dispatch_one c fired t =
      let said = announce h c.name fired (emit (started c.id) t) in
      let r = call_result c (h.loads c.arguments) said.1.world in
      use_result c said.0 r.0 (record said.1 { world = r.1 })

  unfoldable pub dispatch_all : List Call → List Text → Turn W → AllCalls R W
  dispatch_all [] fired t = all_did [] t
  dispatch_all (c ∷ cs) fired t = elim (dispatch_one c fired t) [
    | did e fired' t' ↦ with_entry e (dispatch_all cs fired' t')
    | failed t' ↦ stopped t'
  ]

  pub is_template : Entry R → Bool
  is_template e = same_text e.response_mode template

  -- `_template_fires`
  unfoldable pub template_fires : List (Entry R) → Bool
  unfolding is_template
  template_fires =
      all (λ e. is_template e && (not (is_empty e.completion_text) && not (h.has_failed e.result)))

  -- `_template_completion`
  unfoldable pub template_completion : List (Entry R) → Text
  template_completion [] = []
  template_completion (e ∷ []) = e.completion_text
  template_completion (e ∷ es) = e.completion_text ++ (32 ∷ template_completion es)

  -- The tools that are templates and succeeded, but say nothing.
  unfoldable pub report_misconfigured : List (Entry R) → Turn W → Turn W
  unfolding is_template
  report_misconfigured [] t = t
  report_misconfigured (e ∷ es) t = report_misconfigured es (
      if is_template e && (is_empty e.completion_text && not (h.has_failed e.result))
      then emit (misconfigured e.name) t
      else t)
