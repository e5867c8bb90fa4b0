-- ===== src/Engine/TurnDriver/Dialogue.antt =====
-- The messages that the rounds of a turn commit, and how the rounds end.
use voxedge.Base.{
  append-nil, sym, ap, ◌∙◌, ◌||◌, ℕ, zero, suc, ◌≡◌, refl, Bool, true, false, ◌||◌, ◌&&◌, ◌⊎◌, inl,
  inr, not, Option, none, some, List, [], ◌∷◌, ◌++◌, is_empty, arith, if_intro, if◌then◌else◌,
}
use mathlib.Core.Path.{subst}
use voxedge.Text.Strip.{Text}
use voxedge.Engine.TurnDriver.Host.{
  Message, assistant_tool_calls, assistant_text, spoke, completed_with, flushed, limit_hit, Host,
  Turn, emit, polled,
}
use voxedge.Engine.TurnDriver.Stream.{
  Streamed, drained, dropped, broke, ToolCallAcc, ToolCallAcc, Acc, Streamed, drained, dropped,
  broke,
}
use voxedge.Engine.TurnDriver.Tools.{
  payload_of, Entry, AllCalls, all_did, stopped, template_fires, template_completion,
}
use voxedge.Engine.TurnDriver.Loop.{
  or_none, is_reason, tool_calls, call_tools, after_stream, round, at_limit, rounds, Round, over,
  again, raises, tool_calls, is_reason, after_calls, add_text, answer, complete, after_tools,
  call_tools, after_stream, round, at_limit, rounds,
}
use voxedge.Engine.TurnDriver.Steps.{
  is_tool_error, adds, AllEnd, AnswersSome, Answers, StreamEnds, stream_loop-Ends,
  dispatch_all-Ends, Answers, IsOpen, IsDropped, IsFlushed, Ends, chain, stays, emits, goes_on,
  is_told, StreamEnds, stream_loop-Ends, dispatch_all-Ends, report-Ends,
}

-- An assistant's calls of at least one tool, and a result for each.
abbrev pub IsBlock : List Message → Type 0
IsBlock (assistant_tool_calls content (c ∷ cs) ∷ ms) = Answers (c ∷ cs) ms
IsBlock _ = ⊥

-- An assistant's calls of tools, and a result for each of the first ones, but not for all.
abbrev pub IsCut : List Message → Type 0
IsCut (assistant_tool_calls content cs ∷ ms) = AnswersSome cs ms
IsCut _ = ⊥

-- At most `n` blocks of tools, and at most one answer, which is last. If the dialogue is cut off, and only
-- then, its last block lacks results.
pub data Dialogue : (is_cut : Bool) → ℕ → List Message → Type 0 where
  silent : {n : ℕ} → Dialogue false n []
  answered : {n : ℕ} (said : Text) → Dialogue false n (assistant_text said ∷ [])
  called :
      {is_cut : Bool} {n : ℕ} (block rest : List Message)
      → IsBlock block
      → Dialogue is_cut n rest
      → Dialogue is_cut (suc n) (block ++ rest)
  cut_off : {n : ℕ} (block : List Message) → IsCut block → Dialogue true (suc n) block

payload_of-IsBlock :
    (accs : List (ℕ × ToolCallAcc)) (content : Option Text) (ms : List Message)
    → is_empty accs ≡ false
    → Answers (payload_of accs) ms
    → IsBlock (assistant_tool_calls content (payload_of accs) ∷ ms)
unfolding payload_of
payload_of-IsBlock [] content ms e a = absurd (ground (arith, e))
payload_of-IsBlock (x ∷ accs) content ms e a = a

module _ {A R W : Type 0} (h : Host A R W) where
  -- A turn that ends without a text: it was told to stop, or hit the limit and has ended its speech.
  abbrev pub IsDone : Turn W → Type 0
  IsDone t = IsDropped h t ⊎ IsFlushed h t

  abbrev pub OverWith : Option Text → Turn W → Type 0
  OverWith none t = IsDone t
  OverWith (some said) t = IsFlushed h t

  -- How a round, or the rest of a turn with `n` rounds left, ends. What follows a round is left to it.
  abbrev pub RoundEnds : ℕ → Turn W → Round W → Type 0
  RoundEnds n t (over r t') =
      (ms : List Message) × Dialogue false n ms × Ends h (OverWith r) ms t t'
  RoundEnds n t (raises e t') =
      (ms : List Message) × Dialogue (is_tool_error e) n ms × Ends h (IsOpen h) ms t t'
  RoundEnds n t (again t') = (ms : List Message) × IsBlock ms × Ends h (IsOpen h) ms t t'

  weaken :
      {P Q : Turn W → Type 0} {ms : List Message} {t t' : Turn W}
      → (P t' → Q t')
      → Ends h P ms t t'
      → Ends h Q ms t t'
  weaken f e = record { added = e.added; ends = λ o. f (e.ends o) }

  told : (t : Turn W) → h.poll t.polls ≡ true → Ends h IsDone [] t (polled t)
  told t e = weaken inl (is_told h t e)

  add_text-Ends :
      (n : ℕ) (said : Text) (t : Turn W)
      → (ms : List Message) × Dialogue false n ms × Ends h (IsOpen h) ms t (add_text said t)
  add_text-Ends n [] t = ([], silent, stays h t)
  add_text-Ends n (c ∷ cs) t =
      (assistant_text (c ∷ cs) ∷ [], answered (c ∷ cs), record { added = refl; ends = λ o. o })

  -- The end of the speech.
  closed :
      {ms : List Message} {t t' : Turn W}
      → Ends h (IsOpen h) ms t t'
      → Ends h (IsFlushed h) ms t (emit flushed t')
  closed e = record { added = e.added; ends = e.ends }

  answer-Ends : (n : ℕ) (a : Acc) (t : Turn W) → RoundEnds n t (answer h a t)
  unfolding answer
  answer-Ends n a t =
      if_intro (RoundEnds n t) (h.poll t.polls) _ _ (λ p. ([], silent, told t p))
        (λ p.
          let said = add_text-Ends n a.text_chunks (polled t) in
          (said.0, said.1, closed (chain h (goes_on h t p) said.2)))

  noted-Ends :
      (n : ℕ) (b : Bool) (said : Text) (t : Turn W)
      → (ms : List Message) × Dialogue false n ms
        × Ends h (IsOpen h) ms t (if b then add_text said t else t)
  noted-Ends n true said t = add_text-Ends n said t
  noted-Ends n false said t = ([], silent, stays h t)

  complete-Ends : (n : ℕ) (spoken : Text) (t : Turn W) → RoundEnds n t (complete h spoken t)
  unfolding complete
  complete-Ends n spoken t =
      let said =
        if_intro (Ends h (IsOpen h) [] t) h.completion_text_cb
          (if is_empty spoken then t else emit (completed_with spoken) t) (emit (spoke spoken) t)
          (λ _.
            if_intro (Ends h (IsOpen h) [] t) (is_empty spoken) _ _ (λ _. stays h t)
              (λ _. emits h (completed_with spoken) t tt))
          (λ _. emits h (spoke spoken) t tt) in
      let noted = noted-Ends n h.record_template_text spoken _ in
      (noted.0, noted.1, closed (chain h said noted.2))

  follows :
      (n : ℕ) {t t' : Turn W} (r : Round W)
      → Ends h (IsOpen h) [] t t'
      → RoundEnds n t' r
      → RoundEnds n t r
  follows n (over x t'') e r = (r.0, r.1, chain h e r.2)
  follows n (raises x t'') e r = (r.0, r.1, chain h e r.2)
  follows n (again t'') e r = (r.0, r.1, chain h e r.2)

  -- What follows the results of a block of calls: another round adds no more.
  abbrev AfterTools : ℕ → Turn W → Round W → Type 0
  AfterTools n t (again t') = Ends h (IsOpen h) [] t t'
  AfterTools n t (over r t') = RoundEnds n t (over r t')
  AfterTools n t (raises e t') = RoundEnds n t (raises e t')

  after_tools-Ends :
      (n : ℕ) (es : List (Entry R)) (t : Turn W) → AfterTools n t (after_tools h es t)
  unfolding after_tools complete
  after_tools-Ends n es t =
      if_intro (AfterTools n t) (h.poll t.polls) _ _ (λ p. ([], silent, told t p))
        (λ p.
          if_intro (AfterTools n t) (not (is_empty es) && template_fires h es) _ _
            (λ f.
              follows n (complete h (template_completion h es) (polled t)) (goes_on h t p)
                (complete-Ends n (template_completion h es) (polled t)))
            (λ f. chain h (goes_on h t p) (report-Ends h es (polled t))))

  -- A block of calls before what follows the tools.
  with_block :
      (n : ℕ) {ms : List Message} {t t' : Turn W} (r : Round W)
      → IsBlock ms
      → Ends h (IsOpen h) ms t t'
      → AfterTools n t' r
      → RoundEnds (suc n) t r
  with_block n {ms} (over x t'') b e r = (ms ++ r.0, called ms r.0 b r.1, chain h e r.2)
  with_block n {ms} (raises x t'') b e r = (ms ++ r.0, called ms r.0 b r.1, chain h e r.2)
  with_block n {ms} {t} (again t'') b e r = (
    ms,
    b,
    record {
      added = (chain h e r).added ∙ ap (λ l. t.messages ++ l) (append-nil ms);
      ends = (chain h e r).ends;
    },
  )

  -- The block of the calls, whole or cut off.
  after_calls-Ends :
      (n : ℕ) (accs : List (ℕ × ToolCallAcc)) (content : Option Text) (t t' : Turn W)
      (r : AllCalls R W)
      → is_empty accs ≡ false
      → Ends h (IsOpen h) (assistant_tool_calls content (payload_of accs) ∷ []) t t'
      → AllEnd h (payload_of accs) t' r
      → RoundEnds (suc n) t (after_calls h r)
  unfolding after_calls
  after_calls-Ends n accs content t t' (all_did es t'') e commit k =
      with_block n (after_tools h es t'') (payload_of-IsBlock accs content k.0 e k.1)
        (chain h commit k.2) (after_tools-Ends n es t'')
  after_calls-Ends n accs content t t' (stopped t'') e commit k = (
    assistant_tool_calls content (payload_of accs) ∷ k.0,
    cut_off (assistant_tool_calls content (payload_of accs) ∷ k.0) k.1,
    chain h commit k.2,
  )

  call_tools-Ends :
      (n : ℕ) (a : Acc) (t : Turn W)
      → is_empty a.tool_accs ≡ false
      → RoundEnds (suc n) t (call_tools h a t)
  unfolding call_tools
  call_tools-Ends n a t e =
      let calls = payload_of a.tool_accs in
      after_calls-Ends n a.tool_accs (or_none a.text_chunks) t _ _ e
        (adds h (assistant_tool_calls (or_none a.text_chunks) calls) t)
        (dispatch_all-Ends h calls a.preamble_fired _)

  after_stream-Ends :
      (n : ℕ) (t : Turn W) (s : Streamed W)
      → StreamEnds h t s
      → RoundEnds (suc n) t (after_stream h s)
  unfolding after_stream
  after_stream-Ends n t (dropped t') e = ([], silent, weaken inl e)
  after_stream-Ends n t (broke x t') e =
      ([], subst (λ b. Dialogue b (suc n) []) (sym e.0) silent, e.1)
  after_stream-Ends n t (drained a t') e = follows (suc n) _ e (
      if_intro (RoundEnds (suc n) t')
        (is_empty a.tool_accs || not (is_reason tool_calls a.finish_reason)) _ _
        (λ _. answer-Ends (suc n) a t') (λ f. call_tools-Ends n a t' (ground (arith, f))))

  round-Ends : (n index : ℕ) (t : Turn W) → RoundEnds (suc n) t (round h index t)
  unfolding round
  round-Ends n index t =
      if_intro (RoundEnds (suc n) t) (h.poll t.polls) _ _ (λ p. ([], silent, told t p))
        (λ p.
          follows (suc n) _ (goes_on h t p) (after_stream-Ends n _ _ (stream_loop-Ends h _ _ _)))

  -- The rounds never ask for another one.
  abbrev pub TurnEnds : ℕ → Turn W → Round W → Type 0
  TurnEnds n t (again t') = ⊥
  TurnEnds n t (over r t') = RoundEnds n t (over r t')
  TurnEnds n t (raises e t') = RoundEnds n t (raises e t')

  at_limit-Ends : (t : Turn W) → TurnEnds zero t (at_limit h t)
  unfolding at_limit
  at_limit-Ends t =
      if_intro (TurnEnds zero t) (h.poll t.polls) _ _ (λ p. ([], silent, told t p))
        (λ p. (
          [],
          silent,
          weaken inr (closed (chain h (goes_on h t p) (emits h limit_hit (polled t) tt))),
        ))

  after_block :
      (n : ℕ) {ms : List Message} {t t' : Turn W} (r : Round W)
      → IsBlock ms
      → Ends h (IsOpen h) ms t t'
      → TurnEnds n t' r
      → TurnEnds (suc n) t r
  after_block n (over x t'') b e r = with_block n (over x t'') b e r
  after_block n (raises x t'') b e r = with_block n (raises x t'') b e r
  after_block n (again t'') b e r = r

  next_round :
      (left index : ℕ) (t : Turn W) (r : Round W)
      → ((t' : Turn W) → TurnEnds left t' (rounds h left (suc index) t'))
      → RoundEnds (suc left) t r
      → TurnEnds (suc left) t (elim r [
        | over x t' ↦ over x t'
        | raises e t' ↦ raises e t'
        | again t' ↦ rounds h left (suc index) t'
      ])
  next_round left index t (over x t') f e = e
  next_round left index t (raises x t') f e = e
  next_round left index t (again t') f e =
      after_block left (rounds h left (suc index) t') e.1 e.2 (f t')

  pub rounds-Ends : (left index : ℕ) (t : Turn W) → TurnEnds left t (rounds h left index t)
  unfolding rounds
  rounds-Ends zero index t = at_limit-Ends t
  rounds-Ends (suc left) index t =
      next_round left index t (round h index t) (rounds-Ends left (suc index))
        (round-Ends left index t)
