-- ===== src/Engine/ClientEvents/Gate.antt =====
-- The responses that the client asks for.
use voxedge.Base.{
  ℕ, ◌+◌, ◌≡◌, refl, ap, sym, ◌∙◌, Bool, true, false, not, ◌||◌, ◌&&◌, Option, none, some, List, [],
  ◌∷◌, ◌++◌, arith, length, length-append, is_empty, if_intro, append_assoc, append-nil,
}
use mathlib.Core.Path.{subst}
use mathlib.Core.List.Sublistᴰ
use mathlib.Core.List.{Sublistᴰ}
use voxedge.Text.Strip.{Text, strip}
use voxedge.Engine.ClientEvents.{
  ClientEvent, text, tts_flush, asr_eos, abort, tool_advertise, response_create, unknown,
  tool_result, Input, event, asr_final, response_done, Config, Session, held, bargein_tts,
  handle_response_create, on_asr_final, on_eos, on_abort, handle, task_done, step, run,
}

abbrev pub finals : {R : Type 0} → List (Input R) → List Text
finals [] = []
finals (asr_final t ∷ is) = t ∷ finals is
finals (_ ∷ is) = finals is

abbrev waiting_texts : Option Text → List Text
waiting_texts none = []
waiting_texts (some t) = t ∷ []

abbrev pub one_if : Bool → ℕ
one_if true = 1
one_if false = 0

-- A text that is held may be dropped.
dropped : (xs ys : List Text) {ts : List Text} → Sublistᴰ (xs ++ ys) ts → Sublistᴰ xs ts
dropped xs ys p =
    Sublistᴰ.trans
      (subst (λ l. Sublistᴰ l (xs ++ ys)) (append-nil xs)
        (Sublistᴰ.append (Sublistᴰ.refl xs) (Sublistᴰ.nil-sublist ys)))
      p

module _ {R : Type 0} where
  -- Of the finals `ts`, those that were started, and after them the one that is held, are a sublist, and
  -- at most one response runs.
  pub record IsGated (ts : List Text) (s : Session R) : Type 0 where
    pub in_order : Sublistᴰ (s.started ++ waiting_texts s.pending) ts
    pub one_runs : length s.started ≡ s.finished + one_if s.running

  same-IsGated :
      (ts : List Text) (s s' : Session R)
      → s'.started ≡ s.started
      → s'.pending ≡ s.pending
      → s'.finished ≡ s.finished
      → s'.running ≡ s.running
      → IsGated ts s
      → IsGated ts s'
  same-IsGated ts s s' a b c d g = record {
    in_order = rw (a, b) g.in_order;
    one_runs = rw (a, c, d) g.one_runs;
  }

module _ {R : Type 0} (k : Config) where
  create-IsGated :
      (ts : List Text) (s : Session R) → IsGated ts s → IsGated ts (handle_response_create k s)
  unfolding handle_response_create
  create-IsGated ts s g =
      if_intro (IsGated ts) k.auto_create_response _ _
        (λ _. same-IsGated ts s _ refl refl refl refl g)
        (λ _.
          if_intro (IsGated ts) s.running _ _ (λ _. same-IsGated ts s _ refl refl refl refl g)
            (λ r.
              if_intro (IsGated ts) (is_empty (held s.pending)) _ _
                (λ _. same-IsGated ts s _ refl refl refl refl g) (λ e. starts s.pending refl r e)))
    where
      starts :
          (p : Option Text)
          → s.pending ≡ p
          → s.running ≡ false
          → is_empty (held p) ≡ false
          → IsGated ts (record s {
            pending = none;
            running = true;
            started = s.started ++ (held s.pending ∷ []);
          })
      starts none q r e = absurd (ground (arith, e))
      starts (some t) q r e = record {
        in_order = rw (append-nil (s.started ++ (held s.pending ∷ []))) (
            subst (λ l. Sublistᴰ l ts)
              (ap (λ o. s.started ++ waiting_texts o) q
                ∙ ap (λ o. s.started ++ (held o ∷ [])) (sym q))
              g.in_order);
        one_runs =
            omega (arith, length-append s.started (held s.pending ∷ []), g.one_runs, ap one_if r);
      }

  abort-IsGated : (ts : List Text) (s : Session R) → IsGated ts s → IsGated ts (on_abort k s)
  unfolding on_abort bargein_tts
  abort-IsGated ts s g =
      let cleared : Session R = record s { pending = none } in
      let g' : IsGated ts cleared = record {
        in_order =
            rw (append-nil s.started) (dropped s.started (waiting_texts s.pending) g.in_order);
        one_runs = g.one_runs;
      } in
      if_intro (IsGated ts) (k.has_asr && s.state.asr_active) _ _
        (λ _. same-IsGated ts cleared _ refl refl refl refl g')
        (λ _. same-IsGated ts cleared _ refl refl refl refl g')

  eos-IsGated : (ts : List Text) (s : Session R) → IsGated ts s → IsGated ts (on_eos k s)
  unfolding on_eos
  eos-IsGated ts s g =
      if_intro (IsGated ts) k.multi_utterance _ _ (λ _. same-IsGated ts s _ refl refl refl refl g)
        (λ _. same-IsGated ts s _ refl refl refl refl g)

  handle-IsGated :
      (ts : List Text) (e : ClientEvent R) (s : Session R)
      → IsGated ts s
      → IsGated ts (handle k e s)
  unfolding handle
  handle-IsGated ts (text t) s g = same-IsGated ts s _ refl refl refl refl g
  handle-IsGated ts tts_flush s g = same-IsGated ts s _ refl refl refl refl g
  handle-IsGated ts asr_eos s g = eos-IsGated ts s g
  handle-IsGated ts abort s g = abort-IsGated ts s g
  handle-IsGated ts (tool_result id ok result error) s g = same-IsGated ts s _ refl refl refl refl g
  handle-IsGated ts tool_advertise s g = same-IsGated ts s _ refl refl refl refl g
  handle-IsGated ts response_create s g = create-IsGated ts s g
  handle-IsGated ts unknown s g = g

  done-IsGated : (ts : List Text) (s : Session R) → IsGated ts s → IsGated ts (task_done k s)
  unfolding task_done
  done-IsGated ts s g =
      if_intro (IsGated ts) s.running _ _
        (λ r. record { in_order = g.in_order; one_runs = omega (arith, g.one_runs, ap one_if r) })
        (λ _. g)

  final-IsGated :
      (ts : List Text) (t : Text) (s : Session R)
      → IsGated ts s
      → IsGated (ts ++ (t ∷ [])) (on_asr_final k t s)
  unfolding on_asr_final
  final-IsGated ts t s g =
      if_intro (IsGated (ts ++ (t ∷ []))) (not k.has_llm || is_empty (strip k.blank t)) _ _
        (λ _. later s g)
        (λ _.
          if_intro (IsGated (ts ++ (t ∷ []))) (not k.auto_create_response) _ _
            (λ _. record {
              in_order =
                  Sublistᴰ.append (dropped s.started (waiting_texts s.pending) g.in_order)
                    (Sublistᴰ.refl (t ∷ []));
              one_runs = g.one_runs;
            })
            (λ _. later _ (same-IsGated ts s _ refl refl refl refl g)))
    where
      later : (s' : Session R) → IsGated ts s' → IsGated (ts ++ (t ∷ [])) s'
      later s' g' = record {
        in_order =
            dropped (s'.started ++ waiting_texts s'.pending) (t ∷ [])
              (Sublistᴰ.append g'.in_order (Sublistᴰ.refl (t ∷ [])));
        one_runs = g'.one_runs;
      }

  run-All :
      (is : List (Input R)) (ts : List Text) (s : Session R)
      → IsGated ts s
      → IsGated (ts ++ finals is) (run k is s)
  unfolding run step
  run-All [] ts s g = subst (λ l. IsGated l s) (sym (append-nil ts)) g
  run-All (event e ∷ is) ts s g = run-All is ts _ (handle-IsGated ts e s g)
  run-All (response_done ∷ is) ts s g = run-All is ts _ (done-IsGated ts s g)
  run-All (asr_final t ∷ is) ts s g =
      subst (λ l. IsGated l (run k is (on_asr_final k t s))) (append_assoc ts (t ∷ []) (finals is))
        (run-All is (ts ++ (t ∷ [])) _ (final-IsGated ts t s g))

  -- From a session where nothing is held or started, and after any inputs: the texts of the responses
  -- that were started, and after them the text that is held, are finals of the ASR loop, in their order
  -- and each at most once, and at most one response runs at a time.
  pub run-IsGated :
      (is : List (Input R)) (s : Session R)
      → s.started ≡ []
      → s.pending ≡ none
      → s.finished ≡ 0
      → s.running ≡ false
      → IsGated (finals is) (run k is s)
  run-IsGated is s a b c d =
      run-All is [] s (record { in_order = rw (a, b) Sublistᴰ.slnil; one_runs = rw (a, c, d) refl })
