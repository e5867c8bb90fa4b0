-- ===== src/Engine/ToolRegistry/Schemas.antt =====
-- What the registry lists.
use voxedge.Base.{
  All, ◌≡◌, refl, sym, ◌∙◌, Bool, false, Bool-cases, inl, inr, List, [], ◌∷◌, if_intro,
}
use voxedge.Text.Strip.{Text}
use voxedge.Text.Equality.{same_text, same_text→≡}
use voxedge.Artifacts.Json.{
  Json, null, bool, number, string, list, object, Fields, end, field, Python,
}
use voxedge.Engine.ToolRegistry.{
  description_key, Tool, Registry, has_key, without_key, stripped, put, pop, unregister,
  list_openai_tools, register, Change, registers, unregisters, change, changes,
}

without_key-has_key : (key : Text) (fs : Fields) → has_key key (without_key key fs) ≡ false
unfolding without_key
without_key-has_key key end = refl
without_key-has_key key (field k v fs) = elim (Bool-cases (same_text k key)) [
  | inl e ↦ rw e (without_key-has_key key fs)
  | inr e ↦ rw e (rw e (without_key-has_key key fs))
]

-- No description at the root of a schema.
abbrev pub IsBare : Json → Type 0
IsBare (object fs) = has_key description_key fs ≡ false
IsBare _ = Unit

stripped-IsBare : (v : Json) → IsBare (stripped v)
unfolding stripped
stripped-IsBare (object fs) = without_key-has_key description_key fs
stripped-IsBare null = tt
stripped-IsBare (bool b) = tt
stripped-IsBare (number n) = tt
stripped-IsBare (string s) = tt
stripped-IsBare (list vs) = tt

abbrev pub IsListed : Text × Json × Json → Type 0
IsListed e = IsBare e.2

module _ {F : Type 0} where
  -- A tool stands under its name, and its schema has no description.
  abbrev pub IsNamed : Text × Tool F → Type 0
  IsNamed e = (e.1.name ≡ e.0) × IsBare e.1.parameters

  put-All :
      (name : Text) (t : Tool F) (r : Registry F)
      → IsNamed (name, t)
      → All IsNamed r
      → All IsNamed (put name t r)
  unfolding put
  put-All name t [] n h = (n, tt)
  put-All name t ((k, u) ∷ r) n h =
      if_intro (All IsNamed) (same_text k name) _ _
        (λ e. ((n.0 ∙ sym (same_text→≡ k name e), n.1), h.1)) (λ _. (h.0, put-All name t r n h.1))

  pop-All : (name : Text) (r : Registry F) → All IsNamed r → All IsNamed (pop name r)
  unfolding pop
  pop-All name [] h = tt
  pop-All name ((k, u) ∷ r) h =
      if_intro (All IsNamed) (same_text k name) _ _ (λ _. h.1) (λ _. (h.0, pop-All name r h.1))

  list_openai_tools-All :
      (allowed : Text → Bool) (r : Registry F)
      → All IsNamed r
      → All IsListed (list_openai_tools allowed r)
  unfolding list_openai_tools
  list_openai_tools-All allowed [] h = tt
  list_openai_tools-All allowed ((k, t) ∷ r) h =
      if_intro (All IsListed) (allowed k) _ _ (λ _. (h.0.1, list_openai_tools-All allowed r h.1))
        (λ _. list_openai_tools-All allowed r h.1)

module _ {F : Type 0} (py : Python) where
  change-All : (c : Change F) (r : Registry F) → All IsNamed r → All IsNamed (change py c r)
  unfolding change register unregister
  change-All (registers name schema doc description rest) r h =
      put-All name _ r (refl, stripped-IsBare _) h
  change-All (unregisters name) r h = pop-All name r h

  changes-All :
      (cs : List (Change F)) (r : Registry F) → All IsNamed r → All IsNamed (changes py cs r)
  unfolding changes
  changes-All [] r h = h
  changes-All (c ∷ cs) r h = changes-All cs _ (change-All c r h)

  -- However tools were registered and unregistered, every tool stands under its own name, and no schema
  -- that is listed for the language model has a description at its root, whatever schemas were given.
  pub changes-AreListed :
      (cs : List (Change F)) (allowed : Text → Bool)
      → All IsNamed (changes py cs []) × All IsListed (list_openai_tools allowed (changes py cs []))
  changes-AreListed cs allowed =
      let h = changes-All cs [] tt in (h, list_openai_tools-All allowed (changes py cs []) h)
