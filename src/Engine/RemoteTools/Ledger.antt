-- ===== src/Engine/RemoteTools/Ledger.antt =====
-- The calls without futures and without the pending table: each is asked, its outcome is decided once,
-- and its dispatch ends with that outcome.
use voxedge.Base.{ℕ, Bool, true, false, Option, none, some, List, [], ◌∷◌, ◌==◌, if◌then◌else◌}
use voxedge.Text.Strip.{Text}
use voxedge.Engine.RemoteTools.{
  Reply, delivered, client_error, Future, waiting, cancelled, done, Outcome, value, failure,
  timeout, aborted, Call, Registry, outcome_of, has,
}

-- Where a call stands.
pub data Status (R : Type 0) : Type 0 where
  asked : Status R
  decided ended : Outcome R → Status R

module _ {R : Type 0} where
  -- What a client's reply says.
  abbrev pub answer : Reply R → Outcome R
  answer (delivered r) = value r
  answer (client_error e) = failure e

  -- The first outcome counts.
  abbrev pub decide : Outcome R → Status R → Status R
  decide o asked = decided o
  decide o (decided x) = decided x
  decide o (ended x) = ended x

  -- A dispatch goes on: with what was decided, or it has waited too long.
  abbrev pub conclude : Status R → Status R
  conclude asked = ended timeout
  conclude (decided o) = ended o
  conclude (ended o) = ended o

  abbrev pub abandon : Text → Status R → Status R
  abandon error (ended o) = ended o
  abandon error s = ended (failure error)

-- A call by its id, where it stands, and whether it is outstanding.
abbrev pub Ledger : Type 0 → Type 0
Ledger R = List (ℕ × (Status R × Bool))

module _ {R : Type 0} where
  -- The call with an id goes on.
  abbrev pub on : ℕ → (Status R × Bool → Status R × Bool) → Ledger R → Ledger R
  on id f [] = []
  on id f (e ∷ l) = (e.0, if e.0 == id then f e.1 else e.1) ∷ on id f l

  abbrev pub all_aborted : Ledger R → Ledger R
  all_aborted [] = []
  all_aborted (e ∷ l) = (e.0, (decide aborted e.1.0, false)) ∷ all_aborted l

  -- The steps of the contract: a call is opened; a reply decides it; a barge-in decides every call as
  -- aborted, and none is outstanding then; a dispatch ends, or fails to send.
  pub data Promise : Ledger R → Ledger R → Type 0 where
    opens : {l : Ledger R} (id : ℕ) → Promise l ((id, (asked, true)) ∷ l)
    answers :
        {l : Ledger R} (id : ℕ) (reply : Reply R)
        → Promise l (on id (λ e. (decide (answer reply) e.0, e.1)) l)
    barges : {l : Ledger R} → Promise l (all_aborted l)
    ends : {l : Ledger R} (id : ℕ) → Promise l (on id (λ e. (conclude e.0, false)) l)
    gives_up :
        {l : Ledger R} (id : ℕ) (error : Text)
        → Promise l (on id (λ e. (abandon error e.0, false)) l)

  abbrev pub status_of : Future R → Option (Outcome R) → Status R
  status_of f (some o) = ended o
  status_of waiting none = asked
  status_of cancelled none = decided (outcome_of cancelled)
  status_of (done reply) none = decided (outcome_of (done reply))

  abbrev pub entries : List ℕ → List (Call R) → Ledger R
  entries pending [] = []
  entries pending (c ∷ cs) =
      (c.id, (status_of c.future c.returned, has c.id pending)) ∷ entries pending cs

  abbrev pub view : Registry R → Ledger R
  view r = entries r.pending r.calls
