-- ===== src/Engine/RemoteTools.antt =====
-- engine/tool_registry.py: calls of tools that run at the client. A dispatch registers a future for its
-- call, sends the call and awaits the future; the client's reply, a barge-in and the time limit come in
-- any order. A call's id is a number in place of a uuid.
pub mod Settled
pub mod Ledger
pub mod Contract
mod Tests
use voxedge.Base.{
  is_some, ℕ, Bool, true, false, not, ◌||◌, ◌&&◌, ◌≡◌, Option, none, some, List, [], ◌∷◌, ◌++◌, map,
  any, length, ◌==◌, if◌then◌else◌,
}
use voxedge.Text.Strip.{Text}

-- What the client sends: a result, or an error.
pub data Reply (R : Type 0) : Type 0 where
  delivered : R → Reply R
  client_error : Text → Reply R

pub data Future (R : Type 0) : Type 0 where
  waiting cancelled : Future R
  done : Reply R → Future R

-- What a dispatch returns: a result, or what its error says.
pub data Outcome (R : Type 0) : Type 0 where
  value : R → Outcome R
  failure : Text → Outcome R
  timeout aborted : Outcome R

-- A dispatch, with its future and what it has returned.
pub record Call (R : Type 0) : Type 0 where
  pub id : ℕ
  pub future : Future R
  pub returned : Option (Outcome R)

-- `pending` is the keys of `_pending_remote`; the futures are with their calls, which hold them.
pub record Registry (R : Type 0) : Type 0 where
  pub calls : List (Call R)
  pub pending : List ℕ

-- What the dispatch makes of its future; one that still waits has timed out.
abbrev pub outcome_of : {R : Type 0} → Future R → Outcome R
outcome_of waiting = timeout
outcome_of cancelled = aborted
outcome_of (done (delivered r)) = value r
outcome_of (done (client_error e)) = failure e

abbrev pub has : ℕ → List ℕ → Bool
has id ids = any (λ i. i == id) ids

-- `pop(call_id, None)`
abbrev pub pop : ℕ → List ℕ → List ℕ
pop id [] = []
pop id (i ∷ ids) = let rest = pop id ids in if i == id then rest else i ∷ rest

module _ {R : Type 0} where
  -- A change of the call with an id.
  abbrev pub update : ℕ → (Call R → Call R) → List (Call R) → List (Call R)
  update id f [] = []
  update id f (c ∷ cs) = (if c.id == id then f c else c) ∷ update id f cs

  -- `set_result` and `set_exception`, on a future that is not done
  abbrev pub set_future : Reply R → Future R → Future R
  set_future reply waiting = done reply
  set_future reply f = f

  -- `cancel`, on a future that is not done
  abbrev pub cancel_future : Future R → Future R
  cancel_future waiting = cancelled
  cancel_future f = f

  -- `_dispatch_remote` up to its await
  unfoldable pub begin : ℕ → Registry R → Registry R
  begin id r = record {
    calls = record { id = id; future = waiting; returned = none } ∷ r.calls;
    pending = r.pending ++ (id ∷ []);
  }

  unfoldable pub resolve_remote : ℕ → Reply R → Registry R → Registry R
  resolve_remote id reply r =
      if has id r.pending
      then record r {
        calls = update id (λ c. record c { future = set_future reply c.future }) r.calls;
      }
      else r

  -- The number is that of the futures cleared.
  unfoldable pub cancel_pending_remote : Registry R → Registry R × ℕ
  cancel_pending_remote r = (
    record {
      calls =
          map (λ c. if has c.id r.pending then record c { future = cancel_future c.future } else c)
            r.calls;
      pending = [];
    },
    length r.pending,
  )

  -- `_dispatch_remote` after its await, or after its time limit
  unfoldable pub finish : ℕ → Registry R → Registry R
  finish id r = record {
    calls = update id (λ c. record c { returned = some (outcome_of c.future) }) r.calls;
    pending = pop id r.pending;
  }

  -- `_dispatch_remote` where `remote_send` raises
  unfoldable pub send_fails : ℕ → Text → Registry R → Registry R
  send_fails id error r = record {
    calls = update id (λ c. record c { returned = some (failure error) }) r.calls;
    pending = pop id r.pending;
  }

  abbrev pub empty : Registry R
  empty = record { calls = []; pending = [] }

  abbrev pub has_call : ℕ → List (Call R) → Bool
  has_call id cs = any (λ c. c.id == id) cs

  abbrev pub has_returned : ℕ → List (Call R) → Bool
  has_returned id cs = any (λ c. (c.id == id) && is_some c.returned) cs

  -- The ids of calls are new. A dispatch that has returned does not go on.
  pub data Step : Registry R → Registry R → Type 0 where
    begins : {r : Registry R} (id : ℕ) → has_call id r.calls ≡ false → Step r (begin id r)
    replies : {r : Registry R} (id : ℕ) (reply : Reply R) → Step r (resolve_remote id reply r)
    cancels : {r : Registry R} → Step r (cancel_pending_remote r).0
    finishes : {r : Registry R} (id : ℕ) → has_returned id r.calls ≡ false → Step r (finish id r)
    fails :
        {r : Registry R} (id : ℕ) (error : Text)
        → has_returned id r.calls ≡ false
        → Step r (send_fails id error r)

  pub data Reach : Registry R → Type 0 where
    start : Reach empty
    next : {r r' : Registry R} → Reach r → Step r r' → Reach r'
