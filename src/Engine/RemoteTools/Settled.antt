-- ===== src/Engine/RemoteTools/Settled.antt =====
-- No call of a tool is left waiting.
use voxedge.Base.{
  ℕ, All, ◌≡◌, refl, ap, ◌∙◌, true, false, ◌||◌, inl, inr, Bool-cases, Option, none, some, List, [],
  ◌∷◌, ◌++◌, map, arith, if_intro, ◌==◌, if◌then◌else◌,
}
use voxedge.Engine.RemoteTools.{
  delivered, client_error, Reply, Future, waiting, cancelled, done, Outcome, value, failure, Call,
  Registry, outcome_of, has, pop, update, set_future, cancel_future, begin, resolve_remote,
  cancel_pending_remote, finish, send_fails, has_call, Step, begins, replies, cancels, finishes,
  fails, Reach, start, next,
}

pub has-append : (i id : ℕ) (ids : List ℕ) → has i (ids ++ (id ∷ [])) ≡ has i ids || (id == i)
has-append i id [] = ground arith
has-append i id (j ∷ ids) = ground (arith, has-append i id ids)

pub has-pop : (i id : ℕ) (ids : List ℕ) → (i == id) ≡ false → has i (pop id ids) ≡ has i ids
has-pop i id [] e = refl
has-pop i id (j ∷ ids) e = elim (Bool-cases (j == id)) [
  | inl k ↦ rw k (has-pop i id ids e ∙ ground (arith, e, k))
  | inr k ↦ rw k (ap (λ b. (j == i) || b) (has-pop i id ids e))
]

pub has-popped : (i id : ℕ) (ids : List ℕ) → (i == id) ≡ true → has i (pop id ids) ≡ false
has-popped i id [] e = refl
has-popped i id (j ∷ ids) e = elim (Bool-cases (j == id)) [
  | inl k ↦ rw k (has-popped i id ids e)
  | inr k ↦ rw k (rw (has-popped i id ids e) (ground (arith, e, k)))
]

pub has-new : (id : ℕ) (ids : List ℕ) → has id (ids ++ (id ∷ [])) ≡ true
has-new id ids = has-append id id ids ∙ ground arith

module _ {R : Type 0} where
  -- What a dispatch has returned fits its future, unless the call could not be sent.
  abbrev pub Fits : Outcome R → Future R → Type 0
  Fits (value r) f = value r ≡ outcome_of f
  Fits (failure e) f = Unit
  Fits o f = o ≡ outcome_of f

  -- A call that waits is pending, and one that has returned is not.
  abbrev pub Settles : List ℕ → ℕ → Future R → Option (Outcome R) → Type 0
  Settles pending id waiting none = has id pending ≡ true
  Settles pending id cancelled none = Unit
  Settles pending id (done reply) none = Unit
  Settles pending id f (some o) = (has id pending ≡ false) × Fits o f

  abbrev pub IsSettled : List ℕ → Call R → Type 0
  IsSettled pending c = Settles pending c.id c.future c.returned

  -- Settles only reads whether the id is pending.
  carry :
      (p p' : List ℕ) (id : ℕ) (f : Future R) (o : Option (Outcome R))
      → has id p' ≡ has id p
      → Settles p id f o
      → Settles p' id f o
  carry p p' id waiting none e h = e ∙ h
  carry p p' id cancelled none e h = tt
  carry p p' id (done reply) none e h = tt
  carry p p' id f (some o) e h = (e ∙ h.0, h.1)

  begin-All :
      (p : List ℕ) (id : ℕ) (cs : List (Call R))
      → has_call id cs ≡ false
      → All (IsSettled p) cs
      → All (IsSettled (p ++ (id ∷ []))) cs
  begin-All p id [] n h = tt
  begin-All p id (c ∷ cs) n h = (
    carry p (p ++ (id ∷ [])) c.id c.future c.returned (has-append c.id id p ∙ ground (arith, n))
        h.0,
    begin-All p id cs (ground (arith, n)) h.1,
  )

  delivered-Settles :
      (p : List ℕ) (id : ℕ) (reply : Reply R) (f : Future R) (o : Option (Outcome R))
      → has id p ≡ true
      → Settles p id f o
      → Settles p id (set_future reply f) o
  delivered-Settles p id reply waiting none e h = tt
  delivered-Settles p id reply cancelled none e h = tt
  delivered-Settles p id reply (done x) none e h = tt
  delivered-Settles p id reply f (some o) e h = absurd (ground (arith, e, h.0))

  replies-All :
      (p : List ℕ) (id : ℕ) (reply : Reply R) (cs : List (Call R))
      → has id p ≡ true
      → All (IsSettled p) cs
      → All (IsSettled p) (update id (λ c. record c { future = set_future reply c.future }) cs)
  replies-All p id reply [] e h = tt
  replies-All p id reply (c ∷ cs) e h = (
    if_intro (IsSettled p) (c.id == id) (record c { future = set_future reply c.future }) c
        (λ k. delivered-Settles p c.id reply c.future c.returned (ground (arith, k, e)) h.0)
        (λ _. h.0),
    replies-All p id reply cs e h.1,
  )

  cancelled-Settles :
      (p : List ℕ) (id : ℕ) (f : Future R) (o : Option (Outcome R))
      → has id p ≡ true
      → Settles p id f o
      → Settles [] id (cancel_future f) o
  cancelled-Settles p id waiting none e h = tt
  cancelled-Settles p id cancelled none e h = tt
  cancelled-Settles p id (done x) none e h = tt
  cancelled-Settles p id f (some o) e h = absurd (ground (arith, e, h.0))

  kept-Settles :
      (p : List ℕ) (id : ℕ) (f : Future R) (o : Option (Outcome R))
      → has id p ≡ false
      → Settles p id f o
      → Settles [] id f o
  kept-Settles p id waiting none e h = absurd (ground (arith, e, h))
  kept-Settles p id cancelled none e h = tt
  kept-Settles p id (done x) none e h = tt
  kept-Settles p id f (some o) e h = (refl, h.1)

  cancels-All :
      (p : List ℕ) (cs : List (Call R))
      → All (IsSettled p) cs
      → All
          (IsSettled [])
          (map (λ c. if has c.id p then record c { future = cancel_future c.future } else c) cs)
  cancels-All p [] h = tt
  cancels-All p (c ∷ cs) h = (
    if_intro (IsSettled []) (has c.id p) (record c { future = cancel_future c.future }) c
        (λ k. cancelled-Settles p c.id c.future c.returned k h.0)
        (λ k. kept-Settles p c.id c.future c.returned k h.0),
    cancels-All p cs h.1,
  )

  outcome_of-Fits : (f : Future R) → Fits (outcome_of f) f
  outcome_of-Fits waiting = refl
  outcome_of-Fits cancelled = refl
  outcome_of-Fits (done (delivered r)) = refl
  outcome_of-Fits (done (client_error e)) = tt

  settled_once :
      (p : List ℕ) (id : ℕ) (f : Future R) (o : Outcome R)
      → has id p ≡ false
      → Fits o f
      → Settles p id f (some o)
  settled_once p id waiting o e k = (e, k)
  settled_once p id cancelled o e k = (e, k)
  settled_once p id (done reply) o e k = (e, k)

  returns-All :
      (p : List ℕ) (id : ℕ) (o : Future R → Outcome R) (cs : List (Call R))
      → ((f : Future R) → Fits (o f) f)
      → All (IsSettled p) cs
      → All (IsSettled (pop id p)) (update id (λ c. record c { returned = some (o c.future) }) cs)
  returns-All p id o [] k h = tt
  returns-All p id o (c ∷ cs) k h = (
    if_intro (IsSettled (pop id p)) (c.id == id) (record c { returned = some (o c.future) }) c
        (λ e.
          settled_once (pop id p) c.id c.future (o c.future) (has-popped c.id id p e) (k c.future))
        (λ e. carry p (pop id p) c.id c.future c.returned (has-pop c.id id p e) h.0),
    returns-All p id o cs k h.1,
  )

  abbrev pub AreSettled : Registry R → Type 0
  AreSettled r = All (IsSettled r.pending) r.calls

  Step-AreSettled : {r r' : Registry R} → Step r r' → AreSettled r → AreSettled r'
  unfolding begin resolve_remote cancel_pending_remote finish send_fails
  Step-AreSettled {r} (begins id n) h = (has-new id r.pending, begin-All r.pending id r.calls n h)
  Step-AreSettled {r} (replies id reply) h =
      if_intro {A = Registry R} AreSettled (has id r.pending) _ _
        (λ e. replies-All r.pending id reply r.calls e h) (λ _. h)
  Step-AreSettled {r} cancels h = cancels-All r.pending r.calls h
  Step-AreSettled {r} (finishes id n) h =
      returns-All r.pending id outcome_of r.calls outcome_of-Fits h
  Step-AreSettled {r} (fails id error n) h =
      returns-All r.pending id (λ f. failure error) r.calls (λ f. tt) h

  -- After any calls, replies, barge-ins, time limits and failures to send, in any order: a call that
  -- still waits is among the pending ones, so that a reply or a barge-in reaches it; a call that has
  -- returned is not, and a result that it has returned is the one that was delivered to its future.
  pub Reach-AreSettled : {r : Registry R} → Reach r → AreSettled r
  Reach-AreSettled start = tt
  Reach-AreSettled (next p s) = Step-AreSettled s (Reach-AreSettled p)

  -- No dispatch of a call is left to wait for its future.
  abbrev pub Woken : Future R → Option (Outcome R) → Type 0
  Woken waiting none = ⊥
  Woken f o = Unit

  cancelled-Woken : (f : Future R) (o : Option (Outcome R)) → Woken (cancel_future f) o
  cancelled-Woken waiting o = tt
  cancelled-Woken cancelled o = tt
  cancelled-Woken (done x) o = tt

  kept-Woken :
      (p : List ℕ) (id : ℕ) (f : Future R) (o : Option (Outcome R))
      → has id p ≡ false
      → Settles p id f o
      → Woken f o
  kept-Woken p id waiting none e h = absurd (ground (arith, e, h))
  kept-Woken p id waiting (some o) e h = tt
  kept-Woken p id cancelled o e h = tt
  kept-Woken p id (done x) o e h = tt

  abbrev pub IsWoken : Call R → Type 0
  IsWoken c = Woken c.future c.returned

  cancels-Woken :
      (p : List ℕ) (cs : List (Call R))
      → All (IsSettled p) cs
      → All IsWoken
          (map (λ c. if has c.id p then record c { future = cancel_future c.future } else c) cs)
  cancels-Woken p [] h = tt
  cancels-Woken p (c ∷ cs) h = (
    if_intro IsWoken (has c.id p) (record c { future = cancel_future c.future }) c
        (λ k. cancelled-Woken c.future c.returned)
        (λ k. kept-Woken p c.id c.future c.returned k h.0),
    cancels-Woken p cs h.1,
  )

  -- After a barge-in, no call that has not returned still waits, and none is pending.
  pub cancel-IsWoken :
      {r : Registry R}
      → Reach r
      → All IsWoken (cancel_pending_remote r).0.calls × ((cancel_pending_remote r).0.pending ≡ [])
  unfolding cancel_pending_remote
  cancel-IsWoken {r} p = (cancels-Woken r.pending r.calls (Reach-AreSettled p), refl)
