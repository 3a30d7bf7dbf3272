-- ===== src/DeliverGroup/Outcome.antt =====
-- What `Wait` returns, whatever the order in which the goroutines receive.
use fabricsdk_go.Prelude.{
  Any, Any-replace, Any-middle, All-replace, ℕ, arith, length, ◌∙◌, ap, ◌≡◌, inl, inr, refl, sym,
  List, [], ◌∷◌, ◌++◌, map, Option, none, some, Error, All,
}
use fabricsdk_go.DeliverGroup.Streams.{Ends, verdict_of, verdict_of-Ends}
use fabricsdk_go.DeliverGroup.{
  Received, Verdict, go_on, returns, Wanted, client_wait, Client, waiting, returned, Group, next,
  set_error, Step, receives, Reaches, here, then, start, Returned, Ready,
}

-- The messages that a goroutine still has before it.
abbrev held : Client → ℕ
held (waiting rest) = length rest
held (returned e) = 0

head_eq : {a b : Client} {cs ds : List Client} → a ∷ cs ≡ b ∷ ds → a ≡ b
head_eq h = ground (arith, h)

tail_eq : {a b : Client} {cs ds : List Client} → a ∷ cs ≡ b ∷ ds → cs ≡ ds
tail_eq h = ground (arith, h)

-- The newer of two errors, where the newer may be missing.
abbrev pub latest : Option Error → Option Error → Option Error
latest none old = old
latest (some new) old = some new

module _ (w : Wanted) where
  -- A goroutine is where its stream has brought it.
  abbrev pub Fits : List Received → Client → Type 0
  Fits stream (waiting rest) = verdict_of w rest ≡ verdict_of w stream
  Fits stream (returned e) = verdict_of w stream ≡ some e

  abbrev pub AllFit : List (List Received) → List Client → Type 0
  AllFit [] [] = Unit
  AllFit [] (c ∷ cs) = ⊥
  AllFit (s ∷ ss) [] = ⊥
  AllFit (s ∷ ss) (c ∷ cs) = Fits s c × AllFit ss cs

  AllFit-replace :
      (streams : List (List Received)) (before behind : List Client) (x y : Client)
      → ((s : List Received) → Fits s x → Fits s y)
      → AllFit streams (before ++ x ∷ behind)
      → AllFit streams (before ++ y ∷ behind)
  AllFit-replace [] [] behind x y k h = absurd h
  AllFit-replace [] (b ∷ before) behind x y k h = absurd h
  AllFit-replace (s ∷ ss) [] behind x y k (h, hs) = (k s h, hs)
  AllFit-replace (s ∷ ss) (b ∷ before) behind x y k (h, hs) =
      (h, AllFit-replace ss before behind x y k hs)

  abbrev Clean : Client → Type 0
  Clean (waiting rest) = Unit
  Clean (returned none) = Unit
  Clean (returned (some e)) = ⊥

  -- The error of the group is one that a goroutine has set, and none has set one where it is nil.
  abbrev Backed : Option Error → List Client → Type 0
  Backed none cs = All Clean cs
  Backed (some e) cs = Any (λ c. c ≡ returned (some e)) cs

  Fits-next :
      (v : Verdict) (m : Received) (rest s : List Received)
      → client_wait w m ≡ v
      → Fits s (waiting (m ∷ rest))
      → Fits s (next v rest)
  unfolding verdict_of
  Fits-next go_on m rest s e h = rw e at h
  Fits-next (returns x) m rest s e h = sym (rw e at h)

  Backed-next :
      (v : Verdict) (m : Received) (rest : List Received) (before behind : List Client)
      (e : Option Error)
      → Backed e (before ++ waiting (m ∷ rest) ∷ behind)
      → Backed (set_error v e) (before ++ next v rest ∷ behind)
  Backed-next go_on m rest before behind none h = All-replace Clean before behind _ _ tt h
  Backed-next go_on m rest before behind (some x) h = Any-replace _ before behind _ _ waits h
    where
      waits : waiting (m ∷ rest) ≡ returned (some x) → ⊥
      waits p = cc
  Backed-next (returns none) m rest before behind none h = All-replace Clean before behind _ _ tt h
  Backed-next (returns none) m rest before behind (some x) h =
      Any-replace _ before behind _ _ waits h
    where
      waits : waiting (m ∷ rest) ≡ returned (some x) → ⊥
      waits p = cc
  Backed-next (returns (some new)) m rest before behind e h = Any-middle _ before behind _ refl

  abbrev Inv : List (List Received) → Group → Type 0
  Inv streams g = AllFit streams g.clients × Backed g.error g.clients

  fit_start : (streams : List (List Received)) → AllFit streams (map waiting streams)
  fit_start [] = tt
  fit_start (s ∷ ss) = (refl, fit_start ss)

  Clean-start : (streams : List (List Received)) → All Clean (map waiting streams)
  Clean-start [] = tt
  Clean-start (s ∷ ss) = (tt, Clean-start ss)

  Inv-Step :
      (streams : List (List Received)) {g h : Group} → Step w g h → Inv streams g → Inv streams h
  Inv-Step streams (receives before behind m rest e) (fit, backed) = (
    AllFit-replace streams before behind (waiting (m ∷ rest)) (next (client_wait w m) rest)
        (λ s f. Fits-next (client_wait w m) m rest s refl f) fit,
    Backed-next (client_wait w m) m rest before behind e backed,
  )

  Inv-Reaches :
      (streams : List (List Received)) {g h : Group} → Reaches w g h → Inv streams g → Inv streams h
  Inv-Reaches streams (here g) i = i
  Inv-Reaches streams (then r s) i = Inv-Step streams s (Inv-Reaches streams r i)

  pub fit_reaches :
      (streams : List (List Received)) {g : Group}
      → Reaches w (start streams) g
      → AllFit streams g.clients
  fit_reaches streams r = (Inv-Reaches streams r (fit_start streams, Clean-start streams)).0

  -- What an error of `Wait` says of the streams: nil, that each ends the wait without an error; an
  -- error, that it is the one that some stream ends the wait with.
  abbrev pub Explains : Option Error → List (List Received) → Type 0
  Explains none streams = All (λ s. Ends w s none) streams
  Explains (some e) streams = Any (λ s. Ends w s (some e)) streams

  explain_none :
      (streams : List (List Received)) (cs : List Client)
      → AllFit streams cs
      → All Returned cs
      → All Clean cs
      → All (λ s. Ends w s none) streams
  explain_none [] [] fit done clean = tt
  explain_none [] (c ∷ cs) fit done clean = absurd fit
  explain_none (s ∷ ss) [] fit done clean = absurd fit
  explain_none (s ∷ ss) (waiting rest ∷ cs) fit done clean = absurd done.0
  explain_none (s ∷ ss) (returned none ∷ cs) fit done clean =
      (verdict_of-Ends w s none fit.0, explain_none ss cs fit.1 done.1 clean.1)
  explain_none (s ∷ ss) (returned (some e) ∷ cs) fit done clean = absurd clean.0

  explain_some :
      (e : Error) (streams : List (List Received)) (cs : List Client)
      → AllFit streams cs
      → Any (λ c. c ≡ returned (some e)) cs
      → Any (λ s. Ends w s (some e)) streams
  explain_some e [] [] fit found = absurd found
  explain_some e [] (c ∷ cs) fit found = absurd fit
  explain_some e (s ∷ ss) [] fit found = absurd fit
  explain_some e (s ∷ ss) (c ∷ cs) fit (inl same) =
      inl (verdict_of-Ends w s (some e) (rw same at fit.0))
  explain_some e (s ∷ ss) (c ∷ cs) fit (inr found) = inr (explain_some e ss cs fit.1 found)

  -- Whatever the order in which the goroutines receive, once all have returned, the error of the
  -- group is nil only if every peer's messages bring a block whose first transaction with the id has
  -- the valid code, behind blocks without the transaction alone; and an error is the one that some
  -- peer's messages end the wait with behind such blocks: the invalid code, the failure, the status or
  -- the unknown message that comes next.
  pub wait-Explains :
      (streams : List (List Received)) (g : Group)
      → Reaches w (start streams) g
      → Ready g
      → Explains g.error streams
  wait-Explains streams g r ready =
      let (fit, backed) = Inv-Reaches streams r (fit_start streams, Clean-start streams) in
      by_error g.error fit backed
    where
      by_error :
          (e : Option Error) → AllFit streams g.clients → Backed e g.clients → Explains e streams
      by_error none fit backed = explain_none streams g.clients fit ready backed
      by_error (some x) fit backed = explain_some x streams g.clients fit backed

  -- A step at one place of a list, and the same change of the list seen at another, are at one place.
  step_returns :
      (v : Verdict) (m : Received) (rest : List Received) (before behind : List Client)
      (ms : List Received) (e : Option Error) (front back : List Client)
      → before ++ waiting (m ∷ rest) ∷ behind ≡ front ++ waiting ms ∷ back
      → before ++ next v rest ∷ behind ≡ front ++ returned e ∷ back
      → v ≡ returns e
  step_returns v m rest [] behind ms e [] back h k = by_verdict v (ground (arith, k))
    where
      by_verdict : (v : Verdict) → next v rest ≡ returned e → v ≡ returns e
      by_verdict go_on k = cc
      by_verdict (returns x) k = let same : x ≡ e = ground (arith, k) in ap returns same
  step_returns v m rest [] behind ms e (c ∷ front) back h k =
      absurd (moves v (head_eq h ∙ sym (head_eq k)))
    where
      moves : (v : Verdict) → waiting (m ∷ rest) ≡ next v rest → ⊥
      moves go_on p =
          let messages : length (m ∷ rest) ≡ length rest = ap (λ c. held c) p in
          omega (arith, messages)
      moves (returns x) p = cc
  step_returns v m rest (b ∷ before) behind ms e [] back h k =
      let clash : waiting ms ≡ returned e = sym (head_eq h) ∙ head_eq k in cc
  step_returns v m rest (b ∷ before) behind ms e (c ∷ front) back h k =
      step_returns v m rest before behind ms e front back (tail_eq h) (tail_eq k)

  -- When a step makes a goroutine return with an error, that is the group's error afterwards, whatever
  -- error the group had before; when it makes one return without an error, the group's error stays.
  pub last_error-wins :
      (g h : Group) (front back : List Client) (ms : List Received) (e : Option Error)
      → Step w g h
      → g.clients ≡ front ++ waiting ms ∷ back
      → h.clients ≡ front ++ returned e ∷ back
      → h.error ≡ latest e g.error
  last_error-wins _ _ front back ms e (receives before behind m rest old) there after =
      rw (step_returns (client_wait w m) m rest before behind ms e front back there after)
        (set_error-latest e)
    where
      set_error-latest : (e : Option Error) → set_error (returns e) old ≡ latest e old
      set_error-latest none = refl
      set_error-latest (some x) = refl
