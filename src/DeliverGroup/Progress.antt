-- ===== src/DeliverGroup/Progress.antt =====
-- The goroutines of internal/client/delivegroup/client.go come to an end: a step uses up a message.
use fabricsdk_go.Prelude.{
  ℕ, ◌+◌, ◌<◌, ◌≡◌, ◌≢◌, ◌⊎◌, inl, inr, refl, sym, ap, List, [], ◌∷◌, ◌++◌, none, some, Option,
  Error, All, length, zero, suc, ◌∙◌, arith,
}
use mathlib.Core.Path.{subst}
use mathlib.Core.WellFounded.{Acc}
use fabricsdk_go.DeliverGroup.{
  Received, Verdict, go_on, returns, Wanted, client_wait, Client, waiting, returned, Group, next,
  set_error, Step, receives, Reaches, here, then, start, Returned, Ready,
}
use fabricsdk_go.DeliverGroup.Streams.{Ends, verdict_of, Ends-verdict_of}
use fabricsdk_go.DeliverGroup.Outcome.{AllFit, fit_reaches}

-- The messages that are still to come.
abbrev pub pending : List Client → ℕ
pending [] = 0
pending (waiting rest ∷ cs) = length rest + pending cs
pending (returned e ∷ cs) = pending cs

pending-append :
    (before behind : List Client) → pending (before ++ behind) ≡ pending before + pending behind
pending-append [] behind = omega arith
pending-append (waiting rest ∷ before) behind = omega (arith, pending-append before behind)
pending-append (returned e ∷ before) behind = omega (arith, pending-append before behind)

pending-next :
    (v : Verdict) (m : Received) (rest : List Received) (cs : List Client)
    → pending (next v rest ∷ cs) < pending (waiting (m ∷ rest) ∷ cs)
pending-next go_on m rest cs = omega arith
pending-next (returns e) m rest cs = omega arith

some_is_some : {A : Type 0} {a : A} → some a ≢ none
some_is_some h = cc

module _ (w : Wanted) where
  pub Step-pending : {g h : Group} → Step w g h → pending h.clients < pending g.clients
  Step-pending (receives before behind m rest e) = omega (
    arith,
    pending-append before (waiting (m ∷ rest) ∷ behind),
    pending-append before (next (client_wait w m) rest ∷ behind),
    pending-next (client_wait w m) m rest behind,
  )

  -- Where a goroutine still waits, a message is there for it.
  find_waiting :
      (streams : List (List Received)) (cs : List Client)
      → All (λ s. verdict_of w s ≢ none) streams
      → AllFit w streams cs
      → All Returned cs
        ⊎ ((before : List Client) × (m : Received) × (rest : List Received) × (behind : List Client)
            × (cs ≡ before ++ waiting (m ∷ rest) ∷ behind))
  unfolding verdict_of
  find_waiting [] [] decided fit = inl tt
  find_waiting [] (c ∷ cs) decided fit = absurd fit
  find_waiting (s ∷ ss) [] decided fit = absurd fit
  find_waiting (s ∷ ss) (waiting [] ∷ cs) decided fit = absurd (decided.0 (sym fit.0))
  find_waiting (s ∷ ss) (waiting (m ∷ rest) ∷ cs) decided fit = inr ([], m, rest, cs, refl)
  find_waiting (s ∷ ss) (returned e ∷ cs) decided fit = elim (find_waiting ss cs decided.1 fit.1) [
    | inl all ↦ inl (tt, all)
    | inr (before, m, rest, behind, same) ↦
        inr (returned e ∷ before, m, rest, behind, ap (λ (t : List Client). returned e ∷ t) same)
  ]

  -- A group that is reached is ready or takes another step.
  progress_at :
      (streams : List (List Received)) (g : Group)
      → All (λ s. (e : Option Error) × Ends w s e) streams
      → Reaches w (start streams) g
      → Ready g ⊎ ((h : Group) × Step w g h)
  progress_at streams g ending r =
      elim (find_waiting streams g.clients (all_decided streams ending) (fit_reaches w streams r)) [
        | inl all ↦ inl all
        | inr (before, m, rest, behind, same) ↦ inr (step_at before m rest behind same)
      ]
    where
      all_decided :
          (ss : List (List Received))
          → All (λ s. (e : Option Error) × Ends w s e) ss
          → All (λ s. verdict_of w s ≢ none) ss
      all_decided [] hs = tt
      all_decided (s ∷ ss) ((e, h), hs) =
          (λ nothing. some_is_some (sym (Ends-verdict_of w h) ∙ nothing), all_decided ss hs)

      step_at :
          (before : List Client) (m : Received) (rest : List Received) (behind : List Client)
          → g.clients ≡ before ++ waiting (m ∷ rest) ∷ behind
          → (h : Group) × Step w g h
      step_at before m rest behind same =
          let h : Group = record {
            clients = before ++ next (client_wait w m) rest ∷ behind;
            error = set_error (client_wait w m) g.error;
          } in
          (
            h,
            subst (λ cs. Step w (record { clients = cs; error = g.error }) h) (sym same)
                (receives before behind m rest g.error),
          )

  -- No run goes on for ever.
  Acc-below : (n : ℕ) (g : Group) → pending g.clients < n → Acc (λ h g. Step w g h) g
  Acc-below zero g h = absurd (omega arith)
  Acc-below (suc n) g h = Acc.intro g λ k step. Acc-below n k (omega (arith, h, Step-pending step))

  -- A ready group can be reached from a group with fewer than `n` messages.
  last_below :
      (streams : List (List Received)) (n : ℕ) (g : Group)
      → All (λ s. (e : Option Error) × Ends w s e) streams
      → pending g.clients < n
      → Reaches w (start streams) g
      → (k : Group) × Reaches w (start streams) k × Reaches w g k × Ready k
  last_below streams zero g ending h r = absurd (omega arith)
  last_below streams (suc n) g ending h r = elim (progress_at streams g ending r) [
    | inl ready ↦ (g, r, here g, ready)
    | inr (k, step) ↦
        let (last, reached, onward, ready) =
          last_below streams n k ending (omega (arith, h, Step-pending step)) (then r step) in
        (last, reached, before step onward, ready)
  ]
    where
      before : {a b c : Group} → Step w a b → Reaches w b c → Reaches w a c
      before step (here _) = then (here _) step
      before step (then r' step') = then (before step r') step'

  -- Where every peer's messages end the wait, with or without an error, no run of the goroutines goes
  -- on for ever; a group that they reach is ready or can take another step; and a ready group can be
  -- reached from it.
  pub wait-progress :
      (streams : List (List Received)) (g : Group)
      → All (λ s. (e : Option Error) × Ends w s e) streams
      → Reaches w (start streams) g
      → Acc (λ h k. Step w k h) g
        × (Ready g ⊎ ((h : Group) × Step w g h))
        × ((k : Group) × Reaches w g k × Ready k)
  wait-progress streams g ending r =
      let many = suc (pending g.clients) in
      let (k, _, onward, ready) = last_below streams many g ending (omega arith) r in
      (Acc-below many g (omega arith), progress_at streams g ending r, (k, onward, ready))
