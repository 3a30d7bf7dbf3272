-- ===== src/Lifecycle/Statuses.antt =====
-- What the results of `Install` (internal/chaincode/install.go) say of the peers' answers.
use fabricsdk_go.Prelude.{
  ℕ, ◌+◌, ◌≤◌, ◌<◌, suc, Bool, true, false, not, List, [], ◌∷◌, some, ok, ◌==◌, length,
  if◌then◌else◌, ◌≡◌, ◌≢◌, refl, ap, arith, Bool-cases, inl, inr, ◌⊎◌, All, Any, int_eq_iff, pos,
}
use fabricsdk_go.Tx.Messages.{SignedProposal, ProposalResponse, Response}
use fabricsdk_go.Lifecycle.Sending.{Endorser}
use fabricsdk_go.Lifecycle.Install.{Peer, PeerResult, is_success, one_if, summary, successes}

-- Each peer was sent the proposal and answered with a response, and its result holds the peer's
-- address and the status and the message of that response.
abbrev pub AreAnswers : SignedProposal → List Peer → List PeerResult → Type 0
AreAnswers sent [] [] = Unit
AreAnswers sent [] (r ∷ rs) = ⊥
AreAnswers sent (p ∷ ps) [] = ⊥
AreAnswers sent (p ∷ ps) (r ∷ rs) =
    ((endorser : Endorser) × (answer : ProposalResponse) × (response : Response) × (p.get_endorser
        ≡ ok endorser)
      × (endorser sent ≡ ok answer)
      × (answer.response ≡ some response)
      × (r ≡ record { id = p.address; status = response.status; message = response.message }))
    × AreAnswers sent ps rs

abbrev pub Is200 : PeerResult → Type 0
Is200 r = r.status ≡ pos 200

abbrev pub IsNot200 : PeerResult → Type 0
IsNot200 r = r.status ≢ pos 200

-- The status that stands for all results.
abbrev pub Summarises : ℕ → List PeerResult → Type 0
Summarises status rs =
    ((status ≡ 500) × All IsNot200 rs)
    ⊎ (((status ≡ 200) × Any Is200 rs × All Is200 rs)
        ⊎ ((status ≡ 204) × Any Is200 rs × Any IsNot200 rs))

status_cases :
    (r : PeerResult)
    → (is_success r.status ≡ true × Is200 r) ⊎ (is_success r.status ≡ false × IsNot200 r)
status_cases r = elim (Bool-cases (is_success r.status)) [
  | inl good ↦ inl (good, (int_eq_iff r.status (pos 200)).0 good)
  | inr bad ↦
      inr (bad, λ same. apart (is_success r.status) bad ((int_eq_iff r.status (pos 200)).1 same))
]
  where
    apart : (b : Bool) → b ≡ false → b ≡ true → ⊥
    apart true h k = cc
    apart false h k = cc

successes-zero : (rs : List PeerResult) → successes rs ≡ 0 → All IsNot200 rs
successes-zero [] h = tt
successes-zero (r ∷ rs) h = elim (status_cases r) [
  | inl (good, same) ↦
      let more : one_if (is_success r.status) ≡ 1 = ap one_if good in absurd (omega arith)
  | inr (bad, other) ↦ (other, successes-zero rs (omega arith))
]

successes-Any : (rs : List PeerResult) → 0 < successes rs → Any Is200 rs
successes-Any [] h = absurd (omega arith)
successes-Any (r ∷ rs) h = elim (status_cases r) [
  | inl (good, same) ↦ inl same
  | inr (bad, other) ↦
      let none_here : one_if (is_success r.status) ≡ 0 = ap one_if bad in
      inr (successes-Any rs (omega arith))
]

successes-le : (rs : List PeerResult) → successes rs ≤ length rs
successes-le [] = omega arith
successes-le (r ∷ rs) = cases (is_success r.status) (successes-le rs)
  where
    cases : (b : Bool) → successes rs ≤ length rs → one_if b + successes rs ≤ length (r ∷ rs)
    cases true h = omega (arith, h)
    cases false h = omega (arith, h)

successes-All : (rs : List PeerResult) → successes rs ≡ length rs → All Is200 rs
successes-All [] h = tt
successes-All (r ∷ rs) h = elim (status_cases r) [
  | inl (good, same) ↦
      let one : one_if (is_success r.status) ≡ 1 = ap one_if good in
      (same, successes-All rs (omega arith))
  | inr (bad, other) ↦
      let none_here : one_if (is_success r.status) ≡ 0 = ap one_if bad in
      absurd (omega (arith, successes-le rs))
]

successes-some : (rs : List PeerResult) → successes rs < length rs → Any IsNot200 rs
successes-some [] h = absurd (omega arith)
successes-some (r ∷ rs) h = elim (status_cases r) [
  | inl (good, same) ↦
      let one : one_if (is_success r.status) ≡ 1 = ap one_if good in
      inr (successes-some rs (omega arith))
  | inr (bad, other) ↦ inl other
]

pub summary-Summarises : (rs : List PeerResult) → Summarises (summary (successes rs) (length rs)) rs
summary-Summarises rs = cases (successes rs == 0) (successes rs == length rs) refl refl
  where
    cases :
        (a b : Bool)
        → (successes rs == 0) ≡ a
        → (successes rs == length rs) ≡ b
        → Summarises (if a then 500 else if not b then 204 else 200) rs
    cases true b h k = inl (refl, successes-zero rs (ground (arith, h)))
    cases false true h k =
        inr (inl (refl, successes-Any rs (ground (arith, h)), successes-All rs (ground (arith, k))))
    cases false false h k = inr (
        inr (
          refl,
          successes-Any rs (ground (arith, h)),
          successes-some rs (ground (arith, k, successes-le rs)),
        ))

pub AreAnswers-length :
    (sent : SignedProposal) (ps : List Peer) (rs : List PeerResult)
    → AreAnswers sent ps rs
    → length ps ≡ length rs
AreAnswers-length sent [] [] h = refl
AreAnswers-length sent [] (r ∷ rs) h = absurd h
AreAnswers-length sent (p ∷ ps) [] h = absurd h
AreAnswers-length sent (p ∷ ps) (r ∷ rs) (h, hs) = ap suc (AreAnswers-length sent ps rs hs)
