-- ===== src/Policy/Rewritten.antt =====
-- The first two passes of `FromString` (internal/chaincode/policy/policydsl.go), run on the calls that
-- the policy language can write.
use fabricsdk_go.Prelude.{
  ℕ, ◌≤◌, ◌^◌, suc, String, [], ◌∷◌, Bytes, Result, ok, pos, ◌≡◌, refl, ap, length, arith,
}
use fabricsdk_go.Policy.{string, float64, int, Numbers, RoleType}
use fabricsdk_go.Policy.Gates.{outof, and_gate, or_gate}
use fabricsdk_go.Policy.FromString.{Govaluate, gates, first_functions}
use fabricsdk_go.Policy.Calls.{run, run_all, render, call, number, then_tree}
use fabricsdk_go.Policy.Language.{
  Gate, gate, GateName, and_name, or_name, out_of_name, Spelling, title, lower, upper, Arg,
  principal, nested, Args, no_more, and_then, count, threshold, IsWritten, IsWrittenArg, AreWritten,
  written, written_arg, written_args, rewritten, rewritten_arg, rewritten_args, with_context,
}
use fabricsdk_go.Policy.Rewriting.{
  value_after, values_after, length-values_after, outof-rewritten, first_pass-with_context,
}

module _ {F : Type 0} (v : Govaluate F) (n : Numbers F)
    (marshal_role : String → RoleType → Result Bytes) (float_of : ℕ → F)
    (exact : (k : ℕ) → k ≤ 2 ^ 53 → n.int_of_float (float_of k) ≡ pos k) where
  counted :
      (a : Arg) (rest : Args)
      → IsWrittenArg a
      → AreWritten rest
      → and_gate n (value_after n rewritten a ∷ values_after n rewritten rest)
        ≡ ok (
            string (
              render n (
                call "outof"
                  (number (suc (count rest)))
                  (then_tree (rewritten_arg a) (rewritten_args rest)))))
  unfolding and_gate
  counted a rest w ws =
      outof-rewritten n (int (pos (suc (length (values_after n rewritten rest)))))
        (suc (count rest)) a rest
        (ap (λ m. ok (n.itoa (pos (suc m)))) (length-values_after n rewritten rest)) w ws

  asked :
      (k : ℕ) (a : Arg) (rest : Args)
      → k ≤ 2 ^ 53
      → IsWrittenArg a
      → AreWritten rest
      → outof n (float64 (float_of k) ∷ value_after n rewritten a ∷ values_after n rewritten rest)
        ≡ ok (
            string (
              render n
                (call "outof" (number k) (then_tree (rewritten_arg a) (rewritten_args rest)))))
  asked k a rest small w ws =
      outof-rewritten n (float64 (float_of k)) k a rest (ap (λ z. ok (n.itoa z)) (exact k small)) w
        ws

  -- A call, once its arguments have become texts.
  run_call :
      (s : Spelling) (g : GateName) (a : Arg) (rest : Args)
      → IsWritten (gate s g a rest)
      → run float_of (gates v n marshal_role) [] (written_arg a) tt
        ≡ (ok (value_after n rewritten a), tt)
      → run_all float_of (gates v n marshal_role) [] (written_args rest) tt
        ≡ (ok (values_after n rewritten rest), tt)
      → run float_of (gates v n marshal_role) [] (written (gate s g a rest)) tt
        ≡ (ok (string (render n (rewritten (gate s g a rest)))), tt)
  unfolding run IsWritten written rewritten gates and_gate or_gate
  run_call title and_name a rest (_, _, w, ws) h hs =
      rw (h, hs) (ap (λ r. (r, tt)) (counted a rest w ws))
  run_call lower and_name a rest (_, _, w, ws) h hs =
      rw (h, hs) (ap (λ r. (r, tt)) (counted a rest w ws))
  run_call upper and_name a rest (_, _, w, ws) h hs =
      rw (h, hs) (ap (λ r. (r, tt)) (counted a rest w ws))
  run_call title or_name a rest (_, _, w, ws) h hs =
      rw (h, hs) (ap (λ r. (r, tt)) (outof-rewritten n (int (pos 1)) 1 a rest refl w ws))
  run_call lower or_name a rest (_, _, w, ws) h hs =
      rw (h, hs) (ap (λ r. (r, tt)) (outof-rewritten n (int (pos 1)) 1 a rest refl w ws))
  run_call upper or_name a rest (_, _, w, ws) h hs =
      rw (h, hs) (ap (λ r. (r, tt)) (outof-rewritten n (int (pos 1)) 1 a rest refl w ws))
  run_call title (out_of_name k) a rest (le, few, w, ws) h hs =
      rw (h, hs) (ap (λ r. (r, tt)) (asked k a rest (omega arith) w ws))
  run_call lower (out_of_name k) a rest (le, few, w, ws) h hs =
      rw (h, hs) (ap (λ r. (r, tt)) (asked k a rest (omega arith) w ws))
  run_call upper (out_of_name k) a rest (le, few, w, ws) h hs =
      rw (h, hs) (ap (λ r. (r, tt)) (asked k a rest (omega arith) w ws))

  -- The first pass: what a user writes becomes calls of outof.
  mutual
    unfolding IsWritten run written rewritten with_context

    pub run-written :
        (g : Gate)
        → IsWritten g
        → run float_of (gates v n marshal_role) [] (written g) tt
          ≡ (ok (string (render n (rewritten g))), tt)
    run-written (gate s g a rest) (le, few, w, ws) =
        run_call s g a rest (le, few, w, ws) (run-written_arg a w) (run-written_args rest ws)

    run-written_arg :
        (a : Arg)
        → IsWrittenArg a
        → run float_of (gates v n marshal_role) [] (written_arg a) tt
          ≡ (ok (value_after n rewritten a), tt)
    run-written_arg (principal org r) w = refl
    run-written_arg (nested g) w = run-written g w

    run-written_args :
        (rest : Args)
        → AreWritten rest
        → run_all float_of (gates v n marshal_role) [] (written_args rest) tt
          ≡ (ok (values_after n rewritten rest), tt)
    run-written_args no_more ws = refl
    run-written_args (and_then a rest) (w, ws) =
        rw (run-written_arg a w, run-written_args rest ws) refl

  -- The second pass: each call of outof gets the context as its first argument.
  mutual
    unfolding IsWritten run written rewritten with_context

    pub run-rewritten :
        (g : Gate)
        → IsWritten g
        → run float_of (first_functions v n marshal_role) [] (rewritten g) tt
          ≡ (ok (string (render n (with_context g))), tt)
    run-rewritten (gate s g a rest) (le, few, w, ws) =
        let k = threshold g (suc (count rest)) in
        rw (run-rewritten_arg a w, run-rewritten_args rest ws)
          (ap (λ r. (r, tt))
            (first_pass-with_context n (float_of k) k a rest (exact k (omega arith)) w ws))

    run-rewritten_arg :
        (a : Arg)
        → IsWrittenArg a
        → run float_of (first_functions v n marshal_role) [] (rewritten_arg a) tt
          ≡ (ok (value_after n with_context a), tt)
    run-rewritten_arg (principal org r) w = refl
    run-rewritten_arg (nested g) w = run-rewritten g w

    run-rewritten_args :
        (rest : Args)
        → AreWritten rest
        → run_all float_of (first_functions v n marshal_role) [] (rewritten_args rest) tt
          ≡ (ok (values_after n with_context rest), tt)
    run-rewritten_args no_more ws = refl
    run-rewritten_args (and_then a rest) (w, ws) =
        rw (run-rewritten_arg a w, run-rewritten_args rest ws) refl
