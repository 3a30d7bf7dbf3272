-- ===== src/Policy/Gates.antt =====
-- The functions of the first two passes of policydsl.go: `and`, `or` and `outof` rewrite a policy
-- into calls of outof, and `firstPass` puts the parameter ID before their arguments.
use Prim.Native.String.{◌++◌ as append}
use fabricsdk_go.Prelude.{
  String, List, [], ◌∷◌, Result, ok, err, message, ◌>>=◌, ltb, length, if◌then◌else◌, pos,
}
use fabricsdk_go.Policy.{
  Value, string, float64, float32, int, context_pointer, policy, other, Numbers,
}
use fabricsdk_go.Policy.Principals.{match_string}

module _ {F : Type 0} (n : Numbers F) where
  -- A principal is put in quotes.
  unfoldable pub quoted : String → String
  quoted t = if match_string t then append (append "'" t) "'" else t

  -- The text of the first argument of `outof`.
  abbrev pub threshold_text : Value F → Result String
  threshold_text (float64 x) = ok (n.itoa (n.int_of_float x))
  threshold_text (int k) = ok (n.itoa k)
  threshold_text (string s) = ok s
  threshold_text (float32 x) = err (message "unexpected type %s")
  threshold_text context_pointer = err (message "unexpected type %s")
  threshold_text (policy p) = err (message "unexpected type %s")
  threshold_text (other k) = err (message "unexpected type %s")

  -- The text that an argument adds in the loop of `outof`.
  abbrev pub argument_text : Value F → Result String
  argument_text (string t) = ok (quoted t)
  argument_text (float64 x) = err (message "unexpected type %s")
  argument_text (float32 x) = err (message "unexpected type %s")
  argument_text (int k) = err (message "unexpected type %s")
  argument_text context_pointer = err (message "unexpected type %s")
  argument_text (policy p) = err (message "unexpected type %s")
  argument_text (other k) = err (message "unexpected type %s")

  -- The same in the loop of `firstPass`, where a float32 adds nothing.
  abbrev pub first_pass_text : Value F → Result String
  first_pass_text (string t) = ok (quoted t)
  first_pass_text (float32 x) = ok ""
  first_pass_text (float64 x) = ok (n.itoa (n.int_of_float x))
  first_pass_text (int k) = err (message "unexpected type %s")
  first_pass_text context_pointer = err (message "unexpected type %s")
  first_pass_text (policy p) = err (message "unexpected type %s")
  first_pass_text (other k) = err (message "unexpected type %s")

  -- `toret += ", "` and the text of the argument, for each of them.
  abbrev pub add_texts : (Value F → Result String) → List (Value F) → String → Result String
  add_texts text [] toret = ok toret
  add_texts text (arg ∷ args) toret = do
    more ← text arg
    add_texts text args (append (append toret ", ") more)

  abbrev pub outof_args : List (Value F) → Result (Value F)
  outof_args [] = err (message "expected at least two arguments to NOutOf. Given %d")
  outof_args (arg0 ∷ args) = do
    threshold ← threshold_text arg0
    toret ← add_texts argument_text args (append "outof(" threshold)
    ok (string (append toret ")"))

  unfoldable pub outof : List (Value F) → Result (Value F)
  outof args =
      if ltb (length args) 2
      then err (message "expected at least two arguments to NOutOf. Given %d")
      else outof_args args

  -- The functions `and` and `or`.
  unfoldable pub and_gate : List (Value F) → Result (Value F)
  unfolding outof
  and_gate args = outof (int (pos (length args)) ∷ args)

  unfoldable pub or_gate : List (Value F) → Result (Value F)
  unfolding outof
  or_gate args = outof (int (pos 1) ∷ args)

  unfoldable pub first_pass : List (Value F) → Result (Value F)
  first_pass args = do
    toret ← add_texts first_pass_text args "outof(ID"
    ok (string (append toret ")"))
