-- ===== src/Examples/Wire.antt =====
-- A self-delimiting encoding, built up field by field: what stands for the protobuf library at the
-- concrete inputs.
use fabricsdk_go.Prelude.{
  ◌≢◌, ℕ, zero, suc, ◌≡◌, refl, ◌∙◌, List, [], ◌∷◌, ◌++◌, Option, none, some, Bytes, Result, ok,
  err, panic, external, length, ℤ, pos, negsuc, arith,
}
use mathlib.Core.List.{append-nil, append_assoc}
use fabricsdk_go.Proto.{Codec, IsCodec, PtrCodec, IsPtrCodec}

abbrev pub bind : {A B : Type 0} → Option A → (A → Option B) → Option B
bind none f = none
bind (some a) f = f a

pub record Wire (A : Type 0) : Type 0 where
  pub write : A → Bytes
  pub read : Bytes → Option (A × Bytes)
  pub read_back : (a : A) (rest : Bytes) → read (write a ++ rest) ≡ some (a, rest)

abbrev read_nat : Bytes → Option (ℕ × Bytes)
read_nat [] = none
read_nat (n ∷ rest) = some (n, rest)

abbrev pub nat_wire : Wire ℕ
nat_wire = record { write = λ n. n ∷ []; read = read_nat; read_back = λ n rest. refl }

abbrev pub unit_wire : Wire Unit
unit_wire = record { write = λ u. []; read = λ b. some (tt, b); read_back = λ u rest. refl }

-- A type whose values are made from those of another.
abbrev pub via :
    {A B : Type 0} (to : A → B) (from : B → A) → ((a : A) → from (to a) ≡ a) → Wire B → Wire A
via to from back w = record {
  write = λ a. w.write (to a);
  read = λ b. bind (w.read b) (λ (x, rest). some (from x, rest));
  read_back = λ a rest. rw (w.read_back (to a) rest, back a);
}

abbrev pub pair : {A B : Type 0} → Wire A → Wire B → Wire (A × B)
pair v w = record {
  write = λ (a, b). v.write a ++ w.write b;
  read =
      λ bs. bind (v.read bs) (λ (a, more). bind (w.read more) (λ (b, rest). some ((a, b), rest)));
  read_back = λ (a, b) rest. rw (
    append_assoc (v.write a) (w.write b) rest,
    v.read_back a (w.write b ++ rest),
    w.read_back b rest,
  );
}

abbrev write_all : {A : Type 0} → Wire A → List A → Bytes
write_all w [] = []
write_all w (a ∷ items) = w.write a ++ write_all w items

abbrev read_all : {A : Type 0} → Wire A → ℕ → Bytes → Option (List A × Bytes)
read_all w zero bs = some ([], bs)
read_all w (suc n) bs =
    bind (w.read bs)
      (λ (a, more). bind (read_all w n more) (λ (items, rest). some (a ∷ items, rest)))

pub read_all_lem :
    {A : Type 0} (w : Wire A) (items : List A) (rest : Bytes)
    → read_all w (length items) (write_all w items ++ rest) ≡ some (items, rest)
read_all_lem w [] rest = refl
read_all_lem w (a ∷ items) rest = rw (
  append_assoc (w.write a) (write_all w items) rest,
  w.read_back a (write_all w items ++ rest),
  read_all_lem w items rest,
)

abbrev read_list : {A : Type 0} → Wire A → Bytes → Option (List A × Bytes)
read_list w [] = none
read_list w (n ∷ rest) = read_all w n rest

abbrev pub list : {A : Type 0} → Wire A → Wire (List A)
list w = record {
  write = λ items. length items ∷ write_all w items;
  read = read_list w;
  read_back = λ items rest. read_all_lem w items rest;
}

abbrev write_option : {A : Type 0} → Wire A → Option A → Bytes
write_option w none = 0 ∷ []
write_option w (some a) = 1 ∷ w.write a

abbrev read_option : {A : Type 0} → Wire A → Bytes → Option (Option A × Bytes)
read_option w [] = none
read_option w (zero ∷ rest) = some (none, rest)
read_option w (suc n ∷ bs) = bind (w.read bs) (λ (a, rest). some (some a, rest))

pub option_back :
    {A : Type 0} (w : Wire A) (o : Option A) (rest : Bytes)
    → read_option w (write_option w o ++ rest) ≡ some (o, rest)
option_back w none rest = refl
option_back w (some a) rest = rw (w.read_back a rest)

abbrev pub option : {A : Type 0} → Wire A → Wire (Option A)
option w = record { write = write_option w; read = read_option w; read_back = option_back w }

abbrev pub bytes_wire : Wire Bytes
bytes_wire = list nat_wire

abbrev to_pair : ℤ → ℕ × ℕ
to_pair (pos n) = (0, n)
to_pair (negsuc n) = (1, n)

abbrev of_pair : ℕ × ℕ → ℤ
of_pair (zero, n) = pos n
of_pair (suc m, n) = negsuc n

pub of_pair-to_pair : (z : ℤ) → of_pair (to_pair z) ≡ z
of_pair-to_pair (pos n) = refl
of_pair-to_pair (negsuc n) = refl

abbrev pub int_wire : Wire ℤ
int_wire = via to_pair of_pair of_pair-to_pair (pair nat_wire nat_wire)

abbrev result_of : {A : Type 0} → Option (A × Bytes) → Result A
result_of none = err (external 0)
result_of (some (a, rest)) = ok a

abbrev pub codec : {A : Type 0} → Wire A → Codec A
codec w = record { marshal = λ a. ok (w.write a); unmarshal = λ b. result_of (w.read b) }

pub codec-IsCodec : {A : Type 0} (w : Wire A) → IsCodec (codec w)
codec-IsCodec w = record {
  round = λ a b h.
      let same : w.write a ++ [] ≡ b = append-nil (w.write a) ∙ (ground (arith, h)) in
      rw (← same, w.read_back a []);
}

abbrev marshal_ptr : {A : Type 0} → Wire A → Option A → Result Bytes
marshal_ptr w none = err (external 1)
marshal_ptr w (some a) = ok (w.write a)

abbrev pub ptr_codec : {A : Type 0} → Wire A → PtrCodec A
ptr_codec w = record { marshal = marshal_ptr w; unmarshal = λ b. result_of (w.read b) }

pub ptr_codec-IsPtrCodec : {A : Type 0} (w : Wire A) → IsPtrCodec (ptr_codec w)
ptr_codec-IsPtrCodec w = record {
  nil_fails = λ b h. cc;
  round = λ a b h. (codec-IsCodec w).round a b h;
}

-- The value of a call that is known to succeed.
abbrev pub value_or : {A : Type 0} → A → Result A → A
value_or default (ok a) = a
value_or default (err e) = default
value_or default panic = default

result_calm : {A : Type 0} (o : Option (A × Bytes)) → result_of o ≢ panic
result_calm none h = cc
result_calm (some (a, rest)) h = cc

pub codec_calm : {A : Type 0} (w : Wire A) (b : Bytes) → (codec w).unmarshal b ≢ panic
codec_calm w b h = result_calm (w.read b) h
