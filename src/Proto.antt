-- ===== src/Proto.antt =====
-- `proto.Marshal` and `proto.Unmarshal` of the protobuf library, for one type of messages.
use fabricsdk_go.Prelude.{◌≡◌, ◌≢◌, Option, none, some, Bytes, Result, ok}

pub record Codec (A : Type 0) : Type 0 where
  pub marshal : A → Result Bytes
  pub unmarshal : Bytes → Result A

-- What was marshalled is read back.
pub record IsCodec {A : Type 0} (c : Codec A) : Type 0 where
  pub round : (a : A) (b : Bytes) → c.marshal a ≡ ok b → c.unmarshal b ≡ ok a

-- Marshalling through a pointer, which may be nil.
pub record PtrCodec (A : Type 0) : Type 0 where
  pub marshal : Option A → Result Bytes
  pub unmarshal : Bytes → Result A

-- Nil is an error (`proto.ErrNil`).
pub record IsPtrCodec {A : Type 0} (c : PtrCodec A) : Type 0 where
  pub nil_fails : (b : Bytes) → c.marshal none ≢ ok b
  pub round : (a : A) (b : Bytes) → c.marshal (some a) ≡ ok b → c.unmarshal b ≡ ok a
