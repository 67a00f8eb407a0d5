-- ===== src/Wire/Descriptors/Codec.antt =====
-- What the templates ask of the type of an entry, and of the two ends of a descriptor.
use lib_dwm.Base.{ℕ, ◌<◌, ◌≡◌, Option, some, List, ◌++◌, length}
use lib_dwm.Wire.Stream.{Source}
use lib_dwm.Wire.Descriptors.{FdReader, FdWriter}

-- What a call to write promises: it takes all it is given. `Written` says of a state which bytes
-- it has taken.
pub record Sink {S : Type 0} (put : List ℕ → S → ℕ × S) : Type 1 where
  pub Written : List ℕ → S → Type 0
  pub takes :
      (bs sofar : List ℕ) (s : S)
      → Written sofar s
      → ((put bs s).0 ≡ length bs) × Written (sofar ++ bs) (put bs s).1

-- A value goes to a descriptor as `bs`, and the call returns how many bytes that are.
abbrev pub Writes :
    {S : Type 0} {put : List ℕ → S → ℕ × S}
    → Sink put
    → (Option S → Option ℕ × Option S)
    → List ℕ
    → Type 0
Writes {S} snk write bs =
    (sofar : List ℕ) (s : S)
    → snk.Written sofar s
    → (s' : S) × (write (some s) ≡ (some (length bs), some s')) × snk.Written (sofar ++ bs) s'

-- From a descriptor on which `bs` is next, the value `a` is read, and the bytes behind remain.
abbrev pub Reads :
    {T A : Type 0} {get : ℕ → T → List ℕ × T}
    → Source get
    → (Option T → Option ℕ × A × Option T)
    → List ℕ
    → A
    → Type 0
Reads {T} src read bs a =
    (rest : List ℕ) (t : T)
    → src.Holds (bs ++ rest) t
    → (t' : T) × (read (some t) ≡ (some (length bs), a, some t')) × src.Holds rest t'

pub record FdCodec {S T : Type 0} {put : List ℕ → S → ℕ × S} {get : ℕ → T → List ℕ × T}
    (snk : Sink put) (src : Source get) (A : Type 0) : Type 1 where
  pub write : FdWriter S A
  pub read : FdReader T A
  -- The bytes of a value, and the values that have some.
  pub wire : A → List ℕ
  pub Fits : A → Type 0
  -- What the variable may hold into which a value is read.
  pub Into : A → A → Type 0
  pub some_byte : (a : A) → Fits a → 0 < length (wire a)
  pub writes : (a : A) → Fits a → Writes snk (write a) (wire a)
  pub reads : (a old : A) → Fits a → Into a old → Reads src (read old) (wire a) a
