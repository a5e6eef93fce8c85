-- ===== src/Tools/Run.antt =====
-- What the programs of src/app share: how one ends, and the loop over its arguments.
use Prim.Native.String.{String}
use neuralware_x.Prelude.{ℕ, Option, none, some, List, [], ◌∷◌}

-- An exit code with nothing done, an uncaught exception, or the exit code 0 with what is printed or
-- written; `outside` is a case that the model leaves out, such as a read past the end of a vector.
pub data Run (A : Type 0) : Type 0 where
  exits : ℕ → Run A
  throws : Run A
  outside : Run A
  done : A → Run A

infixl 5 ◌>>=◌
unfoldable pub ◌>>=◌ : {A B : Type 0} → Run A → (A → Run B) → Run B
exits n >>= f = exits n
throws >>= f = throws
outside >>= f = outside
done a >>= f = f a

-- What an argument and the one after it do: the name is unknown, the value is no number, or an option
-- is set.
pub data Change (S : Type 0) : Type 0 where
  unknown_name : Change S
  bad_value : Change S
  sets : S → Change S

abbrev pub sets_number : {A S : Type 0} → Option A → (A → S) → Change S
sets_number none f = bad_value
sets_number (some x) f = sets (f x)

-- `for (int i=1;i<argc;++i){ … if(a=="--x"&&i+1<argc) x=argv[++i]; else if … }`: an argument that is no
-- option, or has no value behind it, is passed over.
unfoldable pub scan_args : {S : Type 0} → (String → String → S → Change S) → S → List String → Run S
scan_args set s [] = done s
scan_args set s (a ∷ []) = done s
scan_args set s (a ∷ v ∷ args) = elim (set a v s) [
  | sets s' ↦ scan_args set s' args
  | bad_value ↦ throws
  | unknown_name ↦ scan_args set s (v ∷ args)
]
