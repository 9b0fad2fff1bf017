-- ===== src/Cli.antt =====
-- The loop over `argv` that every `main` of the repository has: an argument ends the program, sets a
-- flag, or takes the next argument as its value.
pub mod Keeps
use market_data_ingress.Base.{
  Option, none, some, List, [], ◌∷◌, Bytes, Result, ok, err, ◌>>=◌, ◌⊎◌, inl, inr,
}

-- What one argument does to options of type `O`: `X` is how the program ends early, and `E` what it
-- throws.
pub data Action (E O X : Type 0) : Type 0 where
  stop : X → Action E O X
  flag : (O → O) → Action E O X
  value : (Bytes → O → Result E O) → Action E O X
  unknown : Action E O X

module _ {E O X : Type 0} (classify : Bytes → Action E O X)
    (no_value unknown_option : Bytes → E) where
  -- An option that still waits for its value stands in the first argument, with what it does.
  unfoldable pub parse_from :
      Option (Bytes × (Bytes → O → Result E O)) → O → List Bytes → Result E (X ⊎ O)
  parse_from none options [] = ok (inr options)
  parse_from (some (argument, _)) options [] = err (no_value argument)
  parse_from (some (argument, assign)) options (text ∷ rest) = do
    assigned ← assign text options
    parse_from none assigned rest
  parse_from none options (argument ∷ rest) = elim (classify argument) [
    | stop x ↦ ok (inl x)
    | flag set ↦ parse_from none (set options) rest
    | value assign ↦ parse_from (some (argument, assign)) options rest
    | unknown ↦ err (unknown_option argument)
  ]

  unfoldable pub parse_arguments : O → List Bytes → Result E (X ⊎ O)
  unfolding parse_from
  parse_arguments = parse_from none
