-- ===== src/Console.antt =====
-- The texts that both programs print, and where they go.
use Prim.Native.String.{String}
use p2p_watcher.Base.{ℕ, List}

-- A text of the program: a literal, or one with a string, a number or the message of an error
-- code behind it, or the numbers of a vector, each with a space behind it. An int or a double is
-- named by its bit pattern. `end_of_file` is a literal with the message of asio's code eof behind it.
pub data Text : Type 0 where
  literal : String → Text
  with_bytes : String → List ℕ → Text
  with_number : String → ℕ → Text
  with_error : String → ℕ → Text
  numbers : List ℕ → Text
  number_between : String → ℕ → String → Text
  end_of_file : String → Text

pub record Console : Type 0 where
  pub out : List Text
  pub err : List Text
