-- ===== src/Contracts.antt =====
-- contracts/ContractParser.h, ContractParser.cpp: the clauses of contracts, their lexer and parser.
pub mod Lexer
pub mod Outcome
pub mod Parser
pub mod Comments
pub mod Fuel
pub mod LexFuel
pub mod Totality
pub mod Complete
pub mod Printer
pub mod Grammar
pub mod Sound
pub mod ClauseSound
pub mod Reads
pub mod RoundTrip
pub mod Clauses
use code_skeptic.Prelude.{ℕ, Bool, Option, List}
use code_skeptic.Prelude.Int.{ℤ}
use code_skeptic.Prelude.Text.{Text}

pub data CmpOp : Type 0 where
  eq ne lt le gt ge : CmpOp

pub data Operand : Type 0 where
  return_value null : Operand
  param : Text → Operand
  int_lit : ℤ → Operand

-- The predicates that the parser makes: a conjunction or a disjunction has two children or more.
mutual
  pub data Pred : Type 0 where
    cmp : Operand → CmpOp → Operand → Pred
    truth : Operand → Pred
    negation : Pred → Pred
    conjunction disjunction : Pred → Pred → Preds → Pred

  pub data Preds : Type 0 where
    no_more : Preds
    more : Pred → Preds → Preds

-- A clause by its kind, with the fields that the kind has.
pub data Clause : Type 0 where
  requires : Pred → Clause
  ensures : Pred → Option Pred → Clause
  owns borrows : Text → Clause
  returns_owned : Clause
  policy : Text → Clause

-- A clause in its comment: whether a machine proposed it, its line and its text.
pub record ContractClause : Type 0 where
  pub clause : Clause
  pub machine_proposed : Bool
  pub line : ℕ
  pub text : Text

pub record ContractSyntaxIssue : Type 0 where
  pub line : ℕ
  pub text : Text

pub record ParsedContracts : Type 0 where
  pub clauses : List ContractClause
  pub syntax_errors : List ContractSyntaxIssue
