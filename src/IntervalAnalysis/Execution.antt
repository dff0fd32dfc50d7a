-- ===== src/IntervalAnalysis/Execution.antt =====
-- engine/IntervalAnalysis.h: the executions of statements that the interval domain over-approximates.
use code_skeptic.Prelude.{
  ℕ, suc, ◌+◌, ◌*◌, ◌≤◌, ◌<◌, ◌≡◌, ◌≢◌, ◌⊎◌, Bool, true, false, Option, none, some, List, [], ◌∷◌,
  ◌==◌, All, length, drop,
}
use code_skeptic.Prelude.Int.{ℤ, pos, ◌-ℤ◌, ◌≤ℤ◌}
use code_skeptic.Interval.Guards.{IsInt64}
use code_skeptic.Condition.{IntType, Var, Expr, bin, assign, compound, step, addr_of}
use code_skeptic.Condition.Meaning.{Env, eval, convert, is_true, CastsKeep, LiteralsFit}
use code_skeptic.IntervalEval.{int_type_range}
use code_skeptic.IntervalEval.Scanf.{ScanfConv, is_numeric_scanf_conv}
use code_skeptic.IntervalEval.Assign.{
  Call, Callee, scanf_family, untrusted_source, unknown_callee, Stmt, declare, evaluate, call,
  other_stmt, as_int_var, addr_of_int_var, non_const_ref_args, parsed_format, format_index,
}

-- No variable changes. The values of what is not modelled may differ from step to step.
abbrev pub Same : Env → Env → Type 0
Same ρ σ = (x : ℕ) → σ.var x ≡ ρ.var x

abbrev pub Writes : ℕ → Env → Env → Type 0
Writes v ρ σ = (x : ℕ) → (x == v) ≡ false → σ.var x ≡ ρ.var x

-- A target that is no integer variable is left alone: writes through pointers are not modelled.
abbrev pub Stores : (IntType → ℤ → Type 0) → Option (Var × IntType) → Env → Env → Type 0
Stores P none ρ σ = Same ρ σ
Stores P (some (v, t)) ρ σ = Writes v.id ρ σ × P t (σ.var v.id)

abbrev pub AnyValue : IntType → ℤ → Type 0
AnyValue t v = Unit

-- The number that digits stand for, and whether they are digits of the base.
abbrev pub numeral : ℕ → ℕ → List ℕ → ℕ
numeral base acc [] = acc
numeral base acc (d ∷ ds) = numeral base (acc * base + d) ds

-- What a conversion of a field of `width` characters can read: digits, or a minus sign and digits.
abbrev pub ReadsUnsigned : ℕ → ℕ → ℤ → Type 0
ReadsUnsigned base width v =
    (ds : List ℕ) × All (λ d. d < base) ds × (length ds ≤ width) × (v ≡ pos (numeral base 0 ds))

abbrev pub ReadsSigned : ℕ → ℕ → ℤ → Type 0
ReadsSigned base width v =
    ReadsUnsigned base width v
    ⊎ ((ds : List ℕ) × All (λ d. d < base) ds
        × (suc (length ds) ≤ width)
        × (v ≡ pos 0 -ℤ pos (numeral base 0 ds)))

-- What a numeric conversion delivers; d is 100, i 105, u 117, o 111, x 120, X 88, n 110. The
-- unsigned conversions are taken without a sign, and the digits that `i` reads as hexadecimal.
pub data Delivers (c : ScanfConv) (v : ℤ) : Type 0 where
  unlimited :
      c.width ≡ 0 → is_numeric_scanf_conv c.conv ≡ true → (c.conv == 110) ≡ false → Delivers c v
  characters_read : c.conv ≡ 110 → pos 0 ≤ℤ v → Delivers c v
  decimal : c.conv ≡ 100 → ReadsSigned 10 c.width v → Delivers c v
  any_base : c.conv ≡ 105 → ReadsSigned 16 c.width v → Delivers c v
  unsigned_decimal : c.conv ≡ 117 → ReadsUnsigned 10 c.width v → Delivers c v
  octal : c.conv ≡ 111 → ReadsUnsigned 8 c.width v → Delivers c v
  hex : (c.conv ≡ 120) ⊎ (c.conv ≡ 88) → ReadsUnsigned 16 c.width v → Delivers c v

-- A value that the type has.
abbrev pub OfType : IntType → ℤ → Type 0
OfType t v = (n : ℤ) × (v ≡ convert t n)

abbrev pub Initialises : Option Expr → Env → ℤ → Type 0
Initialises none ρ v = Unit
Initialises (some e) ρ v = v ≡ eval ρ e

abbrev pub ExecDecls : List (Var × Option Expr) → Env → Env → Type 0
ExecDecls [] ρ σ = Same ρ σ
ExecDecls ((v, o) ∷ ds) ρ σ =
    (τ : Env) × Writes v.id ρ τ × Initialises o ρ (τ.var v.id) × ExecDecls ds τ σ

abbrev pub ExecAssign : Option (Var × IntType) → Expr → Env → Env → Type 0
ExecAssign none r ρ σ = Same ρ σ
ExecAssign (some (v, t)) r ρ σ = Writes v.id ρ σ × Initialises (some r) ρ (σ.var v.id)

abbrev pub ExecEvaluate : Expr → Env → Env → Type 0
ExecEvaluate (bin assign l r) ρ σ = ExecAssign (as_int_var l) r ρ σ
ExecEvaluate (bin compound l r) ρ σ = Stores AnyValue (as_int_var l) ρ σ
ExecEvaluate (step e) ρ σ = Stores AnyValue (as_int_var e) ρ σ
ExecEvaluate (addr_of e) ρ σ = Stores AnyValue (as_int_var e) ρ σ
ExecEvaluate e ρ σ = Same ρ σ

-- The arguments are written one after another.
abbrev pub ExecEach :
    (IntType → ℤ → Type 0) → (Expr → Option (Var × IntType)) → List Expr → Env → Env → Type 0
ExecEach P target [] ρ σ = Same ρ σ
ExecEach P target (e ∷ es) ρ σ = (τ : Env) × Stores P (target e) ρ τ × ExecEach P target es τ σ

-- Each conversion that is not suppressed succeeds, and fills the next argument.
abbrev pub ExecConvs : List ScanfConv → List Expr → Env → Env → Type 0
ExecConvs [] es ρ σ = Same ρ σ
ExecConvs (c ∷ cs) [] ρ σ = elim c.suppressed [ true ↦ ExecConvs cs [] ρ σ | false ↦ Same ρ σ ]
ExecConvs (c ∷ cs) (e ∷ es) ρ σ = elim c.suppressed [
  | true ↦ ExecConvs cs (e ∷ es) ρ σ
  | false ↦
      (τ : Env) × Stores (λ t v. OfType t v × Delivers c v) (addr_of_int_var e) ρ τ
      × ExecConvs cs es τ σ
]

abbrev pub ExecScanf : Bool → Option (List ScanfConv) → List Expr → Env → Env → Type 0
ExecScanf format_first none args ρ σ = ExecEach OfType addr_of_int_var args ρ σ
ExecScanf format_first (some convs) args ρ σ =
    ExecConvs convs (drop (format_index true (λ _. true) format_first + 1) args) ρ σ

abbrev pub ExecCall : Callee → Call → Env → Env → Type 0
ExecCall (scanf_family f fmt) c ρ σ = ExecScanf f (parsed_format true (λ _. true) fmt) c.args ρ σ
ExecCall untrusted_source c ρ σ =
    (τ : Env) × ExecEach OfType as_int_var (non_const_ref_args c) ρ τ
    × ExecEach OfType addr_of_int_var c.args τ σ
ExecCall unknown_callee c ρ σ = ExecEach AnyValue as_int_var (non_const_ref_args c) ρ σ

abbrev pub Exec : Stmt → Env → Env → Type 0
Exec (declare ds) ρ σ = ExecDecls ds ρ σ
Exec (evaluate e) ρ σ = ExecEvaluate e ρ σ
Exec (call c) ρ σ = ExecCall c.callee c ρ σ
Exec other_stmt ρ σ = Same ρ σ

-- The statements that the domain is right about: no literal of an initialiser or an assigned value
-- reaches the sign bit of its type, and a scanf or an untrusted source is given no variable of a
-- type whose range the domain does not know, an unsigned one of 64 bits or more. The code leaves
-- the interval of such a variable as it was.
abbrev pub InitialiserFits : Option Expr → Type 0
InitialiserFits none = Unit
InitialiserFits (some e) = LiteralsFit e

abbrev pub IsRanged : Option (Var × IntType) → Type 0
IsRanged none = Unit
IsRanged (some (v, t)) = int_type_range t ≢ none

abbrev pub IsRangedCall : Callee → Call → Type 0
IsRangedCall (scanf_family f fmt) c = All (λ e. IsRanged (addr_of_int_var e)) c.args
IsRangedCall untrusted_source c =
    All (λ e. IsRanged (as_int_var e)) (non_const_ref_args c)
    × All (λ e. IsRanged (addr_of_int_var e)) c.args
IsRangedCall unknown_callee c = Unit

abbrev pub IsPlain : Stmt → Type 0
IsPlain (declare ds) = All (λ d. InitialiserFits d.1) ds
IsPlain (evaluate (bin assign l r)) = LiteralsFit r
IsPlain (evaluate e) = Unit
IsPlain (call c) = IsRangedCall c.callee c
IsPlain other_stmt = Unit

-- A condition holds with a sense: it is one whose casts keep values and whose literals fit, and the
-- variables have 64-bit values.
abbrev pub Decides : Expr → Bool → Env → Type 0
Decides c sense ρ =
    CastsKeep ρ c × LiteralsFit c × (is_true (eval ρ c) ≡ sense) × ((x : ℕ) → IsInt64 (ρ.var x))
