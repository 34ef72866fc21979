-- ===== src/Tools.antt =====
-- The command lines of src/main_query.c, src/main_agent.c and src/main_server.c: their loops over argv
-- and what each program does with the options.
pub mod Arguments
pub mod Query
pub mod Agent
pub mod Server
pub mod Bounds
pub mod Configs
pub mod Address
pub mod Limits
pub mod Rounds
pub mod Answer
use vector_clock_good.Common.{
  ℕ, zero, suc, ◌+◌, ◌-◌, ◌*◌, ◌^◌, ◌%◌, ◌==◌, if◌then◌else◌, ltb, ℤ, pos, negsuc, Option, none,
  some, List, [], ◌∷◌, length, Bytes, digits_value, skip_spaces,
}

-- What became of the arguments: the options, or the program ends after the usage (0) or on an error (1).
pub data Parsed {ℓ} (A : Type ℓ) : Type ℓ where
  parsed : A → Parsed A
  usage failed : Parsed A

-- What became of one argument: the options so far and the arguments that are left, or an end.
pub data Next {ℓ} (A : Type ℓ) : Type ℓ where
  onward : A → List Bytes → Next A
  stop_usage stop_failed : Next A

-- `if (i + 1 >= argc) { ...; return 1; }`, and the value `argv[++i]`
abbrev pub value_then {ℓ} : {A : Type ℓ} → List Bytes → (Bytes → List Bytes → Next A) → Next A
value_then [] f = stop_failed
value_then (v ∷ rest) f = f v rest

-- What the loop does after an argument.
abbrev pub resume {ℓ} : {A : Type ℓ} → (A → List Bytes → Parsed A) → Next A → Parsed A
resume loop (onward o rest) = loop o rest
resume loop stop_usage = usage
resume loop stop_failed = failed

-- The loop over argv. Each round takes an argument, so as many rounds as there are arguments are enough.
unfoldable pub args_loop {ℓ} :
    {A : Type ℓ} → (A → Bytes → List Bytes → Next A) → ℕ → A → List Bytes → Parsed A
args_loop option fuel o [] = parsed o
args_loop option zero o (arg ∷ args) = failed
args_loop option (suc fuel) o (arg ∷ args) = resume (args_loop option fuel) (option o arg args)

unfoldable pub parse_args {ℓ} :
    {A : Type ℓ} → (A → Bytes → List Bytes → Next A) → A → List Bytes → Parsed A
unfolding args_loop
parse_args option start args = args_loop option (length args) start args

-- The value of decimal digits as `strtoull` gives it, with or without a minus sign.
abbrev clamped : ℕ → ℕ
clamped n = if ltb n (2 ^ 64) then n else 2 ^ 64 - 1

abbrev negated : ℕ → ℕ
negated n = if ltb n (2 ^ 64) then (2 ^ 64 - n) % 2 ^ 64 else 2 ^ 64 - 1

abbrev signed_u64 : Bytes → ℕ
signed_u64 [] = 0
signed_u64 (c ∷ s) =
    if c == b'-'
    then negated (digits_value 0 s)
    else if c == b'+'
    then clamped (digits_value 0 s)
    else clamped (digits_value 0 (c ∷ s))

-- `strtoull(s, NULL, 10)`
unfoldable pub strtoull : Bytes → ℕ
unfolding digits_value skip_spaces
strtoull s = signed_u64 (skip_spaces s)
