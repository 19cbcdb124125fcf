-- ===== src/Api/Errors.antt =====
-- Errors of the API server and of the controllers, and messages. A formatted text is kept as its
-- format and its arguments: `fmt` is not applied.
use kubeopencode.Prelude.{String, Bool, true, false, List, ◌≡◌, arith}
use kubeopencode.Prelude.Int.{ℤ}

pub data Arg : Type 0 where
  str : String → Arg
  num : ℤ → Arg

-- `errorf` is `fmt.Errorf` with no error among its arguments, `wrap` one with `%w`, and `hide` one
-- with `%v`, which `errors.As` does not look through.
pub data Error : Type 0 where
  not_found conflict already_exists : Error
  other : String → Error
  errorf : String → List Arg → Error
  wrap hide : String → List Arg → Error → Error

-- `errors.IsNotFound` and its like look through `%w`.
unfoldable pub is_not_found : Error → Bool
is_not_found not_found = true
is_not_found (wrap f args e) = is_not_found e
is_not_found _ = false

unfoldable pub is_conflict : Error → Bool
is_conflict conflict = true
is_conflict (wrap f args e) = is_conflict e
is_conflict _ = false

unfoldable pub is_already_exists : Error → Bool
is_already_exists already_exists = true
is_already_exists (wrap f args e) = is_already_exists e
is_already_exists _ = false

-- A condition's message: a formatted text, or `err.Error()`.
pub data Message : Type 0 where
  text : String → List Arg → Message
  error_text : Error → Message

pub data Result {ℓ} (A : Type ℓ) : Type ℓ where
  ok : A → Result A
  err : Error → Result A

pub ok_inj {ℓ} : {A : Type ℓ} {a b : A} → ok a ≡ ok b → a ≡ b
ok_inj e = ground arith
