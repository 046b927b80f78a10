-- ===== src/Prelude/Errors.antt =====
-- Python's exceptions as values. A message that the program builds is kept by its kind and its
-- arguments; the messages of Vault's client are texts, since the program searches them.
use mathlib.Core.Path.{◌≡◌, refl}
use mathlib.Core.Bool.{Bool, true, false}
use mathlib.Core.List.{List}
use Prim.Native.Nat.{ℕ}
use vault_db_access.Prelude.Strings.{Text}
use vault_db_access.Prelude.Int.{ℤ}

-- The f-strings of the program's own exceptions.
pub data Message : Type 0 where
  invalid_identifier : Text → Message
  no_command : Message
  command_not_allowed : Text → Message
  no_tables_in_schema : Message
  no_table_selected : Message
  unknown_table : Text → Message
  invalid_account : Text → Message
  ttl_out_of_range : ℤ → ℤ → ℤ → Message
  backends_alive : Text → Message
  accounts_left : List Text → Message
  too_many_tokens : ℕ → Message
  empty_credentials : Message
  not_printable : Message
  invalid_ipv6_url : Message
  invalid_int : Text → Message
  model_errors : Message

-- The detail of an `HTTPException`: a text of the program's own, or `str` of the exception that it
-- answers.
pub data Detail : Type 0 where
  says : Text → Detail
  str_of : Message → Detail
  str_of_busy : Detail

pub data Exn : Type 0 where
  value_error : Message → Exn
  runtime_error : Message → Exn
  -- `grants.Busy`, `grants.NotFound`, `vault_client.VaultUnavailable`
  busy : Exn
  not_found : Exn
  vault_unavailable : Exn
  permission_error : Exn
  -- hvac's exceptions, with their texts
  forbidden : Text → Exn
  invalid_request : Text → Exn
  invalid_path : Text → Exn
  vault_down : Text → Exn
  other_vault_error : Text → Exn
  os_error : Exn
  -- SQLite's
  integrity_error : Exn
  -- FastAPI's, with its status and what it reports
  http_exception : ℕ → Detail → Exn
  -- `main.NotAuthenticated`, `main.TooLarge`, and FastAPI's refusal of a body or a parameter
  not_authenticated : Exn
  too_large : Exn
  validation_error : Text → Exn
  -- pydantic's, which is a `ValueError` too
  invalid_model : Exn
  -- any other `Exception`, and what is only a `BaseException`, by class name
  other_exception : Text → Exn
  base_exception : Text → Exn

-- `except Exception` catches it.
abbrev pub is_exception : Exn → Bool
is_exception (base_exception _) = false
is_exception _ = true

-- What a pure function that may raise gives back: the exception, or the value it returns.
pub data Result {ℓ} (T : Type ℓ) : Type ℓ where
  err : Exn → Result T
  ok : T → Result T

module _ {ℓ κ} {S : Type ℓ} {T : Type κ} where
  infixl 5 ◌>>=◌ ◌>>◌
  -- A raised exception passes every later step by.
  abbrev pub ◌>>=◌ : Result S → (S → Result T) → Result T
  err raised >>= next = err raised
  ok value >>= next = next value

  abbrev pub ◌>>◌ : Result S → Result T → Result T
  first >> after = first >>= λ ignored. after

  -- A chain that returns has returned from its first part, and the rest ran on that value.
  pub ok->>= :
      (first : Result S) (next : S → Result T) {end : T}
      → (first >>= next) ≡ ok end
      → (value : S) × (first ≡ ok value) × (next value ≡ ok end)
  ok->>= (err raised) next returns = cc
  ok->>= (ok value) next returns = (value, refl, returns)

  -- The same as a rule: what holds of every result of the rest holds of every result of the chain.
  pub ok-chain {μ} :
      {Q : T → Type μ} (first : Result S) (next : S → Result T)
      → ((value : S) → first ≡ ok value → (end : T) → next value ≡ ok end → Q end)
      → (end : T) → (first >>= next) ≡ ok end
      → Q end
  ok-chain (err raised) next rest end returns = absurd (err-ok returns)
    where
      err-ok : {x : Exn} {t : T} → ◌≡◌ {A = Result T} (err x) (ok t) → ⊥
      err-ok e = cc e
  ok-chain (ok value) next rest end returns = rest value refl end returns

abbrev pub is_ok {ℓ} : {T : Type ℓ} → Result T → Bool
is_ok (err _) = false
is_ok (ok _) = true
