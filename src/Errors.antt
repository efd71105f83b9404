-- ===== src/Errors.antt =====
-- The exceptions that the modelled code raises or lets through, and fallible values.

-- `incomplete_read` is asyncio's IncompleteReadError, `struct_error` is struct.error;
-- `connection_reset` is ConnectionResetError, ConnectionAbortedError or BrokenPipeError, and
-- `connection_error` is any other ConnectionError. The kinds of
-- exception are told apart where a handler tells them apart.
pub data Error : Type 0 where
  value_error incomplete_read struct_error index_error key_error unicode_error : Error
  connection_reset connection_error timeout_error os_error redis_error db_error ssl_error
        other_error :
      Error

-- What a call gives back: a value, or the exception that it raises.
pub data Result {ℓ} (A : Type ℓ) : Type ℓ where
  ok : A → Result A
  err : Error → Result A

abbrev pub map_result {ℓ κ} : {A : Type ℓ} {B : Type κ} → (A → B) → Result A → Result B
map_result f (ok a) = ok (f a)
map_result f (err e) = err e

-- An exception skips the rest.
infixl 5 ◌>>=◌
abbrev pub ◌>>=◌ {ℓ κ} : {B : Type κ} {A : Type ℓ} → Result A → (A → Result B) → Result B
err raised >>= rest = err raised
ok value >>= rest = rest value
