-- ===== src/Modules/Api.antt =====
-- The functions of src/modules.cpp that plugins call: the log, random bytes and zeroing. The change
-- of the key is `Modules.vault_rekey`.
use passdoq.Prelude.{ℕ, Bool, true, List, [], ◌∷◌, ◌++◌}
use passdoq.Prelude.Exec.{Exec, pure, ◌>>=◌}
use passdoq.Prelude.Text.{Text, Bytes, codes}
use passdoq.Platform.{Platform, World}
use passdoq.Crypto.{random_bytes, secure_zero}

pub data LogLevel : Type 0 where
  log_debug log_info log_warning log_error : LogLevel

abbrev pub level_text : LogLevel → Text
level_text log_debug = codes "DEBUG"
level_text log_info = codes "INFO"
level_text log_warning = codes "WARNING"
level_text log_error = codes "ERROR"

-- The standard output, line by line.
unfoldable pub log : LogLevel → Text → List Text → List Text
log level message output = output ++ (codes "[" ++ level_text level ++ codes "] " ++ message) ∷ []

-- True is the result 0; the bytes are what the buffer of the caller gets.
unfoldable pub crypto_random : ⦃p : Platform⦄ → ℕ → Exec World (Bool × Bytes)
unfolding random_bytes
crypto_random size = do bytes ← random_bytes size; pure (true, bytes)

unfoldable pub secure_memzero : Bytes → Bytes
unfolding secure_zero
secure_memzero buffer = secure_zero buffer
