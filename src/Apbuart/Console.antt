-- ===== src/Apbuart/Console.antt =====
-- src/peripherals/console.h: the terminal's escape sequences. Standard input is the list of the
-- bytes that it will give; a read of the empty list finds no byte. Terminal modes are left out.
use sparcv8emulator.Base.{
  ℕ, ◌%◌, ◌^◌, Bool, true, false, ◌||◌, if◌then◌else◌, ◌==◌, List, [], ◌∷◌, ◌++◌,
}

pub record Console : Type 0 where
  pub stdin : List ℕ
  pub stdout : List ℕ
  pub pending : ℕ
  pub has_pending : Bool
  pub escape_pending : Bool
  -- `raise(SIGTERM)` was called.
  pub quit : Bool

-- A byte behind Ctrl+A.
unfoldable pub escaped : ℕ → Console → Console × Bool
escaped c k =
    if c == b'x' || c == b'X'
    then (record k { escape_pending = false; quit = true }, false)
    else if c == 0x01
    then (record k { escape_pending = false; pending = 0x01; has_pending = true }, true)
    else (record k { escape_pending = false }, false)

unfoldable pub arrived : ℕ → Console → Console × Bool
arrived c k =
    if k.escape_pending
    then escaped c k
    else if c == 0x01
    then (record k { escape_pending = true }, false)
    else (record k { pending = c; has_pending = true }, true)

unfoldable pub poll_stdin : List ℕ → Console → Console × Bool
poll_stdin [] k = (k, false)
poll_stdin (c ∷ rest) k = arrived c (record k { stdin = rest })

unfoldable pub hit : Console → Console × Bool
hit k = if k.has_pending then (k, true) else poll_stdin k.stdin k

unfoldable pub getc : Console → Console × ℕ
getc k = (record k { has_pending = false }, k.pending)

unfoldable pub putc : ℕ → Console → Console
putc c k = record k { stdout = k.stdout ++ c % 2 ^ 8 ∷ [] }
