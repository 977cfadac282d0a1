-- ===== src/Apbuart/Tests.antt =====
-- Tests of the serial port, and its theorems at concrete inputs.
use sparcv8emulator.Base.{◌≡◌, refl, true, false, List, [], ◌∷◌, arith}
use sparcv8emulator.Apbuart.Console.{escaped, arrived, poll_stdin, hit, getc}
use sparcv8emulator.Apbuart.Ops.{Apbuart, read_data, store, accept, input_scheduled, tick_scheduled}
use sparcv8emulator.Apbuart.Stream.{decode}
use sparcv8emulator.Apbuart.Session.{Call, call, session, Delivers, session-Delivers}

-- The user types `h`, Ctrl+A, Ctrl+A and `i`.
abbrev typed : Apbuart
typed = record {
  enabled = true;
  r_ints_enabled = true;
  t_ints_enabled = false;
  tx_emptied_int_pending = false;
  overrun = false;
  len = 0;
  pos = 254;
  fifo = λ i. 0;
  scaler = 12;
  console = record {
    stdin = b'h' ∷ 1 ∷ 1 ∷ b'i' ∷ [];
    stdout = [];
    pending = 0;
    has_pending = false;
    escape_pending = false;
    quit = false;
  };
}

abbrev calls : List Call
calls =
    Call.device_input ∷ Call.device_tick ∷ Call.data_read ∷ Call.device_input ∷ Call.data_read
    ∷ Call.data_read ∷ []

typed_text : decode false (b'h' ∷ 1 ∷ 1 ∷ b'i' ∷ 1 ∷ b'x' ∷ []) ≡ b'h' ∷ 1 ∷ b'i' ∷ []
unfolding decode
typed_text = refl

guest_reads : (session calls typed).1 ≡ b'h' ∷ 1 ∷ []
unfolding session call input_scheduled tick_scheduled accept hit poll_stdin arrived escaped getc
    store read_data
guest_reads = refl

session-Delivers_example : Delivers typed (session calls typed)
session-Delivers_example =
    session-Delivers calls typed (record { fits = omega arith; in_byte = omega arith })
