-- ===== src/Spec/Types.antt =====
-- The names that client and server share, and the writer of a configuration (spec/types.go).
use toh.Base.{ℕ, Text, text, Option, none, some, length, ◌++◌, ◌==◌, if◌then◌else◌}

abbrev pub header_handshake_key : Text
header_handshake_key = text "X-Toh-Key"

abbrev pub header_handshake_net : Text
header_handshake_net = text "X-Toh-Net"

abbrev pub header_handshake_addr : Text
header_handshake_addr = text "X-Toh-Addr"

-- `AppAddr` is the first field.
abbrev pub app_addr : ℕ
app_addr = 0

unfoldable pub log_field : ℕ → Text
log_field c = if c == app_addr then text "appaddr" else text "unknown"

-- What has been written to the standard output and to the file. The error of a write to the file is
-- that of the system, and then a part of the text may be in the file.
pub record ConfigFileWriter : Type 0 where
  pub stdout : Text
  pub file : Text

pub record WriteFault : Type 0 where
  pub written : Text
  pub error : Text

unfoldable pub write :
    Option WriteFault → Text → ConfigFileWriter → ℕ × Option Text × ConfigFileWriter
write none p w = (length p, none, record { stdout = w.stdout ++ p; file = w.file ++ p })
write (some f) p w =
    (length f.written, some f.error, record { stdout = w.stdout ++ p; file = w.file ++ f.written })
