-- ===== src/Utils/Output.antt =====
-- `print_exception`, and the file of keys that the TLS context writes for a program that looks into
-- the connections.
use libtd.Base.{Option, none, some, [], ◌++◌}
use libtd.Text.{Bytes, codes}

-- A pointer to no exception, to one derived from std::exception with its text, or to any other.
pub data ExceptionPtr : Type 0 where
  null : ExceptionPtr
  standard : Bytes → ExceptionPtr
  foreign : ExceptionPtr

-- What is printed.
unfoldable pub print_exception : ExceptionPtr → Bytes
print_exception null = []
print_exception (standard what) = codes "Exception: " ++ (what ++ codes "\n")
print_exception foreign = codes "Unknown exception\n"

-- The callback of the TLS context: `append` adds to the end of a file, and `path` is the value of
-- SSLKEYLOGFILE.
unfoldable pub log_key :
    {Files : Type 0} → (Bytes → Bytes → Files → Files) → Option Bytes → Bytes → Files → Files
log_key append none line files = files
log_key append (some path) line files = append path (line ++ codes "\n") files
