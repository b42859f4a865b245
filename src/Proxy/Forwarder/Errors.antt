-- ===== src/Proxy/Forwarder/Errors.antt =====
-- The errors of a stream, by what package errors and grpc's status package tell of them.
use g_rpcat.Base.{ℕ, Bool, true, false}
use g_rpcat.Base.Texts.{Text}

-- io.EOF, a status error, any other error, and status.Errorf(code, "…: %v", err).
pub data Error : Type 0 where
  eof : Error
  status : ℕ → Text → Error
  other : ℕ → Error
  formatted : ℕ → Text → Error → Error

abbrev pub codes_unavailable : ℕ
codes_unavailable = 14

-- errors.Is(err, io.EOF)
abbrev pub is_eof : Error → Bool
is_eof eof = true
is_eof (status code msg) = false
is_eof (other n) = false
is_eof (formatted code text e) = false

-- `_, ok := status.FromError(err)`
abbrev pub is_status : Error → Bool
is_status eof = false
is_status (status code msg) = true
is_status (other n) = false
is_status (formatted code text e) = true
