-- ===== src/Parser/Path.antt =====
-- parser/grpc.go: the path of an RPC, `/{service}/{method}`.
pub mod Laws
pub mod Calls
mod Tests
use g_rpcat.Base.{
  Bool, ◌||◌, ◌++◌, ◌∷◌, [], List, Option, none, some, Outcome, ok, err, panic, if◌then◌else◌,
}
use g_rpcat.Base.Texts.{Text, codes, is_empty, trim_prefix, cut, contains}

-- `fmt.Errorf("invalid gRPC path format: %s", path)`, with the path without its leading slash.
pub data PathError : Type 0 where
  invalid_path : Text → PathError

check_names : Text → Option (Text × Text) → Outcome PathError (Text × Text)
check_names path none = err (invalid_path path)
check_names path (some (service, method)) =
    if is_empty service || is_empty method || contains method b'/'
    then err (invalid_path path)
    else ok (service, method)

unfoldable pub parse_grpc_path : Text → Outcome PathError (Text × Text)
unfolding check_names
parse_grpc_path path = let rest = trim_prefix path (b'/' ∷ []) in check_names rest (cut rest b'/')

-- fmt.Sprintf("/%s/%s", service, method)
unfoldable pub format_grpc_path : Text → Text → Text
format_grpc_path service method = b'/' ∷ (service ++ b'/' ∷ method)
